-- ===== src/Driver/Tests.antt =====
-- The driver over a bus whose next commands are refused: the world counts them down.
use ugreen_leds_controller.Prelude.{
  ℕ, ◌-◌, ◌≡◌, ◌<◌, ◌+◌, ◌⊎◌, refl, arith, ◌==◌, if◌then◌else◌, List, subst, zero, suc, [], ◌∷◌,
}
use ugreen_leds_controller.Status.{ok}
use ugreen_leds_controller.Env.{value}
use ugreen_leds_controller.Controller.Transfer.{frame}
use ugreen_leds_controller.Driver.Bus.{
  Bus, Block, bytes, fault, LedState, change_state_frame, parse_state, get_state_robust, get_state,
  get_state_rounds, byte_at, change_state_robust, change_state_rounds, change_state_round,
  change_state, get_last_command_status,
}
use ugreen_leds_controller.Driver.Leds.{
  Cell, Delays, set_blink, set_blink_or_breath, truncate_blink_delay_time, truncate_delay,
}
use ugreen_leds_controller.Driver.Frames.{change_state_frame-frame}
use ugreen_leds_controller.Driver.Replies.{
  response, parse_state-response, ReadsBytes, IsRead, get_state_robust-IsRead,
}
use ugreen_leds_controller.Driver.Blinks.{IsClamped, Blinks, Kept, set_blink-outcome}

abbrev purple : LedState
purple = record {
  status = 2;
  r = 255;
  g = 0;
  b = 255;
  brightness = 180;
  t_on = 400;
  t_cycle = 1000;
}

-- README.md's example of a response.
abbrev readme_response : List ℕ
readme_response = 2 ∷ 180 ∷ 255 ∷ 0 ∷ 255 ∷ 3 ∷ 232 ∷ 1 ∷ 144 ∷ 4 ∷ 0x30 ∷ []

abbrev busy : Bus
busy = record {
  World = ℕ;
  write_block = λ register buf w. (ok, w);
  read_block = λ register n w. (bytes readme_response, w);
  read_byte = λ register w. (value (if w == 0 then 1 else 0), w - 1);
  usleep_range = λ low high w. w;
  msleep = λ n w. w;
}

abbrev lamp : ℕ → Cell ℕ
lamp n = record { state = purple; world = n }

abbrev slow_fast : Delays
slow_fast = record { delay_on = 20; delay_off = 100000 }

blink_runs : (set_blink busy 3 (record { delay_on = 20; delay_off = 100000 }) (lamp 2)).0.0 ≡ ok
unfolding set_blink set_blink_or_breath truncate_delay change_state_robust change_state_rounds
    change_state_round change_state get_last_command_status
blink_runs = refl

change_state_frame-frame_example : change_state_frame 3 4 0 100 0 45 ≡ frame 3 4 0 100 0 45
change_state_frame-frame_example = change_state_frame-frame 3 4 0 100 0 45 (omega arith)

-- The driver reads README.md's example as the README does.
readme_reads : (get_state_robust busy 3 (lamp 0).state 0).0 ≡ (ok, purple)
unfolding get_state_robust get_state_rounds get_state parse_state
readme_reads = refl

parse_state-response_example : parse_state (response purple) purple ≡ (ok, purple)
parse_state-response_example = parse_state-response purple purple (omega arith) (λ h. omega arith)

abbrev AreAllBytes : List ℕ → Type 0
AreAllBytes [] = Unit {0}
AreAllBytes (x ∷ xs) = (x < 256) × AreAllBytes xs

byte_at_bound : (xs : List ℕ) (i : ℕ) → AreAllBytes xs → byte_at xs i < 256
byte_at_bound [] i h = omega arith
byte_at_bound (x ∷ xs) zero h = h.0
byte_at_bound (x ∷ xs) (suc i) h = byte_at_bound xs i h.1

response_bytes : (i : ℕ) → byte_at readme_response i < 256
response_bytes i = byte_at_bound readme_response i (omega arith)

busy-ReadsBytes : ReadsBytes busy
busy-ReadsBytes register n w buf e i =
    subst (λ (b : Block). byte_at (block_bytes b) i < 256) e (response_bytes i)
  where
    block_bytes : Block → List ℕ
    block_bytes (bytes b) = b
    block_bytes (fault n) = []

get_state_robust-IsRead_example :
    IsRead busy busy-ReadsBytes purple (get_state_robust busy 3 purple 0).0
get_state_robust-IsRead_example = get_state_robust-IsRead busy busy-ReadsBytes 3 purple 0

set_blink-outcome_example :
    let t = truncate_blink_delay_time slow_fast in
    let r = set_blink busy 3 slow_fast (lamp 9) in
    (IsClamped slow_fast.delay_on t.delay_on
      × IsClamped slow_fast.delay_off t.delay_off
      × (t.delay_on + t.delay_off < 65536))
    × (Blinks busy t r ⊎ Kept busy 3 t (lamp 9) r)
set_blink-outcome_example = set_blink-outcome busy 3 slow_fast (lamp 9)
