-- ===== src/Driver/Replies.antt =====
-- Reading the state of an LED back.
use ugreen_leds_controller.Prelude.{
  ℕ, zero, suc, ◌+◌, ◌/◌, ◌%◌, ◌<◌, ◌≡◌, ◌≢◌, ◌⊎◌, inl, inr, refl, List, [], ◌∷◌, arith, Bool, true,
  false, subst, sym, if◌then◌else◌,
}
use ugreen_leds_controller.Status.{Status, ok, err}
use ugreen_leds_controller.Driver.Bus.{
  LedState, Bus, parse_state, state_invalid, get_state, get_state_rounds, get_state_robust,
  minus_one, Block, bytes, fault, byte_at, parse_block, read_or, pause, change_state_retry_count,
}

pub record IsState (s : LedState) : Type 0 where
  pub status_byte : s.status < 256
  pub r_byte : s.r < 256
  pub g_byte : s.g < 256
  pub b_byte : s.b < 256
  pub brightness_byte : s.brightness < 256
  pub t_on_word : s.t_on < 65536
  pub t_cycle_word : s.t_cycle < 65536

-- The response of the MCU after "Query Status" in README.md: the fields and their checksum.
unfoldable pub response : LedState → List ℕ
response s =
    let cycle_high = s.t_cycle / 256 in
    let cycle_low = s.t_cycle % 256 in
    let on_high = s.t_on / 256 in
    let on_low = s.t_on % 256 in
    let sum =
      s.status + s.brightness + s.r + s.g + s.b + cycle_high + cycle_low + on_high + on_low in
    s.status
    ∷ s.brightness
    ∷ s.r
    ∷ s.g
    ∷ s.b
    ∷ cycle_high
    ∷ cycle_low
    ∷ on_high
    ∷ on_low
    ∷ (sum / 256)
    ∷ (sum % 256)
    ∷ []

-- The driver reads the MCU's response for any state but the all-zero one back into that state,
-- whatever it held before.
pub parse_state-response :
    (s old : LedState)
    → IsState s
    → s.status + s.brightness + s.r + s.g + s.b + s.t_cycle + s.t_on ≢ 0
    → parse_state (response s) old ≡ (ok, s)
unfolding parse_state response
parse_state-response s old h nonzero = ground arith

-- The kernel hands over bytes.
abbrev pub ReadsBytes : Bus → Type 0
ReadsBytes bus =
    (register n : ℕ) (w : bus.World) (buf : List ℕ)
    → (bus.read_block register n w).0 ≡ bytes buf
    → (i : ℕ) → byte_at buf i < 256

-- A reading gives a state in the ranges of its types, or fails and keeps what was known.
Reading : LedState → Status × LedState → Type 0
Reading s (ok, t) = IsState t
Reading s (err e, t) = t ≡ s

either-Reading :
    (bad : Bool) (s t : LedState) → IsState t → Reading s (if bad then (minus_one, s) else (ok, t))
unfolding Reading
either-Reading true s t h = refl
either-Reading false s t h = h

parse_state-Reading :
    (buf : List ℕ) (s : LedState) → ((i : ℕ) → byte_at buf i < 256) → Reading s (parse_state buf s)
unfolding parse_state
parse_state-Reading buf s h = either-Reading _ s _ (record {
  status_byte = h 0;
  r_byte = h 2;
  g_byte = h 3;
  b_byte = h 4;
  brightness_byte = h 1;
  t_on_word = omega (arith, h 7, h 8);
  t_cycle_word = omega (arith, h 5, h 6);
})

module _ (bus : Bus) (reads : ReadsBytes bus) where
  open bus use {World, read_block}

  parse_block-Reading :
      (b : Block) (s : LedState)
      → ((buf : List ℕ) → b ≡ bytes buf → (i : ℕ) → byte_at buf i < 256)
      → Reading s (parse_block b s)
  unfolding Reading
  parse_block-Reading (bytes buf) s h = parse_state-Reading buf s (h buf refl)
  parse_block-Reading (fault e) s h = refl

  get_state-Reading :
      (led_id : ℕ) (s : LedState) (w : World) → Reading s (get_state bus led_id s w).0
  unfolding get_state
  get_state-Reading led_id s w =
      parse_block-Reading (read_block (0x81 + led_id) 11 w).0 s (reads (0x81 + led_id) 11 w)

  -- The outcome of several readings.
  abbrev pub IsRead : LedState → Status × LedState → Type 0
  IsRead s r = ((r.0 ≡ ok) × IsState r.1) ⊎ (r ≡ (minus_one, record s { status = state_invalid }))

  read_or-IsRead :
      (s : LedState) (next : LedState → World → (Status × LedState) × World)
      (r : (Status × LedState) × World)
      → Reading s r.0
      → ((w : World) → IsRead s (next s w).0)
      → IsRead s (read_or bus next r).0
  unfolding Reading
  read_or-IsRead s next ((ok, t), w) h k = inl (refl, h)
  read_or-IsRead s next ((err e, t), w) h k = subst (λ u. IsRead s (next u w).0) (sym h) (k w)

  get_state_rounds-IsRead :
      (left i led_id : ℕ) (s : LedState) (w : World)
      → IsRead s (get_state_rounds bus left i led_id s w).0
  unfolding get_state_rounds
  get_state_rounds-IsRead zero i led_id s w = inr refl
  get_state_rounds-IsRead (suc left) i led_id s w =
      read_or-IsRead s (get_state_rounds bus left (i + 1) led_id)
        (get_state bus led_id s (pause bus i w)) (get_state-Reading led_id s (pause bus i w))
        (get_state_rounds-IsRead left (i + 1) led_id s)

  -- If the bus hands over bytes, reading an LED's state either returns 0 and a state in the ranges
  -- of its types, or returns -1, marks the status unknown and keeps every other field.
  pub get_state_robust-IsRead :
      (led_id : ℕ) (s : LedState) (w : World) → IsRead s (get_state_robust bus led_id s w).0
  unfolding get_state_robust
  get_state_robust-IsRead led_id s w = get_state_rounds-IsRead change_state_retry_count 0 led_id s w
