-- ===== src/Driver/Leds.antt =====
-- The setters of kmod/led-ugreen.c on the cached state of one LED, the callbacks of the LED class,
-- and the probe of all LEDs.
use ugreen_leds_controller.Prelude.{
  ℕ, zero, suc, ◌+◌, ◌-◌, ◌/◌, ◌%◌, ◌^◌, Bool, true, false, ◌||◌, ◌&&◌, not, List, [], ◌∷◌, ◌==◌,
  ltb, if◌then◌else◌,
}
use ugreen_leds_controller.Status.{Status, ok, err, einval}
use ugreen_leds_controller.Driver.Bus.{
  LedState, Bus, state_off, state_on, state_blink, state_breath, state_invalid, change_state_robust,
  get_state_robust, ugreen_max_led_number,
}

-- `priv->state[led_id]` with the world.
pub record Cell (W : Type 0) : Type 0 where
  pub state : LedState
  pub world : W

-- The delays of a blink, in ms, as `unsigned long`.
pub record Delays : Type 0 where
  pub delay_on : ℕ
  pub delay_off : ℕ

-- Both branches clamp one delay to 100 to 0x7fff.
unfoldable pub truncate_delay : ℕ → ℕ
truncate_delay n = if ltb n 100 then 100 else if ltb 0x7fff n then 0x7fff else n

unfoldable pub truncate_blink_delay_time : Delays → Delays
unfolding truncate_delay
truncate_blink_delay_time d = record {
  delay_on = truncate_delay d.delay_on;
  delay_off = truncate_delay d.delay_off;
}

abbrev pub power_status : Bool → ℕ
power_status on = if on then state_on else state_off

abbrev pub blink_status : Bool → ℕ
blink_status is_blink = if is_blink then state_blink else state_breath

-- `!r && !g && !b`
abbrev pub is_black : ℕ → ℕ → ℕ → Bool
is_black r g b = r == 0 && g == 0 && b == 0

unfoldable pub get_brightness : LedState → ℕ
get_brightness state =
    if is_black state.r state.g state.b
    then 0
    else if state.status == state_off
    then 0
    else state.brightness

module _ (bus : Bus) where
  open bus use {World}

  -- The state is changed if the transfer returned 0.
  abbrev pub keep_if : (LedState → LedState) → LedState → Status × World → Cell World
  keep_if change state (ok, w) = record { state = change state; world = w }
  keep_if change state (err e, w) = record { state = state; world = w }

  unfoldable pub turn_on_or_off : ℕ → Bool → Cell World → Cell World
  turn_on_or_off led_id on c =
      if c.state.status == power_status on
      then c
      else keep_if (λ s. record s { status = power_status on }) c.state
          (change_state_robust bus led_id 0x03 (if on then 1 else 0) 0 0 0 c.world)

  abbrev pub update_brightness : ℕ → ℕ → Cell World → Cell World
  update_brightness led_id brightness c =
      if c.state.brightness == brightness
      then c
      else keep_if (λ s. record s { brightness = brightness % 256 }) c.state
          (change_state_robust bus led_id 0x01 (brightness % 256) 0 0 0 c.world)

  unfoldable pub set_brightness : ℕ → ℕ → Cell World → Cell World
  unfolding turn_on_or_off
  set_brightness led_id brightness c =
      let lit = update_brightness led_id brightness c in
      if brightness == 0
      then turn_on_or_off led_id false c
      else if lit.state.status == state_off
      then turn_on_or_off led_id true lit
      else lit

  unfoldable pub set_color : ℕ → ℕ → ℕ → ℕ → Cell World → Cell World
  set_color led_id r g b c =
      if is_black r g b
      then turn_on_or_off led_id false c
      else if not (c.state.r == r) || not (c.state.g == g) || not (c.state.b == b)
      then keep_if (λ s. record s { r = r; g = g; b = b }) c.state
          (change_state_robust bus led_id 0x02 r g b 0 c.world)
      else c

  unfoldable pub set_blink_or_breath : ℕ → ℕ → ℕ → Bool → Cell World → Cell World
  set_blink_or_breath led_id t_on t_cycle is_blink c =
      if c.state.t_on == t_on
        && c.state.t_cycle == t_cycle
        && c.state.status == blink_status is_blink
      then c
      else keep_if
          (λ s. record s { t_on = t_on; t_cycle = t_cycle; status = blink_status is_blink }) c.state
          (change_state_robust bus led_id (if is_blink then 0x04 else 0x05) (t_cycle / 256 % 256)
            (t_cycle % 256) (t_on / 256 % 256) (t_on % 256) c.world)

  -- `blink_set`: the result, and the delays that it writes back.
  abbrev pub blink_reply : Cell World → (Status × Delays) × Cell World
  blink_reply c = (
    (
      (if c.state.status == state_blink then ok else err einval),
      record {
        delay_on = c.state.t_on;
        delay_off = (c.state.t_cycle + 2 ^ 64 - c.state.t_on) % 2 ^ 64;
      },
    ),
    c,
  )

  unfoldable pub set_blink : ℕ → Delays → Cell World → (Status × Delays) × Cell World
  unfolding truncate_blink_delay_time
  set_blink led_id d c =
      let t = truncate_blink_delay_time d in
      blink_reply (
        set_blink_or_breath led_id (t.delay_on % 65536) ((t.delay_on + t.delay_off) % 65536) true c)

  -- One round of the first loop of `probe`.
  abbrev pub greet : ℕ → (Status × LedState) × World → Cell World
  greet led_id ((rc, state), w) =
      let c : Cell World = record { state = state; world = w } in
      if state.status == state_invalid
      then c
      else set_color led_id 0xff 0xff 0xff (set_brightness led_id 128 c)

  -- An entry of the zeroed array.
  abbrev pub zero_state : LedState
  zero_state = record { status = 0; r = 0; g = 0; b = 0; brightness = 0; t_on = 0; t_cycle = 0 }

  unfoldable pub probe_led : ℕ → World → Cell World
  unfolding set_brightness set_color
  probe_led led_id w = greet led_id (get_state_robust bus led_id zero_state w)

  -- The states from LED `i` on, `left` of them.
  unfoldable pub probe_leds : (left i : ℕ) → World → List LedState × World
  probe_leds zero i w = ([], w)
  probe_leds (suc left) i w =
      let c = probe_led i w in
      let (states, w') = probe_leds left (i + 1) c.world in (c.state ∷ states, w')

  unfoldable pub probe : World → List LedState × World
  probe w = probe_leds ugreen_max_led_number 0 w
