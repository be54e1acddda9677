-- ===== src/Controller/Commands.antt =====
-- The setters of led_controller.c. Each skips the transfer when the cache already holds the value,
-- and records the value only after an acknowledged transfer.
use ugreen_leds_controller.Prelude.{
  ℕ, ◌+◌, ◌/◌, ◌%◌, Bool, true, false, ◌&&◌, ◌||◌, ◌==◌, ltb, leb, if◌then◌else◌,
}
use ugreen_leds_controller.Types.{Rgb, rgb_equal, ugreen_led_count}
use ugreen_leds_controller.Status.{Status, ok, err, einval}
use ugreen_leds_controller.Env.{Env}
use ugreen_leds_controller.Controller.State.{
  LedMode, unknown, off, on, blink, breath, LedCache, Session, cache_at, set_cache,
}
use ugreen_leds_controller.Controller.Transfer.{change_status}

abbrev pub mode_equal : LedMode → LedMode → Bool
mode_equal unknown unknown = true
mode_equal off off = true
mode_equal on on = true
mode_equal blink blink = true
mode_equal breath breath = true
mode_equal _ _ = false

abbrev pub power_mode_of : Bool → LedMode
power_mode_of b = if b then on else off

abbrev pub blink_mode_of : Bool → LedMode
blink_mode_of b = if b then breath else blink

-- `if (!error)`: write the cache entry after a transfer that returned 0.
abbrev pub record_success :
    {W : Type 0} → ℕ → (LedCache → LedCache) → Status × Session W → Status × Session W
record_success led_id change (ok, s) = (
  ok,
  record s { controller = set_cache s.controller led_id (change (cache_at s.controller led_id)) },
)
record_success led_id change (err e, s) = (err e, s)

abbrev pub with_color : Rgb → LedCache → LedCache
with_color color c = record c { color = color; color_valid = true }

abbrev pub with_brightness : ℕ → LedCache → LedCache
with_brightness brightness c = record c { brightness = brightness; brightness_valid = true }

abbrev pub with_mode : LedMode → LedCache → LedCache
with_mode mode c = record c { mode = mode }

abbrev pub with_blink : LedMode → ℕ → ℕ → LedCache → LedCache
with_blink mode on_ms off_ms c = record c { mode = mode; on_ms = on_ms; off_ms = off_ms }

module _ (env : Env) where
  open env use {World}

  unfoldable pub set_color : ℕ → Rgb → Session World → Status × Session World
  unfolding rgb_equal
  set_color led_id color s =
      let cache = cache_at s.controller led_id in
      if leb ugreen_led_count led_id
      then (err einval, s)
      else if cache.color_valid && rgb_equal cache.color color
      then (ok, s)
      else record_success led_id (with_color color)
          (change_status env led_id 0x02 color.r color.g color.b 0 s)

  unfoldable pub set_brightness : ℕ → ℕ → Session World → Status × Session World
  set_brightness led_id brightness s =
      let cache = cache_at s.controller led_id in
      if leb ugreen_led_count led_id
      then (err einval, s)
      else if cache.brightness_valid && cache.brightness == brightness
      then (ok, s)
      else record_success led_id (with_brightness brightness)
          (change_status env led_id 0x01 brightness 0 0 0 s)

  unfoldable pub set_on : ℕ → Bool → Session World → Status × Session World
  set_on led_id power s =
      let cache = cache_at s.controller led_id in
      if leb ugreen_led_count led_id
      then (err einval, s)
      else if mode_equal cache.mode (power_mode_of power)
      then (ok, s)
      else record_success led_id (with_mode (power_mode_of power))
          (change_status env led_id 0x03 (if power then 1 else 0) 0 0 0 s)

  -- `uint16_t cycle = on_ms + off_ms` wraps; the test `cycle < on_ms` refuses a wrapped sum.
  unfoldable pub set_blink : ℕ → ℕ → ℕ → Bool → Session World → Status × Session World
  set_blink led_id on_ms off_ms breathe s =
      let mode = blink_mode_of breathe in
      let cycle = (on_ms + off_ms) % 65536 in
      let cache = cache_at s.controller led_id in
      if leb ugreen_led_count led_id || ltb cycle on_ms
      then (err einval, s)
      else if mode_equal cache.mode mode && cache.on_ms == on_ms && cache.off_ms == off_ms
      then (ok, s)
      else record_success led_id (with_blink mode on_ms off_ms) (
          change_status env led_id (if breathe then 0x05 else 0x04) (cycle / 256 % 256)
            (cycle % 256) (on_ms / 256 % 256) (on_ms % 256) s)
