-- ===== src/Controller/Setters.antt =====
-- The four setters against what they promise: on the LED and in the cache, or an error.
use ugreen_leds_controller.Prelude.{
  ℕ, ◌+◌, ◌/◌, ◌%◌, ◌<◌, ◌≡◌, refl, ap, ◌∙◌, Bool, false, ◌||◌, leb, ltb, arith, some,
  if◌then◌else◌,
}
use ugreen_leds_controller.Types.{Rgb, IsRgb, ugreen_led_count}
use ugreen_leds_controller.Env.{Env}
use ugreen_leds_controller.Controller.State.{Session, cache_at}
use ugreen_leds_controller.Controller.Commands.{
  power_mode_of, blink_mode_of, with_color, with_brightness, with_mode, with_blink, set_color,
  set_brightness, set_on, set_blink,
}
use ugreen_leds_controller.Controller.Protocol.{Mcu, brightness_is, color_is, light_is, command_of}
use ugreen_leds_controller.Controller.Coherence.{IsCoherent, Sets, setter-Sets}
use ugreen_leds_controller.Controller.Recorded.{
  power_light, blink_light, color_cached, brightness_cached, light_cached, cache_blink_cached,
  with_color-Agrees, with_brightness-Agrees, with_mode-Agrees, with_blink-Agrees, power_command,
  blink_command, power_bytes, blink_bytes,
}

module _ (env : Env) (mcu : Mcu env) where
  open env use {World}
  open mcu use {shown}

  -- `set_color` on an LED that exists.
  pub set_color-Sets :
      (led_id : ℕ) (color : Rgb) (s : Session World)
      → led_id < ugreen_led_count
      → IsRgb color
      → IsCoherent env mcu s
      → Sets env mcu led_id (color_is color) s (set_color env led_id color s)
  unfolding set_color command_of
  set_color-Sets led_id color s in_range bytes inv =
      let guard : leb ugreen_led_count led_id ≡ false = ground arith in
      rw guard (
        setter-Sets env mcu led_id 0x02 color.r color.g color.b 0 (with_color color)
          (color_is color) in_range (omega arith) refl (with_color-Agrees color) _ s inv
          (color_cached (cache_at s.controller led_id) (shown s.world led_id) color
            (inv.agrees led_id in_range)))

  pub set_brightness-Sets :
      (led_id brightness : ℕ) (s : Session World)
      → led_id < ugreen_led_count
      → brightness < 256
      → IsCoherent env mcu s
      → Sets env mcu led_id (brightness_is brightness) s (set_brightness env led_id brightness s)
  unfolding set_brightness command_of
  set_brightness-Sets led_id brightness s in_range byte inv =
      let guard : leb ugreen_led_count led_id ≡ false = ground arith in
      rw guard (
        setter-Sets env mcu led_id 0x01 brightness 0 0 0 (with_brightness brightness)
          (brightness_is brightness) in_range (omega arith) refl (with_brightness-Agrees brightness)
          _ s inv
          (brightness_cached (cache_at s.controller led_id) (shown s.world led_id) brightness
            (inv.agrees led_id in_range)))

  pub set_on-Sets :
      (led_id : ℕ) (power : Bool) (s : Session World)
      → led_id < ugreen_led_count
      → IsCoherent env mcu s
      → Sets env mcu led_id (light_is (power_light power)) s (set_on env led_id power s)
  unfolding set_on
  set_on-Sets led_id power s in_range inv =
      let guard : leb ugreen_led_count led_id ≡ false = ground arith in
      let cache = cache_at s.controller led_id in
      rw guard (
        setter-Sets env mcu led_id 0x03 (if power then 1 else 0) 0 0 0
          (with_mode (power_mode_of power)) (light_is (power_light power)) in_range
          (power_bytes power) (power_command power) (with_mode-Agrees power) _ s inv
          (light_cached cache.mode (shown s.world led_id) cache.on_ms cache.off_ms power
            (inv.agrees led_id in_range).light))

  pub set_blink-Sets :
      (led_id on_ms off_ms : ℕ) (breathe : Bool) (s : Session World)
      → led_id < ugreen_led_count
      → on_ms + off_ms < 65536
      → IsCoherent env mcu s
      → Sets env mcu led_id
          (light_is (blink_light breathe (on_ms + off_ms) on_ms))
          s
          (set_blink env led_id on_ms off_ms breathe s)
  unfolding set_blink
  set_blink-Sets led_id on_ms off_ms breathe s in_range fits inv =
      let cycle = (on_ms + off_ms) % 65536 in
      let exact : cycle ≡ on_ms + off_ms = omega arith in
      let guard : (leb ugreen_led_count led_id || ltb cycle on_ms) ≡ false = ground arith in
      rw guard (
        setter-Sets env mcu led_id (if breathe then 0x05 else 0x04) (cycle / 256 % 256)
          (cycle % 256) (on_ms / 256 % 256) (on_ms % 256)
          (with_blink (blink_mode_of breathe) on_ms off_ms)
          (light_is (blink_light breathe (on_ms + off_ms) on_ms)) in_range
          (blink_bytes breathe cycle on_ms)
          (blink_command breathe cycle on_ms (omega arith) (omega arith)
            ∙ ap (λ n. some (light_is (blink_light breathe n on_ms))) exact)
          (with_blink-Agrees breathe on_ms off_ms) _ s inv
          (cache_blink_cached (cache_at s.controller led_id) (shown s.world led_id) on_ms off_ms
            breathe (inv.agrees led_id in_range)))
