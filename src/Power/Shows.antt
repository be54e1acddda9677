-- ===== src/Power/Shows.antt =====
-- What the power LED shows after `power_led_apply`.
use ugreen_leds_controller.Prelude.{◌+◌, ◌%◌, ◌≡◌, arith, true, false, some}
use ugreen_leds_controller.Status.{◌>>◌}
use ugreen_leds_controller.Types.{ugreen_led_power}
use ugreen_leds_controller.Env.{Env}
use ugreen_leds_controller.Config.{Config, PowerMode}
use ugreen_leds_controller.Config.Bounds.{InRange}
use ugreen_leds_controller.Controller.State.{Session}
use ugreen_leds_controller.Controller.Commands.{set_color, set_brightness}
use ugreen_leds_controller.Controller.Protocol.{
  Mcu, Light, steady, blinking, breathing, light_is, color_is, brightness_is, execute,
}
use ugreen_leds_controller.Controller.Coherence.{IsCoherent}
use ugreen_leds_controller.Controller.Setters.{
  set_color-Sets, set_brightness-Sets, set_on-Sets, set_blink-Sets,
}
use ugreen_leds_controller.Controller.Chains.{Shows, Sets-Shows, >>-Shows}
use ugreen_leds_controller.Power.{apply_mode, power_led_apply}

abbrev pub configured_light : PowerMode → Config → Light
configured_light PowerMode.on c = steady
configured_light PowerMode.blink c = blinking (c.power_on_ms + c.power_off_ms) c.power_on_ms
configured_light PowerMode.breath c = breathing (c.power_on_ms + c.power_off_ms) c.power_on_ms

module _ (env : Env) (mcu : Mcu env) (config : Config) (in_range : InRange config) where
  open env use {World}

  on_cast : config.power_on_ms % 65536 ≡ config.power_on_ms
  on_cast = omega (arith, in_range.power_times)

  off_cast : config.power_off_ms % 65536 ≡ config.power_off_ms
  off_cast = omega (arith, in_range.power_times)

  brightness_cast : config.power_brightness % 256 ≡ config.power_brightness
  brightness_cast = omega (arith, in_range.power_brightness)

  apply_mode-Shows :
      (mode : PowerMode) (s : Session World)
      → IsCoherent env mcu s
      → Shows env mcu ugreen_led_power
          (execute (some (light_is (configured_light mode config))))
          s
          (apply_mode env mode config s)
  apply_mode-Shows PowerMode.on s inv =
      Sets-Shows env mcu 0 _ s _ (set_on-Sets env mcu 0 true s (omega arith) inv)
  apply_mode-Shows PowerMode.blink s inv =
      rw (on_cast, off_cast)
        (Sets-Shows env mcu 0 _ s _ (
          set_blink-Sets env mcu 0 config.power_on_ms config.power_off_ms false s (omega arith)
            in_range.power_times inv))
  apply_mode-Shows PowerMode.breath s inv =
      rw (on_cast, off_cast)
        (Sets-Shows env mcu 0 _ s _ (
          set_blink-Sets env mcu 0 config.power_on_ms config.power_off_ms true s (omega arith)
            in_range.power_times inv))

  -- If it returns 0, the power LED has the configured colour, brightness and effect, with the
  -- configured times. In any case no other LED changes, and the cache agrees with the LEDs.
  pub power_led_apply-Shows :
      (s : Session World)
      → IsCoherent env mcu s
      → Shows env mcu ugreen_led_power
          (λ t. record {
            color = config.power_color;
            brightness = config.power_brightness;
            light = configured_light config.power_mode config;
          })
          s
          (power_led_apply env config s)
  unfolding power_led_apply
  power_led_apply-Shows s inv =
      let color = execute (some (color_is config.power_color)) in
      let brightness = execute (some (brightness_is config.power_brightness)) in
      let light = execute (some (light_is (configured_light config.power_mode config))) in
      let first = set_color env 0 config.power_color in
      let second = set_brightness env 0 config.power_brightness in
      let third = apply_mode env config.power_mode config in
      rw brightness_cast (
        >>-Shows env mcu 0 (λ t. brightness (color t)) light (first >> second) third s
          (>>-Shows env mcu 0 color brightness first second s
            (Sets-Shows env mcu 0 _ s _ (
              set_color-Sets env mcu 0 config.power_color s (omega arith) in_range.power_color inv))
            (λ t coherent. Sets-Shows env mcu 0 _ t _ (
              set_brightness-Sets env mcu 0 config.power_brightness t (omega arith)
                (omega (arith, in_range.power_brightness)) coherent)))
          (λ t coherent. apply_mode-Shows config.power_mode t coherent))
