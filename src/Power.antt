-- ===== src/Power.antt =====
-- ebpf/src/power_led.c: the configured colour, brightness and effect of the power LED.
pub mod Shows
mod Tests
use ugreen_leds_controller.Prelude.{ℕ, ◌%◌, true, false}
use ugreen_leds_controller.Status.{Status, Op, and_then, ◌>>◌}
use ugreen_leds_controller.Types.{ugreen_led_power}
use ugreen_leds_controller.Env.{Env}
use ugreen_leds_controller.Config.{Config, PowerMode}
use ugreen_leds_controller.Controller.State.{Session}
use ugreen_leds_controller.Controller.Commands.{set_color, set_brightness, set_on, set_blink}

module _ (env : Env) where
  open env use {World}

  -- The `switch`; its three cases are all the modes, so the `return -1` behind it is not reached.
  abbrev pub apply_mode : PowerMode → Config → Op (Session World)
  apply_mode PowerMode.on config = set_on env ugreen_led_power true
  apply_mode PowerMode.blink config =
      set_blink env ugreen_led_power (config.power_on_ms % 65536) (config.power_off_ms % 65536)
        false
  apply_mode PowerMode.breath config =
      set_blink env ugreen_led_power (config.power_on_ms % 65536) (config.power_off_ms % 65536) true

  unfoldable pub power_led_apply : Config → Op (Session World)
  power_led_apply config =
      set_color env ugreen_led_power config.power_color
      >> set_brightness env ugreen_led_power (config.power_brightness % 256)
      >> apply_mode config.power_mode config
