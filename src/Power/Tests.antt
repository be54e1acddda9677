-- ===== src/Power/Tests.antt =====
-- The default configuration of the power LED over a bus that fails once.
use ugreen_leds_controller.Prelude.{[], ◌∷◌}
use ugreen_leds_controller.Config.{set_defaults}
use ugreen_leds_controller.Config.Bounds.{set_defaults-InRange}
use ugreen_leds_controller.Sim.{sim, sim_mcu, broken, start_session}
use ugreen_leds_controller.Sim.Start.{start-IsCoherent}
use ugreen_leds_controller.Controller.Chains.{Shows}
use ugreen_leds_controller.Power.{power_led_apply}
use ugreen_leds_controller.Power.Shows.{configured_light, power_led_apply-Shows}

power_led_apply-Shows_example :
    Shows sim sim_mcu 0
      (λ t. record {
        color = set_defaults.power_color;
        brightness = set_defaults.power_brightness;
        light = configured_light set_defaults.power_mode set_defaults;
      })
      (start_session (broken ∷ []))
      (power_led_apply sim set_defaults (start_session (broken ∷ [])))
power_led_apply-Shows_example =
    power_led_apply-Shows sim sim_mcu set_defaults set_defaults-InRange
      (start_session (broken ∷ [])) (start-IsCoherent (broken ∷ []))
