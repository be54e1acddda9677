-- ===== src/DiskLed/Redrawn.antt =====
-- What the LED of a slot shows after it was redrawn for another device.
use ugreen_leds_controller.Prelude.{
  ℕ, ◌+◌, ◌-◌, ◌%◌, ◌^◌, ◌<◌, ◌≡◌, refl, sym, ap, ◌∙◌, arith, Bool, true, false, if◌then◌else◌,
  some,
}
use ugreen_leds_controller.Types.{ugreen_disk_count}
use ugreen_leds_controller.Status.{Status, ok}
use ugreen_leds_controller.Env.{Env}
use ugreen_leds_controller.Config.{Config, config_disk_color}
use ugreen_leds_controller.Config.Bounds.{InRange}
use ugreen_leds_controller.Controller.State.{Session}
use ugreen_leds_controller.Controller.Commands.{set_on}
use ugreen_leds_controller.Controller.Protocol.{Mcu, Shown, dark, light_is, execute}
use ugreen_leds_controller.Controller.Recorded.{power_light}
use ugreen_leds_controller.Controller.Coherence.{IsCoherent}
use ugreen_leds_controller.Controller.Setters.{set_on-Sets}
use ugreen_leds_controller.Controller.Chains.{Shows, Sets-Shows}
use ugreen_leds_controller.DiskLed.Slots.{DiskSlot, set_steady}
use ugreen_leds_controller.DiskLed.Blinking.{Local, set_steady-Shows}

module _ (env : Env) (mcu : Mcu env) (config : Config) (in_range : InRange config) where
  open env use {World}
  open mcu use {shown}

  -- A disk at rest in slot `slot`.
  abbrev pub resting : ℕ → Shown
  resting slot = record {
    color = config_disk_color config slot;
    brightness = config.disk_brightness;
    light = power_light config.disk_invert;
  }

  -- The LED of a slot that was reset: at rest for a device, dark without one.
  abbrev pub Rests : (slot : ℕ) → DiskSlot → World → Type 0
  Rests slot d w =
      (d.present ≡ true → shown w (2 + slot) ≡ resting slot)
      × (d.present ≡ false → (shown w (2 + slot)).light ≡ dark)

  -- The LED of a slot after it was redrawn for the device `new`.
  pub record Redrawn (slot : ℕ) (new : DiskSlot) (s : Session World) (r : Status × Session World)
      : Type 0 where
    pub local : Local env mcu config in_range (2 + slot) s r.1
    pub rests : r.0 ≡ ok → Rests slot new r.1.world

  index_of :
      (slot led_id : ℕ)
      → led_id ≡ 2 + slot
      → slot < ugreen_disk_count
      → (led_id + 2 ^ 32 - 2) % 2 ^ 32 ≡ slot
  index_of slot led_id id lt = omega arith

  pub set_steady-Redrawn :
      (slot : ℕ) (new : DiskSlot) (s : Session World)
      → new.led_id ≡ 2 + slot
      → slot < ugreen_disk_count
      → new.present ≡ true
      → IsCoherent env mcu s
      → Redrawn slot new s (set_steady env config new s)
  set_steady-Redrawn slot new s id lt there inv =
      let steady = set_steady-Shows env mcu config in_range new s (omega (arith, id)) inv in
      let t = set_steady env config new s in
      record {
        local = record {
          elsewhere = λ j ne. steady.elsewhere j (λ e. ne (e ∙ id));
          coherent = steady.coherent;
        };
        rests = λ done. (
          (λ on.
              ap (shown t.1.world) (sym id)
              ∙ steady.done done
              ∙ ap
                  (λ n. record {
                    color = config_disk_color config n;
                    brightness = config.disk_brightness;
                    light = power_light config.disk_invert;
                  })
                  (index_of slot new.led_id id lt)),
          (λ off. absurd (cc)),
        );
      }

  pub set_on-Redrawn :
      (slot : ℕ) (new : DiskSlot) (s : Session World)
      → new.led_id ≡ 2 + slot
      → slot < ugreen_disk_count
      → new.present ≡ false
      → IsCoherent env mcu s
      → Redrawn slot new s (set_on env new.led_id false s)
  set_on-Redrawn slot new s id lt gone inv =
      let t = set_on env new.led_id false s in
      let off : Shows env mcu new.led_id (execute (some (light_is dark))) s t =
        Sets-Shows env mcu new.led_id (light_is dark) s t
          (set_on-Sets env mcu new.led_id false s (omega (arith, id)) inv) in
      record {
        local = record {
          elsewhere = λ j ne. off.elsewhere j (λ e. ne (e ∙ id));
          coherent = off.coherent;
        };
        rests = λ done. (
          (λ on. absurd (cc)),
          (λ no.
              ap (λ j. (shown t.1.world j).light) (sym id)
              ∙ ap (λ (x : Shown). x.light) (off.done done)),
        );
      }

  pub either-Redrawn :
      (b : Bool) (slot : ℕ) (new : DiskSlot) (s : Session World) (x y : Status × Session World)
      → (b ≡ true → Redrawn slot new s x)
      → (b ≡ false → Redrawn slot new s y)
      → Redrawn slot new s (if b then x else y)
  either-Redrawn true slot new s x y h k = h refl
  either-Redrawn false slot new s x y h k = k refl
