-- ===== src/DiskLed/Blinking.antt =====
-- The disk LEDs follow the slots: an active slot's LED blinks as configured.
use ugreen_leds_controller.Prelude.{
  ℕ, zero, suc, ◌+◌, ◌-◌, ◌%◌, ◌^◌, ◌≤◌, ◌<◌, ◌≡◌, ◌≢◌, ap, subst, ◌∙◌, arith, true, List, [], ◌∷◌,
  length, if◌then◌else◌, set, get_or, some,
}
use ugreen_leds_controller.Types.{ugreen_led_count}
use ugreen_leds_controller.Status.{Status, ok, err, ◌>>◌}
use ugreen_leds_controller.Env.{Env}
use ugreen_leds_controller.Config.{Config, config_disk_color}
use ugreen_leds_controller.Config.Bounds.{InRange, config_disk_color-IsRgb}
use ugreen_leds_controller.Controller.State.{Session}
use ugreen_leds_controller.Controller.Commands.{set_color, set_brightness, set_on}
use ugreen_leds_controller.Controller.Protocol.{
  Mcu, Shown, Light, blinking, light_is, color_is, brightness_is, execute,
}
use ugreen_leds_controller.Controller.Recorded.{power_light}
use ugreen_leds_controller.Controller.Coherence.{IsCoherent}
use ugreen_leds_controller.Controller.Requests.{invalidate-IsCoherent}
use ugreen_leds_controller.Controller.Setters.{set_color-Sets, set_brightness-Sets, set_on-Sets}
use ugreen_leds_controller.Controller.Chains.{Shows, Sets-Shows, >>-Shows}
use ugreen_leds_controller.DiskLed.Slots.{DiskSlot, no_slot, set_steady, blink_times, rested}

-- What an active disk shows: the pulse of each interval, or its inverse.
abbrev pub disk_blink : Config → Light
disk_blink c =
    blinking c.disk_interval_ms
      (if c.disk_invert then c.disk_interval_ms - c.disk_pulse_ms else c.disk_pulse_ms)

pub blink_sum :
    (c : Config)
    → InRange c
    → (blink_times c).0 % 65536 + (blink_times c).1 % 65536 ≡ c.disk_interval_ms
blink_sum c h = ground (arith, h.disk_pulse, h.disk_interval)

pub blink_on :
    (c : Config)
    → InRange c
    → (blink_times c).0 % 65536
      ≡ (if c.disk_invert then c.disk_interval_ms - c.disk_pulse_ms else c.disk_pulse_ms)
blink_on c h = ground (arith, h.disk_pulse, h.disk_interval)

module _ (env : Env) (mcu : Mcu env) (config : Config) (in_range : InRange config) where
  open env use {World}
  open mcu use {shown}

  -- The slots from LED `i` on.
  abbrev pub AreShown : ℕ → List DiskSlot → World → Type 0
  AreShown i [] w = Unit {0}
  AreShown i (slot ∷ slots) w =
      (slot.led_id ≡ i)
      × (slot.active ≡ true → (shown w i).light ≡ disk_blink config)
      × AreShown (suc i) slots w

  pub AreShown-same :
      (i : ℕ) (slots : List DiskSlot) (w w' : World)
      → ((j : ℕ) → i ≤ j → shown w' j ≡ shown w j)
      → AreShown i slots w
      → AreShown i slots w'
  AreShown-same i [] w w' same h = tt
  AreShown-same i (slot ∷ slots) w w' same h = (
    h.0,
    (λ on. ap (λ (t : Shown). t.light) (same i (omega arith)) ∙ h.1 on),
    AreShown-same (suc i) slots w w' (λ j le. same j (omega arith)) h.2,
  )

  pub AreShown-set :
      (i k j : ℕ) (slots : List DiskSlot) (slot : DiskSlot) (w w' : World)
      → j ≡ i + k
      → ((n : ℕ) → n ≢ j → shown w' n ≡ shown w n)
      → slot.led_id ≡ j
      → (slot.active ≡ true → (shown w' j).light ≡ disk_blink config)
      → AreShown i slots w
      → AreShown i (set slots k slot) w'
  AreShown-set i k j [] slot w w' at same id light h = tt
  AreShown-set i zero j (old ∷ slots) slot w w' at same id light h =
      let here : j ≡ i = omega (arith, at) in
      (
        id ∙ here,
        (λ on. subst (λ n. (shown w' n).light ≡ disk_blink config) here (light on)),
        AreShown-same (suc i) slots w w' (λ n le. same n (λ e. omega (arith, e, here, le))) h.2,
      )
  AreShown-set i (suc k) j (old ∷ slots) slot w w' at same id light h = (
    h.0,
    (λ on. ap (λ (t : Shown). t.light) (same i (λ e. omega (arith, e, at))) ∙ h.1 on),
    AreShown-set (suc i) k j slots slot w w' (omega (arith, at)) same id light h.2,
  )

  pub AreShown-get :
      (i k j : ℕ) (slots : List DiskSlot) (w : World)
      → j ≡ i + k
      → (get_or slots k no_slot).present ≡ true
      → AreShown i slots w
      → ((get_or slots k no_slot).led_id ≡ j)
        × ((get_or slots k no_slot).active ≡ true → (shown w j).light ≡ disk_blink config)
        × (k < length slots)
  AreShown-get i k j [] w at present h = absurd (cc)
  AreShown-get i zero j (slot ∷ slots) w at present h =
      let here : i ≡ j = omega (arith, at) in
      (
        h.0 ∙ here,
        (λ on. subst (λ n. (shown w n).light ≡ disk_blink config) here (h.1 on)),
        omega arith,
      )
  AreShown-get i (suc k) j (slot ∷ slots) w at present h =
      let rest = AreShown-get (suc i) k j slots w (omega (arith, at)) present h.2 in
      (rest.0, rest.1, omega (arith, rest.2))

  -- What a setter sequence on LED `led_id` leaves alone.
  pub record Local (led_id : ℕ) (s t : Session World) : Type 0 where
    pub elsewhere : (j : ℕ) → j ≢ led_id → shown t.world j ≡ shown s.world j
    pub coherent : IsCoherent env mcu t

  brightness_cast : config.disk_brightness % 256 ≡ config.disk_brightness
  brightness_cast = omega (arith, in_range.disk_brightness)

  -- A disk at rest: if the result is 0, its LED is steady in the colour of its slot, or dark where
  -- the configuration inverts it. No other LED changes.
  pub set_steady-Shows :
      (slot : DiskSlot) (s : Session World)
      → slot.led_id < ugreen_led_count
      → IsCoherent env mcu s
      → Shows env mcu slot.led_id
          (λ t. record {
            color = config_disk_color config ((slot.led_id + 2 ^ 32 - 2) % 2 ^ 32);
            brightness = config.disk_brightness;
            light = power_light config.disk_invert;
          })
          s
          (set_steady env config slot s)
  unfolding set_steady
  set_steady-Shows slot s lt inv =
      let c = config_disk_color config ((slot.led_id + 2 ^ 32 - 2) % 2 ^ 32) in
      let first = set_color env slot.led_id c in
      let second = set_brightness env slot.led_id config.disk_brightness in
      let third = set_on env slot.led_id config.disk_invert in
      let color = execute (some (color_is c)) in
      let brightness = execute (some (brightness_is config.disk_brightness)) in
      let light = execute (some (light_is (power_light config.disk_invert))) in
      rw brightness_cast (
        >>-Shows env mcu slot.led_id (λ t. brightness (color t)) light (first >> second) third s
          (>>-Shows env mcu slot.led_id color brightness first second s
            (Sets-Shows env mcu slot.led_id _ s _ (
              set_color-Sets env mcu slot.led_id c s lt (config_disk_color-IsRgb config _ in_range)
                inv))
            (λ t coherent. Sets-Shows env mcu slot.led_id _ t _ (
              set_brightness-Sets env mcu slot.led_id config.disk_brightness t lt
                (omega (arith, in_range.disk_brightness)) coherent)))
          (λ t coherent.
            Sets-Shows env mcu slot.led_id _ t _
              (set_on-Sets env mcu slot.led_id config.disk_invert t lt coherent)))

  pub rested-Local :
      (led_id : ℕ) (s : Session World) (r : Status × Session World)
      → ((j : ℕ) → j ≢ led_id → shown r.1.world j ≡ shown s.world j)
      → IsCoherent env mcu r.1
      → Local led_id s (rested env config led_id r)
  rested-Local led_id s (ok, t) elsewhere coherent = record {
    elsewhere = elsewhere;
    coherent = coherent;
  }
  rested-Local led_id s (err e, t) elsewhere coherent = record {
    elsewhere = elsewhere;
    coherent = invalidate-IsCoherent env mcu led_id t coherent;
  }
