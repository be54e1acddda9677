-- ===== src/DiskLed/Activity.antt =====
-- Activity and expired deadlines keep the disk LEDs in step with the slots.
use ugreen_leds_controller.Prelude.{
  ℕ, zero, suc, ◌+◌, ◌%◌, ◌≤◌, ◌<◌, ◌≡◌, ◌≢◌, refl, ap, ap₂, subst, ◌∙◌, arith, Bool, true, false,
  ◌||◌, not, List, [], ◌∷◌, length, ltb, if◌then◌else◌,
}
use ugreen_leds_controller.Types.{ugreen_led_count}
use ugreen_leds_controller.Status.{Status, ok, err}
use ugreen_leds_controller.Env.{Env}
use ugreen_leds_controller.Config.{Config}
use ugreen_leds_controller.Config.Bounds.{InRange}
use ugreen_leds_controller.Controller.State.{Session}
use ugreen_leds_controller.Controller.Commands.{set_blink}
use ugreen_leds_controller.Controller.Protocol.{Mcu, Shown, blinking}
use ugreen_leds_controller.Controller.Coherence.{IsCoherent}
use ugreen_leds_controller.Controller.Requests.{invalidate-IsCoherent}
use ugreen_leds_controller.Controller.Setters.{set_blink-Sets}
use ugreen_leds_controller.Controller.Chains.{Shows, Sets-Shows}
use ugreen_leds_controller.DiskLed.Slots.{
  DiskSlot, set_steady, start_blink, blink_times, blinked, expire_slot, expire_slots,
}
use ugreen_leds_controller.DiskLed.Blinking.{
  disk_blink, blink_sum, blink_on, AreShown, AreShown-same, Local, set_steady-Shows, rested-Local,
}

module _ (env : Env) (mcu : Mcu env) (config : Config) (in_range : InRange config) where
  open env use {World}
  open mcu use {shown}

  -- A slot whose deadline may have passed, and its LED.
  record Settled (slot : DiskSlot) (s : Session World) (r : DiskSlot × Session World) : Type 0 where
    same_led : r.0.led_id ≡ slot.led_id
    local : Local env mcu config in_range slot.led_id s r.1
    untouched : r.0.active ≡ true → (slot.active ≡ true) × (r.1 ≡ s)

  either-Settled :
      (b : Bool) (slot : DiskSlot) (s t : Session World)
      → IsCoherent env mcu s
      → Local env mcu config in_range slot.led_id s t
      → Settled slot s
          (if b then (slot, s) else (record slot { active = false; deadline_ns = 0 }, t))
  either-Settled true slot s t inv h = record {
    same_led = refl;
    local = record { elsewhere = λ j ne. refl; coherent = inv };
    untouched = λ on. (on, refl);
  }
  either-Settled false slot s t inv h = record {
    same_led = refl;
    local = h;
    untouched = λ on. absurd (cc);
  }

  expire_slot-Settled :
      (now : ℕ) (slot : DiskSlot) (s : Session World)
      → slot.led_id < ugreen_led_count
      → IsCoherent env mcu s
      → Settled slot s (expire_slot env config now slot s)
  unfolding expire_slot
  expire_slot-Settled now slot s lt inv =
      let steady = set_steady-Shows env mcu config in_range slot s lt inv in
      either-Settled (not slot.active || ltb now slot.deadline_ns) slot s _ inv (
        rested-Local env mcu config in_range slot.led_id s (set_steady env config slot s)
          steady.elsewhere steady.coherent)

  -- The slots from LED `i` on after the loop; the LEDs before them are as they were.
  pub record Expired (i : ℕ) (n : ℕ) (s : Session World) (r : List DiskSlot × Session World)
      : Type 0 where
    pub shows : AreShown env mcu config in_range i r.0 r.1.world
    pub coherent : IsCoherent env mcu r.1
    pub before : (j : ℕ) → j < i → shown r.1.world j ≡ shown s.world j
    pub same_length : length r.0 ≡ n

  pub expire_slots-Expired :
      (left now i : ℕ) (slots : List DiskSlot) (s : Session World)
      → i + length slots ≤ ugreen_led_count
      → AreShown env mcu config in_range i slots s.world
      → IsCoherent env mcu s
      → Expired i (length slots) s (expire_slots env config left now slots s)
  unfolding expire_slots
  expire_slots-Expired zero now i slots s fits h inv = record {
    shows = h;
    coherent = inv;
    before = λ j lt. refl;
    same_length = refl;
  }
  expire_slots-Expired (suc left) now i [] s fits h inv = record {
    shows = tt;
    coherent = inv;
    before = λ j lt. refl;
    same_length = refl;
  }
  expire_slots-Expired (suc left) now i (slot ∷ slots) s fits h inv =
      let head = expire_slot env config now slot s in
      let settled = expire_slot-Settled now slot s (omega (arith, h.0)) inv in
      let away : (j : ℕ) → j ≢ i → shown head.1.world j ≡ shown s.world j =
        λ j ne. settled.local.elsewhere j (λ e. ne (e ∙ h.0)) in
      let rest =
        expire_slots-Expired left now (suc i) slots head.1 (omega arith)
          (AreShown-same env mcu config in_range (suc i) slots s.world head.1.world
            (λ j le. away j (λ e. omega (arith, e, le))) h.2)
          settled.local.coherent in
      let r = expire_slots env config left now slots head.1 in
      record {
        shows = (
          settled.same_led ∙ h.0,
          (λ on.
              let kept = settled.untouched on in
              ap (λ (t : Shown). t.light)
                (rest.before i (omega arith) ∙ ap (λ (t : Session World). shown t.world i) kept.1)
              ∙ h.1 kept.0),
          rest.shows,
        );
        coherent = rest.coherent;
        before = λ j lt. rest.before j (omega arith) ∙ away j (λ e. omega (arith, e, lt));
        same_length = ap suc rest.same_length;
      }

  -- A slot with activity, and its LED.
  pub record Started (led_id : ℕ) (slot : DiskSlot) (s : Session World)
      (r : DiskSlot × Session World) : Type 0 where
    pub same_led : r.0.led_id ≡ led_id
    pub local : Local env mcu config in_range led_id s r.1
    pub blinks : r.0.active ≡ true → (shown r.1.world led_id).light ≡ disk_blink config

  blinked-Started :
      (led_id : ℕ) (slot : DiskSlot) (s : Session World) (r : Status × Session World)
      → slot.led_id ≡ led_id
      → slot.active ≡ false
      → Shows env mcu led_id (λ t. record t { light = disk_blink config }) s r
      → Started led_id slot s (blinked env config slot r)
  blinked-Started led_id slot s (ok, t) id off h = record {
    same_led = id;
    local = record { elsewhere = h.elsewhere; coherent = h.coherent };
    blinks = λ on. ap (λ (t : Shown). t.light) (h.done refl);
  }
  blinked-Started led_id slot s (err e, t) id off h = record {
    same_led = id;
    local = record {
      elsewhere = h.elsewhere;
      coherent = invalidate-IsCoherent env mcu slot.led_id t h.coherent;
    };
    blinks = λ on. absurd (cc);
  }

  either-Started :
      (b : Bool) (led_id : ℕ) (slot : DiskSlot) (s : Session World) (r : DiskSlot × Session World)
      → slot.led_id ≡ led_id
      → (b ≡ true → (shown s.world led_id).light ≡ disk_blink config)
      → IsCoherent env mcu s
      → (b ≡ false → Started led_id slot s r)
      → Started led_id slot s (if b then (slot, s) else r)
  either-Started true led_id slot s r id light inv h = record {
    same_led = id;
    local = record { elsewhere = λ j ne. refl; coherent = inv };
    blinks = λ on. light refl;
  }
  either-Started false led_id slot s r id light inv h = h refl

  pub start_blink-Started :
      (led_id : ℕ) (slot : DiskSlot) (s : Session World)
      → slot.led_id ≡ led_id
      → led_id < ugreen_led_count
      → (slot.active ≡ true → (shown s.world led_id).light ≡ disk_blink config)
      → IsCoherent env mcu s
      → Started led_id slot s (start_blink env config led_id slot s)
  start_blink-Started led_id slot s id lt light inv =
      let on_ms = (blink_times config).0 % 65536 in
      let off_ms = (blink_times config).1 % 65536 in
      let sum = blink_sum config in_range in
      let means : blinking (on_ms + off_ms) on_ms ≡ disk_blink config =
        ap₂ blinking sum (blink_on config in_range) in
      let sets =
        set_blink-Sets env mcu led_id on_ms off_ms false s lt
          (omega (arith, sum, in_range.disk_interval)) inv in
      either-Started slot.active led_id slot s _ id light inv (λ off.
        blinked-Started led_id slot s (set_blink env led_id on_ms off_ms false s) id off (
          subst
            (λ l.
              Shows env mcu led_id (λ t. record t { light = l }) s
                (set_blink env led_id on_ms off_ms false s))
            means (Sets-Shows env mcu led_id _ s _ sets)))
