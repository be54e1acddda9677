-- ===== src/DiskLed/Following.antt =====
-- The invariant of the disk LEDs between two events.
use ugreen_leds_controller.Prelude.{
  ℕ, ◌+◌, ◌-◌, ◌*◌, ◌%◌, ◌^◌, ◌≤◌, ◌≡◌, refl, ◌∙◌, arith, Bool, true, false, ◌||◌, not, List, [],
  ◌∷◌, length, length-set, ltb, leb, if◌then◌else◌, set, get_or,
}
use ugreen_leds_controller.Types.{ugreen_disk_count}
use ugreen_leds_controller.Status.{Status, ok, err, einval}
use ugreen_leds_controller.Env.{Env}
use ugreen_leds_controller.Config.{Config}
use ugreen_leds_controller.Config.Bounds.{InRange}
use ugreen_leds_controller.Controller.State.{Session}
use ugreen_leds_controller.Controller.Protocol.{Mcu}
use ugreen_leds_controller.Controller.Coherence.{IsCoherent}
use ugreen_leds_controller.Controller.Timers.{Timers, read_failed}
use ugreen_leds_controller.Controller.Chains.{quiet-IsCoherent}
use ugreen_leds_controller.DiskLed.Slots.{
  DiskSlot, Disks, no_slot, start_blink, touch, arm_timer, handle_activity, handle_timer,
  monotonic_ns,
}
use ugreen_leds_controller.DiskLed.Blinking.{AreShown, AreShown-same, AreShown-set, AreShown-get}
use ugreen_leds_controller.DiskLed.Activity.{start_blink-Started, expire_slots-Expired}

-- What reaches the disks from outside between two rescans.
pub data Event : Type 0 where
  activity : (led_id : ℕ) → Event
  expiry : Event

module _ (env : Env) (config : Config) where
  open env use {World}

  pub follow : List Event → Disks World → Disks World
  follow [] d = d
  follow (activity led_id ∷ es) d = follow es (handle_activity env config led_id d).1
  follow (expiry ∷ es) d = follow es (handle_timer env config d).1

module _ (env : Env) (mcu : Mcu env) (timers : Timers env mcu) (config : Config)
    (in_range : InRange config) where
  open env use {World, clock_gettime, timerfd_read}
  open mcu use {shown}

  -- The slots are those of LEDs 2 to 9, the LEDs of active slots blink as configured, and the cache
  -- agrees with all LEDs.
  pub record IsFollowed (d : Disks World) : Type 0 where
    pub shows : AreShown env mcu config in_range 2 d.slots d.session.world
    pub coherent : IsCoherent env mcu d.session
    pub fits : length d.slots ≤ ugreen_disk_count

  pub quiet-IsFollowed :
      (d : Disks World) (w : World)
      → ((i : ℕ) → shown w i ≡ shown d.session.world i)
      → IsFollowed d
      → IsFollowed (record d { session = record d.session { world = w } })
  quiet-IsFollowed d w same inv = record {
    shows =
        AreShown-same env mcu config in_range 2 d.slots d.session.world w (λ j le. same j)
          inv.shows;
    coherent = quiet-IsCoherent env mcu d.session w same inv.coherent;
    fits = inv.fits;
  }

  arm_timer-IsFollowed : (d : Disks World) → IsFollowed d → IsFollowed (arm_timer env config d).1
  unfolding arm_timer
  arm_timer-IsFollowed d inv =
      quiet-IsFollowed d _ (timers.settime_shows d.timer_fd 1 _ d.session.world) inv

  either-IsFollowed :
      (b : Bool) (x y : Status × Disks World)
      → (b ≡ true → IsFollowed x.1)
      → (b ≡ false → IsFollowed y.1)
      → IsFollowed (if b then x else y).1
  either-IsFollowed true x y h k = h refl
  either-IsFollowed false x y h k = k refl

  touch-IsFollowed :
      (led_id index : ℕ) (d : Disks World)
      → led_id ≡ 2 + index
      → (get_or d.slots index no_slot).present ≡ true
      → IsFollowed d
      → IsFollowed (touch env config led_id index d).1
  unfolding touch monotonic_ns
  touch-IsFollowed led_id index d at present inv =
      let timed = clock_gettime d.session.world in
      let ready = quiet-IsFollowed d timed.1 (timers.clock_shows d.session.world) inv in
      let s : Session World = record d.session { world = timed.1 } in
      let got =
        AreShown-get env mcu config in_range 2 index led_id d.slots timed.1 at present
          ready.shows in
      let slot : DiskSlot = record (get_or d.slots index no_slot) {
        deadline_ns =
            ((monotonic_ns env config d.session.world).0 + config.disk_hold_ms * 1000000) % 2 ^ 64;
      } in
      let started =
        start_blink-Started env mcu config in_range led_id slot s got.0
          (omega (arith, at, got.2, inv.fits)) got.1 ready.coherent in
      let r = start_blink env config led_id slot s in
      let d' : Disks World = record d { slots = set d.slots index r.0; session = r.1 } in
      let after : IsFollowed d' = record {
        shows =
            AreShown-set env mcu config in_range 2 index led_id d.slots r.0 timed.1 r.1.world at
              started.local.elsewhere started.same_led started.blinks ready.shows;
        coherent = started.local.coherent;
        fits = omega (arith, length-set d.slots index r.0, inv.fits);
      } in
      either-IsFollowed r.0.active _ (ok, d') (λ on. arm_timer-IsFollowed d' after) (λ off. after)

  pub handle_activity-IsFollowed :
      (led_id : ℕ) (d : Disks World)
      → IsFollowed d
      → IsFollowed (handle_activity env config led_id d).1
  unfolding handle_activity
  handle_activity-IsFollowed led_id d inv =
      let index = led_id - 2 in
      either-IsFollowed (ltb led_id 2) (err einval, d) _ (λ low. inv)
        (λ high.
          either-IsFollowed (leb d.slot_count index || not (get_or d.slots index no_slot).present)
            (ok, d) _ (λ out. inv)
            (λ within. touch-IsFollowed led_id index d (ground arith) (ground arith) inv))

  pub handle_timer-IsFollowed :
      (d : Disks World) → IsFollowed d → IsFollowed (handle_timer env config d).1
  unfolding handle_timer monotonic_ns
  handle_timer-IsFollowed d inv =
      let timed = clock_gettime d.session.world in
      let size = timerfd_read d.timer_fd timed.1 in
      let read =
        quiet-IsFollowed d size.1
          (λ i. timers.read_shows d.timer_fd timed.1 i ∙ timers.clock_shows d.session.world i)
          inv in
      let s : Session World = record d.session { world = size.1 } in
      let expired =
        expire_slots-Expired env mcu config in_range d.slot_count
          (monotonic_ns env config d.session.world).0 2 d.slots s (omega (arith, inv.fits))
          read.shows read.coherent in
      either-IsFollowed (read_failed size.0) (size.0, record d { session = s }) _ (λ failed. read)
        (λ fired. arm_timer-IsFollowed _ (record {
          shows = expired.shows;
          coherent = expired.coherent;
          fits = omega (arith, expired.same_length, inv.fits);
        }))

  -- After any activity reports, for any LED numbers, and any expirations of the timer, whatever the
  -- bus and the timer calls do: the LED of every active slot blinks as configured, and the cache
  -- agrees with all LEDs.
  pub follow-IsFollowed :
      (es : List Event) (d : Disks World) → IsFollowed d → IsFollowed (follow env config es d)
  unfolding follow
  follow-IsFollowed [] d inv = inv
  follow-IsFollowed (activity led_id ∷ es) d inv =
      follow-IsFollowed es (handle_activity env config led_id d).1
        (handle_activity-IsFollowed led_id d inv)
  follow-IsFollowed (expiry ∷ es) d inv =
      follow-IsFollowed es (handle_timer env config d).1 (handle_timer-IsFollowed d inv)
