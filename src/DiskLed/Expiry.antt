-- ===== src/DiskLed/Expiry.antt =====
-- After the timer, no slot is active past its deadline.
use ugreen_leds_controller.Prelude.{
  ℕ, zero, suc, ◌<◌, ◌≡◌, refl, arith, Bool, true, false, ◌||◌, not, List, [], ◌∷◌, ltb,
  if◌then◌else◌, subst, sym,
}
use ugreen_leds_controller.Env.{Env}
use ugreen_leds_controller.Config.{Config}
use ugreen_leds_controller.Controller.State.{Session}
use ugreen_leds_controller.Controller.Timers.{read_failed}
use ugreen_leds_controller.DiskLed.Slots.{
  DiskSlot, Disks, expire_slot, expire_slots, handle_timer, monotonic_ns, arm_timer,
}
use ugreen_leds_controller.DiskLed.Deadline.{slot_at}

module _ (env : Env) (config : Config) where
  open env use {World, timerfd_read}

  either_pending :
      (b : Bool) (now : ℕ) (slot : DiskSlot) (s t : Session World)
      → (b ≡ true → slot.active ≡ true → now < slot.deadline_ns)
      → let r : DiskSlot × Session World =
          if b then (slot, s) else (record slot { active = false; deadline_ns = 0 }, t) in
        r.0.active ≡ true → now < r.0.deadline_ns
  either_pending true now slot s t h = h refl
  either_pending false now slot s t h = λ on. absurd (cc)

  expire_slot_pending :
      (now : ℕ) (slot : DiskSlot) (s : Session World)
      → (expire_slot env config now slot s).0.active ≡ true
      → now < (expire_slot env config now slot s).0.deadline_ns
  unfolding expire_slot
  expire_slot_pending now slot s =
      either_pending (not slot.active || ltb now slot.deadline_ns) now slot s _
        (λ h on. ground arith)

  expire_slots_pending :
      (left now i : ℕ) (slots : List DiskSlot) (s : Session World)
      → i < left
      → let slots' = (expire_slots env config left now slots s).0 in
        (slot_at slots' i).active ≡ true → now < (slot_at slots' i).deadline_ns
  unfolding expire_slots
  expire_slots_pending zero now i slots s lt = absurd (omega arith)
  expire_slots_pending (suc left) now i [] s lt = λ on. absurd (cc)
  expire_slots_pending (suc left) now zero (slot ∷ slots) s lt = expire_slot_pending now slot s
  expire_slots_pending (suc left) now (suc i) (slot ∷ slots) s lt =
      expire_slots_pending left now i slots (expire_slot env config now slot s).1 (omega arith)

  handle_timer-slots :
      (d : Disks World)
      → read_failed (timerfd_read d.timer_fd (monotonic_ns env config d.session.world).1).0 ≡ false
      → (handle_timer env config d).1.slots
        ≡ (expire_slots env config d.slot_count
            (monotonic_ns env config d.session.world).0
            d.slots
            (record d.session {
              world = (timerfd_read d.timer_fd (monotonic_ns env config d.session.world).1).1;
            })).0
  unfolding handle_timer arm_timer
  handle_timer-slots d read = rw read

  -- Unless the read of the timer failed, a slot in range that is active after
  -- `disk_leds_handle_timer` has its deadline after the time at which the function began.
  pub handle_timer_pending :
      (d : Disks World) (i : ℕ)
      → i < d.slot_count
      → read_failed (timerfd_read d.timer_fd (monotonic_ns env config d.session.world).1).0 ≡ false
      → (slot_at (handle_timer env config d).1.slots i).active ≡ true
      → (monotonic_ns env config d.session.world).0
        < (slot_at (handle_timer env config d).1.slots i).deadline_ns
  handle_timer_pending d i lt read on =
      let timed = monotonic_ns env config d.session.world in
      let s : Session World = record d.session { world = (timerfd_read d.timer_fd timed.1).1 } in
      subst (λ slots. timed.0 < (slot_at slots i).deadline_ns) (sym (handle_timer-slots d read))
        (expire_slots_pending d.slot_count timed.0 i d.slots s lt
          (subst (λ slots. (slot_at slots i).active ≡ true) (handle_timer-slots d read) on))
