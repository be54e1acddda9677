-- ===== src/DiskLed/Slots.antt =====
-- The slots of ebpf/src/disk_led.c and what activity and the timer do with them. The diagnostics on
-- stderr are left out.
use ugreen_leds_controller.Prelude.{
  ℕ, zero, suc, ◌+◌, ◌-◌, ◌*◌, ◌/◌, ◌%◌, ◌^◌, Bool, true, false, ◌&&◌, ◌||◌, not, List, [], ◌∷◌,
  Option, some, none, ◌==◌, ltb, leb, if◌then◌else◌, get_or, set,
}
use ugreen_leds_controller.Types.{ugreen_led_disk_first}
use ugreen_leds_controller.Status.{Status, ok, err, einval, Op, ◌>>◌}
use ugreen_leds_controller.Env.{Env, Fd, TimerValue}
use ugreen_leds_controller.Config.{Config, config_disk_color}
use ugreen_leds_controller.Controller.State.{Session, invalidate}
use ugreen_leds_controller.Controller.Commands.{set_color, set_brightness, set_on, set_blink}
use ugreen_leds_controller.Controller.Timers.{read_failed}

pub record DiskSlot : Type 0 where
  pub led_id : ℕ
  pub present : Bool
  pub active : Bool
  pub dev : ℕ
  pub name : List ℕ
  pub deadline_ns : ℕ

-- `struct disk_leds` with the controller that it points to.
pub record Disks (W : Type 0) : Type 0 where
  pub slots : List DiskSlot
  pub slot_count : ℕ
  pub product_name : List ℕ
  pub timer_fd : Fd
  pub uevent_fd : Fd
  pub session : Session W

abbrev pub no_slot : DiskSlot
no_slot = record {
  led_id = 0;
  present = false;
  active = false;
  dev = 0;
  name = [];
  deadline_ns = 0;
}

abbrev pub uint64_max : ℕ
uint64_max = 2 ^ 64 - 1

abbrev pub time_ns : Option TimerValue → ℕ
time_ns none = 0
time_ns (some t) = (t.tv_sec * 1000000000 + t.tv_nsec) % 2 ^ 64

-- The loop of `arm_timer`: the earliest deadline of the first `left` slots, below `earliest`.
unfoldable pub earliest_deadline : (left earliest : ℕ) → List DiskSlot → ℕ
earliest_deadline zero earliest slots = earliest
earliest_deadline (suc left) earliest [] = earliest
earliest_deadline (suc left) earliest (slot ∷ slots) =
    let next =
      if slot.active && ltb slot.deadline_ns earliest then slot.deadline_ns else earliest in
    earliest_deadline left next slots

-- The timer of `arm_timer`; both 0 disarm it.
unfoldable pub deadline_timer : ℕ → TimerValue
deadline_timer earliest =
    if earliest == uint64_max
    then record { tv_sec = 0; tv_nsec = 0 }
    else record { tv_sec = earliest / 1000000000; tv_nsec = earliest % 1000000000 }

-- The lit time and the dark time of a blink; the difference is unsigned.
abbrev pub blink_times : Config → ℕ × ℕ
blink_times config =
    let rest_ms = (config.disk_interval_ms + 2 ^ 32 - config.disk_pulse_ms) % 2 ^ 32 in
    if config.disk_invert then (rest_ms, config.disk_pulse_ms) else (config.disk_pulse_ms, rest_ms)

abbrev pub forget : {W : Type 0} → ℕ → Session W → Session W
forget led_id s = record s { controller = invalidate s.controller led_id }

abbrev pub tfd_timer_abstime : ℕ
tfd_timer_abstime = 1

module _ (env : Env) (config : Config) where
  open env use {World, timerfd_settime, timerfd_read, clock_gettime, close}

  unfoldable pub monotonic_ns : World → ℕ × World
  monotonic_ns w = let (t, w') = clock_gettime w in (time_ns t, w')

  -- The colour of slot `led_id - UGREEN_LED_DISK_FIRST`, which is unsigned.
  unfoldable pub set_steady : DiskSlot → Op (Session World)
  set_steady slot =
      let index = (slot.led_id + 2 ^ 32 - ugreen_led_disk_first) % 2 ^ 32 in
      set_color env slot.led_id (config_disk_color config index)
      >> set_brightness env slot.led_id (config.disk_brightness % 256)
      >> set_on env slot.led_id config.disk_invert

  unfoldable pub arm_timer : Disks World → Status × Disks World
  unfolding earliest_deadline deadline_timer
  arm_timer d =
      let earliest = earliest_deadline d.slot_count uint64_max d.slots in
      let (result, w) =
        timerfd_settime d.timer_fd tfd_timer_abstime (deadline_timer earliest) d.session.world in
      (result, record d { session = record s { world = w } })
    where
      s : Session World
      s = d.session

  -- After `led_controller_set_blink`: the slot is active, or its cache entry is dropped.
  abbrev pub blinked : DiskSlot → Status × Session World → DiskSlot × Session World
  blinked slot (ok, s) = (record slot { active = true }, s)
  blinked slot (err e, s) = (slot, forget slot.led_id s)

  abbrev pub start_blink : ℕ → DiskSlot → Session World → DiskSlot × Session World
  start_blink led_id slot s =
      if slot.active
      then (slot, s)
      else blinked slot (
          set_blink env led_id ((blink_times config).0 % 65536) ((blink_times config).1 % 65536)
            false s)

  -- The rest of `disk_leds_handle_activity` for a disk that is there.
  unfoldable pub touch : ℕ → ℕ → Disks World → Status × Disks World
  unfolding arm_timer
  touch led_id index d =
      let (time, w) = monotonic_ns d.session.world in
      let slot : DiskSlot = record (get_or d.slots index no_slot) {
        deadline_ns = (time + config.disk_hold_ms * 1000000) % 2 ^ 64;
      } in
      let (slot', s) = start_blink led_id slot (record d.session { world = w }) in
      let d' : Disks World = record d { slots = set d.slots index slot'; session = s } in
      if slot'.active then arm_timer d' else (ok, d')

  unfoldable pub handle_activity : ℕ → Disks World → Status × Disks World
  handle_activity led_id d =
      let index = led_id - ugreen_led_disk_first in
      if ltb led_id ugreen_led_disk_first
      then (err einval, d)
      else if leb d.slot_count index || not (get_or d.slots index no_slot).present
      then (ok, d)
      else touch led_id index d

  -- After `set_steady` in `disk_leds_handle_timer`: a failure drops the cache entry.
  abbrev pub rested : ℕ → Status × Session World → Session World
  rested led_id (ok, s) = s
  rested led_id (err e, s) = forget led_id s

  -- The body of the loop of `disk_leds_handle_timer`.
  unfoldable pub expire_slot : ℕ → DiskSlot → Session World → DiskSlot × Session World
  unfolding set_steady
  expire_slot now slot s =
      if not slot.active || ltb now slot.deadline_ns
      then (slot, s)
      else (record slot { active = false; deadline_ns = 0 }, rested slot.led_id (set_steady slot s))

  unfoldable pub expire_slots :
      (left now : ℕ) → List DiskSlot → Session World → List DiskSlot × Session World
  unfolding expire_slot
  expire_slots zero now slots s = (slots, s)
  expire_slots (suc left) now [] s = ([], s)
  expire_slots (suc left) now (slot ∷ slots) s =
      let (slot', t) = expire_slot now slot s in
      let (slots', u) = expire_slots left now slots t in (slot' ∷ slots', u)

  unfoldable pub handle_timer : Disks World → Status × Disks World
  unfolding monotonic_ns expire_slots arm_timer
  handle_timer d =
      let (now, w1) = monotonic_ns d.session.world in
      let (size, w2) = timerfd_read d.timer_fd w1 in
      let s : Session World = record d.session { world = w2 } in
      let (slots, t) = expire_slots d.slot_count now d.slots s in
      if read_failed size
      then (size, record d { session = s })
      else arm_timer (record d { slots = slots; session = t })

  -- The loop of `disk_leds_cleanup`.
  unfoldable pub rest_slots : (left : ℕ) → List DiskSlot → Session World → Session World
  rest_slots zero slots s = s
  rest_slots (suc left) [] s = s
  rest_slots (suc left) (slot ∷ slots) s =
      rest_slots left slots (if slot.present then (set_steady slot s).1 else s)

  abbrev pub close_open : Fd → World → World
  close_open none w = w
  close_open (some fd) w = close (some fd) w

  unfoldable pub cleanup : Disks World → Disks World
  cleanup d =
      let s = rest_slots d.slot_count d.slots d.session in
      record d {
        timer_fd = none;
        uevent_fd = none;
        session = record s { world = close_open d.uevent_fd (close_open d.timer_fd s.world) };
      }
