-- ===== src/DiskLed/Rescan.antt =====
-- ebpf/src/disk_led.c: `rescan` with its loop over the slots, and `disk_leds_init`.
use ugreen_leds_controller.Prelude.{
  ℕ, zero, suc, ◌+◌, ◌-◌, ◌%◌, ◌^◌, Bool, true, false, ◌&&◌, not, List, [], ◌∷◌, none, some, ◌==◌,
  if◌then◌else◌, replicate,
}
use ugreen_leds_controller.Types.{ugreen_disk_count, ugreen_led_disk_first}
use ugreen_leds_controller.Status.{Status, ok, err}
use ugreen_leds_controller.Env.{Env, Reply, value, failed}
use ugreen_leds_controller.Config.{Config, codes}
use ugreen_leds_controller.Config.Values.{Parsed, bad}
use ugreen_leds_controller.Controller.State.{Session}
use ugreen_leds_controller.Controller.Commands.{set_on}
use ugreen_leds_controller.Kernel.{Kernel}
use ugreen_leds_controller.DiskLed.Layout.{slot_count}
use ugreen_leds_controller.DiskLed.Slots.{DiskSlot, Disks, no_slot, set_steady, forget}
use ugreen_leds_controller.DiskLed.Discovery.{Formats, read_line, discover}

abbrev pub bool_equal : Bool → Bool → Bool
bool_equal true b = b
bool_equal false b = not b

-- `old->present == new->present && old->dev == new->dev`
abbrev pub same_device : DiskSlot → DiskSlot → Bool
same_device old new = bool_equal old.present new.present && old.dev == new.dev

abbrev pub dmi_product_name : List ℕ
dmi_product_name = codes "/sys/class/dmi/id/product_name"

abbrev pub uint32_max : ℕ
uint32_max = 2 ^ 32 - 1

-- The slots of `disk_leds_init` from slot `slot` on.
abbrev pub initial_slots : (left slot : ℕ) → List DiskSlot
initial_slots zero slot = []
initial_slots (suc left) slot =
    record no_slot { led_id = (ugreen_led_disk_first + slot % 256) % 256; dev = uint32_max }
    ∷ initial_slots left (slot + 1)

abbrev pub product_or_unknown : Parsed (List ℕ) → List ℕ
product_or_unknown (Parsed.value name) = name
product_or_unknown (bad e) = codes "unknown"

-- `if (error < 0 && !first_error) first_error = error;`
abbrev pub first_of : Status → Status → Status
first_of ok s = s
first_of (err e) s = err e

-- What a loop over the slots leaves.
pub record Scanned (W : Type 0) : Type 0 where
  pub slots : List DiskSlot
  pub first_error : Status
  pub session : Session W

module _ (env : Env) (kernel : Kernel env.World) (formats : Formats) (config : Config) where
  open env use {World, close, timerfd_create}
  open kernel use {socket, bind}

  -- The LED of a slot whose device has changed.
  abbrev pub show_device : DiskSlot → Session World → Status × Session World
  show_device new s =
      if new.present then set_steady env config new s else set_on env new.led_id false s

  -- The body of the loop of `rescan`: the slot after it, the error of this round, the session.
  unfoldable pub rescan_slot :
      (slot : ℕ) → (old found : DiskSlot) → Session World → DiskSlot × Status × Session World
  unfolding set_steady
  rescan_slot slot old found s =
      let new : DiskSlot = record found { led_id = (ugreen_led_disk_first + slot % 256) % 256 } in
      let (error, t) = show_device new (forget new.led_id s) in
      if same_device old new then (old, ok, s) else (new, error, t)

  -- The loop from slot `slot`; `first_error` is that of the rounds before.
  unfoldable pub rescan_slots :
      (left slot : ℕ)
      → (olds founds : List DiskSlot) → (first_error : Status) → Session World
      → Scanned World
  unfolding rescan_slot
  rescan_slots zero slot olds founds first_error s = record {
    slots = olds;
    first_error = first_error;
    session = s;
  }
  rescan_slots (suc left) slot [] founds first_error s = record {
    slots = [];
    first_error = first_error;
    session = s;
  }
  rescan_slots (suc left) slot (old ∷ olds) [] first_error s = record {
    slots = old ∷ olds;
    first_error = first_error;
    session = s;
  }
  rescan_slots (suc left) slot (old ∷ olds) (found ∷ founds) first_error s =
      let (new, error, t) = rescan_slot slot old found s in
      let rest = rescan_slots left (slot + 1) olds founds (first_of first_error error) t in
      record rest { slots = new ∷ rest.slots }

  abbrev pub rescan_found : Disks World → Status × (List DiskSlot × World) → Status × Disks World
  rescan_found d (err e, (found, w)) = (err e, record d { session = record s { world = w } })
    where
      s : Session World
      s = d.session
  rescan_found d (ok, (found, w)) =
      let r = rescan_slots d.slot_count 0 d.slots found ok (record s { world = w }) in
      (r.first_error, record d { slots = r.slots; session = r.session })
    where
      s : Session World
      s = d.session

  unfoldable pub rescan : Disks World → Status × Disks World
  unfolding discover rescan_slots
  rescan d =
      rescan_found d
        (discover env kernel formats config d (replicate ugreen_disk_count no_slot) d.session.world)

  abbrev pub keep_socket : ℕ → Status × World → Reply × World
  keep_socket fd (ok, w) = (value fd, w)
  keep_socket fd (err e, w) = (failed e, close (some fd) w)

  abbrev pub bind_socket : Reply × World → Reply × World
  bind_socket (failed e, w) = (failed e, w)
  bind_socket (value fd, w) = keep_socket fd (bind fd w)

  unfoldable pub open_uevent_socket : World → Reply × World
  open_uevent_socket w = bind_socket (socket w)

  -- The record before the descriptors.
  abbrev pub blank_disks : List ℕ → Session World → Disks World
  blank_disks product_name s = record {
    slots = initial_slots ugreen_disk_count 0;
    slot_count = slot_count product_name;
    product_name = product_name;
    timer_fd = none;
    uevent_fd = none;
    session = s;
  }

  abbrev pub with_uevents : Disks World → ℕ → Reply × World → Status × Disks World
  with_uevents d timer (failed e, w) =
      (err e, record d { session = record s { world = close (some timer) w } })
    where
      s : Session World
      s = d.session
  with_uevents d timer (value fd, w) =
      rescan
        (record d { timer_fd = some timer; uevent_fd = some fd; session = record s { world = w } })
    where
      s : Session World
      s = d.session

  abbrev pub with_timer : Disks World → Reply × World → Status × Disks World
  with_timer d (failed e, w) = (err e, record d { session = record s { world = w } })
    where
      s : Session World
      s = d.session
  with_timer d (value timer, w) = with_uevents d timer (open_uevent_socket w)

  unfoldable pub disk_leds_init : Session World → Status × Disks World
  unfolding rescan open_uevent_socket slot_count
  disk_leds_init s =
      let (name, w) = read_line env kernel formats config dmi_product_name 128 s.world in
      with_timer (blank_disks (product_or_unknown name) (record s { world = w })) (timerfd_create w)
