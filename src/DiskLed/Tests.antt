-- ===== src/DiskLed/Tests.antt =====
-- Two disks over the simulated MCU, device paths of a DXP6800, and the theorems on them.
use ugreen_leds_controller.Prelude.{
  ℕ, ◌≡◌, ◌<◌, ◌⊎◌, refl, arith, true, false, List, [], ◌∷◌, some, get_or, replicate,
}
use ugreen_leds_controller.Types.{ugreen_disk_count}
use ugreen_leds_controller.Sim.Desk.{formats}
use ugreen_leds_controller.Sim.Quiet.{kernel}
use ugreen_leds_controller.DiskLed.Discovery.{discover_entries}
use ugreen_leds_controller.DiskLed.Found.{first_at, slot_for, locate_all, discover_entries-first_at}
use ugreen_leds_controller.Config.{set_defaults, codes}
use ugreen_leds_controller.Config.Bounds.{set_defaults-InRange}
use ugreen_leds_controller.Sim.{sim, sim_mcu, SimWorld, broken, start_session, at_start}
use ugreen_leds_controller.Sim.Start.{sim_timers, start-IsCoherent}
use ugreen_leds_controller.DiskLed.Layout.{
  Scanner, slot_count, hctl_slot, ata_slot, host_slot, port_slot, ata_from,
}
use ugreen_leds_controller.DiskLed.Places.{
  host_slot-injective, port_slot-injective, hctl_slot-bound, ata_slot-bound,
}
use ugreen_leds_controller.DiskLed.Slots.{
  no_slot, DiskSlot, Disks, uint64_max, earliest_deadline, deadline_timer, handle_timer,
  expire_slots, expire_slot, monotonic_ns,
}
use ugreen_leds_controller.DiskLed.Expiry.{handle_timer_pending}
use ugreen_leds_controller.DiskLed.Deadline.{
  slot_at, IsDisarmed, IsEarliest, deadline_timer-IsEarliest,
}
use ugreen_leds_controller.DiskLed.Following.{
  Event, activity, expiry, follow, IsFollowed, follow-IsFollowed,
}

abbrev disk : ℕ → DiskSlot
disk led_id = record {
  led_id = led_id;
  present = true;
  active = false;
  dev = 8388608;
  name = codes "sda";
  deadline_ns = 0;
}

abbrev two_disks : Disks SimWorld
two_disks = record {
  slots = disk 2 ∷ disk 3 ∷ [];
  slot_count = 2;
  product_name = codes "DXP2800";
  timer_fd = some 7;
  uevent_fd = some 8;
  session = start_session (broken ∷ []);
}

abbrev events : List Event
events = activity 3 ∷ activity 9 ∷ activity 2 ∷ expiry ∷ activity 3 ∷ []

follow-IsFollowed_example :
    IsFollowed sim sim_mcu sim_timers set_defaults set_defaults-InRange
      (follow sim set_defaults events two_disks)
follow-IsFollowed_example =
    follow-IsFollowed sim sim_mcu sim_timers set_defaults set_defaults-InRange events two_disks
      (record {
        shows = (refl, (λ on. absurd (cc)), (refl, (λ on. absurd (cc)), tt));
        coherent = start-IsCoherent (broken ∷ []);
        fits = omega arith;
      })

abbrev busy_slots : List DiskSlot
busy_slots =
    record (disk 2) { active = true; deadline_ns = 7000000123 }
    ∷ record (disk 3) { active = true; deadline_ns = 6999999999 }
    ∷ []

deadline_timer-IsEarliest_example :
    let t = deadline_timer (earliest_deadline 2 uint64_max busy_slots) in
    IsDisarmed 2 busy_slots t ⊎ IsEarliest 2 busy_slots t
deadline_timer-IsEarliest_example = deadline_timer-IsEarliest 2 busy_slots

abbrev product : List ℕ
product = codes "DXP6800 Pro"

-- The numbers of the two paths below.
abbrev scan : Scanner
scan = record {
  hctl = λ text. some (record { host = 3; channel = 0; target = 0; lun = 0 });
  ata = λ text. some 6;
}

abbrev path : List ℕ
path = codes "/sys/devices/pci0000:00/ata6/host5/target5:0:0/5:0:0:0/block/sdf"

ata_runs : ata_slot scan product (slot_count product) path ≡ some 3
unfolding ata_slot ata_from port_slot slot_count
ata_runs = refl

hctl_runs : hctl_slot scan product (slot_count product) path ≡ some 1
unfolding hctl_slot host_slot slot_count
hctl_runs = refl

ata_slot-bound_example : 3 < slot_count product
ata_slot-bound_example = ata_slot-bound scan product path 3 ata_runs

hctl_slot-bound_example : 1 < slot_count product
hctl_slot-bound_example = hctl_slot-bound scan product path 1 hctl_runs

abbrev port : ℕ
port = 5

host_runs : host_slot product 6 port ≡ some 3
unfolding host_slot
host_runs = refl

port_runs : port_slot product 6 port ≡ some 2
unfolding port_slot
port_runs = refl

host_slot-injective_example : port ≡ port
host_slot-injective_example = host_slot-injective product 6 port port 3 host_runs host_runs

port_slot-injective_example : port ≡ port
port_slot-injective_example = port_slot-injective product 6 port port 2 port_runs port_runs

-- At 5 s, the blink of the disk that waits for 6.999999999 s goes on.
abbrev busy_disks : Disks SimWorld
busy_disks = record two_disks { slots = busy_slots }

stays_active : (slot_at (handle_timer sim set_defaults busy_disks).1.slots 1).active ≡ true
unfolding handle_timer expire_slots expire_slot monotonic_ns
stays_active = refl

handle_timer_pending_example :
    (monotonic_ns sim set_defaults (start_session (broken ∷ [])).world).0
    < (slot_at (handle_timer sim set_defaults busy_disks).1.slots 1).deadline_ns
unfolding monotonic_ns
handle_timer_pending_example =
    handle_timer_pending sim set_defaults busy_disks 1 (omega arith) refl stays_active

discover_entries-first_at_example :
    get_or
      (discover_entries sim kernel formats set_defaults
        (codes "DXP2800")
        2
        (codes "sda" ∷ codes "sdb" ∷ [])
        (replicate ugreen_disk_count no_slot)
        (at_start [])).0
      0
      no_slot
    ≡ slot_for 0 (
        first_at 0 (
          locate_all sim kernel formats set_defaults
            (codes "DXP2800")
            2
            (codes "sda" ∷ codes "sdb" ∷ [])
            (at_start [])))
discover_entries-first_at_example =
    discover_entries-first_at sim kernel formats set_defaults (codes "DXP2800") 2 0
      (codes "sda" ∷ codes "sdb" ∷ []) (at_start []) (omega arith)
