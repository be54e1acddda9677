-- ===== src/Bpf/Tests.antt =====
-- The programs on concrete packets and interleavings.
use ugreen_leds_controller.Prelude.{
  ℕ, ◌+◌, ◌≡◌, ◌≤◌, ◌==◌, refl, arith, true, false, List, [], ◌∷◌, Option, some, map,
}
use ugreen_leds_controller.Bpf.{BpfConfig, LedEvent}
use ugreen_leds_controller.Bpf.Network.{
  NetworkState, Packet, account_packets, account_packet, add_bytes,
}
use ugreen_leds_controller.Bpf.Conserved.{
  sum_packets, sum_events, rx_of, tx_of, account_packets-conserves, account_packets-reports_at_most,
}
use ugreen_leds_controller.Bpf.Spacing.{IsSpaced, account_packets-IsSpaced}
use ugreen_leds_controller.Bpf.Disk.{
  System, Step, issue, swap, idle, disk_steps, disk_step, compare_and_swap, swap_deadline,
}
use ugreen_leds_controller.Bpf.Deadlines.{IsTimed, disk_steps-IsTimed}

abbrev config : Option BpfConfig
config = some (record { network_interval_ns = 100; disk_interval_ns = 0 })

abbrev packets : List Packet
packets =
    record { len = 60; ifindex = 2; is_rx = true; now = 1000; has_room = true }
    ∷ record { len = 1500; ifindex = 2; is_rx = false; now = 1050; has_room = true }
    ∷ record { len = 40; ifindex = 2; is_rx = true; now = 1010; has_room = true }
    ∷ record { len = 7; ifindex = 2; is_rx = false; now = 1100; has_room = true }
    ∷ []

abbrev empty : NetworkState
empty = record { rx_bytes = 0; tx_bytes = 0; next_emit_ns = 0 }

packets_run :
    map {B = ℕ × ℕ}
      (λ (e : LedEvent). (e.first_bytes, e.second_bytes))
      (account_packets config packets empty).0
    ≡ (60, 0) ∷ (40, 1507) ∷ []
unfolding account_packets account_packet add_bytes
packets_run = refl

account_packets-conserves_example :
    let r = account_packets config packets empty in
    (sum_events (λ e. e.first_bytes) r.0 + r.1.rx_bytes ≡ 0 + sum_packets rx_of packets)
    × (sum_events (λ e. e.second_bytes) r.0 + r.1.tx_bytes ≡ 0 + sum_packets tx_of packets)
account_packets-conserves_example =
    account_packets-conserves config packets empty (refl, (refl, (refl, (refl, tt)))) (omega arith)
      (omega arith)

-- The second event finds no room.
abbrev crowded : List Packet
crowded = map (λ (p : Packet). record p { has_room = p.now == 1000 }) packets

crowded_run :
    (sum_events (λ e. e.first_bytes) (account_packets config crowded empty).0 ≡ 60)
    × (sum_packets rx_of crowded ≡ 100)
unfolding account_packets account_packet add_bytes
crowded_run = (refl, refl)

account_packets-reports_at_most_example :
    let r = account_packets config crowded empty in
    (sum_events (λ e. e.first_bytes) r.0 + r.1.rx_bytes ≤ 0 + sum_packets rx_of crowded)
    × (sum_events (λ e. e.second_bytes) r.0 + r.1.tx_bytes ≤ 0 + sum_packets tx_of crowded)
account_packets-reports_at_most_example = account_packets-reports_at_most config crowded empty

account_packets-IsSpaced_example : IsSpaced 100 0 (account_packets config packets empty).0
account_packets-IsSpaced_example = account_packets-IsSpaced config packets empty (omega arith)

-- One disk with LED 2 on device 8, seen by two CPUs.
abbrev one_disk : System
one_disk = record {
  targets = λ dev. some 2;
  states = λ dev. some 0;
  cpus = λ cpu. idle;
  events = [];
}

-- Both CPUs read the deadline before either swaps it; the first swap wins.
abbrev steps : List Step
steps = issue 0 8 5000 ∷ issue 1 8 5001 ∷ swap 1 ∷ swap 0 ∷ issue 0 8 5002 ∷ swap 0 ∷ []

race_run :
    map (λ (e : LedEvent). e.timestamp_ns) (disk_steps config steps one_disk).events ≡ 5001 ∷ []
unfolding disk_steps disk_step compare_and_swap swap_deadline
race_run = refl

zero_deadline : (v : ℕ) → some 0 ≡ some v → v ≡ 0
zero_deadline v e = ground arith

disk_steps-IsTimed_example : IsTimed config (disk_steps config steps one_disk)
disk_steps-IsTimed_example =
    disk_steps-IsTimed config steps one_disk (omega arith)
      (record { spaced = tt; deadlines = λ dev. zero_deadline; ready = λ cpu. tt })
