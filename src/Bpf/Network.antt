-- ===== src/Bpf/Network.antt =====
-- ebpf/bpf/network.bpf.c: `account_packet`. The map entry of an array map always exists; the section
-- under the spin lock is one step.
use ugreen_leds_controller.Prelude.{
  ℕ, ◌+◌, Bool, ◌||◌, List, [], ◌∷◌, Option, none, some, ◌==◌, leb, if◌then◌else◌,
}
use ugreen_leds_controller.Bpf.{u64, LedEvent, BpfConfig, event_network, network_interval}

pub record NetworkState : Type 0 where
  pub rx_bytes : ℕ
  pub tx_bytes : ℕ
  pub next_emit_ns : ℕ

-- A packet as the program sees it: `skb->len`, `skb->ifindex`, its direction, the clock, and whether
-- the ring buffer has room for an event.
pub record Packet : Type 0 where
  pub len : ℕ
  pub ifindex : ℕ
  pub is_rx : Bool
  pub now : ℕ
  pub has_room : Bool

unfoldable pub add_bytes : Packet → NetworkState → NetworkState
add_bytes p s =
    if p.is_rx
    then record s { rx_bytes = u64 (s.rx_bytes + p.len) }
    else record s { tx_bytes = u64 (s.tx_bytes + p.len) }

abbrev pub is_due : NetworkState → ℕ → Bool
is_due s now = s.next_emit_ns == 0 || leb s.next_emit_ns now

abbrev pub report : Packet → NetworkState → LedEvent
report p s = record {
  timestamp_ns = p.now;
  first_bytes = s.rx_bytes;
  second_bytes = s.tx_bytes;
  source = p.ifindex;
  kind = event_network;
  led_id = 0;
}

-- `bpf_ringbuf_output`, whose result is ignored: without room the event is gone.
abbrev pub ringbuf_output : Packet → LedEvent → Option LedEvent
ringbuf_output p event = if p.has_room then some event else none

-- The event that gets into the ring buffer, if any, and the entry after it.
unfoldable pub account_packet :
    Option BpfConfig → Packet → NetworkState → Option LedEvent × NetworkState
account_packet config p s =
    let counted = add_bytes p s in
    if is_due counted p.now
    then (
      ringbuf_output p (report p counted),
      record { rx_bytes = 0; tx_bytes = 0; next_emit_ns = u64 (p.now + network_interval config) },
    )
    else (none, counted)

abbrev pub emit : Option LedEvent → List LedEvent → List LedEvent
emit none events = events
emit (some e) events = e ∷ events

-- The packets of an interface in the order in which they take the lock.
unfoldable pub account_packets :
    Option BpfConfig → List Packet → NetworkState → List LedEvent × NetworkState
account_packets config [] s = ([], s)
account_packets config (p ∷ ps) s =
    let (e, t) = account_packet config p s in
    let (es, u) = account_packets config ps t in (emit e es, u)
