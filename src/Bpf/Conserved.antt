-- ===== src/Bpf/Conserved.antt =====
-- The bytes of the packets against those of the events.
use ugreen_leds_controller.Prelude.{
  ℕ, ◌+◌, ◌<◌, ◌≤◌, ◌≡◌, true, arith, List, [], ◌∷◌, Option, none, some, if◌then◌else◌,
}
use ugreen_leds_controller.Bpf.{word, LedEvent, BpfConfig}
use ugreen_leds_controller.Bpf.Network.{
  NetworkState, Packet, add_bytes, account_packet, account_packets, emit,
}

abbrev pub rx_of : Packet → ℕ
rx_of p = if p.is_rx then p.len else 0

abbrev pub tx_of : Packet → ℕ
tx_of p = if p.is_rx then 0 else p.len

abbrev pub sum_packets : (Packet → ℕ) → List Packet → ℕ
sum_packets f [] = 0
sum_packets f (p ∷ ps) = f p + sum_packets f ps

abbrev pub sum_events : (LedEvent → ℕ) → List LedEvent → ℕ
sum_events f [] = 0
sum_events f (e ∷ es) = f e + sum_events f es

-- The ring buffer takes every event.
abbrev pub AllHaveRoom : List Packet → Type 0
AllHaveRoom [] = Unit {0}
AllHaveRoom (p ∷ ps) = (p.has_room ≡ true) × AllHaveRoom ps

-- What the event of one packet carries, and what stays in the entry, where nothing wraps around.
exact_rx :
    (config : Option BpfConfig) (p : Packet) (s : NetworkState)
    → s.rx_bytes + rx_of p < word
    → p.has_room ≡ true
    → sum_events (λ (e : LedEvent). e.first_bytes) (emit (account_packet config p s).0 [])
        + (account_packet config p s).1.rx_bytes
      ≡ s.rx_bytes + rx_of p
unfolding account_packet add_bytes
exact_rx config p s fits room = ground arith

exact_tx :
    (config : Option BpfConfig) (p : Packet) (s : NetworkState)
    → s.tx_bytes + tx_of p < word
    → p.has_room ≡ true
    → sum_events (λ (e : LedEvent). e.second_bytes) (emit (account_packet config p s).0 [])
        + (account_packet config p s).1.tx_bytes
      ≡ s.tx_bytes + tx_of p
unfolding account_packet add_bytes
exact_tx config p s fits room = ground arith

-- The same with an event that may be lost, and with wrap-around.
most_rx :
    (config : Option BpfConfig) (p : Packet) (s : NetworkState)
    → sum_events (λ (e : LedEvent). e.first_bytes) (emit (account_packet config p s).0 [])
        + (account_packet config p s).1.rx_bytes
      ≤ s.rx_bytes + rx_of p
unfolding account_packet add_bytes
most_rx config p s = ground arith

most_tx :
    (config : Option BpfConfig) (p : Packet) (s : NetworkState)
    → sum_events (λ (e : LedEvent). e.second_bytes) (emit (account_packet config p s).0 [])
        + (account_packet config p s).1.tx_bytes
      ≤ s.tx_bytes + tx_of p
unfolding account_packet add_bytes
most_tx config p s = ground arith

sum-emit :
    (f : LedEvent → ℕ) (e : Option LedEvent) (es : List LedEvent)
    → sum_events f (emit e es) ≡ sum_events f (emit e []) + sum_events f es
sum-emit f none es = omega arith
sum-emit f (some e) es = omega arith

-- If the ring buffer has room for every event and all received bytes fit in 64 bits, the bytes that
-- the events report and the bytes still in the entry are the bytes of the packets, none lost and none
-- twice; and so for the sent bytes.
pub account_packets-conserves :
    (config : Option BpfConfig) (ps : List Packet) (s : NetworkState)
    → AllHaveRoom ps
    → s.rx_bytes + sum_packets rx_of ps < word
    → s.tx_bytes + sum_packets tx_of ps < word
    → let r = account_packets config ps s in
      (sum_events (λ e. e.first_bytes) r.0 + r.1.rx_bytes ≡ s.rx_bytes + sum_packets rx_of ps)
      × (sum_events (λ e. e.second_bytes) r.0 + r.1.tx_bytes ≡ s.tx_bytes + sum_packets tx_of ps)
unfolding account_packets
account_packets-conserves config [] s room rx tx = omega arith
account_packets-conserves config (p ∷ ps) s room rx tx =
    let here_rx = exact_rx config p s (omega arith) room.0 in
    let here_tx = exact_tx config p s (omega arith) room.0 in
    let e = (account_packet config p s).0 in
    let t = (account_packet config p s).1 in
    let rest = account_packets-conserves config ps t room.1 (omega arith) (omega arith) in
    let es = (account_packets config ps t).0 in
    let all_rx = sum-emit (λ (x : LedEvent). x.first_bytes) e es in
    let all_tx = sum-emit (λ (x : LedEvent). x.second_bytes) e es in omega arith

-- Whatever room the ring buffer has and whether or not the counters wrap around, the events never
-- report more bytes than the packets carried: those of the events and those still in the entry are
-- together at most the bytes in the entry before and those of the packets, received and sent.
pub account_packets-reports_at_most :
    (config : Option BpfConfig) (ps : List Packet) (s : NetworkState)
    → let r = account_packets config ps s in
      (sum_events (λ e. e.first_bytes) r.0 + r.1.rx_bytes ≤ s.rx_bytes + sum_packets rx_of ps)
      × (sum_events (λ e. e.second_bytes) r.0 + r.1.tx_bytes ≤ s.tx_bytes + sum_packets tx_of ps)
unfolding account_packets
account_packets-reports_at_most config [] s = omega arith
account_packets-reports_at_most config (p ∷ ps) s =
    let here_rx = most_rx config p s in
    let here_tx = most_tx config p s in
    let e = (account_packet config p s).0 in
    let t = (account_packet config p s).1 in
    let rest = account_packets-reports_at_most config ps t in
    let es = (account_packets config ps t).0 in
    let all_rx = sum-emit (λ (x : LedEvent). x.first_bytes) e es in
    let all_tx = sum-emit (λ (x : LedEvent). x.second_bytes) e es in omega arith
