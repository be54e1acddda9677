-- ===== src/Bpf/Spacing.antt =====
-- Network events keep their distance, also if the clocks of the packets are out of order: the clock
-- is read before the lock is taken.
use ugreen_leds_controller.Prelude.{
  ℕ, ◌+◌, ◌≤◌, ◌<◌, ◌≡◌, refl, arith, Bool, true, false, List, [], ◌∷◌, Option, none, some,
  if◌then◌else◌, subst,
}
use ugreen_leds_controller.Bpf.{u64, word, LedEvent, BpfConfig, network_interval}
use ugreen_leds_controller.Bpf.Network.{
  NetworkState, Packet, add_bytes, account_packet, account_packets, emit, is_due, report,
  ringbuf_output,
}

-- Events at least `gap` apart, the first not before `floor`.
abbrev pub IsSpaced : ℕ → ℕ → List LedEvent → Type 0
IsSpaced gap floor [] = Unit {0}
IsSpaced gap floor (e ∷ es) = (floor ≤ e.timestamp_ns) × IsSpaced gap (e.timestamp_ns + gap) es

abbrev pub ClockFits : ℕ → List Packet → Type 0
ClockFits gap [] = Unit {0}
ClockFits gap (p ∷ ps) = (p.now + gap < word) × ClockFits gap ps

add_bytes-deadline : (p : Packet) (s : NetworkState) → (add_bytes p s).next_emit_ns ≡ s.next_emit_ns
unfolding add_bytes
add_bytes-deadline p s = ground arith

module _ (config : Option BpfConfig) where
  abbrev gap : ℕ
  gap = network_interval config

  -- An event is not before the deadline, and the deadline moves behind it; it never moves back.
  Due : ℕ → Option LedEvent × NetworkState → Type 0
  Due deadline (none, t) = deadline ≤ t.next_emit_ns
  Due deadline (some e, t) = (deadline ≤ e.timestamp_ns) × (t.next_emit_ns ≡ e.timestamp_ns + gap)

  room-Due :
      (room : Bool) (p : Packet) (s : NetworkState) (rx tx : ℕ)
      → s.next_emit_ns ≤ p.now
      → p.now + gap < word
      → Due s.next_emit_ns (
        if room then some (report p s) else none,
        record { rx_bytes = rx; tx_bytes = tx; next_emit_ns = u64 (p.now + gap) },
      )
  unfolding Due
  room-Due true p s rx tx h fits = (h, omega arith)
  room-Due false p s rx tx h fits = omega arith

  either-Due :
      (due : Bool) (p : Packet) (s : NetworkState) (rx tx : ℕ)
      → (due ≡ true → s.next_emit_ns ≤ p.now)
      → p.now + gap < word
      → Due s.next_emit_ns (
          if due
          then (
            ringbuf_output p (report p s),
            record { rx_bytes = rx; tx_bytes = tx; next_emit_ns = u64 (p.now + gap) },
          )
          else (none, s))
  unfolding Due
  either-Due true p s rx tx h fits = room-Due p.has_room p s rx tx (h refl) fits
  either-Due false p s rx tx h fits = omega arith

  is_due_lem : (s : NetworkState) (now : ℕ) → is_due s now ≡ true → s.next_emit_ns ≤ now
  is_due_lem s now h = ground arith

  account_packet-Due :
      (p : Packet) (s : NetworkState)
      → p.now + gap < word
      → Due s.next_emit_ns (account_packet config p s)
  unfolding account_packet
  account_packet-Due p s fits =
      let counted = add_bytes p s in
      subst (λ d. Due d (account_packet config p s)) (add_bytes-deadline p s)
        (either-Due (is_due counted p.now) p counted 0 0 (is_due_lem counted p.now) fits)

  IsSpaced-later :
      (floor later : ℕ) (es : List LedEvent)
      → floor ≤ later
      → IsSpaced gap later es
      → IsSpaced gap floor es
  IsSpaced-later floor later [] le h = tt
  IsSpaced-later floor later (e ∷ es) le h = (omega (arith, le, h.0), h.1)

  IsSpaced-emit :
      (floor : ℕ) (r : Option LedEvent × NetworkState) (es : List LedEvent)
      → Due floor r
      → IsSpaced gap r.1.next_emit_ns es
      → IsSpaced gap floor (emit r.0 es)
  unfolding Due
  IsSpaced-emit floor (none, t) es due rest = IsSpaced-later floor t.next_emit_ns es due rest
  IsSpaced-emit floor (some e, t) es due rest = (due.0, subst (λ d. IsSpaced gap d es) due.1 rest)

  -- As long as no clock reading is within one interval of 2^64 ns, the events of any packets that get
  -- into the ring buffer, whatever room it has, are at least the configured interval apart, and none
  -- is before the deadline in the entry.
  pub account_packets-IsSpaced :
      (ps : List Packet) (s : NetworkState)
      → ClockFits gap ps
      → IsSpaced gap s.next_emit_ns (account_packets config ps s).0
  unfolding account_packets
  account_packets-IsSpaced [] s fits = tt
  account_packets-IsSpaced (p ∷ ps) s fits =
      let r = account_packet config p s in
      IsSpaced-emit s.next_emit_ns r (account_packets config ps r.1).0
        (account_packet-Due p s fits.0) (account_packets-IsSpaced ps r.1 fits.1)
