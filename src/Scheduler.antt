-- ===== src/Scheduler.antt =====
-- ebpf/src/scheduler.c: which direction the next network pulse shows.
pub mod Fairness
mod Tests
use ugreen_leds_controller.Prelude.{ℕ, ◌+◌, ◌-◌, ◌^◌, Bool, true, false, ltb, ◌==◌, if◌then◌else◌}

-- `long double` is a parameter: the operations that the scheduler uses.
pub record LongDouble : Type 1 where
  pub Carrier : Type 0
  pub of_u64 : ℕ → Carrier
  pub zero : Carrier
  pub one : Carrier
  pub add : Carrier → Carrier → Carrier
  pub sub : Carrier → Carrier → Carrier
  pub div : Carrier → Carrier → Carrier
  pub ge : Carrier → Carrier → Bool

abbrev pub uint64_max : ℕ
uint64_max = 2 ^ 64 - 1

unfoldable pub saturating_add : ℕ → ℕ → ℕ
saturating_add a b = if ltb (uint64_max - a) b then uint64_max else a + b

pub record PulseScheduler (F : Type 0) : Type 0 where
  pub rx_credit : F
  pub tx_credit : F
  pub rx_pulses : ℕ
  pub tx_pulses : ℕ

module _ (f : LongDouble) where
  open f use {Carrier, of_u64, one, add, sub, div, ge}

  abbrev pub Scheduler : Type 0
  Scheduler = PulseScheduler Carrier

  -- A scheduler whose bytes are all 0.
  abbrev pub initial : Scheduler
  initial = record { rx_credit = f.zero; tx_credit = f.zero; rx_pulses = 0; tx_pulses = 0 }

  -- Both directions have traffic: each earns its share, and the chosen one pays for the pulse.
  unfoldable pub choose_by_credit : Scheduler → ℕ → ℕ → Bool × Scheduler
  choose_by_credit s rx_bytes tx_bytes =
      let total = add (of_u64 rx_bytes) (of_u64 tx_bytes) in
      let rx_credit = add s.rx_credit (div (of_u64 rx_bytes) total) in
      let tx_credit = add s.tx_credit (div (of_u64 tx_bytes) total) in
      if ge rx_credit tx_credit
      then (true, record s { rx_credit = sub rx_credit one; tx_credit = tx_credit })
      else (false, record s { rx_credit = rx_credit; tx_credit = sub tx_credit one })

  unfoldable pub choose_direction : Scheduler → ℕ → ℕ → Bool × Scheduler
  unfolding choose_by_credit
  choose_direction s rx_bytes tx_bytes =
      if tx_bytes == 0
      then (true, s)
      else if rx_bytes == 0
      then (false, s)
      else choose_by_credit s rx_bytes tx_bytes

  abbrev pub count_pulse : Bool × Scheduler → Bool × Scheduler
  count_pulse (true, s) = (true, record s { rx_pulses = saturating_add s.rx_pulses 1 })
  count_pulse (false, s) = (false, record s { tx_pulses = saturating_add s.tx_pulses 1 })

  unfoldable pub choose_rx : Scheduler → ℕ → ℕ → Bool × Scheduler
  unfolding choose_direction saturating_add
  choose_rx s rx_bytes tx_bytes = count_pulse (choose_direction s rx_bytes tx_bytes)
