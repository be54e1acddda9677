-- ===== src/Scheduler/Fairness.antt =====
-- Pulses follow the byte ratio: with a constant ratio, the number of RX pulses is `n * rx / total`
-- rounded, when the credits are computed exactly.
use ugreen_leds_controller.Prelude.{
  ℕ, zero, suc, ◌+◌, ◌*◌, ◌≤◌, ◌<◌, ◌≡◌, subst, refl, ap, ap₂, ◌∙◌, ◌⊎◌, Bool, true, false, leb,
  ◌==◌, if◌then◌else◌, arith, Bool-cases, inl, inr,
}
use ugreen_leds_controller.Scheduler.{
  LongDouble, Scheduler, initial, uint64_max, saturating_add, choose_by_credit, count_pulse,
  choose_rx,
}

-- Arithmetic on multiples of 1 / (rx + tx) is exact while their absolute value is at most 2.
-- `units a b` is (a - b) / (rx + tx). (So it is for `long double` where rx + tx is a power of two
-- below 2 ^ 62.)
pub record IsExact (f : LongDouble) (rx tx : ℕ) : Type 0 where
  pub units : ℕ → ℕ → f.Carrier
  pub zero_units : f.zero ≡ units 0 0
  pub add_rx :
      (a b : ℕ)
      → a ≤ b + (rx + tx)
      → b ≤ a + (rx + tx)
      → f.add (units a b) (f.div (f.of_u64 rx) (f.add (f.of_u64 rx) (f.of_u64 tx)))
        ≡ units (a + rx) b
  pub add_tx :
      (a b : ℕ)
      → a ≤ b + (rx + tx)
      → b ≤ a + (rx + tx)
      → f.add (units a b) (f.div (f.of_u64 tx) (f.add (f.of_u64 rx) (f.of_u64 tx)))
        ≡ units (a + tx) b
  pub sub_one :
      (a b : ℕ)
      → a ≤ b + 2 * (rx + tx)
      → b ≤ a + (rx + tx)
      → f.sub (units a b) f.one ≡ units a (b + (rx + tx))
  pub ge_units :
      (a b c d : ℕ)
      → a ≤ b + 2 * (rx + tx)
      → b ≤ a + 2 * (rx + tx)
      → c ≤ d + 2 * (rx + tx)
      → d ≤ c + 2 * (rx + tx)
      → f.ge (units a b) (units c d) ≡ leb (c + b) (a + d)

-- `n` pulses with the same byte counts.
unfoldable pub pulses : (f : LongDouble) → (rx tx : ℕ) → ℕ → Scheduler f → Scheduler f
pulses f rx tx zero s = s
pulses f rx tx (suc n) s = pulses f rx tx n (choose_rx f s rx tx).1

-- How the pulses of a schedule compare with the ratio of the bytes.
pub record IsFair (f : LongDouble) (rx tx n : ℕ) (s : Scheduler f) : Type 0 where
  pub all_counted : s.rx_pulses + s.tx_pulses ≡ n
  pub not_late : 2 * (n * rx) ≤ 2 * ((rx + tx) * s.rx_pulses) + (rx + tx)
  pub not_early : 2 * ((rx + tx) * s.rx_pulses) ≤ 2 * (n * rx) + (rx + tx)

module _ (f : LongDouble) (rx tx : ℕ) (exact : IsExact f rx tx) where
  open exact use {units}

  -- After p RX pulses and q TX pulses of this ratio.
  pub record IsBalanced (p q : ℕ) (s : Scheduler f) : Type 0 where
    pub rx_is : s.rx_credit ≡ units ((p + q) * rx) ((rx + tx) * p)
    pub tx_is : s.tx_credit ≡ units ((p + q) * tx) ((rx + tx) * q)
    pub rx_counted : s.rx_pulses ≡ p
    pub tx_counted : s.tx_pulses ≡ q
    pub not_late : 2 * ((p + q) * rx) ≤ 2 * ((rx + tx) * p) + (rx + tx)
    pub not_early : 2 * ((rx + tx) * p) ≤ 2 * ((p + q) * rx) + (rx + tx)

  initial-IsBalanced : IsBalanced 0 0 (initial f)
  initial-IsBalanced = record {
    rx_is = exact.zero_units ∙ ap₂ units (omega arith) (omega arith);
    tx_is = exact.zero_units ∙ ap₂ units (omega arith) (omega arith);
    rx_counted = refl;
    tx_counted = refl;
    not_late = omega arith;
    not_early = omega arith;
  }

  module _ (p q : ℕ) (s : Scheduler f) (b : IsBalanced p q s) where
    abbrev ahead : Bool
    ahead = leb ((p + q) * tx + tx + (rx + tx) * p) ((p + q) * rx + rx + (rx + tx) * q)

    abbrev rx_share : f.Carrier
    rx_share = f.div (f.of_u64 rx) (f.add (f.of_u64 rx) (f.of_u64 tx))

    abbrev tx_share : f.Carrier
    tx_share = f.div (f.of_u64 tx) (f.add (f.of_u64 rx) (f.of_u64 tx))

    rx_earns : f.add s.rx_credit rx_share ≡ units ((p + q) * rx + rx) ((rx + tx) * p)
    rx_earns =
        ap (λ c. f.add c rx_share) b.rx_is ∙ exact.add_rx _ _ (omega (arith, b)) (omega (arith, b))

    tx_earns : f.add s.tx_credit tx_share ≡ units ((p + q) * tx + tx) ((rx + tx) * q)
    tx_earns =
        ap (λ c. f.add c tx_share) b.tx_is ∙ exact.add_tx _ _ (omega (arith, b)) (omega (arith, b))

    compares :
        f.ge (units ((p + q) * rx + rx) ((rx + tx) * p)) (units ((p + q) * tx + tx) ((rx + tx) * q))
        ≡ ahead
    compares =
        exact.ge_units _ _ _ _ (omega (arith, b)) (omega (arith, b)) (omega (arith, b))
          (omega (arith, b))

    rx_pays :
        f.sub (units ((p + q) * rx + rx) ((rx + tx) * p)) f.one
        ≡ units ((p + q) * rx + rx) ((rx + tx) * p + (rx + tx))
    rx_pays = exact.sub_one _ _ (omega (arith, b)) (omega (arith, b))

    tx_pays :
        f.sub (units ((p + q) * tx + tx) ((rx + tx) * q)) f.one
        ≡ units ((p + q) * tx + tx) ((rx + tx) * q + (rx + tx))
    tx_pays = exact.sub_one _ _ (omega (arith, b)) (omega (arith, b))

    abbrev rx_next : Scheduler f
    rx_next = record s {
      rx_credit = units ((p + q) * rx + rx) ((rx + tx) * p + (rx + tx));
      tx_credit = units ((p + q) * tx + tx) ((rx + tx) * q);
    }

    abbrev tx_next : Scheduler f
    tx_next = record s {
      rx_credit = units ((p + q) * rx + rx) ((rx + tx) * p);
      tx_credit = units ((p + q) * tx + tx) ((rx + tx) * q + (rx + tx));
    }

    credit_lem : choose_by_credit f s rx tx ≡ (if ahead then (true, rx_next) else (false, tx_next))
    unfolding choose_by_credit
    credit_lem = rw (rx_earns, tx_earns, compares, rx_pays, tx_pays)

    rx_next-IsBalanced :
        ahead ≡ true
        → p + q + 1 < uint64_max
        → IsBalanced (suc p) q (count_pulse f (true, rx_next)).1
    unfolding saturating_add
    rx_next-IsBalanced h lt = record {
      rx_is = ap₂ units (omega arith) (omega arith);
      tx_is = ap₂ units (omega arith) (omega arith);
      rx_counted = ground (arith, b.rx_counted);
      tx_counted = b.tx_counted;
      not_late = omega (arith, b);
      not_early = ground (arith, b.not_early);
    }

    tx_next-IsBalanced :
        ahead ≡ false
        → p + q + 1 < uint64_max
        → IsBalanced p (suc q) (count_pulse f (false, tx_next)).1
    unfolding saturating_add
    tx_next-IsBalanced h lt = record {
      rx_is = ap₂ units (omega arith) (omega arith);
      tx_is = ap₂ units (omega arith) (omega arith);
      rx_counted = b.rx_counted;
      tx_counted = ground (arith, b.tx_counted);
      not_late = ground (arith, b.not_late);
      not_early = omega (arith, b);
    }

    -- One more pulse of the same ratio.
    step-IsBalanced :
        0 < rx
        → 0 < tx
        → p + q + 1 < uint64_max
        → IsBalanced (suc p) q (choose_rx f s rx tx).1
          ⊎ IsBalanced p (suc q) (choose_rx f s rx tx).1
    unfolding choose_rx
    step-IsBalanced rx_pos tx_pos lt =
        let rx_ne : (rx == 0) ≡ false = ground arith in
        let tx_ne : (tx == 0) ≡ false = ground arith in
        rw (rx_ne, tx_ne, credit_lem)
          (elim (Bool-cases ahead) [
            | inl e ↦ rw e (inl (rx_next-IsBalanced e lt))
            | inr e ↦ rw e (inr (tx_next-IsBalanced e lt))
          ])

  pulses-IsBalanced :
      0 < rx
      → 0 < tx
      → (n p q : ℕ) (s : Scheduler f) → n + (p + q) < uint64_max
      → IsBalanced p q s
      → (p' : ℕ) × (q' : ℕ) × (p' + q' ≡ n + (p + q)) × IsBalanced p' q' (pulses f rx tx n s)
  unfolding pulses
  pulses-IsBalanced rx_pos tx_pos zero p q s lt b = (p, q, omega arith, b)
  pulses-IsBalanced rx_pos tx_pos (suc n) p q s lt b =
      elim (step-IsBalanced p q s b rx_pos tx_pos (omega arith)) [
        | inl c ↦
            let (p', q', e, d) = pulses-IsBalanced rx_pos tx_pos n (suc p) q _ (omega arith) c in
            (p', q', omega arith, d)
        | inr c ↦
            let (p', q', e, d) = pulses-IsBalanced rx_pos tx_pos n p (suc q) _ (omega arith) c in
            (p', q', omega arith, d)
      ]

  IsBalanced-IsFair : (p q : ℕ) (s : Scheduler f) → IsBalanced p q s → IsFair f rx tx (p + q) s
  IsBalanced-IsFair p q s b = record {
    all_counted = omega (arith, b.rx_counted, b.tx_counted);
    not_late = rw b.rx_counted b.not_late;
    not_early = rw b.rx_counted b.not_early;
  }

  -- From a fresh scheduler, after `n` pulses with `rx` and `tx` bytes (both positive, `n` below the
  -- counters' limit, the credits exact) the two counters sum to `n`, and the number of RX pulses is
  -- within one half of `n * rx / (rx + tx)`.
  pub pulses-IsFair :
      (n : ℕ) → 0 < rx → 0 < tx → n < uint64_max → IsFair f rx tx n (pulses f rx tx n (initial f))
  pulses-IsFair n rx_pos tx_pos lt =
      let (p, q, e, b) =
        pulses-IsBalanced rx_pos tx_pos n 0 0 (initial f) (omega arith) initial-IsBalanced in
      subst (λ k. IsFair f rx tx k (pulses f rx tx n (initial f))) (omega arith)
        (IsBalanced-IsFair p q _ b)
