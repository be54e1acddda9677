-- ===== src/DiskLed/Deadline.antt =====
-- The timer of the disk LEDs is armed at the earliest deadline.
use ugreen_leds_controller.Prelude.{
  ℕ, zero, suc, ◌+◌, ◌*◌, ◌/◌, ◌%◌, ◌≤◌, ◌<◌, ◌≡◌, ◌⊎◌, inl, inr, refl, arith, true, false, ◌&&◌,
  List, [], ◌∷◌, ltb, ◌==◌, if◌then◌else◌, get_or, Bool-cases, ==_iff, subst, sym,
}
use ugreen_leds_controller.Env.{TimerValue}
use ugreen_leds_controller.DiskLed.Slots.{
  DiskSlot, no_slot, earliest_deadline, deadline_timer, uint64_max,
}

abbrev pub slot_at : List DiskSlot → ℕ → DiskSlot
slot_at slots i = get_or slots i no_slot

abbrev pub candidate : DiskSlot → ℕ → ℕ
candidate slot e = if slot.active && ltb slot.deadline_ns e then slot.deadline_ns else e

earliest_below_start : (left e : ℕ) (slots : List DiskSlot) → earliest_deadline left e slots ≤ e
unfolding earliest_deadline
earliest_below_start zero e slots = omega arith
earliest_below_start (suc left) e [] = omega arith
earliest_below_start (suc left) e (slot ∷ slots) =
    let rest = earliest_below_start left (candidate slot e) slots in
    let here : candidate slot e ≤ e = ground arith in omega (arith, rest, here)

earliest_below :
    (left e : ℕ) (slots : List DiskSlot) (i : ℕ)
    → i < left
    → (slot_at slots i).active ≡ true
    → earliest_deadline left e slots ≤ (slot_at slots i).deadline_ns
unfolding earliest_deadline
earliest_below zero e slots i lt on = absurd (omega arith)
earliest_below (suc left) e [] i lt on = absurd (cc)
earliest_below (suc left) e (slot ∷ slots) zero lt on =
    let rest = earliest_below_start left (candidate slot e) slots in
    let here : candidate slot e ≤ slot.deadline_ns = ground arith in omega (arith, rest, here)
earliest_below (suc left) e (slot ∷ slots) (suc i) lt on =
    earliest_below left (candidate slot e) slots i (omega arith) on

-- A slot that waits for `e`.
pub record Waits (left : ℕ) (slots : List DiskSlot) (e : ℕ) : Type 0 where
  pub index : ℕ
  pub in_range : index < left
  pub active : (slot_at slots index).active ≡ true
  pub meets : (slot_at slots index).deadline_ns ≡ e

either_candidate :
    (slot : DiskSlot) (e : ℕ)
    → (candidate slot e ≡ e) ⊎ ((slot.active ≡ true) × (slot.deadline_ns ≡ candidate slot e))
either_candidate slot e = ground arith

earliest_meets :
    (left e : ℕ) (slots : List DiskSlot)
    → (earliest_deadline left e slots ≡ e) ⊎ Waits left slots (earliest_deadline left e slots)
unfolding earliest_deadline
earliest_meets zero e slots = inl refl
earliest_meets (suc left) e [] = inl refl
earliest_meets (suc left) e (slot ∷ slots) = elim (earliest_meets left (candidate slot e) slots) [
  | inr w ↦ inr (record {
    index = suc w.index;
    in_range = omega (arith, w.in_range);
    active = w.active;
    meets = w.meets;
  })
  | inl same ↦ elim (either_candidate slot e) [
    | inl kept ↦ inl (omega arith)
    | inr taken ↦ inr (record {
      index = 0;
      in_range = omega arith;
      active = taken.0;
      meets = omega (arith, taken.1);
    })
  ]
]

-- Nothing to wait for.
pub record IsDisarmed (left : ℕ) (slots : List DiskSlot) (t : TimerValue) : Type 0 where
  pub zero_sec : t.tv_sec ≡ 0
  pub zero_nsec : t.tv_nsec ≡ 0
  pub none_active :
      (i : ℕ)
      → i < left
      → (slot_at slots i).active ≡ true
      → uint64_max ≤ (slot_at slots i).deadline_ns

-- The timer stands at the earliest deadline.
pub record IsEarliest (left : ℕ) (slots : List DiskSlot) (t : TimerValue) : Type 0 where
  pub waits : Waits left slots (t.tv_sec * 1000000000 + t.tv_nsec)
  pub valid : t.tv_nsec < 1000000000
  pub below :
      (i : ℕ)
      → i < left
      → (slot_at slots i).active ≡ true
      → t.tv_sec * 1000000000 + t.tv_nsec ≤ (slot_at slots i).deadline_ns

armed-Waits :
    (left : ℕ) (slots : List DiskSlot)
    → (earliest_deadline left uint64_max slots == uint64_max) ≡ false
    → Waits left slots (earliest_deadline left uint64_max slots)
armed-Waits left slots h = elim (earliest_meets left uint64_max slots) [
  | inr w ↦ w
  | inl same ↦ absurd (cc ((==_iff (earliest_deadline left uint64_max slots) uint64_max).1 same))
]

timer_time : (e : ℕ) → e / 1000000000 * 1000000000 + e % 1000000000 ≡ e
timer_time e = omega arith

-- The timer that `arm_timer` sets stands, to the nanosecond and in a valid form, at the deadline of
-- an active slot, and no active slot in range has an earlier one; or it is disarmed, and no active
-- slot has a deadline before the greatest 64-bit number.
pub deadline_timer-IsEarliest :
    (left : ℕ) (slots : List DiskSlot)
    → let t = deadline_timer (earliest_deadline left uint64_max slots) in
      IsDisarmed left slots t ⊎ IsEarliest left slots t
unfolding deadline_timer
deadline_timer-IsEarliest left slots =
    let e = earliest_deadline left uint64_max slots in
    let time = timer_time e in
    elim (Bool-cases (e == uint64_max)) [
      | inl none ↦ rw none (
          inl (record {
            zero_sec = refl;
            zero_nsec = refl;
            none_active = λ i lt on.
                omega (
                  arith,
                  (==_iff e uint64_max).0 none,
                  earliest_below left uint64_max slots i lt on,
                );
          }))
      | inr some ↦ rw some (
          inr (record {
            waits = subst (Waits left slots) (sym time) (armed-Waits left slots some);
            valid = omega arith;
            below = λ i lt on. omega (arith, time, earliest_below left uint64_max slots i lt on);
          }))
    ]
