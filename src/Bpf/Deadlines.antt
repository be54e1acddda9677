-- ===== src/Bpf/Deadlines.antt =====
-- However the CPUs interleave, the events of a disk keep their distance.
use ugreen_leds_controller.Prelude.{
  ℕ, ◌%◌, ◌+◌, ◌≤◌, ◌<◌, ◌≡◌, inl, inr, refl, arith, Bool, true, false, List, [], ◌∷◌, Option, none,
  some, ap, ◌∙◌, ◌==◌, if◌then◌else◌, Bool-cases, ==_iff,
}
use ugreen_leds_controller.Bpf.{u64, word, LedEvent, BpfConfig, disk_interval}
use ugreen_leds_controller.Bpf.Disk.{
  Phase, idle, swapping, System, Step, issue, swap, at, due, look_up, enter, disk_event,
  swap_deadline, compare_and_swap, disk_step, disk_steps,
}

module _ (config : Option BpfConfig) where
  abbrev gap : ℕ
  gap = disk_interval config

  -- The end of the interval of the newest event of a device; 0 before its first.
  abbrev pub deadline_of : ℕ → List LedEvent → ℕ
  deadline_of dev [] = 0
  deadline_of dev (e ∷ es) = if e.source == dev then e.timestamp_ns + gap else deadline_of dev es

  -- Each event is no earlier than the interval of the event of its device before it.
  abbrev pub IsSpaced : List LedEvent → Type 0
  IsSpaced [] = Unit {0}
  IsSpaced (e ∷ es) = (deadline_of e.source es ≤ e.timestamp_ns) × IsSpaced es

  abbrev pub IsReady : Phase → Type 0
  IsReady idle = Unit {0}
  IsReady (swapping led_id dev now old_deadline) = (now + gap < word) × (old_deadline ≤ now)

  -- The invariant of the interleaving.
  pub record IsTimed (s : System) : Type 0 where
    pub spaced : IsSpaced s.events
    pub deadlines : (dev v : ℕ) → s.states dev ≡ some v → v ≡ deadline_of dev s.events
    pub ready : (cpu : ℕ) → IsReady (s.cpus cpu)

  abbrev pub ClockFits : List Step → Type 0
  ClockFits [] = Unit {0}
  ClockFits (issue cpu dev now ∷ xs) = (now + gap < word) × ClockFits xs
  ClockFits (swap cpu ∷ xs) = ClockFits xs

  at-IsReady :
      (cpus : ℕ → Phase) (cpu : ℕ) (p : Phase)
      → ((i : ℕ) → IsReady (cpus i))
      → IsReady p
      → (i : ℕ) → IsReady (at cpus cpu p i)
  at-IsReady cpus cpu p h k i = elim (Bool-cases (i == cpu)) [ inl e ↦ rw e k | inr e ↦ rw e (h i) ]

  either-IsReady :
      (b : Bool) (led_id dev now old : ℕ)
      → (b ≡ true → old ≤ now)
      → now + gap < word
      → IsReady (if b then swapping led_id dev now old else idle)
  either-IsReady true led_id dev now old h fits = (fits, h refl)
  either-IsReady false led_id dev now old h fits = tt

  look_up-IsReady :
      (dev now : ℕ) (target state : Option ℕ)
      → now + gap < word
      → IsReady (look_up dev now target state)
  look_up-IsReady dev now none state fits = tt
  look_up-IsReady dev now (some led_id) none fits = tt
  look_up-IsReady dev now (some led_id) (some old) fits =
      either-IsReady (due now old) led_id dev now old (λ h. ground arith) fits

  enter-IsReady : (p next : Phase) → IsReady p → IsReady next → IsReady (enter p next)
  enter-IsReady idle next h k = k
  enter-IsReady (swapping led_id dev now old) next h k = h

  written_deadline :
      (led_id dev now : ℕ) (s : System) (d v : ℕ)
      → now + gap < word
      → (s.states d ≡ some v → v ≡ deadline_of d s.events)
      → at s.states dev (some (u64 (now + gap))) d ≡ some v
      → v ≡ deadline_of d (disk_event led_id dev now ∷ s.events)
  written_deadline led_id dev now s d v fits h e = ground arith

  swapped-IsTimed :
      (led_id dev now old : ℕ) (s : System)
      → IsTimed s
      → now + gap < word
      → old ≤ now
      → s.states dev ≡ some old
      → IsTimed (record s {
        states = at s.states dev (some (u64 (now + gap)));
        events = disk_event led_id dev now ∷ s.events;
      })
  swapped-IsTimed led_id dev now old s inv fits late reads = record {
    spaced = (omega (arith, inv.deadlines dev old reads), inv.spaced);
    deadlines = λ d v e. written_deadline led_id dev now s d v fits (inv.deadlines d v) e;
    ready = inv.ready;
  }

  swap_deadline-IsTimed :
      (led_id dev now old : ℕ) (state : Option ℕ) (s : System)
      → IsTimed s
      → now + gap < word
      → old ≤ now
      → s.states dev ≡ state
      → IsTimed (swap_deadline config led_id dev now old state s)
  unfolding swap_deadline
  swap_deadline-IsTimed led_id dev now old none s inv fits late reads = inv
  swap_deadline-IsTimed led_id dev now old (some deadline) s inv fits late reads =
      elim (Bool-cases (deadline == old)) [
        | inl e ↦ rw e (
            swapped-IsTimed (led_id % 256) dev now old s inv fits late
              (reads ∙ ap some ((==_iff deadline old).0 e)))
        | inr e ↦ rw e inv
      ]

  compare_and_swap-IsTimed :
      (p : Phase) (s : System) → IsReady p → IsTimed s → IsTimed (compare_and_swap config p s)
  unfolding compare_and_swap
  compare_and_swap-IsTimed idle s h inv = inv
  compare_and_swap-IsTimed (swapping led_id dev now old) s h inv =
      swap_deadline-IsTimed led_id dev now old (s.states dev) s inv h.0 h.1 refl

  cpus-IsTimed :
      (s : System) (cpu : ℕ) (p : Phase)
      → IsTimed s
      → IsReady p
      → IsTimed (record s { cpus = at s.cpus cpu p })
  cpus-IsTimed s cpu p inv h = record {
    spaced = inv.spaced;
    deadlines = inv.deadlines;
    ready = at-IsReady s.cpus cpu p inv.ready h;
  }

  -- If the entries hold the deadlines of the events so far and no clock reading is within one
  -- interval of 2^64 ns, then after any interleaving of the CPUs the events of each disk are at
  -- least the configured interval apart, and the entries again hold their deadlines.
  pub disk_steps-IsTimed :
      (xs : List Step) (s : System) → ClockFits xs → IsTimed s → IsTimed (disk_steps config xs s)
  unfolding disk_steps disk_step
  disk_steps-IsTimed [] s fits inv = inv
  disk_steps-IsTimed (issue cpu dev now ∷ xs) s fits inv =
      disk_steps-IsTimed xs (disk_step config (issue cpu dev now) s) fits.1 (
        cpus-IsTimed s cpu _ inv (
          enter-IsReady (s.cpus cpu) _ (inv.ready cpu)
            (look_up-IsReady dev now (s.targets dev) (s.states dev) fits.0)))
  disk_steps-IsTimed (swap cpu ∷ xs) s fits inv =
      disk_steps-IsTimed xs (disk_step config (swap cpu) s) fits (
        cpus-IsTimed (compare_and_swap config (s.cpus cpu) s) cpu idle
          (compare_and_swap-IsTimed (s.cpus cpu) s (inv.ready cpu) inv) tt)
