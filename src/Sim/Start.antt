-- ===== src/Sim/Start.antt =====
-- The start of a simulated session, its timers, and a number type for the scheduler.
use ugreen_leds_controller.Prelude.{
  ℕ, ◌+◌, ◌*◌, ◌/◌, ◌-◌, ◌≡◌, ◌≢◌, ◌⊎◌, refl, sym, subst, leb, ◌==◌, if◌then◌else◌, List,
  get_or-replicate, ==_iff, true, false,
}
use ugreen_leds_controller.Env.{TimerValue}
use ugreen_leds_controller.Scheduler.{LongDouble}
use ugreen_leds_controller.Sim.{
  sim, sim_mcu, SimWorld, Fault, at_start, start_session, timer_of, deliver, fine, refused, broken,
  next_fault, later_faults,
}
use ugreen_leds_controller.Controller.State.{zero_cache}
use ugreen_leds_controller.Controller.Protocol.{Shown}
use ugreen_leds_controller.Controller.Coherence.{IsCoherent, Agrees, zero_cache-Agrees}
use ugreen_leds_controller.Controller.Timers.{Timers}

-- (a, b) is (a - b) / 1000.
abbrev pub thousandths : LongDouble
thousandths = record {
  Carrier = ℕ × ℕ;
  of_u64 = λ n. (1000 * n, 0);
  zero = (0, 0);
  one = (1000, 0);
  add = λ x y. (x.0 + y.0, x.1 + y.1);
  sub = λ x y. (x.0 + y.1, x.1 + y.0);
  div = λ x y. ((x.0 - x.1) * 1000 / (y.0 - y.1), 0);
  ge = λ x y. leb (y.0 + x.1) (x.0 + y.1);
}

pub start-IsCoherent : (faults : List Fault) → IsCoherent sim sim_mcu (start_session faults)
start-IsCoherent faults = record {
  entries = refl;
  agrees = λ i lt.
      subst (λ c. Agrees c (leds_at_start i)) (sym (get_or-replicate 10 i zero_cache))
        (zero_cache-Agrees (leds_at_start i));
}
  where
    leds_at_start : ℕ → Shown
    leds_at_start i = (at_start faults).leds i

abbrev pub IsArmed : TimerValue → Type 0
IsArmed t = (t.tv_sec ≢ 0) ⊎ (t.tv_nsec ≢ 0)

pub settime_IsArmed : (n : ℕ) (t u : TimerValue) → IsArmed t → IsArmed (if n == n then t else u)
settime_IsArmed n t u h = rw ((==_iff n n).1 refl) h

pub read_works : false ≡ true → ⊥
read_works h = cc

pub deliver-IsArmed :
    (f : Fault) (register : ℕ) (block : List ℕ) (w : SimWorld) (i : ℕ)
    → IsArmed (w.timers i)
    → IsArmed ((deliver f register block w).1.timers i)
deliver-IsArmed fine register block w i h = h
deliver-IsArmed refused register block w i h = h
deliver-IsArmed broken register block w i h = h

abbrev pub sim_timers : Timers sim sim_mcu
sim_timers = record {
  Live = λ w fd. IsArmed (w.timers (timer_of fd));
  settime_arms =
      λ fd flags t w nonzero done. settime_IsArmed (timer_of fd) t (w.timers (timer_of fd)) nonzero;
  bus_keeps = λ fd. record {
    write = λ fd2 register block w h.
        deliver-IsArmed (next_fault w.faults) register block
          (record w { faults = later_faults w.faults }) (timer_of fd) h;
    read = λ fd2 register w h. h;
    sleep = λ n w h. h;
  };
  read_error_keeps = λ fd w failed live. absurd (read_works failed);
  create_shows = λ w i. refl;
  settime_shows = λ fd flags t w i. refl;
  read_shows = λ fd w i. refl;
  clock_shows = λ w i. refl;
  close_shows = λ fd w i. refl;
}
