-- ===== src/Sim.antt =====
-- A simulated environment for the tests: an MCU that follows the protocol, a bus with faults, a
-- settable clock and timers that record how they were last armed.
pub mod Start
pub mod Desk
pub mod Maps
pub mod Quiet
use ugreen_leds_controller.Prelude.{
  ℕ, ◌%◌, ◌≡◌, ◌⊎◌, refl, inl, inr, ◌==◌, if◌then◌else◌, List, [], ◌∷◌, some, none, replicate,
  Bool-cases, arith, ==_iff,
}
use ugreen_leds_controller.Types.{rgb}
use ugreen_leds_controller.Status.{Status, ok, err, eio}
use ugreen_leds_controller.Env.{Env, value, Fd, TimerValue}
use ugreen_leds_controller.Controller.State.{Controller, Session, zero_cache}
use ugreen_leds_controller.Controller.Protocol.{Mcu, Shown, dark, receive}

-- What happens to the next write: it works, is not acknowledged, or fails on the bus.
pub data Fault : Type 0 where
  fine refused broken : Fault

pub record SimWorld : Type 0 where
  pub leds : ℕ → Shown
  pub status : ℕ
  pub faults : List Fault
  pub now : TimerValue
  pub timers : ℕ → TimerValue
  pub arms : Status

abbrev pub next_fault : List Fault → Fault
next_fault [] = fine
next_fault (f ∷ fs) = f

abbrev pub later_faults : List Fault → List Fault
later_faults [] = []
later_faults (f ∷ fs) = fs

abbrev pub take_block : ℕ → List ℕ → (ℕ → Shown) → ℕ → Shown
take_block register block leds i = if i == register then receive register block (leds i) else leds i

abbrev pub deliver : Fault → ℕ → List ℕ → SimWorld → Status × SimWorld
deliver fine register block w =
    (ok, record w { leds = take_block register block w.leds; status = 1 })
deliver refused register block w = (ok, record w { status = 0 })
deliver broken register block w = (err eio, w)

abbrev pub timer_of : Fd → ℕ
timer_of none = 0
timer_of (some n) = n

abbrev pub sim : Env
sim = record {
  World = SimWorld;
  smbus_write = λ fd register block w.
      deliver (next_fault w.faults) register block (record w { faults = later_faults w.faults });
  smbus_read_byte = λ fd register w. (value w.status, w);
  usleep = λ n w. (ok, w);
  timerfd_create = λ w. (value 7, w);
  timerfd_settime = λ fd flags t w.
      (w.arms, record w { timers = λ i. if i == timer_of fd then t else w.timers i });
  timerfd_read = λ fd w. (
    ok,
    record w {
      timers = λ i. if i == timer_of fd then record { tv_sec = 0; tv_nsec = 0 } else w.timers i;
    },
  );
  clock_gettime = λ w. (some w.now, w);
  close = λ fd w. w;
}

pub deliver_effect :
    (f : Fault) (register : ℕ) (block : List ℕ) (w : SimWorld) (i : ℕ)
    → ((deliver f register block w).1.leds i ≡ w.leds i)
      ⊎ ((i ≡ register)
          × ((deliver f register block w).1.leds i ≡ receive register block (w.leds i)))
deliver_effect fine register block w i = elim (Bool-cases (i == register)) [
  | inl e ↦ inr ((==_iff i register).0 e, rw e)
  | inr e ↦ inl (rw e)
]
deliver_effect refused register block w i = inl refl
deliver_effect broken register block w i = inl refl

pub deliver_ack :
    (f : Fault) (register : ℕ) (block : List ℕ) (w : SimWorld) (v : ℕ)
    → (deliver f register block w).0 ≡ ok
    → value (deliver f register block w).1.status ≡ value v
    → v % 256 ≡ 1
    → (deliver f register block w).1.leds register ≡ receive register block (w.leds register)
deliver_ack fine register block w v h e one = rw ((==_iff register register).1 refl)
deliver_ack refused register block w v h e one = absurd (ground arith)
deliver_ack broken register block w v h e one = cc

abbrev pub sim_mcu : Mcu sim
sim_mcu = record {
  shown = λ w. w.leds;
  write_effect = λ fd register block w i.
      deliver_effect (next_fault w.faults) register block
        (record w { faults = later_faults w.faults }) i;
  ack_effect = λ fd register block w n v.
      deliver_ack (next_fault w.faults) register block (record w { faults = later_faults w.faults })
        v;
  read_keeps = λ fd register w i. refl;
  sleep_keeps = λ n w i. refl;
  sleep_interrupted = λ n w h. refl;
}

-- All LEDs white and dark; the faults of the coming writes are given.
abbrev pub at_start : List Fault → SimWorld
at_start faults = record {
  leds = λ i. record { color = rgb 255 255 255; brightness = 128; light = dark };
  status = 0;
  faults = faults;
  now = record { tv_sec = 5; tv_nsec = 0 };
  timers = λ i. record { tv_sec = 0; tv_nsec = 0 };
  arms = ok;
}

abbrev pub fresh : Controller
fresh = record { fd = some 3; path = []; cache = replicate 10 zero_cache }

abbrev pub start_session : List Fault → Session SimWorld
start_session faults = record { controller = fresh; world = at_start faults }
