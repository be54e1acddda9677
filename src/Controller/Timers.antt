-- ===== src/Controller/Timers.antt =====
-- What the timer calls of the kernel promise to the code that ends a pulse with a timer.
use ugreen_leds_controller.Prelude.{ℕ, ◌≡◌, ◌⊎◌, Bool, true, false, not, ◌==◌, ◌≢◌}
use ugreen_leds_controller.Status.{Status, ok, err, eagain}
use ugreen_leds_controller.Env.{Env, Fd, TimerValue}
use ugreen_leds_controller.Controller.Protocol.{Mcu}
use ugreen_leds_controller.Controller.Keeps.{OnBus}

-- `read` of the expirations failed with an errno other than EAGAIN.
abbrev pub read_failed : Status → Bool
read_failed ok = false
read_failed (err e) = not (e == eagain)

-- `Live w fd`: the timer of `fd` is armed, or has expired and was not read yet, so that its
-- descriptor is readable now or will be.
pub record Timers (env : Env) (mcu : Mcu env) : Type 1 where
  pub Live : env.World → Fd → Type 0
  pub settime_arms :
      (fd : Fd) (flags : ℕ) (t : TimerValue) (w : env.World)
      → (t.tv_sec ≢ 0) ⊎ (t.tv_nsec ≢ 0)
      → (env.timerfd_settime fd flags t w).0 ≡ ok
      → Live (env.timerfd_settime fd flags t w).1 fd
  pub bus_keeps : (fd : Fd) → OnBus env (λ w. Live w fd)
  pub read_error_keeps :
      (fd : Fd) (w : env.World)
      → read_failed (env.timerfd_read fd w).0 ≡ true
      → Live w fd
      → Live (env.timerfd_read fd w).1 fd
  -- no LED changes by a call that is not one of the bus
  pub create_shows : (w : env.World) (i : ℕ) → mcu.shown (env.timerfd_create w).1 i ≡ mcu.shown w i
  pub settime_shows :
      (fd : Fd) (flags : ℕ) (t : TimerValue) (w : env.World) (i : ℕ)
      → mcu.shown (env.timerfd_settime fd flags t w).1 i ≡ mcu.shown w i
  pub read_shows :
      (fd : Fd) (w : env.World) (i : ℕ) → mcu.shown (env.timerfd_read fd w).1 i ≡ mcu.shown w i
  pub clock_shows : (w : env.World) (i : ℕ) → mcu.shown (env.clock_gettime w).1 i ≡ mcu.shown w i
  pub close_shows : (fd : Fd) (w : env.World) (i : ℕ) → mcu.shown (env.close fd w) i ≡ mcu.shown w i
