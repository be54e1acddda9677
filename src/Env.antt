-- ===== src/Env.antt =====
-- What the daemon calls and this repository does not implement: the kernel's I2C, sleep, timer and
-- clock calls, over a state `World` that holds everything outside the process.
-- A call that returns -1 is `err errno`.
use ugreen_leds_controller.Prelude.{ℕ, List, Option}
use ugreen_leds_controller.Status.{Status}

pub data Reply : Type 0 where
  value : ℕ → Reply
  failed : ℕ → Reply

-- `it_value` of a `struct itimerspec`; both 0 disarm the timer.
pub record TimerValue : Type 0 where
  pub tv_sec : ℕ
  pub tv_nsec : ℕ

-- A file descriptor is `none` where the code keeps -1.
abbrev pub Fd : Type 0
Fd = Option ℕ

pub record Env : Type 1 where
  pub World : Type 0
  -- `ioctl(fd, I2C_SMBUS, ...)` that writes a block to a register: the bytes of `union
  -- i2c_smbus_data.block` up to the length that its first byte states
  pub smbus_write : Fd → ℕ → List ℕ → World → Status × World
  -- the same for the read of one byte
  pub smbus_read_byte : Fd → ℕ → World → Reply × World
  pub usleep : ℕ → World → Status × World
  -- `timerfd_create(CLOCK_MONOTONIC, TFD_CLOEXEC | TFD_NONBLOCK)`
  pub timerfd_create : World → Reply × World
  -- `timerfd_settime(fd, flags, &timer, NULL)`
  pub timerfd_settime : Fd → ℕ → TimerValue → World → Status × World
  -- `read` of the expirations of a timer
  pub timerfd_read : Fd → World → Status × World
  -- `clock_gettime(CLOCK_MONOTONIC, ...)`, `none` if it fails
  pub clock_gettime : World → Option TimerValue × World
  pub close : Fd → World → World
