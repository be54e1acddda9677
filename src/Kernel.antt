-- ===== src/Kernel.antt =====
-- More of what the daemon calls and this repository does not implement: files, directories, the I2C
-- slave address, the uevent socket, signals, limits and poll. The state `W` is the `World` of Env.
pub mod Ledger
pub mod Tracks
use ugreen_leds_controller.Prelude.{
  ℕ, ◌+◌, ◌-◌, zero, suc, Bool, true, false, ◌||◌, ◌==◌, if◌then◌else◌, List, [], ◌∷◌, Option,
}
use ugreen_leds_controller.Status.{Status, ok, err, eio}
use ugreen_leds_controller.Env.{Fd, Reply}
use ugreen_leds_controller.Config.Values.{Parsed, bad}

-- `fopen(path, "re")`: an errno, or a stream with the lines that `fgets` and `getline` read from it
-- one after the other, and what `ferror` and errno tell behind the last.
pub data File : Type 0 where
  unreadable : (errno : ℕ) → File
  stream : (handle : ℕ) → (lines : List (List ℕ)) → (read_error : Status) → File

-- `opendir(path)`: an errno, or the names that `readdir` gives one after the other.
pub data Directory : Type 0 where
  unlisted : (errno : ℕ) → Directory
  listing : (handle : ℕ) → (names : List (List ℕ)) → Directory

-- `recv` of a datagram.
pub data Datagram : Type 0 where
  received : List ℕ → Datagram
  not_received : (errno : ℕ) → Datagram

-- `read` of a signal descriptor: an errno, fewer bytes than a record, or the number of a signal.
pub data SignalRead : Type 0 where
  unread : (errno : ℕ) → SignalRead
  short : SignalRead
  signal : ℕ → SignalRead

-- `revents` of a descriptor: POLLIN, and one of POLLERR, POLLHUP and POLLNVAL.
pub record Events : Type 0 where
  pub readable : Bool
  pub broken : Bool

-- `poll` without a timeout: an errno, or the events of the five descriptors. One that is -1 has none.
pub data Polled : Type 0 where
  poll_failed : (errno : ℕ) → Polled
  polled : (signals network disk_timer uevents bpf : Events) → Polled

pub record Kernel (W : Type 0) : Type 0 where
  pub fopen : List ℕ → W → File × W
  pub fclose : ℕ → W → W
  pub opendir : List ℕ → W → Directory × W
  pub closedir : ℕ → W → W
  -- `open(path, O_RDWR | O_CLOEXEC)`
  pub open_file : List ℕ → W → Reply × W
  -- `ioctl(fd, I2C_SLAVE, address)`
  pub set_slave : Fd → ℕ → W → Status × W
  -- `realpath(path, resolved)`, `none` if it fails, and `access(path, F_OK) == 0`
  pub realpath : List ℕ → W → Option (List ℕ)
  pub exists : List ℕ → W → Bool
  -- `socket(AF_NETLINK, ..., NETLINK_KOBJECT_UEVENT)`, and `bind` to group 1
  pub socket : W → Reply × W
  pub bind : ℕ → W → Status × W
  -- `recv(fd, buffer, size, MSG_DONTWAIT)`
  pub recv : Fd → ℕ → W → Datagram × W
  pub setrlimit : W → Status × W
  pub sigprocmask : W → Status × W
  pub signalfd : W → Reply × W
  pub read_signal : Fd → W → SignalRead × W
  pub poll : (signals network disk_timer uevents bpf : Fd) → W → Polled × W

-- `errno ? errno : EIO`
abbrev pub or_eio : ℕ → ℕ
or_eio e = if e == 0 then eio else e

abbrev pub stream_error : Status → ℕ
stream_error ok = eio
stream_error (err e) = or_eio e

-- `text[strcspn(text, "\r\n")] = '\0'`
abbrev pub cut_newline : List ℕ → List ℕ
cut_newline [] = []
cut_newline (c ∷ cs) = let rest = c ∷ cut_newline cs in if c == 13 || c == 10 then [] else rest

abbrev pub take : ℕ → List ℕ → List ℕ
take zero text = []
take (suc n) [] = []
take (suc n) (c ∷ cs) = c ∷ take n cs

abbrev pub path_max : ℕ
path_max = 4096

module _ {W : Type 0} (kernel : Kernel W) where
  open kernel use {fopen, fclose}

  -- `fgets` into a buffer of `size` characters, and `fclose` on both ways out.
  abbrev pub first_of : ℕ → File × W → Parsed (List ℕ) × W
  first_of size (unreadable e, w) = (bad e, w)
  first_of size (stream handle [] read_error, w) = (bad (stream_error read_error), fclose handle w)
  first_of size (stream handle (line ∷ lines) read_error, w) =
      (Parsed.value (cut_newline (take (size - 1) line)), fclose handle w)

  -- `read_first_line` of ebpf/src/led_controller.c, which ebpf/src/disk_led.c repeats as `read_line`.
  unfoldable pub read_first_line : List ℕ → (size : ℕ) → W → Parsed (List ℕ) × W
  read_first_line path size w = first_of size (fopen path w)
