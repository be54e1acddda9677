-- ===== src/Bpf.antt =====
-- ebpf/bpf: the kernel-side programs that count packets and note disk requests, with the maps that
-- they share with the daemon.
pub mod Network
pub mod Conserved
pub mod Spacing
pub mod Disk
pub mod Deadlines
mod Tests
use ugreen_leds_controller.Prelude.{ℕ, ◌%◌, ◌^◌, Option, none, some, ◌==◌, if◌then◌else◌}

abbrev pub word : ℕ
word = 2 ^ 64

-- A counter of type __u64.
abbrev pub u64 : ℕ → ℕ
u64 n = n % word

abbrev pub event_network : ℕ
event_network = 1

abbrev pub event_disk : ℕ
event_disk = 2

pub record BpfConfig : Type 0 where
  pub network_interval_ns : ℕ
  pub disk_interval_ns : ℕ

pub record LedEvent : Type 0 where
  pub timestamp_ns : ℕ
  pub first_bytes : ℕ
  pub second_bytes : ℕ
  pub source : ℕ
  pub kind : ℕ
  pub led_id : ℕ

abbrev pub default_interval_ns : ℕ
default_interval_ns = 100000000

-- `if (interval) ...`: 0 stands for the default.
abbrev pub or_default : ℕ → ℕ
or_default n = if n == 0 then default_interval_ns else n

abbrev pub network_interval : Option BpfConfig → ℕ
network_interval none = default_interval_ns
network_interval (some c) = or_default c.network_interval_ns

abbrev pub disk_interval : Option BpfConfig → ℕ
disk_interval none = default_interval_ns
disk_interval (some c) = or_default c.disk_interval_ns
