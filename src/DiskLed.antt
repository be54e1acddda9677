-- ===== src/DiskLed.antt =====
-- ebpf/src/disk_led.c: one LED for each disk slot, steady at rest and blinking while the disk works.
-- `Layout` is ebpf/src/disk_layout.c.
pub mod Layout
pub mod Places
pub mod Slots
pub mod Discovery
pub mod Rescan
pub mod Uevents
pub mod Redrawn
pub mod Rescanned
pub mod Searching
pub mod Updates
pub mod Hotplug
pub mod Found
pub mod Deadline
pub mod Blinking
pub mod Activity
pub mod Following
pub mod Expiry
mod Tests
