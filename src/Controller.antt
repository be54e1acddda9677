-- ===== src/Controller.antt =====
-- ebpf/src/led_controller.c: the only owner of the LED microcontroller (MCU) in the daemon.
-- `State` is the cache, `Transfer` the acknowledged transfer of one command, `Commands` the four
-- cached setters. `Protocol` says what the MCU does with a frame; the other modules are proofs.
pub mod State
pub mod Transfer
pub mod Commands
pub mod Open
pub mod Opened
pub mod Protocol
pub mod Frame
pub mod Delivery
pub mod Outcome
pub mod Coherence
pub mod Recorded
pub mod Setters
pub mod Requests
pub mod Chains
pub mod Keeps
pub mod Economy
pub mod Timers
mod Tests
