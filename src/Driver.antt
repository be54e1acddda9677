-- ===== src/Driver.antt =====
-- kmod/led-ugreen.c: the kernel driver, an alternative to the daemon, with its own copy of the
-- protocol. An operation works on one entry of `priv->state` under the mutex. The messages of
-- `pr_err` and `pr_debug` are left out.
pub mod Bus
pub mod Leds
pub mod Sysfs
pub mod Frames
pub mod Replies
pub mod Blinks
mod Tests
