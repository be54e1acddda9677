-- ===== src/Lib.antt =====
-- Verification of the UGREEN LED controller: the LED daemon, its BPF programs and the kernel driver.
--
-- The LEDs hang on a microcontroller (MCU) on the I2C bus, and three programs drive it, one at a time.
-- The daemon `ugreen_ledd` (ebpf/src) owns the MCU through one `struct led_controller`. Its network
-- LED, disk LEDs and power LED call the controller's setters; the BPF programs (ebpf/bpf) run in the
-- kernel, count packets and note disk requests, and send events that the daemon's main loop hands to
-- the network and disk LEDs. The BPF runtime loads those programs and tells them, by maps, which
-- devices to report. The kernel driver (kmod) is the alternative to the daemon and repeats the
-- protocol; so does the command line tool (cli), which sends single commands.
--
-- Where the code is modelled:
--   Prelude, Status, Types  numbers, lists, errno results; ebpf/src/types.h
--   Env                     the kernel calls of the daemon, as a parameter: a record of functions on a
--                           state `World`
--   Controller              ebpf/src/led_controller.c. State: the cache and `struct led_controller`,
--                           led_controller_invalidate. Transfer: checksum, i2c_write_block,
--                           i2c_read_byte, change_status_once, change_status. Commands:
--                           led_controller_set_color, _set_brightness, _set_on, _set_blink. Open:
--                           led_controller_open, find_i2c_device, led_controller_close.
--                           Protocol: what the MCU promises (README.md, "Communication Protocols").
--                           Timers: what the timer calls promise
--   Scheduler               ebpf/src/scheduler.c: choose_rx is pulse_scheduler_choose_rx
--   Network                 ebpf/src/network_led.c: network_led_init, add_sample, render,
--                           handle_timer, network_led_cleanup
--   Kernel                  more system calls as a parameter: files, directories, sockets, signals,
--                           poll. Ledger: what the process holds. Tracks: what a property of the
--                           world makes of the calls
--   DiskLed                 Layout is ebpf/src/disk_layout.c; the rest is ebpf/src/disk_led.c. Slots:
--                           handle_activity, handle_timer, arm_timer, set_steady, cleanup.
--                           Discovery: parse_dev, read_udev_serial, serial_slot, device_slot,
--                           discover. Rescan: rescan, open_uevent_socket, disk_leds_init. Uevents:
--                           is_block_uevent, handle_uevent
--   Runtime                 ebpf/src/bpf_runtime.c over libbpf as a parameter: start, stop, attach and
--                           detach; Maps: clear_map, set_disk_target, and disk_leds_sync_bpf of
--                           ebpf/src/disk_led.c
--   Daemon                  ebpf/src/main.c: start and cleanup, the callback for BPF events; Loop:
--                           run_event_loop and main
--   Power                   ebpf/src/power_led.c: power_led_apply
--   Config                  ebpf/src/config.h and config.c. Values: the value parsers. Lines: a line of
--                           the file. Settings: config_load_file. Options: config_parse_options
--   Bpf                     ebpf/bpf: Network is account_packet, Disk is ugreen_disk_issue
--   Driver                  kmod/led-ugreen.c: Bus the transfers, Leds the setters and callbacks,
--                           Sysfs the two store functions
--   Cli                     cli/i2c.cpp and cli/ugreen_leds.cpp; Open, Arguments, Run and Main are
--                           cli/ugreen_leds_cli.cpp with the search for the device
--   Sim                     a simulated MCU, bus, clock, timers, kernel and libbpf for the tests
-- The other modules are proofs, named for what they prove, and Tests modules.
--
-- Conventions. A function of C that changes state takes the state and returns the new one with its
-- result; `-errno` is `err errno`. Integers are natural numbers with the wrap-around of their types
-- written out where the code can reach it. A file descriptor of -1 is `none`. A directory is the list
-- of the names that it gives one after the other, a file the list of its lines. The retry loops run
-- on the number of rounds left, five at the start as in the code, and most others on the lists or
-- counts that they go through. Three loops run on fuel: the clearing of a map, for which one round
-- more than the map has entries is enough; the reading of datagrams until there is none; and the
-- event loop, which is meant to run until a signal, for a number of rounds.
--
-- Assumptions, each a field of a record that a theorem takes: the MCU changes at most the addressed
-- LED and only as the frame says, and acknowledges with 1 only what it accepted; a sleep below a
-- second fails only by a signal; timer and clock calls change no LED, and a timer that was set
-- with a value other than 0 is live until it is read; `long double` is exact for the fairness of the
-- scheduler only; a call of the kernel or of libbpf acquires what it returns and gives back what it
-- is given, and changes no LED; while the daemon clears a map nobody adds an entry to it, others may
-- remove entries. That a packet's event finds no room in the ring buffer is part of the model.
-- Simulated instances show that these can hold.
--
-- Not modelled: the show functions of the driver and its registration; the printing of the command
-- line tool; config_usage; the scripts. Messages to stderr
-- and the kernel log are left out everywhere.
pub mod Prelude
pub mod Status
pub mod Types
pub mod Env
pub mod Controller
pub mod Sim
pub mod Config
pub mod Scheduler
pub mod Power
pub mod Network
pub mod Bpf
pub mod Driver
pub mod Kernel
pub mod Runtime
pub mod DiskLed
pub mod Daemon
pub mod Cli
