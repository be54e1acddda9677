-- ===== src/Daemon.antt =====
-- ebpf/src/main.c: the daemon's state, and its answers to events. The messages on stderr are left out.
pub mod Loop
pub mod Signals
pub mod InStep
mod Tests
use ugreen_leds_controller.Prelude.{
  ℕ, Bool, true, false, ◌||◌, List, [], ◌∷◌, ◌==◌, if◌then◌else◌, none, some,
}
use ugreen_leds_controller.Status.{Status, ok, err, eagain, eio, eperm, einval, Op, ◌>>◌}
use ugreen_leds_controller.Env.{Env, Fd, Reply, value, failed}
use ugreen_leds_controller.Config.{Config}
use ugreen_leds_controller.Bpf.{LedEvent, event_network, event_disk}
use ugreen_leds_controller.Scheduler.{LongDouble}
use ugreen_leds_controller.Controller.State.{Session}
use ugreen_leds_controller.Controller.Open.{led_controller_open, led_controller_close}
use ugreen_leds_controller.Power.{power_led_apply}
use ugreen_leds_controller.Network.{
  NetworkLed, State, network_led_init, add_sample, network_led_cleanup,
}
use ugreen_leds_controller.Kernel.{Kernel, SignalRead, unread, short, signal}
use ugreen_leds_controller.DiskLed.Slots.{Disks, handle_activity, cleanup}
use ugreen_leds_controller.DiskLed.Discovery.{Formats}
use ugreen_leds_controller.DiskLed.Rescan.{disk_leds_init}
use ugreen_leds_controller.Runtime.{
  Libbpf, BpfRuntime, Live, Sample, short_sample, sample, bpf_runtime_start, bpf_runtime_stop,
}

-- `struct app` but for the configuration. `session` is the controller that network and disks point
-- to; the session in `disks` is not used.
pub record App (F W : Type 0) : Type 0 where
  pub session : Session W
  pub network : NetworkLed F
  pub disks : Disks W
  pub bpf : BpfRuntime
  pub signal_fd : Fd
  pub network_initialized : Bool
  pub disks_initialized : Bool
  pub bpf_started : Bool

abbrev pub sigint : ℕ
sigint = 2

abbrev pub sigterm : ℕ
sigterm = 15

-- What `consume_signal` returns: a negative errno, 1 for a signal that ends the daemon, or 0.
pub data SignalAnswer : Type 0 where
  fails : (errno : ℕ) → SignalAnswer
  stops : SignalAnswer
  continues : SignalAnswer

unfoldable pub consume_signal : SignalRead → SignalAnswer
consume_signal (unread e) = if e == eagain then continues else fails e
consume_signal short = fails eio
consume_signal (signal n) = if n == sigint || n == sigterm then stops else continues

module _ (env : Env) (kernel : Kernel env.World) (f : LongDouble) (config : Config)
    (formats : Formats) (bpf : Libbpf env.World) where
  open env use {World, close}
  open kernel use {setrlimit, sigprocmask, signalfd}
  open f use {Carrier}

  abbrev pub TheApp : Type 0
  TheApp = App Carrier World

  abbrev pub set_world : World → TheApp → TheApp
  set_world w a = record a { session = record s { world = w } }
    where
      s : Session World
      s = a.session

  -- The network LED and the disk LEDs with the controller that they point to.
  abbrev pub network_of : TheApp → State Carrier World
  network_of a = record { network = a.network; session = a.session }

  abbrev pub put_network : TheApp → Status × State Carrier World → Status × TheApp
  put_network a (s, n) = (s, record a { network = n.network; session = n.session })

  abbrev pub disks_of : TheApp → Disks World
  disks_of a = record d { session = a.session }
    where
      d : Disks World
      d = a.disks

  abbrev pub put_disks : TheApp → Status × Disks World → Status × TheApp
  put_disks a (s, d) = (s, record a { disks = d; session = d.session })

  -- An event of a known kind for a component that is initialised.
  abbrev pub dispatch : LedEvent → TheApp → TheApp
  dispatch e a =
      if e.kind == event_network
      then (if a.network_initialized
          then (put_network a
              (ok, add_sample env f config e.first_bytes e.second_bytes (network_of a))).1
          else a)
      else if e.kind == event_disk
      then (if a.disks_initialized
          then (put_disks a (handle_activity env config e.led_id (disks_of a))).1
          else a)
      else a

  -- It returns 0 in every case.
  unfoldable pub handle_bpf_event : Sample → TheApp → TheApp
  unfolding add_sample handle_activity
  handle_bpf_event short_sample a = a
  handle_bpf_event (sample e) a = dispatch e a

  -- The callback for the samples in a row.
  unfoldable pub handle_bpf_events : List Sample → TheApp → TheApp
  unfolding handle_bpf_event
  handle_bpf_events [] a = a
  handle_bpf_events (e ∷ es) a = handle_bpf_events es (handle_bpf_event e a)

  abbrev pub unless_denied : Status → Status
  unless_denied ok = ok
  unless_denied (err e) = if e == eperm then ok else err e

  unfoldable pub set_memlock_rlimit : Op TheApp
  set_memlock_rlimit a = let (s, w) = setrlimit a.session.world in (unless_denied s, set_world w a)

  -- The -1 of a failed `signalfd` is returned as it is, and read as -EPERM.
  abbrev pub with_signals : TheApp → Reply × World → Status × TheApp
  with_signals a (failed e, w) = (err eperm, set_world w (record a { signal_fd = none }))
  with_signals a (value fd, w) = (ok, set_world w (record a { signal_fd = some fd }))

  abbrev pub after_mask : TheApp → Status × World → Status × TheApp
  after_mask a (ok, w) = with_signals a (signalfd w)
  after_mask a (err e, w) = (err e, set_world w (record a { signal_fd = none }))

  unfoldable pub open_signal_fd : Op TheApp
  open_signal_fd a = after_mask a (sigprocmask a.session.world)

  abbrev pub with_controller : TheApp → Status × Session World → Status × TheApp
  with_controller a (s, session) = (s, record a { session = session })

  abbrev pub start_power : Op TheApp
  start_power a =
      if config.power_enabled
      then with_controller a (power_led_apply env config a.session)
      else (ok, a)

  abbrev pub mark_disks : Status × TheApp → Status × TheApp
  mark_disks (ok, a) = (ok, record a { disks_initialized = true })
  mark_disks (err e, a) = (err e, a)

  abbrev pub start_disks : Op TheApp
  start_disks a =
      if config.disks_enabled
      then mark_disks (put_disks a (disk_leds_init env kernel formats config a.session))
      else (ok, a)

  abbrev pub mark_network : Status × TheApp → Status × TheApp
  mark_network (ok, a) = (ok, record a { network_initialized = true })
  mark_network (err e, a) = (err e, a)

  abbrev pub start_network : Op TheApp
  start_network a =
      if config.network_enabled
      then mark_network (put_network a (network_led_init env f config a.session))
      else (ok, a)

  abbrev pub put_runtime : TheApp → Status × Live World → Status × TheApp
  put_runtime a (ok, l) = (ok, set_world l.world (record a { bpf = l.runtime; bpf_started = true }))
  put_runtime a (err e, l) = (err e, set_world l.world (record a { bpf = l.runtime }))

  abbrev pub start_bpf : Op TheApp
  start_bpf a =
      if config.network_enabled || config.disks_enabled
      then put_runtime a (bpf_runtime_start bpf config a.session.world)
      else (ok, a)

  -- `main` up to the collectors; an error leads to `cleanup`.
  unfoldable pub start_up : Op TheApp
  unfolding set_memlock_rlimit open_signal_fd
  start_up =
      set_memlock_rlimit
      >> open_signal_fd
      >> (λ a. with_controller a (led_controller_open env kernel config.i2c_device a.session.world))
      >> start_power
      >> start_disks
      >> start_network
      >> start_bpf

  abbrev pub stop_bpf : TheApp → TheApp
  stop_bpf a = if a.bpf_started then put_stopped a (bpf_runtime_stop bpf live) else a
    where
      live : Live World
      live = record { runtime = a.bpf; world = a.session.world }

      put_stopped : TheApp → Live World → TheApp
      put_stopped a l = set_world l.world (record a { bpf = l.runtime })

  abbrev pub stop_network : TheApp → TheApp
  stop_network a =
      if a.network_initialized
      then (put_network a (ok, network_led_cleanup env f config (network_of a))).1
      else a

  abbrev pub stop_disks : TheApp → TheApp
  stop_disks a =
      if a.disks_initialized then (put_disks a (ok, cleanup env config (disks_of a))).1 else a

  abbrev pub close_signals : Fd → World → World
  close_signals none w = w
  close_signals (some fd) w = close (some fd) w

  -- The label `cleanup` of `main`.
  unfoldable pub clean_up : TheApp → TheApp
  unfolding bpf_runtime_stop network_led_cleanup cleanup led_controller_close
  clean_up a =
      let b = stop_disks (stop_network (stop_bpf a)) in
      let c = set_world (close_signals b.signal_fd b.session.world) b in
      record c { session = led_controller_close env kernel c.session }
