-- ===== src/Daemon/Loop.antt =====
-- ebpf/src/main.c: `run_event_loop`, and `main` from the configuration to the exit.
use ugreen_leds_controller.Prelude.{
  ℕ, zero, suc, Bool, true, false, ◌&&◌, ◌||◌, ◌==◌, if◌then◌else◌, Option, none, some, List, [],
}
use ugreen_leds_controller.Status.{Status, ok, err, eintr, eio}
use ugreen_leds_controller.Env.{Env, Fd}
use ugreen_leds_controller.Config.{Config}
use ugreen_leds_controller.Scheduler.{LongDouble}
use ugreen_leds_controller.Controller.Open.{blank}
use ugreen_leds_controller.Network.{NetworkLed, render, handle_timer, fresh_led}
use ugreen_leds_controller.Kernel.{Kernel, SignalRead, Events, Polled, poll_failed, polled}
use ugreen_leds_controller.DiskLed.Slots.{Disks}
use ugreen_leds_controller.DiskLed.Slots
use ugreen_leds_controller.DiskLed.Discovery.{Formats}
use ugreen_leds_controller.DiskLed.Uevents.{handle_uevent}
use ugreen_leds_controller.Runtime.{
  Libbpf, Sample, zero_runtime, bpf_runtime_epoll_fd, bpf_runtime_consume,
}
use ugreen_leds_controller.Runtime.Maps.{sync_bpf}
use ugreen_leds_controller.Daemon.{
  App, SignalAnswer, fails, stops, continues, consume_signal, set_world, network_of, put_network,
  disks_of, put_disks, handle_bpf_events, start_up, clean_up,
}

-- How a part of a round ends: with the next part, with a `return` of the loop, or not within the fuel
-- of a loop of its own.
pub data Step (A : Type 0) : Type 0 where
  next : A → Step A
  returns : Status → A → Step A
  stuck : Step A

abbrev pub and_next : {A : Type 0} → Step A → (A → Step A) → Step A
and_next (next a) k = k a
and_next (returns s a) k = returns s a
and_next stuck k = stuck

-- `if (error < 0) return error;`
abbrev pub or_return : {A : Type 0} → Status × A → Step A
or_return (ok, a) = next a
or_return (err e, a) = returns (err e) a

abbrev pub or_stuck : {A : Type 0} → Option (Status × A) → Step A
or_stuck none = stuck
or_stuck (some r) = or_return r

-- The descriptors of a round.
pub record Fds : Type 0 where
  pub signals : Fd
  pub network : Fd
  pub disk_timer : Fd
  pub uevents : Fd
  pub bpf : Fd

abbrev pub is_open : Fd → Bool
is_open none = false
is_open (some fd) = true

-- How the daemon stands: in its loop, within a loop of its own, or at its exit with the result.
pub data Course (A : Type 0) : Type 0 where
  running : A → Course A
  waiting : Course A
  exits : Status → A → Course A

module _ (env : Env) (kernel : Kernel env.World) (f : LongDouble) (config : Config)
    (formats : Formats) (bpf : Libbpf env.World) (fuel : ℕ) where
  open env use {World}
  open kernel use {read_signal, poll}
  open f use {Carrier}

  abbrev pub Daemon : Type 0
  Daemon = App Carrier World

  abbrev pub fds_of : Daemon → Fds
  fds_of a = record {
    signals = a.signal_fd;
    network = if a.network_initialized then n.timer_fd else none;
    disk_timer = if a.disks_initialized then d.timer_fd else none;
    uevents = if a.disks_initialized then d.uevent_fd else none;
    bpf = if a.bpf_started then bpf_runtime_epoll_fd bpf a.bpf a.session.world else none;
  }
    where
      n : NetworkLed Carrier
      n = a.network

      d : Disks World
      d = a.disks

  abbrev pub on_signal : Daemon → SignalAnswer → Step Daemon
  on_signal a (fails e) = returns (err e) a
  on_signal a stops = returns ok a
  on_signal a continues = next a

  abbrev pub answer_signal : Daemon → SignalRead × World → Step Daemon
  answer_signal a (read, w) =
      on_signal (set_world env kernel f config formats bpf w a) (consume_signal read)

  abbrev pub serve_signals : Events → Daemon → Step Daemon
  serve_signals e a =
      if e.readable then answer_signal a (read_signal a.signal_fd a.session.world) else next a

  abbrev pub serve_network : Events → Daemon → Step Daemon
  serve_network e a =
      if e.readable
      then or_return (
          put_network env kernel f config formats bpf a
            (handle_timer env f config (network_of env kernel f config formats bpf a)))
      else next a

  abbrev pub serve_disk_timer : Events → Daemon → Step Daemon
  serve_disk_timer e a =
      if e.readable
      then or_return (
          put_disks env kernel f config formats bpf a
            (Slots.handle_timer env config (disks_of env kernel f config formats bpf a)))
      else next a

  abbrev pub put_uevents : Daemon → Option (Status × Disks World) → Option (Status × Daemon)
  put_uevents a none = none
  put_uevents a (some r) = some (put_disks env kernel f config formats bpf a r)

  abbrev pub serve_uevents : Events → Daemon → Step Daemon
  serve_uevents e a =
      if e.readable
      then or_stuck (
          put_uevents a (
            handle_uevent env kernel formats config bpf fuel a.bpf
              (disks_of env kernel f config formats bpf a)))
      else next a

  abbrev pub show_traffic : Daemon → Step Daemon
  show_traffic a =
      if a.network_initialized
      then or_return (
          put_network env kernel f config formats bpf a
            (render env f config (network_of env kernel f config formats bpf a)))
      else next a

  -- `ring_buffer__consume` has passed the samples on when it returns.
  abbrev pub after_consume : Daemon → (List Sample × Status) × World → Step Daemon
  after_consume a ((samples, result), w) =
      and_next
        (or_return (
          result,
          handle_bpf_events env kernel f config formats bpf samples
              (set_world env kernel f config formats bpf w a),
        ))
        show_traffic

  abbrev pub serve_bpf : Events → Daemon → Step Daemon
  serve_bpf e a =
      if e.readable then after_consume a (bpf_runtime_consume bpf a.bpf a.session.world) else next a

  -- The loop over the descriptors at the end of a round.
  abbrev pub any_broken : Fds → (signals network disk_timer uevents bpf : Events) → Bool
  any_broken fds s n d u b =
      (is_open fds.signals && s.broken)
      || (is_open fds.network && n.broken)
      || (is_open fds.disk_timer && d.broken)
      || (is_open fds.uevents && u.broken)
      || (is_open fds.bpf && b.broken)

  abbrev pub check_broken : Bool → Daemon → Step Daemon
  check_broken b a = if b then returns (err eio) a else next a

  -- The handlers of a round, in the order of the code.
  unfoldable pub serve : Fds → Polled → Daemon → Step Daemon
  unfolding consume_signal handle_uevent handle_bpf_events bpf_runtime_consume
  serve fds (poll_failed e) a = if e == eintr then next a else returns (err e) a
  serve fds (polled s n d u b) a =
      and_next
        (and_next
          (and_next (and_next (and_next (serve_signals s a) (serve_network n)) (serve_disk_timer d))
            (serve_uevents u))
          (serve_bpf b))
        (check_broken (any_broken fds s n d u b))

  -- One round of the loop.
  unfoldable pub round : Daemon → Step Daemon
  unfolding serve bpf_runtime_epoll_fd
  round a =
      let fds = fds_of a in
      let (result, w) =
        poll fds.signals fds.network fds.disk_timer fds.uevents fds.bpf a.session.world in
      serve fds result (set_world env kernel f config formats bpf w a)

  abbrev pub course_of : (Daemon → Course Daemon) → Step Daemon → Course Daemon
  course_of rest (next a) = rest a
  course_of rest (returns s a) = exits s a
  course_of rest stuck = waiting

  -- `run_event_loop` for `rounds` rounds at most.
  unfoldable pub run_event_loop : (rounds : ℕ) → Daemon → Course Daemon
  unfolding round
  run_event_loop zero a = running a
  run_event_loop (suc rounds) a = course_of (run_event_loop rounds) (round a)

  abbrev pub cleaned : Course Daemon → Course Daemon
  cleaned (running a) = running a
  cleaned waiting = waiting
  cleaned (exits s a) = exits s (clean_up env kernel f config formats bpf a)

  abbrev pub run_synced : (rounds : ℕ) → Daemon → Option (Status × World) → Course Daemon
  run_synced rounds a none = waiting
  run_synced rounds a (some (ok, w)) =
      run_event_loop rounds (set_world env kernel f config formats bpf w a)
  run_synced rounds a (some (err e, w)) =
      exits (err e) (set_world env kernel f config formats bpf w a)

  -- The synchronisation of the disk maps, where the collectors and the disks are there.
  abbrev pub run_started : (rounds : ℕ) → Status × Daemon → Course Daemon
  run_started rounds (err e, a) = exits (err e) a
  run_started rounds (ok, a) =
      if a.bpf_started && a.disks_initialized
      then run_synced rounds a (sync_bpf bpf fuel a.bpf d.slot_count d.slots a.session.world)
      else run_event_loop rounds a
    where
      d : Disks World
      d = a.disks

  -- The record that `main` clears.
  abbrev pub zero_app : World → Daemon
  zero_app w = record {
    session = record { controller = blank; world = w };
    network = fresh_led env f config none;
    disks = record {
      slots = [];
      slot_count = 0;
      product_name = [];
      timer_fd = none;
      uevent_fd = none;
      session = record { controller = blank; world = w };
    };
    bpf = zero_runtime;
    signal_fd = none;
    network_initialized = false;
    disks_initialized = false;
    bpf_started = false;
  }

  -- `main` with a configuration that `config_parse_options` accepted, up to `rounds` rounds.
  unfoldable pub main_with : (rounds : ℕ) → World → Course Daemon
  unfolding start_up sync_bpf run_event_loop clean_up
  main_with rounds w =
      cleaned (run_started rounds (start_up env kernel f config formats bpf (zero_app w)))
