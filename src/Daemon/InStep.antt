-- ===== src/Daemon/InStep.antt =====
-- The whole daemon keeps its LEDs in step through the event loop.
use ugreen_leds_controller.Prelude.{
  ℕ, zero, suc, refl, arith, Bool, true, false, ◌==◌, if◌then◌else◌, List, [], ◌∷◌, Option, none,
  some,
}
use ugreen_leds_controller.Status.{Status, ok, err, eintr, eio}
use ugreen_leds_controller.Env.{Env}
use ugreen_leds_controller.Config.{Config}
use ugreen_leds_controller.Config.Bounds.{InRange}
use ugreen_leds_controller.Bpf.{LedEvent, event_network, event_disk}
use ugreen_leds_controller.Scheduler.{LongDouble}
use ugreen_leds_controller.Controller.Protocol.{Mcu}
use ugreen_leds_controller.Controller.Timers.{Timers}
use ugreen_leds_controller.Network.{State, add_sample, render, handle_timer}
use ugreen_leds_controller.Network.Beside.{Beside, render-Beside, handle_timer-Beside}
use ugreen_leds_controller.Kernel.{Kernel, Events, Polled, poll_failed, polled}
use ugreen_leds_controller.Kernel.Tracks.{Tracks}
use ugreen_leds_controller.DiskLed.Slots.{Disks, handle_activity}
use ugreen_leds_controller.DiskLed.Slots
use ugreen_leds_controller.DiskLed.Blinking.{AreShown-same}
use ugreen_leds_controller.DiskLed.Following.{
  IsFollowed, quiet-IsFollowed, handle_activity-IsFollowed, handle_timer-IsFollowed,
}
use ugreen_leds_controller.DiskLed.Discovery.{Formats}
use ugreen_leds_controller.DiskLed.Updates.{ShowsAs}
use ugreen_leds_controller.DiskLed.Uevents.{handle_uevent}
use ugreen_leds_controller.DiskLed.Hotplug.{StaysInStep, handle_uevent-StaysInStep}
use ugreen_leds_controller.Runtime.{
  Libbpf, Sample, short_sample, sample, bpf_runtime_consume, consumed,
}
use ugreen_leds_controller.Runtime.Quiet.{OnMaps}
use ugreen_leds_controller.Daemon.{
  SignalAnswer, fails, stops, continues, consume_signal, set_world, network_of, put_network,
  disks_of, put_disks, dispatch, handle_bpf_event, handle_bpf_events,
}
use ugreen_leds_controller.Daemon.Loop.{
  Step, next, returns, stuck, and_next, or_return, or_stuck, Course, running, waiting, exits, Fds,
  Daemon, fds_of, on_signal, serve_signals, serve_network, serve_disk_timer, put_uevents,
  serve_uevents, show_traffic, after_consume, serve_bpf, any_broken, serve, round, course_of,
  run_event_loop,
}

module _ (env : Env) (kernel : Kernel env.World) (f : LongDouble) (config : Config)
    (formats : Formats) (bpf : Libbpf env.World) (fuel : ℕ) (mcu : Mcu env)
    (timers : Timers env mcu) (in_range : InRange config)
    (quiet : (before : env.World) → Tracks env kernel (ShowsAs env mcu before))
    (quiet_maps : (before : env.World) → OnMaps bpf (ShowsAs env mcu before []))
    (quiet_ring : (n : ℕ) (w : env.World) → ShowsAs env mcu w [] (bpf.consume_ring n w).1) where
  open env use {World}
  open mcu use {shown}
  open f use {Carrier}

  abbrev pub TheDaemon : Type 0
  TheDaemon = Daemon env kernel f config formats bpf fuel

  -- The LED of every active slot blinks as configured, and the cache agrees with all LEDs.
  abbrev pub InStep : TheDaemon → Type 0
  InStep a = IsFollowed env mcu timers config in_range (disks_of env kernel f config formats bpf a)

  set_world-InStep :
      (a : TheDaemon) (w : World)
      → ShowsAs env mcu a.session.world [] w
      → InStep a
      → InStep (set_world env kernel f config formats bpf w a)
  set_world-InStep a w same inv =
      quiet-IsFollowed env mcu timers config in_range (disks_of env kernel f config formats bpf a) w
        same inv

  put_network-InStep :
      (a : TheDaemon) (r : Status × State Carrier World)
      → Beside env mcu timers f config in_range a.session r.1.session
      → InStep a
      → InStep (put_network env kernel f config formats bpf a r).1
  put_network-InStep a (s, n) beside inv = record {
    shows =
        AreShown-same env mcu config in_range 2 (disks_of env kernel f config formats bpf a).slots
          a.session.world n.session.world (λ j le. beside.elsewhere j (λ e. omega (arith, e, le)))
          inv.shows;
    coherent = beside.coherent;
    fits = inv.fits;
  }

  either-InStep : (b : Bool) (x y : TheDaemon) → InStep x → InStep y → InStep (if b then x else y)
  either-InStep true x y h k = h
  either-InStep false x y h k = k

  dispatch-InStep :
      (e : LedEvent) (a : TheDaemon)
      → InStep a
      → InStep (dispatch env kernel f config formats bpf e a)
  unfolding add_sample
  dispatch-InStep e a inv =
      either-InStep (e.kind == event_network) _ _
        (either-InStep a.network_initialized _ a
          (record { shows = inv.shows; coherent = inv.coherent; fits = inv.fits }) inv)
        (either-InStep (e.kind == event_disk) _ a
          (either-InStep a.disks_initialized _ a
            (handle_activity-IsFollowed env mcu timers config in_range e.led_id
              (disks_of env kernel f config formats bpf a) inv)
            inv)
          inv)

  handle_bpf_events-InStep :
      (es : List Sample) (a : TheDaemon)
      → InStep a
      → InStep (handle_bpf_events env kernel f config formats bpf es a)
  unfolding handle_bpf_events handle_bpf_event
  handle_bpf_events-InStep [] a inv = inv
  handle_bpf_events-InStep (short_sample ∷ es) a inv = handle_bpf_events-InStep es a inv
  handle_bpf_events-InStep (sample e ∷ es) a inv =
      handle_bpf_events-InStep es (dispatch env kernel f config formats bpf e a)
        (dispatch-InStep e a inv)

  -- The daemon behind a step, if it ends.
  abbrev pub StepInStep : Step TheDaemon → Type 0
  StepInStep (next a) = InStep a
  StepInStep (returns s a) = InStep a
  StepInStep stuck = Unit {0}

  and_next-InStep :
      (s : Step TheDaemon) (k : TheDaemon → Step TheDaemon)
      → StepInStep s
      → ((a : TheDaemon) → InStep a → StepInStep (k a))
      → StepInStep (and_next s k)
  and_next-InStep (next a) k h rest = rest a h
  and_next-InStep (returns s a) k h rest = h
  and_next-InStep stuck k h rest = tt

  either_step :
      (b : Bool) (x y : Step TheDaemon)
      → StepInStep x
      → StepInStep y
      → StepInStep (if b then x else y)
  either_step true x y h k = h
  either_step false x y h k = k

  or_return-InStep : (r : Status × TheDaemon) → InStep r.1 → StepInStep (or_return r)
  or_return-InStep (ok, a) h = h
  or_return-InStep (err e, a) h = h

  on_signal-InStep :
      (a : TheDaemon) (s : SignalAnswer)
      → InStep a
      → StepInStep (on_signal env kernel f config formats bpf fuel a s)
  on_signal-InStep a (fails e) h = h
  on_signal-InStep a stops h = h
  on_signal-InStep a continues h = h

  serve_signals-InStep :
      (e : Events) (a : TheDaemon)
      → InStep a
      → StepInStep (serve_signals env kernel f config formats bpf fuel e a)
  serve_signals-InStep e a inv =
      let read = kernel.read_signal a.signal_fd a.session.world in
      either_step e.readable _ (next a)
        (on_signal-InStep _ (consume_signal read.0) (
          set_world-InStep a read.1
            ((quiet a.session.world).read_signal [] a.signal_fd a.session.world (λ i. refl)) inv))
        inv

  serve_network-InStep :
      (e : Events) (a : TheDaemon)
      → InStep a
      → StepInStep (serve_network env kernel f config formats bpf fuel e a)
  serve_network-InStep e a inv =
      let n = network_of env kernel f config formats bpf a in
      either_step e.readable _ (next a)
        (or_return-InStep _ (
          put_network-InStep a (handle_timer env f config n)
            (handle_timer-Beside env mcu timers f config in_range n inv.coherent) inv))
        inv

  serve_disk_timer-InStep :
      (e : Events) (a : TheDaemon)
      → InStep a
      → StepInStep (serve_disk_timer env kernel f config formats bpf fuel e a)
  serve_disk_timer-InStep e a inv =
      let d = disks_of env kernel f config formats bpf a in
      either_step e.readable _ (next a)
        (or_return-InStep
          (put_disks env kernel f config formats bpf a (Slots.handle_timer env config d))
          (handle_timer-IsFollowed env mcu timers config in_range d inv))
        inv

  uevents-InStep :
      (a : TheDaemon) (r : Option (Status × Disks World))
      → StaysInStep env kernel formats config bpf mcu timers in_range quiet quiet_maps r
      → StepInStep (or_stuck (put_uevents env kernel f config formats bpf fuel a r))
  uevents-InStep a none h = tt
  uevents-InStep a (some (s, d)) h =
      or_return-InStep (put_disks env kernel f config formats bpf a (s, d)) h

  serve_uevents-InStep :
      (e : Events) (a : TheDaemon)
      → InStep a
      → StepInStep (serve_uevents env kernel f config formats bpf fuel e a)
  serve_uevents-InStep e a inv =
      let d = disks_of env kernel f config formats bpf a in
      either_step e.readable _ (next a)
        (uevents-InStep a (handle_uevent env kernel formats config bpf fuel a.bpf d) (
          handle_uevent-StaysInStep env kernel formats config bpf mcu timers in_range quiet
            quiet_maps fuel a.bpf d inv))
        inv

  show_traffic-InStep :
      (a : TheDaemon) → InStep a → StepInStep (show_traffic env kernel f config formats bpf fuel a)
  show_traffic-InStep a inv =
      let n = network_of env kernel f config formats bpf a in
      either_step a.network_initialized _ (next a)
        (or_return-InStep _ (
          put_network-InStep a (render env f config n)
            (render-Beside env mcu timers f config in_range n inv.coherent) inv))
        inv

  after_consume-InStep :
      (a : TheDaemon) (samples : List Sample) (result : Status) (w : World)
      → ShowsAs env mcu a.session.world [] w
      → InStep a
      → StepInStep (after_consume env kernel f config formats bpf fuel a ((samples, result), w))
  after_consume-InStep a samples result w same inv =
      and_next-InStep
        (or_return (
          result,
          handle_bpf_events env kernel f config formats bpf samples
              (set_world env kernel f config formats bpf w a),
        ))
        (show_traffic env kernel f config formats bpf fuel)
        (or_return-InStep _ (handle_bpf_events-InStep samples _ (set_world-InStep a w same inv)))
        show_traffic-InStep

  consumed-same : (ring : Option ℕ) (w : World) → ShowsAs env mcu w [] (consumed bpf ring w).1
  consumed-same none w = λ i. refl
  consumed-same (some n) w = quiet_ring n w

  serve_bpf-InStep :
      (e : Events) (a : TheDaemon)
      → InStep a
      → StepInStep (serve_bpf env kernel f config formats bpf fuel e a)
  unfolding bpf_runtime_consume
  serve_bpf-InStep e a inv =
      let r = consumed bpf a.bpf.ring a.session.world in
      either_step e.readable _ (next a)
        (after_consume-InStep a r.0.0 r.0.1 r.1 (consumed-same a.bpf.ring a.session.world) inv) inv

  serve-InStep :
      (fds : Fds) (p : Polled) (a : TheDaemon)
      → InStep a
      → StepInStep (serve env kernel f config formats bpf fuel fds p a)
  unfolding serve
  serve-InStep fds (poll_failed e) a inv =
      either_step (e == eintr) (next a) (returns (err e) a) inv inv
  serve-InStep fds (polled s n d u b) a inv =
      and_next-InStep _ _
        (and_next-InStep _ _
          (and_next-InStep _ _
            (and_next-InStep _ _
              (and_next-InStep _ _ (serve_signals-InStep s a inv) (serve_network-InStep n))
              (serve_disk_timer-InStep d))
            (serve_uevents-InStep u))
          (serve_bpf-InStep b))
        (λ c k.
          either_step (any_broken env kernel f config formats bpf fuel fds s n d u b)
            (returns (err eio) c) (next c) k k)

  round-InStep :
      (a : TheDaemon) → InStep a → StepInStep (round env kernel f config formats bpf fuel a)
  unfolding round
  round-InStep a inv =
      let fds = fds_of env kernel f config formats bpf fuel a in
      let p =
        kernel.poll fds.signals fds.network fds.disk_timer fds.uevents fds.bpf a.session.world in
      serve-InStep fds p.0 _ (
        set_world-InStep a p.1
          ((quiet a.session.world).poll [] fds.signals fds.network fds.disk_timer fds.uevents
            fds.bpf a.session.world (λ i. refl))
          inv)

  -- The daemon in its loop, or behind it.
  abbrev pub CourseInStep : Course TheDaemon → Type 0
  CourseInStep (running a) = InStep a
  CourseInStep waiting = Unit {0}
  CourseInStep (exits s a) = InStep a

  course_of-InStep :
      (rest : TheDaemon → Course TheDaemon) (s : Step TheDaemon)
      → StepInStep s
      → ((a : TheDaemon) → InStep a → CourseInStep (rest a))
      → CourseInStep (course_of env kernel f config formats bpf fuel rest s)
  course_of-InStep rest (next a) h k = k a h
  course_of-InStep rest (returns s a) h k = h
  course_of-InStep rest stuck h k = tt

  -- After any number of rounds of the event loop, whatever events poll reports, whatever the bus,
  -- the timers and libbpf return and whichever disks come and go: the LED of every active slot
  -- blinks as configured, and no valid cache entry disagrees with what any LED shows. This also
  -- holds when the loop returns, with or without an error; a round within which the drain of the
  -- socket or the clearing of a map outlasts `fuel` is not spoken of.
  pub run_event_loop-InStep :
      (rounds : ℕ) (a : TheDaemon)
      → InStep a
      → CourseInStep (run_event_loop env kernel f config formats bpf fuel rounds a)
  unfolding run_event_loop
  run_event_loop-InStep zero a inv = inv
  run_event_loop-InStep (suc rounds) a inv =
      course_of-InStep (run_event_loop env kernel f config formats bpf fuel rounds) _
        (round-InStep a inv) (run_event_loop-InStep rounds)
