-- ===== src/Daemon/Signals.antt =====
-- SIGINT and SIGTERM end the daemon.
use ugreen_leds_controller.Prelude.{ℕ, suc, ◌≡◌, ◌⊎◌, true, ◌||◌, ◌==◌, arith}
use ugreen_leds_controller.Status.{ok}
use ugreen_leds_controller.Env.{Env}
use ugreen_leds_controller.Config.{Config}
use ugreen_leds_controller.Scheduler.{LongDouble}
use ugreen_leds_controller.Kernel.{Kernel, SignalRead, signal, Events, polled}
use ugreen_leds_controller.DiskLed.Discovery.{Formats}
use ugreen_leds_controller.Runtime.{Libbpf}
use ugreen_leds_controller.Daemon.{consume_signal, sigint, sigterm, stops, set_world}
use ugreen_leds_controller.Daemon.Loop.{
  returns, exits, serve, round, run_event_loop, fds_of, answer_signal, Fds, Daemon,
}

module _ (env : Env) (kernel : Kernel env.World) (f : LongDouble) (config : Config)
    (formats : Formats) (bpf : Libbpf env.World) (fuel : ℕ) where
  open env use {World}

  abbrev pub at_world :
      World
      → Daemon env kernel f config formats bpf fuel
      → Daemon env kernel f config formats bpf fuel
  at_world w a = set_world env kernel f config formats bpf w a

  consume_signal-stops : (n : ℕ) → (n ≡ sigint) ⊎ (n ≡ sigterm) → consume_signal (signal n) ≡ stops
  unfolding consume_signal
  consume_signal-stops n h =
      let either : (n == sigint || n == sigterm) ≡ true = ground arith in rw either

  answered :
      (n : ℕ) (a : Daemon env kernel f config formats bpf fuel) (r : SignalRead × World) (w : World)
      → (n ≡ sigint) ⊎ (n ≡ sigterm)
      → r ≡ (signal n, w)
      → answer_signal env kernel f config formats bpf fuel a r ≡ returns ok (at_world w a)
  answered n a r w h e = rw (e, consume_signal-stops n h)

  served :
      (n : ℕ) (a : Daemon env kernel f config formats bpf fuel) (fds : Fds)
      (s network disk_timer uevents bpf_events : Events) (w : World)
      → s.readable ≡ true
      → (n ≡ sigint) ⊎ (n ≡ sigterm)
      → kernel.read_signal a.signal_fd a.session.world ≡ (signal n, w)
      → serve env kernel f config formats bpf fuel fds
          (polled s network disk_timer uevents bpf_events)
          a
        ≡ returns ok (at_world w a)
  unfolding serve
  served n a fds s network disk_timer uevents bpf_events w ready h e =
      rw (ready, answered n a _ w h e)

  -- When poll finds the signal descriptor readable and SIGINT or SIGTERM is read from it, the loop
  -- returns 0 in that round, whatever else is ready or broken, and no other handler has changed
  -- anything.
  pub run_event_loop-exits :
      (rounds n : ℕ) (a : Daemon env kernel f config formats bpf fuel) (v w : World)
      (s network disk_timer uevents bpf_events : Events)
      → let fds = fds_of env kernel f config formats bpf fuel a in
        kernel.poll fds.signals fds.network fds.disk_timer fds.uevents fds.bpf a.session.world
          ≡ (polled s network disk_timer uevents bpf_events, v)
        → s.readable ≡ true
        → (n ≡ sigint) ⊎ (n ≡ sigterm)
        → kernel.read_signal a.signal_fd v ≡ (signal n, w)
        → run_event_loop env kernel f config formats bpf fuel (suc rounds) a
          ≡ exits ok (at_world w a)
  unfolding run_event_loop round
  run_event_loop-exits rounds n a v w s network disk_timer uevents bpf_events polls ready h reads =
      rw (
        polls,
        served n (at_world v a) (fds_of env kernel f config formats bpf fuel a) s network disk_timer
            uevents bpf_events w ready h reads,
      )
