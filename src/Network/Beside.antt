-- ===== src/Network/Beside.antt =====
-- The network LED leaves the other LEDs alone.
use ugreen_leds_controller.Prelude.{
  ℕ, ◌≡◌, ◌≢◌, ◌∙◌, refl, inl, inr, arith, Bool, true, false, ◌&&◌, ◌==◌, not, if◌then◌else◌,
}
use ugreen_leds_controller.Status.{Status, ok, err}
use ugreen_leds_controller.Env.{Env}
use ugreen_leds_controller.Config.{Config}
use ugreen_leds_controller.Config.Bounds.{InRange}
use ugreen_leds_controller.Scheduler.{LongDouble}
use ugreen_leds_controller.Types.{Rgb}
use ugreen_leds_controller.Controller.State.{Session}
use ugreen_leds_controller.Controller.Commands.{set_on}
use ugreen_leds_controller.Controller.Protocol.{Mcu, dark, light_is}
use ugreen_leds_controller.Controller.Coherence.{IsCoherent}
use ugreen_leds_controller.Controller.Timers.{Timers, read_failed}
use ugreen_leds_controller.Controller.Requests.{invalidate-IsCoherent}
use ugreen_leds_controller.Controller.Setters.{set_on-Sets}
use ugreen_leds_controller.Controller.Chains.{quiet-IsCoherent, Sets-Shows}
use ugreen_leds_controller.Network.{NetworkLed, State, pulse, render, handle_timer, ended}
use ugreen_leds_controller.Network.Pulses.{PulseOutcome, pulse-outcome, charged}

module _ (env : Env) (mcu : Mcu env) (timers : Timers env mcu) (f : LongDouble) (config : Config)
    (in_range : InRange config) where
  open env use {World, timerfd_read}
  open mcu use {shown}
  open f use {Carrier}

  -- Only LED 1 may have changed, and the cache agrees with all LEDs.
  pub record Beside (s t : Session World) : Type 0 where
    pub elsewhere : (i : ℕ) → i ≢ 1 → shown t.world i ≡ shown s.world i
    pub coherent : IsCoherent env mcu t

  same-Beside : (s : Session World) → IsCoherent env mcu s → Beside s s
  same-Beside s inv = record { elsewhere = λ i ne. refl; coherent = inv }

  Beside-Beside : (s t u : Session World) → Beside s t → Beside t u → Beside s u
  Beside-Beside s t u h k = record {
    elsewhere = λ i ne. k.elsewhere i ne ∙ h.elsewhere i ne;
    coherent = k.coherent;
  }

  outcome-Beside :
      (color : Rgb) (s : Session World) (n : NetworkLed Carrier) (r : Status × State Carrier World)
      → PulseOutcome env mcu timers f config in_range color s n r
      → Beside s r.1.session
  outcome-Beside color s n r (inl p) = record {
    elsewhere = p.spent.elsewhere;
    coherent = p.spent.coherent;
  }
  outcome-Beside color s n r (inr (inl p)) = record {
    elsewhere = p.spent.elsewhere;
    coherent = p.spent.coherent;
  }
  outcome-Beside color s n r (inr (inr p)) = record {
    elsewhere = p.spent.elsewhere;
    coherent = p.spent.coherent;
  }

  either-Beside :
      (b : Bool) (s : Session World) (x y : Status × State Carrier World)
      → Beside s x.1.session
      → Beside s y.1.session
      → Beside s (if b then x else y).1.session
  either-Beside true s x y h k = h
  either-Beside false s x y h k = k

  pub render-Beside :
      (st : State Carrier World)
      → IsCoherent env mcu st.session
      → Beside st.session (render env f config st).1.session
  unfolding render
  render-Beside st inv =
      let n = st.network in
      let same = same-Beside st.session inv in
      either-Beside n.led_on st.session (ok, st) _ same
        (either-Beside (n.pending_rx_bytes == 0 && n.pending_tx_bytes == 0) st.session (ok, st)
          (pulse env f config st) same
          (outcome-Beside _ st.session (charged env mcu timers f config in_range st) _
            (pulse-outcome env mcu timers f config in_range st inv)))

  ended-Beside :
      (n : NetworkLed Carrier) (s : Session World) (r : Status × Session World)
      → Beside s r.1
      → Beside s (ended env f config n r).session
  ended-Beside n s (ok, t) h = h
  ended-Beside n s (err e, t) h = record {
    elsewhere = h.elsewhere;
    coherent = invalidate-IsCoherent env mcu 1 t h.coherent;
  }

  pub handle_timer-Beside :
      (st : State Carrier World)
      → IsCoherent env mcu st.session
      → Beside st.session (handle_timer env f config st).1.session
  unfolding handle_timer
  handle_timer-Beside st inv =
      let n = st.network in
      let size = timerfd_read n.timer_fd st.session.world in
      let s : Session World = record st.session { world = size.1 } in
      let same = timers.read_shows n.timer_fd st.session.world in
      let read : Beside st.session s = record {
        elsewhere = λ i ne. same i;
        coherent = quiet-IsCoherent env mcu st.session size.1 same inv;
      } in
      let off = set_on env 1 false s in
      let shows =
        Sets-Shows env mcu 1 (light_is dark) s off
          (set_on-Sets env mcu 1 false s (omega arith) read.coherent) in
      let dimmed : Beside s off.1 = record {
        elsewhere = shows.elsewhere;
        coherent = shows.coherent;
      } in
      let over = ended env f config n off in
      let quiet = ended-Beside n s off dimmed in
      either-Beside (read_failed size.0) st.session (size.0, record st { session = s }) _ read
        (either-Beside (not n.led_on) st.session (ok, record st { session = s })
          (render env f config over) read
          (Beside-Beside st.session s _ read
            (Beside-Beside s over.session _ quiet (render-Beside over quiet.coherent))))
