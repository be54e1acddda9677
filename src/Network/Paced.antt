-- ===== src/Network/Paced.antt =====
-- No pulse stays on: whenever the component takes the network LED for lit, a timer is pending.
use ugreen_leds_controller.Prelude.{
  ℕ, ◌≡◌, inl, inr, refl, sym, subst, arith, Bool, true, false, ◌&&◌, ◌==◌, not, if◌then◌else◌,
}
use ugreen_leds_controller.Status.{Status, ok, err}
use ugreen_leds_controller.Env.{Env}
use ugreen_leds_controller.Config.{Config}
use ugreen_leds_controller.Config.Bounds.{InRange}
use ugreen_leds_controller.Scheduler.{LongDouble}
use ugreen_leds_controller.Controller.State.{Session}
use ugreen_leds_controller.Controller.Commands.{set_on}
use ugreen_leds_controller.Controller.Protocol.{Mcu, Shown, steady}
use ugreen_leds_controller.Controller.Coherence.{IsCoherent}
use ugreen_leds_controller.Controller.Timers.{Timers, read_failed}
use ugreen_leds_controller.Controller.Requests.{invalidate-IsCoherent}
use ugreen_leds_controller.Controller.Setters.{set_on-Sets}
use ugreen_leds_controller.Controller.Chains.{quiet-IsCoherent, Sets-Shows}
use ugreen_leds_controller.Network.{NetworkLed, State, pulse, render, handle_timer, ended}
use ugreen_leds_controller.Network.Pulses.{PulseOutcome, pulse-outcome, charged}

module _ (env : Env) (mcu : Mcu env) (timers : Timers env mcu) (f : LongDouble) (config : Config)
    (in_range : InRange config) where
  open env use {World, timerfd_read}
  open mcu use {shown}
  open f use {Carrier}

  -- The invariant of the component between two events.
  pub record IsPaced (st : State Carrier World) : Type 0 where
    pub coherent : IsCoherent env mcu st.session
    pub steady_light : st.network.led_on ≡ true → (shown st.session.world 1).light ≡ steady
    pub live : st.network.led_on ≡ true → timers.Live st.session.world st.network.timer_fd

  not-true : (b : Bool) → not b ≡ true → b ≡ false
  not-true true h = absurd (cc)
  not-true false h = refl

  pub unlit-IsPaced :
      (st : State Carrier World)
      → st.network.led_on ≡ false
      → IsCoherent env mcu st.session
      → IsPaced st
  unlit-IsPaced st off inv = record {
    coherent = inv;
    steady_light = λ on. absurd (cc);
    live = λ on. absurd (cc);
  }

  outcome-IsPaced :
      (color : _) (s : Session World) (n : NetworkLed Carrier) (r : Status × State Carrier World)
      → PulseOutcome env mcu timers f config in_range color s n r
      → IsPaced r.1
  outcome-IsPaced color s n r (inl p) = record {
    coherent = p.spent.coherent;
    steady_light = λ on. subst (λ (t : Shown). t.light ≡ steady) (sym p.shows) refl;
    live = λ on. p.live;
  }
  outcome-IsPaced color s n r (inr (inl p)) = unlit-IsPaced r.1 p.not_lit p.spent.coherent
  outcome-IsPaced color s n r (inr (inr p)) = unlit-IsPaced r.1 p.not_lit p.spent.coherent

  either-IsPaced :
      (b : Bool) (x y : Status × State Carrier World)
      → (b ≡ true → IsPaced x.1)
      → (b ≡ false → IsPaced y.1)
      → IsPaced (if b then x else y).1
  either-IsPaced true x y h k = h refl
  either-IsPaced false x y h k = k refl

  pub render-IsPaced : (st : State Carrier World) → IsPaced st → IsPaced (render env f config st).1
  unfolding render
  render-IsPaced st inv =
      let n = st.network in
      either-IsPaced n.led_on (ok, st) _ (λ on. inv)
        (λ off.
          either-IsPaced (n.pending_rx_bytes == 0 && n.pending_tx_bytes == 0) (ok, st)
            (pulse env f config st) (λ idle. inv)
            (λ busy.
              outcome-IsPaced _ st.session (charged env mcu timers f config in_range st) _
                (pulse-outcome env mcu timers f config in_range st inv.coherent)))

  ended-IsPaced :
      (n : NetworkLed Carrier) (r : Status × Session World)
      → IsCoherent env mcu r.1
      → IsPaced (ended env f config n r)
  ended-IsPaced n (ok, s) inv = unlit-IsPaced _ refl inv
  ended-IsPaced n (err e, s) inv = unlit-IsPaced _ refl (invalidate-IsCoherent env mcu 1 s inv)

  pub handle_timer-IsPaced :
      (st : State Carrier World) → IsPaced st → IsPaced (handle_timer env f config st).1
  unfolding handle_timer
  handle_timer-IsPaced st inv =
      let n = st.network in
      let size = timerfd_read n.timer_fd st.session.world in
      let s : Session World = record st.session { world = size.1 } in
      let same : (i : ℕ) → shown size.1 i ≡ shown st.session.world i =
        timers.read_shows n.timer_fd st.session.world in
      let coherent = quiet-IsCoherent env mcu st.session size.1 same inv.coherent in
      either-IsPaced (read_failed size.0) (size.0, record st { session = s }) _
        (λ failed. record {
          coherent = coherent;
          steady_light =
              λ on. subst (λ (t : Shown). t.light ≡ steady) (sym (same 1)) (inv.steady_light on);
          live = λ on. timers.read_error_keeps n.timer_fd st.session.world failed (inv.live on);
        })
        (λ fired.
          either-IsPaced (not n.led_on) (ok, record st { session = s }) _
            (λ off. unlit-IsPaced _ (not-true n.led_on off) coherent)
            (λ on. render-IsPaced (ended env f config n (set_on env 1 false s)) (
              ended-IsPaced n (set_on env 1 false s)
                (Sets-Shows env mcu 1 _ s _
                  (set_on-Sets env mcu 1 false s (omega arith) coherent)).coherent)))
