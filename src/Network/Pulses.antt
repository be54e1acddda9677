-- ===== src/Network/Pulses.antt =====
-- One pulse: what the network LED shows and what is left of the pending bytes.
use ugreen_leds_controller.Prelude.{
  ℕ, ◌/◌, ◌≡◌, ◌≢◌, ◌⊎◌, inl, inr, refl, ap, ◌∙◌, arith, Bool, true, false, ◌==◌, some, Bool-cases,
}
use ugreen_leds_controller.Status.{Status, ok, err, ◌>>◌}
use ugreen_leds_controller.Types.{Rgb, IsRgb}
use ugreen_leds_controller.Env.{Env}
use ugreen_leds_controller.Config.{Config}
use ugreen_leds_controller.Config.Bounds.{InRange}
use ugreen_leds_controller.Scheduler.{LongDouble, PulseScheduler, choose_rx}
use ugreen_leds_controller.Controller.State.{Session, cache_at, zero_cache}
use ugreen_leds_controller.Controller.Commands.{set_color, set_on}
use ugreen_leds_controller.Controller.Protocol.{
  Mcu, Shown, dark, steady, light_is, color_is, execute,
}
use ugreen_leds_controller.Controller.Coherence.{IsCoherent, invalidate_lem, cache_at-set_self}
use ugreen_leds_controller.Controller.Timers.{Timers}
use ugreen_leds_controller.Controller.Requests.{invalidate-IsCoherent}
use ugreen_leds_controller.Controller.Setters.{set_color-Sets, set_on-Sets}
use ugreen_leds_controller.Controller.Chains.{quiet-IsCoherent, Shows, Sets-Shows, >>-Shows}
use ugreen_leds_controller.Network.{
  NetworkLed, State, pulse_timer, arm_timer, pulse, started, armed, pulse_color, start_led,
}

-- The timer of a pulse is never the value that disarms it.
pub pulse_timer_armed : (c : Config) → ((pulse_timer c).tv_sec ≢ 0) ⊎ ((pulse_timer c).tv_nsec ≢ 0)
unfolding pulse_timer
pulse_timer_armed c = elim (Bool-cases (c.network_pulse_ms / 1000 == 0)) [
  | inr e ↦ inl (ground arith)
  | inl e ↦ inr (ground arith)
]

module _ (env : Env) (mcu : Mcu env) (timers : Timers env mcu) (f : LongDouble) (config : Config)
    (in_range : InRange config) where
  open env use {World}
  open mcu use {shown}
  open f use {Carrier}

  start_led-Shows :
      (color : Rgb) (s : Session World)
      → IsRgb color
      → IsCoherent env mcu s
      → Shows env mcu 1
          (λ t. record t { color = color; light = steady })
          s
          (start_led env f config color s)
  unfolding start_led
  start_led-Shows color s h inv =
      >>-Shows env mcu 1 (execute (some (color_is color))) (execute (some (light_is steady)))
        (set_color env 1 color) (set_on env 1 true) s
        (Sets-Shows env mcu 1 _ s _ (set_color-Sets env mcu 1 color s (omega arith) h inv))
        (λ t coherent.
          Sets-Shows env mcu 1 _ t _ (set_on-Sets env mcu 1 true t (omega arith) coherent))

  -- A pulse spends what is pending, whatever becomes of it, and touches no other LED.
  pub record IsSpent (s : Session World) (n : NetworkLed Carrier) (st : State Carrier World)
      : Type 0 where
    pub no_rx : st.network.pending_rx_bytes ≡ n.pending_rx_bytes
    pub no_tx : st.network.pending_tx_bytes ≡ n.pending_tx_bytes
    pub counted : st.network.scheduler ≡ n.scheduler
    pub same_timer : st.network.timer_fd ≡ n.timer_fd
    pub elsewhere : (i : ℕ) → i ≢ 1 → shown st.session.world i ≡ shown s.world i
    pub coherent : IsCoherent env mcu st.session

  -- The LED shows the pulse, and the timer that ends it runs.
  pub record Pulsed (color : Rgb) (s : Session World) (n : NetworkLed Carrier)
      (result : Status × State Carrier World) : Type 0 where
    pub spent : IsSpent s n result.1
    pub returns_ok : result.0 ≡ ok
    pub lit : result.1.network.led_on ≡ true
    pub shows :
        shown result.1.session.world 1 ≡ record (shown s.world 1) { color = color; light = steady }
    pub live : timers.Live result.1.session.world result.1.network.timer_fd

  -- A setter failed: the pulse is dropped, 0 is returned, and the cache entry is gone.
  pub record Skipped (color : Rgb) (s : Session World) (n : NetworkLed Carrier)
      (result : Status × State Carrier World) : Type 0 where
    pub spent : IsSpent s n result.1
    pub refusal : ℕ
    pub refused : ((set_color env 1 color >> set_on env 1 true) s).0 ≡ err refusal
    pub returns_ok : result.0 ≡ ok
    pub not_lit : result.1.network.led_on ≡ false
    pub forgets : cache_at result.1.session.controller 1 ≡ zero_cache

  -- The setters worked but the timer call failed: its error is returned, the pulse is over, and the
  -- LED is turned off again. It is dark if that command works.
  pub record Unarmed (color : Rgb) (s : Session World) (n : NetworkLed Carrier)
      (result : Status × State Carrier World) : Type 0 where
    pub spent : IsSpent s n result.1
    pub error : ℕ
    pub set : ((set_color env 1 color >> set_on env 1 true) s).0 ≡ ok
    pub at : Session World
    pub timer_failed :
        arm_timer env f config n.timer_fd ((set_color env 1 color >> set_on env 1 true) s).1
        ≡ (err error, at)
    pub returns_error : result.0 ≡ err error
    pub not_lit : result.1.network.led_on ≡ false
    pub turned_off : result.1.session ≡ (set_on env 1 false at).1
    pub goes_dark :
        (set_on env 1 false at).0 ≡ ok
        → shown result.1.session.world 1 ≡ record (shown s.world 1) { color = color; light = dark }

  abbrev pub PulseOutcome :
      Rgb → Session World → NetworkLed Carrier → Status × State Carrier World → Type 0
  PulseOutcome color s n result =
      Pulsed color s n result ⊎ Skipped color s n result ⊎ Unarmed color s n result

  module _ (color : Rgb) (s : Session World) where
    armed-outcome :
        (n : NetworkLed Carrier) (r : Status × Session World)
        → (r.0 ≡ ok → timers.Live r.1.world n.timer_fd)
        → shown r.1.world 1 ≡ record (shown s.world 1) { color = color; light = steady }
        → ((i : ℕ) → i ≢ 1 → shown r.1.world i ≡ shown s.world i)
        → IsCoherent env mcu r.1
        → arm_timer env f config n.timer_fd (start_led env f config color s).1 ≡ r
        → (start_led env f config color s).0 ≡ ok
        → PulseOutcome color s n (armed env f config (record n { led_on = true }) r)
    unfolding start_led
    armed-outcome n (ok, t) live shows elsewhere coherent called lit = inl (record {
      spent = record {
        no_rx = refl;
        no_tx = refl;
        counted = refl;
        same_timer = refl;
        elsewhere = elsewhere;
        coherent = coherent;
      };
      returns_ok = refl;
      lit = refl;
      shows = shows;
      live = live refl;
    })
    armed-outcome n (err e, t) live shows elsewhere coherent called lit =
        let off =
          Sets-Shows env mcu 1 _ t _ (set_on-Sets env mcu 1 false t (omega arith) coherent) in
        inr (
          inr (record {
            spent = record {
              no_rx = refl;
              no_tx = refl;
              counted = refl;
              same_timer = refl;
              elsewhere = λ i ne. off.elsewhere i ne ∙ elsewhere i ne;
              coherent = off.coherent;
            };
            error = e;
            set = lit;
            at = t;
            timer_failed = called;
            returns_error = refl;
            not_lit = refl;
            turned_off = refl;
            goes_dark = λ done. off.done done ∙ ap (λ (x : Shown). record x { light = dark }) shows;
          }))

    started-outcome :
        (n : NetworkLed Carrier) (r : Status × Session World)
        → Shows env mcu 1 (λ t. record t { color = color; light = steady }) s r
        → start_led env f config color s ≡ r
        → PulseOutcome color s n (started env f config n r)
    unfolding start_led arm_timer
    started-outcome n (ok, t) h called =
        let r = arm_timer env f config n.timer_fd t in
        let same : (i : ℕ) → shown r.1.world i ≡ shown t.world i =
          timers.settime_shows n.timer_fd 0 (pulse_timer config) t.world in
        armed-outcome n r
          (timers.settime_arms n.timer_fd 0 (pulse_timer config) t.world (pulse_timer_armed config))
          (same 1 ∙ h.done refl) (λ i ne. same i ∙ h.elsewhere i ne)
          (quiet-IsCoherent env mcu t r.1.world same h.coherent)
          (ap (λ (x : Status × Session World). arm_timer env f config n.timer_fd x.1) called)
          (ap (λ (x : Status × Session World). x.0) called)
    started-outcome n (err e, t) h called = inr (
        inl (record {
          spent = record {
            no_rx = refl;
            no_tx = refl;
            counted = refl;
            same_timer = refl;
            elsewhere = h.elsewhere;
            coherent = invalidate-IsCoherent env mcu 1 t h.coherent;
          };
          refusal = e;
          refused = ap (λ (x : Status × Session World). x.0) called;
          returns_ok = refl;
          not_lit = refl;
          forgets =
              ap (λ c. cache_at c 1) (invalidate_lem t.controller 1 (omega arith))
              ∙ cache_at-set_self t.controller 1 zero_cache h.coherent.entries (omega arith);
        }))

  -- The component before a pulse, with the choice made and the bytes taken.
  abbrev pub charged : State Carrier World → NetworkLed Carrier
  charged st = record st.network {
    pending_rx_bytes = 0;
    pending_tx_bytes = 0;
    scheduler = chosen.1;
  }
    where
      chosen : Bool × PulseScheduler Carrier
      chosen =
          choose_rx f st.network.scheduler st.network.pending_rx_bytes st.network.pending_tx_bytes

  pulse_color-IsRgb : (rx : Bool) → IsRgb (pulse_color env f config rx)
  pulse_color-IsRgb true = in_range.network_rx_color
  pulse_color-IsRgb false = in_range.network_tx_color

  -- A pulse takes all pending bytes and advances the scheduler once. Then the LED shows the colour
  -- of the chosen direction, with a timer that ends it, and 0 is returned; or the colour or the power
  -- command failed, the pulse is dropped, its cache entry is gone and 0 is returned; or both worked
  -- and the timer call failed, its error is returned and the LED is turned off again: if that command
  -- works, it is dark. No other LED changes, and the cache agrees with the LEDs.
  pub pulse-outcome :
      (st : State Carrier World)
      → IsCoherent env mcu st.session
      → PulseOutcome
          (pulse_color env f config
            (choose_rx f st.network.scheduler st.network.pending_rx_bytes
              st.network.pending_tx_bytes).0)
          st.session
          (charged st)
          (pulse env f config st)
  unfolding pulse
  pulse-outcome st inv =
      let rx =
        (choose_rx f st.network.scheduler st.network.pending_rx_bytes
          st.network.pending_tx_bytes).0 in
      started-outcome (pulse_color env f config rx) st.session (charged st)
        (start_led env f config (pulse_color env f config rx) st.session)
        (start_led-Shows (pulse_color env f config rx) st.session (pulse_color-IsRgb rx) inv) refl
