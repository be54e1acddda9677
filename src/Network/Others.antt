-- ===== src/Network/Others.antt =====
-- What the disk LEDs and the power LED do between two events of the network LED.
use ugreen_leds_controller.Prelude.{ℕ, ◌<◌, ◌≡◌, ◌≢◌, inl, inr, ap, ◌∙◌}
use ugreen_leds_controller.Types.{ugreen_led_count}
use ugreen_leds_controller.Status.{Status}
use ugreen_leds_controller.Env.{Env}
use ugreen_leds_controller.Config.{Config}
use ugreen_leds_controller.Config.Bounds.{InRange}
use ugreen_leds_controller.Scheduler.{LongDouble}
use ugreen_leds_controller.Controller.State.{Session}
use ugreen_leds_controller.Controller.Protocol.{Mcu, Shown, Command}
use ugreen_leds_controller.Controller.Coherence.{IsCoherent, Sets}
use ugreen_leds_controller.Controller.Timers.{Timers}
use ugreen_leds_controller.Controller.Keeps.{
  OnBus, set_color-keeps, set_brightness-keeps, set_on-keeps, set_blink-keeps,
}
use ugreen_leds_controller.Controller.Requests.{
  Request, color, brightness, power, blinking, request, request-Sets, IsTyped, Fits, wanted,
}
use ugreen_leds_controller.Network.{State}
use ugreen_leds_controller.Network.Paced.{IsPaced}

request-keeps :
    (env : Env) (P : env.World → Type 0)
    → OnBus env P
    → (led_id : ℕ) (q : Request) (s : Session env.World) → P s.world
    → P (request env led_id q s).1.world
request-keeps env P bus led_id (color c) s h = set_color-keeps env P bus led_id c s h
request-keeps env P bus led_id (brightness b) s h = set_brightness-keeps env P bus led_id b s h
request-keeps env P bus led_id (power p) s h = set_on-keeps env P bus led_id p s h
request-keeps env P bus led_id (blinking on_ms off_ms b) s h =
    set_blink-keeps env P bus led_id on_ms off_ms b s h

module _ (env : Env) (mcu : Mcu env) (timers : Timers env mcu) (f : LongDouble) (config : Config)
    (in_range : InRange config) where
  open env use {World}
  open mcu use {shown}
  open f use {Carrier}

  elsewhere_of :
      (led_id i : ℕ) (c : Command) (s : Session World) (r : Status × Session World)
      → Sets env mcu led_id c s r
      → i ≢ led_id
      → (shown r.1.world i ≡ shown s.world i) × IsCoherent env mcu r.1
  elsewhere_of led_id i c s r (inl served) ne = (served.elsewhere i ne, served.coherent)
  elsewhere_of led_id i c s r (inr dropped) ne = (dropped.elsewhere i ne, dropped.coherent)

  -- A setter that another component calls for an LED of its own, whether it works or fails on the
  -- bus, leaves the pulse as it is: a lit network LED stays steady, with its timer pending, and the
  -- cache agrees with all LEDs.
  pub request-IsPaced :
      (led_id : ℕ) (q : Request) (st : State Carrier World)
      → led_id < ugreen_led_count
      → 1 ≢ led_id
      → IsTyped q
      → Fits q
      → IsPaced env mcu timers f config in_range st
      → IsPaced env mcu timers f config in_range
          (record st { session = (request env led_id q st.session).1 })
  request-IsPaced led_id q st lt ne typed fits inv =
      let sets = request-Sets env mcu led_id q st.session lt typed fits inv.coherent in
      let rest = elsewhere_of led_id 1 (wanted q) st.session _ sets ne in
      record {
        coherent = rest.1;
        steady_light = λ on. ap (λ (t : Shown). t.light) rest.0 ∙ inv.steady_light on;
        live = λ on.
            request-keeps env (λ w. timers.Live w st.network.timer_fd)
              (timers.bus_keeps st.network.timer_fd) led_id q st.session (inv.live on);
      }
