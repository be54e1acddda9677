-- ===== src/Network/Tests.antt =====
-- Pulses over the simulated MCU, and the theorems at concrete inputs.
use ugreen_leds_controller.Prelude.{arith, ℕ, ◌≡◌, refl, List, [], ◌∷◌, true, false, some}
use ugreen_leds_controller.Status.{ok}
use ugreen_leds_controller.Config.{set_defaults}
use ugreen_leds_controller.Config.Bounds.{set_defaults-InRange}
use ugreen_leds_controller.Scheduler.{choose_rx, initial}
use ugreen_leds_controller.Sim.{sim, sim_mcu, broken, refused, start_session, SimWorld}
use ugreen_leds_controller.Sim.Start.{sim_timers, start-IsCoherent, thousandths}
use ugreen_leds_controller.Controller.Transfer.{
  change_status, attempts, try_once, change_status_once, acknowledge,
}
use ugreen_leds_controller.Controller.Commands.{set_color, set_on}
use ugreen_leds_controller.Network.{State, network_led_init, pulse, pulse_color}
use ugreen_leds_controller.Network.Pulses.{PulseOutcome, pulse-outcome, charged}
use ugreen_leds_controller.Controller.Requests.{Request, request}
use ugreen_leds_controller.Network.Others.{request-IsPaced}
use ugreen_leds_controller.Network.Paced.{IsPaced}
use ugreen_leds_controller.Network.Sessions.{
  Event, sample, show, timer, handle_all, session-IsPaced,
}

abbrev events : List Event
events = sample 800 200 ∷ show ∷ sample 10 0 ∷ timer ∷ show ∷ []

session-IsPaced_example :
    IsPaced sim sim_mcu sim_timers thousandths set_defaults set_defaults-InRange (
      handle_all sim thousandths set_defaults events
        (network_led_init sim thousandths set_defaults (start_session (refused ∷ []))).1)
session-IsPaced_example =
    session-IsPaced sim sim_mcu sim_timers thousandths set_defaults set_defaults-InRange events
      (start_session (refused ∷ [])) (start-IsCoherent (refused ∷ []))

-- Traffic is pending and the LED is off.
abbrev waiting : State (ℕ × ℕ) SimWorld
waiting = record {
  network = record {
    scheduler = initial thousandths;
    pending_rx_bytes = 300;
    pending_tx_bytes = 900;
    led_on = false;
    timer_fd = some 7;
  };
  session = start_session (broken ∷ []);
}

pulse_runs :
    let (result, st) = pulse sim thousandths set_defaults waiting in
    (result ≡ ok) × (st.network.led_on ≡ true) × (st.network.pending_tx_bytes ≡ 0)
unfolding pulse set_color change_status attempts try_once change_status_once acknowledge set_on
pulse_runs = (refl, refl, refl)

pulse-outcome_example :
    PulseOutcome sim sim_mcu sim_timers thousandths set_defaults set_defaults-InRange
      (pulse_color sim thousandths set_defaults false)
      (start_session (broken ∷ []))
      (charged sim sim_mcu sim_timers thousandths set_defaults set_defaults-InRange waiting)
      (pulse sim thousandths set_defaults waiting)
unfolding choose_rx
pulse-outcome_example =
    pulse-outcome sim sim_mcu sim_timers thousandths set_defaults set_defaults-InRange waiting
      (start-IsCoherent (broken ∷ []))

abbrev later : State (ℕ × ℕ) SimWorld
later =
    handle_all sim thousandths set_defaults events
      (network_led_init sim thousandths set_defaults (start_session (refused ∷ []))).1

request-IsPaced_example :
    IsPaced sim sim_mcu sim_timers thousandths set_defaults set_defaults-InRange
      (record later { session = (request sim 4 (Request.power true) later.session).1 })
request-IsPaced_example =
    request-IsPaced sim sim_mcu sim_timers thousandths set_defaults set_defaults-InRange 4
      (Request.power true) later (omega arith) (omega arith) tt tt
      (session-IsPaced sim sim_mcu sim_timers thousandths set_defaults set_defaults-InRange events
        (start_session (refused ∷ [])) (start-IsCoherent (refused ∷ [])))
