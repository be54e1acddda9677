-- ===== src/Controller/Tests.antt =====
-- Runs of the controller over the simulated MCU, and the theorems at concrete inputs.
use ugreen_leds_controller.Prelude.{none, ℕ, ◌≡◌, refl, inr, true, false, List, [], ◌∷◌, arith}
use ugreen_leds_controller.Kernel.Ledger.{descriptor}
use ugreen_leds_controller.Sim.Desk.{desk, held_kernel, desk_ledger, desk_mcu}
use ugreen_leds_controller.Controller.Open.{led_controller_open}
use ugreen_leds_controller.Controller.Opened.{OpenOutcome, led_controller_open-outcome}
use ugreen_leds_controller.Types.{rgb}
use ugreen_leds_controller.Status.{ok, err, eremoteio, einval}
use ugreen_leds_controller.Sim.{
  sim, sim_mcu, refused, broken, at_start, start_session, fresh, SimWorld,
}
use ugreen_leds_controller.Sim.Start.{start-IsCoherent}
use ugreen_leds_controller.Controller.State.{Session, cache_at}
use ugreen_leds_controller.Controller.Transfer.{
  frame, change_status, try_once, attempts, acknowledge, change_status_once,
}
use ugreen_leds_controller.Controller.Commands.{set_color, set_on}
use ugreen_leds_controller.Controller.Protocol.{decode, command_of}
use ugreen_leds_controller.Controller.Frame.{decode-frame}
use ugreen_leds_controller.Controller.Coherence.{IsCoherent, Sets}
use ugreen_leds_controller.Controller.Economy.{counting, IsCheap, request-IsCheap}
use ugreen_leds_controller.Controller.Requests.{
  Request, request, request-Sets, request_refused, Call, ask, drop, run, run-IsCoherent, wanted,
}

-- With no fault, the colour arrives and is cached.
set_color_runs :
    let (result, s) = set_color sim 2 (rgb 1 2 3) (start_session []) in
    (result ≡ ok)
    × ((s.world.leds 2).color ≡ rgb 1 2 3)
    × ((cache_at s.controller 2).color_valid ≡ true)
unfolding set_color change_status attempts try_once acknowledge decode change_status_once
set_color_runs = (refl, refl, refl)

-- Two refused writes and a broken one are retried; the fourth is acknowledged.
set_on_retries : (set_on sim 4 true (start_session (refused ∷ broken ∷ refused ∷ []))).0 ≡ ok
unfolding set_on change_status attempts try_once acknowledge decode change_status_once
set_on_retries = refl

-- Five failures give up with the error of the last.
set_on_gives_up :
    (set_on sim 4 true (start_session (broken ∷ broken ∷ broken ∷ broken ∷ refused ∷ []))).0
    ≡ err eremoteio
unfolding set_on change_status attempts try_once acknowledge decode change_status_once
set_on_gives_up = refl

abbrev blink_request : Request
blink_request = Request.blinking 45 55 false

decode-frame_example : decode 3 (frame 3 4 0 100 0 45) ≡ command_of 4 0 100 0 45
decode-frame_example = decode-frame 3 4 0 100 0 45 (omega arith)

request-Sets_example :
    Sets sim sim_mcu 3
      (wanted blink_request)
      (start_session (refused ∷ []))
      (request sim 3 blink_request (start_session (refused ∷ [])))
request-Sets_example =
    request-Sets sim sim_mcu 3 blink_request (start_session (refused ∷ [])) (omega arith)
      (omega arith) (omega arith) (start-IsCoherent (refused ∷ []))

request_refused_example :
    request sim 3 (Request.blinking 65000 1000 true) (start_session [])
    ≡ (err einval, start_session [])
request_refused_example =
    request_refused sim 3 (Request.blinking 65000 1000 true) (start_session []) (omega arith)
      (inr (λ h. omega arith))

abbrev calls : List Call
calls =
    ask 0 (Request.color (rgb 1 2 3))
    ∷ ask 0 blink_request
    ∷ drop 0
    ∷ ask 12 (Request.power true)
    ∷ []

run-IsCoherent_example : IsCoherent sim sim_mcu (run sim calls (start_session (broken ∷ [])))
run-IsCoherent_example =
    run-IsCoherent sim sim_mcu calls (start_session (broken ∷ [])) (omega arith)
      (start-IsCoherent (broken ∷ []))

-- A session that counts its frames, over a bus that refuses two of them.
abbrev counted_start : Session (SimWorld × ℕ)
counted_start = record { controller = fresh; world = (at_start (refused ∷ refused ∷ []), 0) }

request-IsCheap_example :
    IsCheap sim counted_start (request (counting sim) 3 blink_request counted_start)
request-IsCheap_example = request-IsCheap sim 3 blink_request counted_start

-- The bus refuses the slave address, so that the device is closed again.
open_fails :
    (led_controller_open desk held_kernel none (descriptor 2 ∷ [])).1.world ≡ descriptor 2 ∷ []
unfolding led_controller_open
open_fails = refl

led_controller_open-outcome_example :
    OpenOutcome desk held_kernel desk_ledger desk_mcu
      (descriptor 2 ∷ [])
      (led_controller_open desk held_kernel none (descriptor 2 ∷ []))
led_controller_open-outcome_example =
    led_controller_open-outcome desk held_kernel desk_ledger desk_mcu none (descriptor 2 ∷ [])
