-- ===== src/Cli/Tests.antt =====
-- A run of the tool over the simulated MCU with faults, and the theorem on it.
use ugreen_leds_controller.Prelude.{ℕ, ◌≡◌, refl, arith, false, List, [], ◌∷◌, none, some}
use ugreen_leds_controller.Config.{codes}
use ugreen_leds_controller.Sim.{sim, sim_mcu, at_start, refused, broken}
use ugreen_leds_controller.Cli.{Tool, parse_status}
use ugreen_leds_controller.Cli.Arguments.{
  Operation, onoff, color, blink, show_status, Stoi, number, reads, shows_help, parse_operations,
}
use ugreen_leds_controller.Driver.Bus.{LedState, parse_state}
use ugreen_leds_controller.Cli.Readings.{data_of, parse_status-parse_state}
use ugreen_leds_controller.Cli.Run.{run_leds}
use ugreen_leds_controller.Cli.Served.{Runs, run_leds-Runs}

-- Every text of three characters reads as 200.
abbrev stoi : List ℕ → Stoi
stoi text = number false 200 3

operations_read :
    parse_operations stoi (
      codes "-on" ∷ codes "-color" ∷ codes "200" ∷ codes "200" ∷ codes "200" ∷ codes "-status" ∷ [])
    ≡ reads (onoff 1 ∷ color 200 200 200 ∷ show_status ∷ [])
unfolding parse_operations
operations_read = refl

operations_refused : parse_operations stoi (codes "-blink" ∷ codes "200" ∷ []) ≡ shows_help
unfolding parse_operations
operations_refused = refl

status_read :
    parse_status (1 ∷ 128 ∷ 255 ∷ 255 ∷ 255 ∷ 0 ∷ 0 ∷ 0 ∷ 0 ∷ 3 ∷ 0x7e ∷ [])
    ≡ some (record {
      op_mode = 1;
      brightness = 128;
      color_r = 255;
      color_g = 255;
      color_b = 255;
      t_on = 0;
      t_off = 0;
    })
unfolding parse_status
status_read = refl

abbrev tool : Tool sim
tool = record { read_block = λ fd register size w. (none, w) }

abbrev ops : List Operation
ops = onoff 1 ∷ blink 100 400 ∷ show_status ∷ color 0 96 255 ∷ []

run_leds-Runs_example :
    Runs sim sim_mcu tool 2
      (λ register size w i. refl)
      (2 ∷ 4 ∷ [])
      ops
      (at_start (refused ∷ broken ∷ []))
      (run_leds sim tool (some 3) (2 ∷ 4 ∷ []) ops (at_start (refused ∷ broken ∷ [])))
run_leds-Runs_example =
    run_leds-Runs sim sim_mcu tool 2 (λ register size w i. refl) (2 ∷ 4 ∷ []) ops
      (at_start (refused ∷ broken ∷ []))
      (omega arith, (omega arith, (tt, ((omega arith, omega arith, omega arith), tt))))

abbrev old_state : LedState
old_state = record { status = 0; r = 0; g = 0; b = 0; brightness = 0; t_on = 0; t_cycle = 0 }

parse_status-parse_state_example :
    parse_status (2 ∷ 128 ∷ 1 ∷ 2 ∷ 3 ∷ 0 ∷ 200 ∷ 0 ∷ 50 ∷ 1 ∷ 130 ∷ [])
    ≡ data_of (parse_state (2 ∷ 128 ∷ 1 ∷ 2 ∷ 3 ∷ 0 ∷ 200 ∷ 0 ∷ 50 ∷ 1 ∷ 130 ∷ []) old_state)
parse_status-parse_state_example =
    parse_status-parse_state 2 128 1 2 3 0 200 0 50 1 130 old_state (omega arith)
