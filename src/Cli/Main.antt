-- ===== src/Cli/Main.antt =====
-- cli/ugreen_leds_cli.cpp: `main`. What it prints is left out.
use ugreen_leds_controller.Prelude.{ℕ, Bool, true, false, List, [], ◌∷◌}
use ugreen_leds_controller.Status.{Status, ok, err}
use ugreen_leds_controller.Env.{Env, Fd}
use ugreen_leds_controller.Kernel.{Kernel}
use ugreen_leds_controller.Cli.{Tool}
use ugreen_leds_controller.Cli.Arguments.{
  Operation, Stoi, Reading, reads, shows_help, aborts, parse_operations,
}
use ugreen_leds_controller.Cli.Run.{get_status_robust, run_leds}
use ugreen_leds_controller.Cli.Open.{start, parse_leds}

-- How the tool ends: with 0, with -1, or by an exception.
pub data Exit : Type 0 where
  succeeds fails throws : Exit

module _ (env : Env) (kernel : Kernel env.World) (tool : Tool env) (stoi : List ℕ → Stoi) where
  open env use {World, close}

  -- `show_leds_info`
  abbrev pub show_leds : Fd → List ℕ → World → World
  show_leds fd [] w = w
  show_leds fd (led_id ∷ leds) w = show_leds fd leds (get_status_robust env tool fd led_id w).1

  abbrev pub exit_of : Bool × World → Exit × World
  exit_of (true, w) = (succeeds, w)
  exit_of (false, w) = (fails, w)

  abbrev pub with_operations : Fd → List ℕ → Reading (List Operation) → World → Exit × World
  with_operations fd leds (reads ops) w = exit_of (run_leds env tool fd leds ops w)
  with_operations fd leds shows_help w = (fails, w)
  with_operations fd leds aborts w = (throws, w)

  abbrev pub with_leds : Fd → Reading (List ℕ × List (List ℕ)) × World → Exit × World
  with_leds fd (reads (leds, []), w) = (succeeds, show_leds fd leds w)
  with_leds fd (reads (leds, arg ∷ args), w) =
      with_operations fd leds (parse_operations stoi (arg ∷ args)) w
  with_leds fd (shows_help, w) = (fails, w)
  with_leds fd (aborts, w) = (throws, w)

  abbrev pub with_device : List (List ℕ) → Reading (Status × Fd) × World → Exit × World
  with_device args (reads (ok, fd), w) = with_leds fd (parse_leds env tool fd args w)
  with_device args (reads (err e, fd), w) = (fails, w)
  with_device args (shows_help, w) = (fails, w)
  with_device args (aborts, w) = (throws, w)

  -- The arguments are those behind argv[0].
  unfoldable pub tool_main : List (List ℕ) → World → Exit × World
  unfolding start parse_leds run_leds parse_operations get_status_robust
  tool_main [] w = (succeeds, w)
  tool_main (arg ∷ args) w = with_device (arg ∷ args) (start env kernel w)
