-- ===== src/Cli/Run.antt =====
-- cli/ugreen_leds_cli.cpp: the operations on the LEDs, with their retries.
use ugreen_leds_controller.Prelude.{
  ℕ, zero, suc, ◌+◌, Bool, true, false, List, [], ◌∷◌, Option, none, some, if◌then◌else◌,
}
use ugreen_leds_controller.Status.{Status, ok, err}
use ugreen_leds_controller.Env.{Env, Fd}
use ugreen_leds_controller.Cli.{
  Tool, LedData, get_status, set_onoff, set_rgb, set_brightness, set_blink_or_breath,
  is_last_modification_successful,
}
use ugreen_leds_controller.Cli.Arguments.{
  Operation, onoff, blink, breath, color, brightness, show_status,
}

abbrev pub is_modification : Operation → Bool
is_modification (onoff status) = true
is_modification (blink t_on t_off) = true
is_modification (breath t_on t_off) = true
is_modification (color r g b) = true
is_modification (brightness x) = true
is_modification show_status = false

module _ (env : Env) (tool : Tool env) (fd : Fd) where
  open env use {World, usleep}

  -- The loop of `get_status_robust` with `left` readings to go.
  unfoldable pub get_status_again :
      (left led_id : ℕ) → Option LedData × World → Option LedData × World
  unfolding get_status
  get_status_again zero led_id r = r
  get_status_again (suc left) led_id (some bytes, w) = (some bytes, w)
  get_status_again (suc left) led_id (none, w) =
      get_status_again left led_id (get_status env tool fd led_id (usleep 3000 w).1)

  unfoldable pub get_status_robust : (led_id : ℕ) → World → Option LedData × World
  unfolding get_status_again
  get_status_robust led_id w =
      get_status_again 4 led_id (get_status env tool fd led_id (usleep 8000 w).1)

  -- The function of an operation; what `show_leds_info` prints is left out.
  unfoldable pub perform : (led_id : ℕ) → Operation → World → Status × World
  unfolding set_onoff set_blink_or_breath set_rgb set_brightness get_status_robust
  perform led_id (onoff status) w = set_onoff env tool fd led_id status w
  perform led_id (blink t_on t_off) w = set_blink_or_breath env tool fd 0x04 led_id t_on t_off w
  perform led_id (breath t_on t_off) w = set_blink_or_breath env tool fd 0x05 led_id t_on t_off w
  perform led_id (color r g b) w = set_rgb env tool fd led_id r g b w
  perform led_id (brightness x) w = set_brightness env tool fd led_id x w
  perform led_id show_status w = (ok, (get_status_robust led_id w).1)

  -- The sleep before a round.
  abbrev pub wait : (retry_cnt : ℕ) → Bool → World → World
  wait zero modifies w = if modifies then (usleep 500 w).1 else w
  wait (suc retry_cnt) modifies w = (usleep 3000 w).1

  -- After the operation: a modification asks whether it was accepted.
  abbrev pub confirm : Bool → Status × World → Bool × World
  confirm modifies (err e, w) = (false, w)
  confirm false (ok, w) = (true, w)
  confirm true (ok, w) = is_last_modification_successful env tool fd (usleep 2000 w).1

  -- A round of the loop: whether `last_status` is 0 behind it.
  unfoldable pub round : (led_id : ℕ) → Operation → (retry_cnt : ℕ) → World → Bool × World
  unfolding perform is_last_modification_successful
  round led_id op retry_cnt w =
      confirm (is_modification op) (perform led_id op (wait retry_cnt (is_modification op) w))

  abbrev pub unless_done : (World → Bool × World) → Bool × World → Bool × World
  unless_done rest (true, w) = (true, w)
  unless_done rest (false, w) = rest w

  -- The loop from round `retry_cnt` with `left` rounds to go.
  unfoldable pub rounds : (left retry_cnt led_id : ℕ) → Operation → World → Bool × World
  unfolding round
  rounds zero retry_cnt led_id op w = (false, w)
  rounds (suc left) retry_cnt led_id op w =
      unless_done (rounds left (retry_cnt + 1) led_id op) (round led_id op retry_cnt w)

  abbrev pub if_done : Bool × World → (World → Bool × World) → Bool × World
  if_done (true, w) next = next w
  if_done (false, w) next = (false, w)

  abbrev pub max_retry_count : ℕ
  max_retry_count = 5

  -- The inner loop over the operations, for one LED.
  unfoldable pub run_operations : (led_id : ℕ) → List Operation → World → Bool × World
  unfolding rounds
  run_operations led_id [] w = (true, w)
  run_operations led_id (op ∷ ops) w =
      if_done (rounds max_retry_count 0 led_id op w) (run_operations led_id ops)

  -- The outer loop; `false` is the exit with -1.
  unfoldable pub run_leds : List ℕ → List Operation → World → Bool × World
  unfolding run_operations
  run_leds [] ops w = (true, w)
  run_leds (led_id ∷ leds) ops w = if_done (run_operations led_id ops w) (run_leds leds ops)
