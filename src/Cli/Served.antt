-- ===== src/Cli/Served.antt =====
-- When the tool succeeds, the LEDs show what was asked of them.
use ugreen_leds_controller.Prelude.{
  ℕ, suc, ◌≡◌, ◌≢◌, refl, sym, ap, ◌∙◌, arith, Bool, true, false, List, [], ◌∷◌, some,
  if◌then◌else◌, ◌==◌, ==_iff, ℕ_discrete, subst,
}
use ugreen_leds_controller.Env.{Env}
use ugreen_leds_controller.Controller.Protocol.{Mcu, Shown}
use ugreen_leds_controller.Cli.{Tool}
use ugreen_leds_controller.Cli.Arguments.{Operation}
use ugreen_leds_controller.Cli.Run.{if_done, run_operations, run_leds}
use ugreen_leds_controller.Cli.Serving.{effects, AreSound, ServesAll, run_operations-ServesAll}

-- What the LEDs named by `leds`, one after the other, are asked.
pub asked : List ℕ → List Operation → (i : ℕ) → Shown → Shown
asked [] ops i x = x
asked (led_id ∷ leds) ops i x = asked leds ops i (if i == led_id then effects ops x else x)

abbrev pub IsUnnamed : (i : ℕ) → List ℕ → Type 0
IsUnnamed i [] = Unit {0}
IsUnnamed i (led_id ∷ leds) = (i ≢ led_id) × IsUnnamed i leds

module _ (env : Env) (mcu : Mcu env) (tool : Tool env) (n : ℕ)
    (read_keeps : (register size : ℕ) (w : env.World) (i : ℕ)
      → mcu.shown (tool.read_block (some (suc n)) register size w).1 i ≡ mcu.shown w i) where
  open env use {World}
  open mcu use {shown}

  -- The tool's run: with exit 0 every LED shows what it was asked, and in any case the LEDs that
  -- are not named are as they were.
  pub record Runs (leds : List ℕ) (ops : List Operation) (w : World) (r : Bool × World)
      : Type 0 where
    pub done : r.0 ≡ true → (i : ℕ) → shown r.1 i ≡ asked leds ops i (shown w i)
    pub unnamed : (i : ℕ) → IsUnnamed i leds → shown r.1 i ≡ shown w i

  one_led :
      (led_id i : ℕ) (ops : List Operation) (w v : World)
      → ((j : ℕ) → j ≢ led_id → shown v j ≡ shown w j)
      → shown v led_id ≡ effects ops (shown w led_id)
      → shown v i ≡ (if i == led_id then effects ops (shown w i) else shown w i)
  one_led led_id i ops w v others here = elim (ℕ_discrete i led_id) [
    | yes e ↦
        let same : (i == led_id) ≡ true = (==_iff i led_id).1 e in
        rw same (subst (λ j. shown v j ≡ effects ops (shown w j)) (sym e) here)
    | no ne ↦ let other : (i == led_id) ≡ false = ground arith in rw other (others i ne)
  ]

  if_done-Runs :
      (led_id : ℕ) (leds : List ℕ) (ops : List Operation) (w : World) (r : Bool × World)
      → ServesAll env mcu tool n led_id read_keeps ops w r
      → ((v : World) → Runs leds ops v (run_leds env tool (some (suc n)) leds ops v))
      → Runs
          (led_id ∷ leds)
          ops
          w
          (if_done env tool (some (suc n)) r (run_leds env tool (some (suc n)) leds ops))
  unfolding asked
  if_done-Runs led_id leds ops w (true, v) h next = record {
    done = λ e i.
        (next v).done e i
        ∙ ap (asked leds ops i) (one_led led_id i ops w v h.elsewhere (h.done refl));
    unnamed = λ i un. (next v).unnamed i un.1 ∙ h.elsewhere i un.0;
  }
  if_done-Runs led_id leds ops w (false, v) h next = record {
    done = λ e. absurd (cc);
    unnamed = λ i un. h.elsewhere i un.0;
  }

  -- If the tool ends with success, every LED shows what the operations ask in their order, however
  -- many rounds it took; whether or not it succeeds, the LEDs that were not named are as they were.
  -- The device's descriptor is not 0, the arguments are in their ranges, and the times of a blink
  -- have a sum below 65536.
  pub run_leds-Runs :
      (leds : List ℕ) (ops : List Operation) (w : World)
      → AreSound ops
      → Runs leds ops w (run_leds env tool (some (suc n)) leds ops w)
  unfolding run_leds asked
  run_leds-Runs [] ops w sound = record { done = λ e i. refl; unnamed = λ i un. refl }
  run_leds-Runs (led_id ∷ leds) ops w sound =
      if_done-Runs led_id leds ops w (run_operations env tool (some (suc n)) led_id ops w)
        (run_operations-ServesAll env mcu tool n led_id read_keeps ops w sound)
        (λ v. run_leds-Runs leds ops v sound)
