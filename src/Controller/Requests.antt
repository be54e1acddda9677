-- ===== src/Controller/Requests.antt =====
-- The interface of led_controller.h as a whole: any sequence of its calls.
use ugreen_leds_controller.Prelude.{
  ℕ, ◌+◌, ◌%◌, ◌≤◌, ◌<◌, ◌≡◌, ◌⊎◌, refl, sym, subst, inl, inr, Bool, true, ◌||◌, List, [], ◌∷◌, leb,
  ltb, arith, dec_lt, Bool-cases,
}
use ugreen_leds_controller.Types.{Rgb, IsRgb, ugreen_led_count}
use ugreen_leds_controller.Status.{Status, err, einval}
use ugreen_leds_controller.Env.{Env}
use ugreen_leds_controller.Controller.State.{Session, zero_cache, invalidate}
use ugreen_leds_controller.Controller.Commands.{set_color, set_brightness, set_on, set_blink}
use ugreen_leds_controller.Controller.Protocol.{Mcu, Command, brightness_is, color_is, light_is}
use ugreen_leds_controller.Controller.Recorded.{power_light, blink_light}
use ugreen_leds_controller.Controller.Coherence.{
  IsCoherent, Sets, write-IsCoherent, zero_cache-Agrees,
}
use ugreen_leds_controller.Controller.Setters.{
  set_color-Sets, set_brightness-Sets, set_on-Sets, set_blink-Sets,
}

-- What a caller can ask of an LED.
pub data Request : Type 0 where
  color : Rgb → Request
  brightness : ℕ → Request
  power : Bool → Request
  blinking : (on_ms off_ms : ℕ) → Bool → Request

-- The ranges of the C types, and the sum that `set_blink` accepts.
abbrev pub IsTyped : Request → Type 0
IsTyped (color c) = IsRgb c
IsTyped (brightness b) = b < 256
IsTyped (power p) = Unit {0}
IsTyped (blinking on_ms off_ms b) = (on_ms < 65536) × (off_ms < 65536)

abbrev pub Fits : Request → Type 0
Fits (blinking on_ms off_ms b) = on_ms + off_ms < 65536
Fits _ = Unit {0}

abbrev pub wanted : Request → Command
wanted (color c) = color_is c
wanted (brightness b) = brightness_is b
wanted (power p) = light_is (power_light p)
wanted (blinking on_ms off_ms b) = light_is (blink_light b (on_ms + off_ms) on_ms)

module _ (env : Env) where
  open env use {World}

  abbrev pub request : ℕ → Request → Session World → Status × Session World
  request led_id (color c) = set_color env led_id c
  request led_id (brightness b) = set_brightness env led_id b
  request led_id (power p) = set_on env led_id p
  request led_id (blinking on_ms off_ms b) = set_blink env led_id on_ms off_ms b

  -- A setter refuses an LED that does not exist, and `set_blink` a cycle that does not fit
  -- uint16_t; then it returns -EINVAL and changes nothing.
  pub request_refused :
      (led_id : ℕ) (q : Request) (s : Session World)
      → IsTyped q
      → (ugreen_led_count ≤ led_id) ⊎ (¬ Fits q)
      → request led_id q s ≡ (err einval, s)
  unfolding set_color set_brightness set_on set_blink
  request_refused led_id (color c) s t h =
      let refused : leb ugreen_led_count led_id ≡ true = ground arith in rw refused
  request_refused led_id (brightness b) s t h =
      let refused : leb ugreen_led_count led_id ≡ true = ground arith in rw refused
  request_refused led_id (power p) s t h =
      let refused : leb ugreen_led_count led_id ≡ true = ground arith in rw refused
  request_refused led_id (blinking on_ms off_ms b) s t h =
      let refused : (leb ugreen_led_count led_id || ltb ((on_ms + off_ms) % 65536) on_ms) ≡ true =
        ground arith in
      rw refused

  module _ (mcu : Mcu env) where
    -- With the cache in agreement with the LEDs, a setter in range either makes the LED show what
    -- was asked, returns 0 and keeps the agreement, or returns an error and keeps the agreement by
    -- dropping the LED's cache entry. No other LED changes.
    pub request-Sets :
        (led_id : ℕ) (q : Request) (s : Session World)
        → led_id < ugreen_led_count
        → IsTyped q
        → Fits q
        → IsCoherent env mcu s
        → Sets env mcu led_id (wanted q) s (request led_id q s)
    request-Sets led_id (color c) s lt t f inv = set_color-Sets env mcu led_id c s lt t inv
    request-Sets led_id (brightness b) s lt t f inv =
        set_brightness-Sets env mcu led_id b s lt t inv
    request-Sets led_id (power p) s lt t f inv = set_on-Sets env mcu led_id p s lt inv
    request-Sets led_id (blinking on_ms off_ms b) s lt t f inv =
        set_blink-Sets env mcu led_id on_ms off_ms b s lt f inv

    Sets-IsCoherent :
        (led_id : ℕ) (c : Command) (s : Session World) (result : Status × Session World)
        → Sets env mcu led_id c s result
        → IsCoherent env mcu result.1
    Sets-IsCoherent led_id c s result (inl served) = served.coherent
    Sets-IsCoherent led_id c s result (inr dropped) = dropped.coherent

    Fits-dec : (q : Request) → Dec (Fits q)
    Fits-dec (color c) = yes tt
    Fits-dec (brightness b) = yes tt
    Fits-dec (power p) = yes tt
    Fits-dec (blinking on_ms off_ms b) = dec_lt (on_ms + off_ms) 65536

    refused-IsCoherent :
        (led_id : ℕ) (q : Request) (s : Session World)
        → IsTyped q
        → (ugreen_led_count ≤ led_id) ⊎ (¬ Fits q)
        → IsCoherent env mcu s
        → IsCoherent env mcu (request led_id q s).1
    refused-IsCoherent led_id q s t h inv =
        subst (λ r. IsCoherent env mcu r.1) (sym (request_refused led_id q s t h)) inv

    request-IsCoherent :
        (led_id : ℕ) (q : Request) (s : Session World)
        → IsTyped q
        → IsCoherent env mcu s
        → IsCoherent env mcu (request led_id q s).1
    request-IsCoherent led_id q s t inv = elim (dec_lt led_id ugreen_led_count) [
      | no out ↦ refused-IsCoherent led_id q s t (inl (omega arith)) inv
      | yes lt ↦ elim (Fits-dec q) [
        | yes f ↦ Sets-IsCoherent led_id (wanted q) s _ (request-Sets led_id q s lt t f inv)
        | no unfit ↦ refused-IsCoherent led_id q s t (inr unfit) inv
      ]
    ]

    pub invalidate-IsCoherent :
        (led_id : ℕ) (s : Session World)
        → IsCoherent env mcu s
        → IsCoherent env mcu (record s { controller = invalidate s.controller led_id })
    unfolding invalidate
    invalidate-IsCoherent led_id s inv = elim (Bool-cases (leb ugreen_led_count led_id)) [
      | inl out ↦ rw out inv
      | inr within ↦ rw within (
          write-IsCoherent env mcu s _ led_id zero_cache (ground arith) inv refl (λ i ne. refl)
            (zero_cache-Agrees _))
    ]

-- A call of led_controller.h after `led_controller_open`.
pub data Call : Type 0 where
  ask : ℕ → Request → Call
  drop : ℕ → Call

abbrev pub AreTyped : List Call → Type 0
AreTyped [] = Unit {0}
AreTyped (ask led_id q ∷ calls) = IsTyped q × AreTyped calls
AreTyped (drop led_id ∷ calls) = AreTyped calls

module _ (env : Env) where
  open env use {World}

  pub run : List Call → Session World → Session World
  run [] s = s
  run (ask led_id q ∷ calls) s = run calls (request env led_id q s).1
  run (drop led_id ∷ calls) s = run calls (record s { controller = invalidate s.controller led_id })

  -- After any calls of the setters and of `led_controller_invalidate`, for any LED numbers and
  -- however the bus behaved, whatever the cache holds for valid is what the MCU shows.
  pub run-IsCoherent :
      (mcu : Mcu env) (calls : List Call) (s : Session World)
      → AreTyped calls
      → IsCoherent env mcu s
      → IsCoherent env mcu (run calls s)
  unfolding run
  run-IsCoherent mcu [] s t inv = inv
  run-IsCoherent mcu (ask led_id q ∷ calls) s t inv =
      run-IsCoherent mcu calls (request env led_id q s).1 t.1
        (request-IsCoherent env mcu led_id q s t.0 inv)
  run-IsCoherent mcu (drop led_id ∷ calls) s t inv =
      run-IsCoherent mcu calls (record s { controller = invalidate s.controller led_id }) t
        (invalidate-IsCoherent env mcu led_id s inv)
