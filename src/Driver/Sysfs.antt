-- ===== src/Driver/Sysfs.antt =====
-- The attributes `color` and `blink_type` of kmod/led-ugreen.c, as far as they change the state.
use ugreen_leds_controller.Prelude.{
  ℕ, ◌+◌, ◌%◌, Bool, true, false, List, [], ◌∷◌, length, ◌==◌, ltb, ◌&&◌, if◌then◌else◌, Option,
  some, none,
}
use ugreen_leds_controller.Types.{Rgb}
use ugreen_leds_controller.Status.{einval}
use ugreen_leds_controller.Env.{Reply, value, failed}
use ugreen_leds_controller.Driver.Bus.{Bus}
use ugreen_leds_controller.Driver.Leds.{
  Cell, Delays, truncate_blink_delay_time, turn_on_or_off, set_color, set_blink_or_breath,
}

-- The kernel's `sscanf` with the three formats of the driver: the values and the characters read,
-- where all conversions are made.
pub record Scanner : Type 0 where
  pub color : List ℕ → Option (Rgb × ℕ)
  pub blink : List ℕ → Option (Delays × ℕ)
  pub breath : List ℕ → Option (Delays × ℕ)

abbrev pub bytes_equal : List ℕ → List ℕ → Bool
bytes_equal [] [] = true
bytes_equal [] (y ∷ ys) = false
bytes_equal (x ∷ xs) [] = false
bytes_equal (x ∷ xs) (y ∷ ys) = x == y && bytes_equal xs ys

-- "none\n"
abbrev pub none_line : List ℕ
none_line = 110 ∷ 111 ∷ 110 ∷ 101 ∷ 10 ∷ []

-- What `blink_type_store` reads from its text: `steady` is `blink_type == UGREEN_LED_STATE_ON`.
pub data BlinkType : Type 0 where
  steady : BlinkType
  blinking : Bool → Delays → BlinkType

module _ (scan : Scanner) where
  abbrev pub or_none : List ℕ → Option (BlinkType × ℕ)
  or_none buf = if bytes_equal buf none_line then some (steady, length buf) else none

  abbrev pub or_breath : List ℕ → Option (Delays × ℕ) → Option (BlinkType × ℕ)
  or_breath buf (some (d, nrchars)) = some (blinking false d, nrchars)
  or_breath buf none = or_none buf

  abbrev pub or_blink : List ℕ → Option (Delays × ℕ) → Option (BlinkType × ℕ)
  or_blink buf (some (d, nrchars)) = some (blinking true d, nrchars)
  or_blink buf none = or_breath buf (scan.breath buf)

  unfoldable pub read_blink_type : List ℕ → Option (BlinkType × ℕ)
  read_blink_type buf = or_blink buf (scan.blink buf)

  module _ (bus : Bus) where
    open bus use {World}

    abbrev pub store_color : ℕ → ℕ → Option (Rgb × ℕ) → Cell World → Reply × Cell World
    store_color led_id size none c = (failed einval, c)
    store_color led_id size (some (color, nrchars)) c =
        if ltb (nrchars + 1) size
        then (failed einval, c)
        else (value size, set_color bus led_id color.r color.g color.b c)

    unfoldable pub color_store : ℕ → List ℕ → Cell World → Reply × Cell World
    color_store led_id buf c = store_color led_id (length buf) (scan.color buf) c

    unfoldable pub apply_blink_type : ℕ → BlinkType → Cell World → Cell World
    unfolding truncate_blink_delay_time
    apply_blink_type led_id steady c = turn_on_or_off bus led_id true c
    apply_blink_type led_id (blinking is_blink d) c =
        let t = truncate_blink_delay_time d in
        set_blink_or_breath bus led_id (t.delay_on % 65536) ((t.delay_on + t.delay_off) % 65536)
          is_blink c

    abbrev pub store_blink_type : ℕ → ℕ → Option (BlinkType × ℕ) → Cell World → Reply × Cell World
    store_blink_type led_id size none c = (failed einval, c)
    store_blink_type led_id size (some (blink_type, nrchars)) c =
        if ltb (nrchars + 1) size
        then (failed einval, c)
        else (value size, apply_blink_type led_id blink_type c)

    unfoldable pub blink_type_store : ℕ → List ℕ → Cell World → Reply × Cell World
    unfolding apply_blink_type
    blink_type_store led_id buf c = store_blink_type led_id (length buf) (read_blink_type buf) c
