-- ===== src/Config/Bounded.antt =====
-- Every value that is stored is in the range of its field.
use ugreen_leds_controller.Prelude.{
  ℕ, suc, zero, ◌+◌, ◌≤◌, ◌<◌, ◌≡◌, refl, arith, Bool, true, false, ◌&&◌, ◌||◌, not, List, [], ◌∷◌,
  Option, some, none, ◌==◌, ltb, leb, if◌then◌else◌, set, get_or, length, replicate,
}
use ugreen_leds_controller.Status.{Status, ok, err, einval}
use ugreen_leds_controller.Types.{Rgb, rgb, IsRgb, ugreen_disk_count}
use ugreen_leds_controller.Config.{Config, PowerMode, codes}
use ugreen_leds_controller.Config.Values.{
  Libc, Parsed, PowerFields, value, bad, copy_interface, parse_unsigned, parse_rgb, parse_serials,
  store_serials, parse_power_mode, rgb_of, or_else, tokens, pieces, with_times, text_equal,
  ifnamsiz, uint16_max,
}
use ugreen_leds_controller.Config.Settings.{store}

-- `InRange` but for the relation of the disk pulse to the disk interval, which is tested at the end.
pub record InBounds (c : Config) : Type 0 where
  pub network_interval : (1 ≤ c.network_interval_ms) × (c.network_interval_ms ≤ 1000)
  pub network_pulse : c.network_pulse_ms ≤ 1000
  pub network_brightness : c.network_brightness ≤ 255
  pub network_rx_color : IsRgb c.network_rx_color
  pub network_tx_color : IsRgb c.network_tx_color
  pub disk_interval : c.disk_interval_ms ≤ 1000
  pub disk_hold : (1 ≤ c.disk_hold_ms) × (c.disk_hold_ms ≤ 10000)
  pub disk_pulse : 1 ≤ c.disk_pulse_ms
  pub disk_brightness : c.disk_brightness ≤ 255
  pub disk_color : IsRgb c.disk_color
  pub disk_colors : (slot : ℕ) → IsRgb (get_or c.disk_colors slot (rgb 0 0 0))
  pub power_brightness : c.power_brightness ≤ 255
  pub power_color : IsRgb c.power_color
  pub power_times : c.power_on_ms + c.power_off_ms < 65536

-- What holds of a value, if there is one.
abbrev pub IfParsed : {A : Type 0} → (A → Type 0) → Parsed A → Type 0
IfParsed P (value a) = P a
IfParsed P (bad e) = Unit {0}

module _ (libc : Libc) where
  either-IfParsed :
      {A : Type 0} (P : A → Type 0) (refused : Bool) (e : ℕ) (a : A)
      → (refused ≡ false → P a)
      → IfParsed P (if refused then bad e else value a)
  either-IfParsed P true e a h = tt
  either-IfParsed P false e a h = h refl

  pub parse_unsigned_bounds :
      (text : List ℕ) (low high : ℕ)
      → IfParsed (λ n. (low ≤ n) × (n ≤ high)) (parse_unsigned libc text low high)
  unfolding parse_unsigned
  parse_unsigned_bounds text low high =
      either-IfParsed (λ n. (low ≤ n) × (n ≤ high)) _ _ _ (λ taken. ground arith)

  rgb_of-IsRgb : (o : Option (ℕ × ℕ × ℕ)) → IfParsed IsRgb (rgb_of libc o)
  rgb_of-IsRgb none = tt
  rgb_of-IsRgb (some (r, g, b)) = either-IfParsed IsRgb _ _ _ (λ taken. ground arith)

  pub parse_rgb-IsRgb : (text : List ℕ) → IfParsed IsRgb (parse_rgb libc text)
  unfolding parse_rgb
  parse_rgb-IsRgb text = rgb_of-IsRgb (or_else libc (libc.rgb_commas text) (libc.rgb_spaces text))

  pub store-InBounds :
      {A : Type 0} (P : A → Type 0) (write : A → Config) (c : Config) (p : Parsed A)
      → InBounds c
      → IfParsed P p
      → ((a : A) → P a → InBounds (write a))
      → InBounds (store libc write c p).1
  store-InBounds P write c (value a) inv h k = k a h
  store-InBounds P write c (bad e) inv h k = inv

  -- A value of a type without bounds.
  pub store_any-InBounds :
      {A : Type 0} (write : A → Config) (c : Config) (p : Parsed A)
      → InBounds c
      → ((a : A) → InBounds (write a))
      → InBounds (store libc write c p).1
  store_any-InBounds write c (value a) inv k = k a
  store_any-InBounds write c (bad e) inv k = inv

  pub either-InBounds :
      (b : Bool) (x y : Status × Config)
      → (b ≡ true → InBounds x.1)
      → (b ≡ false → InBounds y.1)
      → InBounds (if b then x else y).1
  either-InBounds true x y h k = h refl
  either-InBounds false x y h k = k refl

  set-IsRgb :
      (colors : List Rgb) (slot : ℕ) (x : Rgb)
      → IsRgb x
      → ((i : ℕ) → IsRgb (get_or colors i (rgb 0 0 0)))
      → (i : ℕ) → IsRgb (get_or (set colors slot x) i (rgb 0 0 0))
  set-IsRgb [] slot x hx h i = h i
  set-IsRgb (y ∷ ys) zero x hx h zero = hx
  set-IsRgb (y ∷ ys) zero x hx h (suc i) = h (suc i)
  set-IsRgb (y ∷ ys) (suc slot) x hx h zero = h 0
  set-IsRgb (y ∷ ys) (suc slot) x hx h (suc i) = set-IsRgb ys slot x hx (λ j. h (suc j)) i

  pub set-InBounds :
      (c : Config) (slot : ℕ) (x : Rgb)
      → InBounds c
      → IsRgb x
      → InBounds (record c {
        disk_colors = set c.disk_colors slot x;
        disk_color_set = set c.disk_color_set slot true;
      })
  set-InBounds c slot x inv h =
      let colors : (i : ℕ) → IsRgb (get_or (set c.disk_colors slot x) i (rgb 0 0 0)) =
        set-IsRgb c.disk_colors slot x h inv.disk_colors in
      search

  pub copy_interface-InBounds :
      (text : List ℕ) (c : Config) → InBounds c → InBounds (copy_interface text c).1
  unfolding copy_interface
  copy_interface-InBounds text c inv =
      either-InBounds (length text == 0 || leb ifnamsiz (length text)) (err einval, c)
        (ok, record c { interface = text; network_enabled = true }) (λ refused. inv)
        (λ taken. search)

  store_serials-InBounds :
      (slot : ℕ) (tokens : List (List ℕ)) (c : Config)
      → InBounds c
      → InBounds (store_serials slot tokens c).1
  unfolding store_serials
  store_serials-InBounds slot [] c inv = inv
  store_serials-InBounds slot (token ∷ tokens) c inv =
      either-InBounds _ (err _, c) _ (λ refused. inv)
        (λ taken.
          store_serials-InBounds (slot + 1) tokens
            (record c { disk_serials = set c.disk_serials slot token }) (search))

  pub parse_serials-InBounds :
      (text : List ℕ) (c : Config) → InBounds c → InBounds (parse_serials libc text c).1
  unfolding parse_serials
  parse_serials-InBounds text c inv =
      either-InBounds (libc.strdup text) _ (err _, c)
        (λ memory.
          store_serials-InBounds 0 (tokens (pieces text))
            (record c { disk_serials = replicate ugreen_disk_count [] }) (search))
        (λ full. inv)

  times-InBounds :
      (c : Config) (mode : PowerMode) (on_ms off_ms : ℕ)
      → InBounds c
      → on_ms + off_ms < 65536
      → InBounds (record c { power_mode = mode; power_on_ms = on_ms; power_off_ms = off_ms })
  times-InBounds c mode on_ms off_ms inv h = search

  power_fits :
      (f : PowerFields)
      → (not (f.fields == 3)
          || ltb (uint16_max libc) f.on_ms
          || ltb (uint16_max libc) f.off_ms
          || ltb (uint16_max libc) (f.on_ms + f.off_ms))
        ≡ false
      → f.on_ms + f.off_ms < 65536
  power_fits f h = ground arith

  pub parse_power_mode-InBounds :
      (text : List ℕ) (c : Config) → InBounds c → InBounds (parse_power_mode libc text c).1
  unfolding parse_power_mode
  parse_power_mode-InBounds text c inv =
      let f = libc.power_fields text in
      let refused =
        not (f.fields == 3)
        || ltb (uint16_max libc) f.on_ms
        || ltb (uint16_max libc) f.off_ms
        || ltb (uint16_max libc) (f.on_ms + f.off_ms) in
      either-InBounds (f.fields == 1 && text_equal f.mode (codes "none"))
        (ok, record c { power_mode = PowerMode.on }) _ (λ steady. search)
        (λ other.
          either-InBounds refused (err einval, c) _ (λ r. inv)
            (λ timed.
              either-InBounds (text_equal f.mode (codes "blink"))
                (ok, with_times libc PowerMode.blink f c) _
                (λ b. times-InBounds c PowerMode.blink f.on_ms f.off_ms inv (power_fits f timed))
                (λ n.
                  either-InBounds (text_equal f.mode (codes "breath"))
                    (ok, with_times libc PowerMode.breath f c) (err einval, c)
                    (λ b.
                      times-InBounds c PowerMode.breath f.on_ms f.off_ms inv (power_fits f timed))
                    (λ m. inv))))
