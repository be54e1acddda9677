-- ===== src/Controller/Recorded.antt =====
-- A cached value stands for what its command would do, and a recorded value for what it did.
use ugreen_leds_controller.Prelude.{
  ℕ, ◌+◌, ◌/◌, ◌%◌, ◌<◌, ◌≡◌, refl, ap, sym, ◌∙◌, Bool, true, false, ◌&&◌, ◌==◌, arith, some,
  if◌then◌else◌, and_elim, ==_iff,
}
use ugreen_leds_controller.Types.{Rgb, rgb_equal}
use ugreen_leds_controller.Controller.State.{LedMode, off, on, blink, breath, LedCache}
use ugreen_leds_controller.Controller.Commands.{
  mode_equal, power_mode_of, blink_mode_of, with_color, with_brightness, with_mode, with_blink,
}
use ugreen_leds_controller.Controller.Protocol.{
  Light, dark, steady, blinking, breathing, Shown, brightness_is, color_is, light_is, execute,
  command_of,
}
use ugreen_leds_controller.Controller.Frame.{AreBytes}
use ugreen_leds_controller.Controller.Coherence.{LightAgrees, Agrees}

abbrev pub power_light : Bool → Light
power_light p = if p then steady else dark

abbrev pub blink_light : Bool → ℕ → ℕ → Light
blink_light breathe cycle on_ms = if breathe then breathing cycle on_ms else blinking cycle on_ms

rgb_equal_eq : (x y : Rgb) → rgb_equal x y ≡ true → x ≡ y
unfolding rgb_equal
rgb_equal_eq x y h = ground arith

-- What is cached and valid need not be sent again.
pub color_cached :
    (c : LedCache) (t : Shown) (color : Rgb)
    → Agrees c t
    → (c.color_valid && rgb_equal c.color color) ≡ true
    → execute (some (color_is color)) t ≡ t
color_cached c t color a h = ground (arith, rgb_equal_eq c.color color)

pub brightness_cached :
    (c : LedCache) (t : Shown) (brightness : ℕ)
    → Agrees c t
    → (c.brightness_valid && c.brightness == brightness) ≡ true
    → execute (some (brightness_is brightness)) t ≡ t
brightness_cached c t brightness a h = ground arith

pub light_cached :
    (mode : LedMode) (t : Shown) (on_ms off_ms : ℕ) (power : Bool)
    → LightAgrees mode on_ms off_ms t.light
    → mode_equal mode (power_mode_of power) ≡ true
    → execute (some (light_is (power_light power))) t ≡ t
light_cached on t on_ms off_ms true a h = ground arith
light_cached off t on_ms off_ms false a h = ground arith
light_cached _ t on_ms off_ms true a h = cc
light_cached _ t on_ms off_ms false a h = cc

blink_cached :
    (mode : LedMode) (t : Shown) (on_ms off_ms : ℕ) (breathe : Bool)
    → LightAgrees mode on_ms off_ms t.light
    → mode_equal mode (blink_mode_of breathe) ≡ true
    → execute (some (light_is (blink_light breathe (on_ms + off_ms) on_ms))) t ≡ t
blink_cached breath t on_ms off_ms true a h = ground arith
blink_cached blink t on_ms off_ms false a h = ground arith
blink_cached _ t on_ms off_ms true a h = cc
blink_cached _ t on_ms off_ms false a h = cc

pub cache_blink_cached :
    (c : LedCache) (t : Shown) (on_ms off_ms : ℕ) (breathe : Bool)
    → Agrees c t
    → (mode_equal c.mode (blink_mode_of breathe) && c.on_ms == on_ms && c.off_ms == off_ms) ≡ true
    → execute (some (light_is (blink_light breathe (on_ms + off_ms) on_ms))) t ≡ t
cache_blink_cached c t on_ms off_ms breathe a h =
    let p = and_elim _ _ h in
    let q = and_elim _ _ p.0 in
    let on_eq : c.on_ms ≡ on_ms = (==_iff c.on_ms on_ms).0 q.1 in
    let off_eq : c.off_ms ≡ off_ms = (==_iff c.off_ms off_ms).0 p.1 in
    ap (λ n. execute (some (light_is (blink_light breathe (n + off_ms) n))) t) (sym on_eq)
    ∙ ap (λ n. execute (some (light_is (blink_light breathe (c.on_ms + n) c.on_ms))) t) (sym off_eq)
    ∙ blink_cached c.mode t c.on_ms c.off_ms breathe a.light q.0

-- What is recorded agrees with what the command does.
pub with_color-Agrees :
    (color : Rgb) (c : LedCache) (t : Shown)
    → Agrees c t
    → Agrees (with_color color c) (execute (some (color_is color)) t)
with_color-Agrees color c t a = record {
  color = λ h. refl;
  brightness = a.brightness;
  light = a.light;
}

pub with_brightness-Agrees :
    (brightness : ℕ) (c : LedCache) (t : Shown)
    → Agrees c t
    → Agrees (with_brightness brightness c) (execute (some (brightness_is brightness)) t)
with_brightness-Agrees brightness c t a = record {
  color = a.color;
  brightness = λ h. refl;
  light = a.light;
}

pub with_mode-Agrees :
    (power : Bool) (c : LedCache) (t : Shown)
    → Agrees c t
    → Agrees (with_mode (power_mode_of power) c) (execute (some (light_is (power_light power))) t)
with_mode-Agrees true c t a = record { color = a.color; brightness = a.brightness; light = refl }
with_mode-Agrees false c t a = record { color = a.color; brightness = a.brightness; light = refl }

pub with_blink-Agrees :
    (breathe : Bool) (on_ms off_ms : ℕ) (c : LedCache) (t : Shown)
    → Agrees c t
    → Agrees
        (with_blink (blink_mode_of breathe) on_ms off_ms c)
        (execute (some (light_is (blink_light breathe (on_ms + off_ms) on_ms))) t)
with_blink-Agrees true on_ms off_ms c t a = record {
  color = a.color;
  brightness = a.brightness;
  light = refl;
}
with_blink-Agrees false on_ms off_ms c t a = record {
  color = a.color;
  brightness = a.brightness;
  light = refl;
}

pub power_command :
    (power : Bool)
    → command_of 0x03 (if power then 1 else 0) 0 0 0 ≡ some (light_is (power_light power))
unfolding command_of
power_command true = refl
power_command false = refl

pub blink_command :
    (breathe : Bool) (cycle on_ms : ℕ)
    → cycle < 65536
    → on_ms < 65536
    → command_of
        (if breathe then 0x05 else 0x04)
        (cycle / 256 % 256)
        (cycle % 256)
        (on_ms / 256 % 256)
        (on_ms % 256)
      ≡ some (light_is (blink_light breathe cycle on_ms))
unfolding command_of
blink_command true cycle on_ms hc ho = ground arith
blink_command false cycle on_ms hc ho = ground arith

pub power_bytes : (power : Bool) → AreBytes 0x03 (if power then 1 else 0) 0 0 0
power_bytes true = omega arith
power_bytes false = omega arith

pub blink_bytes :
    (breathe : Bool) (cycle on_ms : ℕ)
    → AreBytes
        (if breathe then 0x05 else 0x04)
        (cycle / 256 % 256)
        (cycle % 256)
        (on_ms / 256 % 256)
        (on_ms % 256)
blink_bytes true cycle on_ms = omega arith
blink_bytes false cycle on_ms = omega arith
