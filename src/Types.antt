-- ===== src/Types.antt =====
-- ebpf/src/types.h: the LED numbering and colours.
use ugreen_leds_controller.Prelude.{ℕ, ◌<◌, Bool, ◌&&◌, ◌==◌}

abbrev pub ugreen_led_count : ℕ
ugreen_led_count = 10

abbrev pub ugreen_disk_count : ℕ
ugreen_disk_count = 8

abbrev pub ugreen_led_power : ℕ
ugreen_led_power = 0

abbrev pub ugreen_led_network : ℕ
ugreen_led_network = 1

abbrev pub ugreen_led_disk_first : ℕ
ugreen_led_disk_first = 2

-- Each component is a uint8_t.
pub record Rgb : Type 0 where
  pub r : ℕ
  pub g : ℕ
  pub b : ℕ

abbrev pub rgb : ℕ → ℕ → ℕ → Rgb
rgb r g b = record { r = r; g = g; b = b }

unfoldable pub rgb_equal : Rgb → Rgb → Bool
rgb_equal x y = x.r == y.r && x.g == y.g && x.b == y.b

pub record IsRgb (c : Rgb) : Type 0 where
  pub r_byte : c.r < 256
  pub g_byte : c.g < 256
  pub b_byte : c.b < 256
