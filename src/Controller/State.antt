-- ===== src/Controller/State.antt =====
-- `struct led_controller` and its cache, with `led_controller_invalidate`.
use ugreen_leds_controller.Prelude.{
  ℕ, ◌≡◌, Bool, false, List, leb, if◌then◌else◌, length, get_or, set,
}
use ugreen_leds_controller.Types.{Rgb, rgb, ugreen_led_count}
use ugreen_leds_controller.Env.{Fd}

pub data LedMode : Type 0 where
  unknown off on blink breath : LedMode

pub record LedCache : Type 0 where
  pub color_valid : Bool
  pub brightness_valid : Bool
  pub color : Rgb
  pub brightness : ℕ
  pub mode : LedMode
  pub on_ms : ℕ
  pub off_ms : ℕ

-- An entry whose bytes are all 0.
abbrev pub zero_cache : LedCache
zero_cache = record {
  color_valid = false;
  brightness_valid = false;
  color = rgb 0 0 0;
  brightness = 0;
  mode = unknown;
  on_ms = 0;
  off_ms = 0;
}

pub record Controller : Type 0 where
  pub fd : Fd
  pub path : List ℕ
  pub cache : List LedCache

abbrev pub cache_at : Controller → ℕ → LedCache
cache_at c i = get_or c.cache i zero_cache

abbrev pub set_cache : Controller → ℕ → LedCache → Controller
set_cache c i v = record c { cache = set c.cache i v }

-- The controller with the world that its calls change.
pub record Session (W : Type 0) : Type 0 where
  pub controller : Controller
  pub world : W

unfoldable pub invalidate : Controller → ℕ → Controller
invalidate c led_id = if leb ugreen_led_count led_id then c else set_cache c led_id zero_cache

abbrev pub HasEntries : Controller → Type 0
HasEntries c = length c.cache ≡ ugreen_led_count
