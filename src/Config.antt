-- ===== src/Config.antt =====
-- ebpf/src/config.h, and `config_set_defaults` of ebpf/src/config.c. Texts are lists of bytes, without the closing NUL.
pub mod Bounds
pub mod Values
pub mod Lines
pub mod Settings
pub mod Bounded
pub mod Accepted
pub mod Options
pub mod Validated
pub mod Printed
mod Tests
use Prim.Native.Char.{code}
use Prim.Native.String.{String}
use ugreen_leds_controller.Prelude.{
  ℕ, Bool, true, false, ◌&&◌, List, [], ◌∷◌, Option, none, ltb, if◌then◌else◌, get_or, replicate,
}
use ugreen_leds_controller.Types.{Rgb, rgb, ugreen_disk_count}

abbrev pub codes : String → List ℕ
codes String.[] = []
codes (String.◌∷◌ c s) = code c ∷ codes s

pub data PowerMode : Type 0 where
  on blink breath : PowerMode

pub data DiskMapping : Type 0 where
  ata hctl serial : DiskMapping

pub record Config : Type 0 where
  pub interface : List ℕ
  pub bpf_object : List ℕ
  pub config_path : List ℕ
  pub i2c_device : Option (List ℕ)
  pub verbose : Bool
  pub network_enabled : Bool
  pub disks_enabled : Bool
  pub power_enabled : Bool
  pub network_interval_ms : ℕ
  pub network_pulse_ms : ℕ
  pub network_brightness : ℕ
  pub network_rx_color : Rgb
  pub network_tx_color : Rgb
  pub disk_interval_ms : ℕ
  pub disk_hold_ms : ℕ
  pub disk_pulse_ms : ℕ
  pub disk_brightness : ℕ
  pub disk_color : Rgb
  pub disk_colors : List Rgb
  pub disk_color_set : List Bool
  pub disk_invert : Bool
  pub disk_mapping : DiskMapping
  pub disk_serials : List (List ℕ)
  pub power_brightness : ℕ
  pub power_color : Rgb
  pub power_mode : PowerMode
  pub power_on_ms : ℕ
  pub power_off_ms : ℕ

unfoldable pub set_defaults : Config
set_defaults = record {
  interface = [];
  bpf_object = codes "./ugreen_led.bpf.o";
  config_path = codes "/etc/ugreen-leds.conf";
  i2c_device = none;
  verbose = false;
  network_enabled = false;
  disks_enabled = true;
  power_enabled = true;
  network_interval_ms = 100;
  network_pulse_ms = 45;
  network_brightness = 255;
  network_rx_color = rgb 0 96 255;
  network_tx_color = rgb 255 0 0;
  disk_interval_ms = 100;
  disk_hold_ms = 200;
  disk_pulse_ms = 45;
  disk_brightness = 255;
  disk_color = rgb 255 255 255;
  disk_colors = replicate ugreen_disk_count (rgb 0 0 0);
  disk_color_set = replicate ugreen_disk_count false;
  disk_invert = false;
  disk_mapping = ata;
  disk_serials = replicate ugreen_disk_count [];
  power_brightness = 255;
  power_color = rgb 255 255 255;
  power_mode = on;
  power_on_ms = 0;
  power_off_ms = 0;
}

unfoldable pub config_disk_color : Config → ℕ → Rgb
config_disk_color c slot =
    if ltb slot ugreen_disk_count && get_or c.disk_color_set slot false
    then get_or c.disk_colors slot (rgb 0 0 0)
    else c.disk_color
