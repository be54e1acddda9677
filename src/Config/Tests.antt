-- ===== src/Config/Tests.antt =====
-- Configuration files and command lines, and the theorems on them.
use ugreen_leds_controller.Prelude.{
  ℕ, ◌+◌, ◌*◌, ◌-◌, ◌≡◌, refl, arith, true, ◌&&◌, List, [], ◌∷◌, ◌++◌, some, none, leb,
  if◌then◌else◌,
}
use ugreen_leds_controller.Status.{ok}
use ugreen_leds_controller.Config.{Config, set_defaults, codes}
use ugreen_leds_controller.Config.Values.{Libc, Strtoul, parse_serials}
use ugreen_leds_controller.Config.Lines.{read_line}
use ugreen_leds_controller.Config.Settings.{
  ConfigFile, opened, apply, setting_named, load_lines, load_file,
}
use ugreen_leds_controller.Config.Options.{Choice, Shell, returns, parse_options, choose}
use ugreen_leds_controller.Config.Validated.{IsAccepted, parse_options-IsAccepted}
use ugreen_leds_controller.Config.Printed.{read_line-written}

-- Decimal digits without signs: the value and the characters read.
abbrev digits : ℕ → ℕ → List ℕ → Strtoul
digits n read [] = record { errno = 0; consumed = read; value = n }
digits n read (c ∷ cs) =
    let rest = digits (n * 10 + (c - 48)) (read + 1) cs in
    if leb 48 c && leb c 57 then rest else record { errno = 0; consumed = read; value = n }

abbrev libc : Libc
libc = record {
  strtoul = digits 0 0;
  rgb_commas = λ text. none;
  rgb_spaces = λ text. none;
  power_fields = λ text. record { fields = 0; mode = []; on_ms = 0; off_ms = 0 };
  per_disk = λ key. none;
  strdup = λ text. true;
}

abbrev line : List ℕ
line = codes "  DISK_EBPF_INTERVAL_MS = '250'  # ms"

line_reads : read_line line ≡ some (codes "DISK_EBPF_INTERVAL_MS", codes "250")
unfolding read_line
line_reads = refl

serials_read :
    (parse_serials libc (codes "WD-1, ,WD-2\tX") set_defaults).1.disk_serials
    ≡ codes "WD-1" ∷ codes "WD-2" ∷ codes "X" ∷ [] ∷ [] ∷ [] ∷ [] ∷ [] ∷ []
unfolding parse_serials
serials_read = refl

abbrev files : List ℕ → ConfigFile
files path = opened (line ∷ codes "# comment" ∷ codes "NETDEV_EBPF_PULSE_MS=7" ∷ []) ok

abbrev shell : Shell
shell = record {
  choices = λ args. Choice.config (codes "a") ∷ Choice.disk_pulse (codes "249") ∷ [];
  none_left = λ args. true;
  file = files;
}

abbrev args : List (List ℕ)
args = codes "--config" ∷ codes "a" ∷ codes "--disk-pulse-ms" ∷ codes "249" ∷ []

abbrev config : Config
config = record set_defaults {
  config_path = codes "a";
  disk_interval_ms = 250;
  disk_pulse_ms = 249;
  network_pulse_ms = 7;
}

options_run : parse_options libc shell args ≡ returns ok config
unfolding parse_options load_file load_lines read_line apply setting_named choose set_defaults
options_run = refl

parse_options-IsAccepted_example : IsAccepted libc config
parse_options-IsAccepted_example = parse_options-IsAccepted libc shell args config options_run

read_line-written_example :
    read_line (codes "ON" ++ 61 ∷ codes "7" ++ 10 ∷ []) ≡ some (codes "ON", codes "7")
read_line-written_example =
    read_line-written 79 (codes "N") (codes "7") ((refl, omega arith), ((refl, omega arith), tt))
      (omega arith) ((refl, refl, omega arith), tt)
