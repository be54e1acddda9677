-- ===== src/Config/Accepted.antt =====
-- Every setting that is stored is in the range of its field.
use ugreen_leds_controller.Prelude.{ℕ, ◌≤◌, true, false, List, [], ◌∷◌, Option, some, none, set}
use ugreen_leds_controller.Status.{Status, ok, err}
use ugreen_leds_controller.Types.{Rgb, IsRgb}
use ugreen_leds_controller.Config.{Config}
use ugreen_leds_controller.Config.Values.{
  Libc, copy_interface, parse_boolean, parse_mapping, parse_unsigned, parse_rgb,
}
use ugreen_leds_controller.Config.Lines.{is_empty, read_line}
use ugreen_leds_controller.Config.Settings.{
  Setting, netdev_interface, netdev_interval, netdev_pulse, netdev_rx, netdev_tx, netdev_brightness,
  disk_interval, disk_hold, disk_pulse, disk_brightness, disk_color, disk_color_of, led_invert,
  mapping_method, disk_serial, power_brightness, power_color, power_blink, unknown, apply, store,
  load_lines, load_file, or_stop, apply_line, setting_named, ConfigFile, or_read_error,
}
use ugreen_leds_controller.Config.Bounded.{
  InBounds, parse_unsigned_bounds, parse_rgb-IsRgb, store-InBounds, store_any-InBounds,
  either-InBounds, set-InBounds, copy_interface-InBounds, parse_serials-InBounds,
  parse_power_mode-InBounds,
}

module _ (libc : Libc) where
  pub colored :
      (c : Config) (write : Rgb → Config) (text : List ℕ)
      → InBounds c
      → ((x : Rgb) → IsRgb x → InBounds (write x))
      → InBounds (store libc write c (parse_rgb libc text)).1
  colored c write text inv h =
      store-InBounds libc IsRgb write c (parse_rgb libc text) inv (parse_rgb-IsRgb libc text) h

  pub numbered :
      (c : Config) (write : ℕ → Config) (text : List ℕ) (low high : ℕ)
      → InBounds c
      → ((n : ℕ) → (low ≤ n) × (n ≤ high) → InBounds (write n))
      → InBounds (store libc write c (parse_unsigned libc text low high)).1
  numbered c write text low high inv h =
      store-InBounds libc (λ n. (low ≤ n) × (n ≤ high)) write c (parse_unsigned libc text low high)
        inv (parse_unsigned_bounds libc text low high) h

  pub apply-InBounds :
      (setting : Setting) (text : List ℕ) (c : Config)
      → InBounds c
      → InBounds (apply libc setting text c).1
  unfolding apply
  apply-InBounds netdev_interface text c inv =
      either-InBounds libc (is_empty text)
        (ok, record c { interface = []; network_enabled = false }) (copy_interface text c)
        (λ e. search) (λ e. copy_interface-InBounds libc text c inv)
  apply-InBounds netdev_interval text c inv =
      numbered c (λ n. record c { network_interval_ms = n }) text 1 1000 inv (λ n h. search)
  apply-InBounds netdev_pulse text c inv =
      numbered c (λ n. record c { network_pulse_ms = n }) text 0 1000 inv (λ n h. search)
  apply-InBounds netdev_rx text c inv =
      colored c (λ x. record c { network_rx_color = x }) text inv (λ x h. search)
  apply-InBounds netdev_tx text c inv =
      colored c (λ x. record c { network_tx_color = x }) text inv (λ x h. search)
  apply-InBounds netdev_brightness text c inv =
      numbered c (λ n. record c { network_brightness = n }) text 0 255 inv (λ n h. search)
  apply-InBounds disk_interval text c inv =
      numbered c (λ n. record c { disk_interval_ms = n }) text 1 1000 inv (λ n h. search)
  apply-InBounds disk_hold text c inv =
      numbered c (λ n. record c { disk_hold_ms = n }) text 1 10000 inv (λ n h. search)
  apply-InBounds disk_pulse text c inv =
      numbered c (λ n. record c { disk_pulse_ms = n }) text 1 1000 inv (λ n h. search)
  apply-InBounds disk_brightness text c inv =
      numbered c (λ n. record c { disk_brightness = n }) text 0 255 inv (λ n h. search)
  apply-InBounds disk_color text c inv =
      colored c (λ x. record c { disk_color = x }) text inv (λ x h. search)
  apply-InBounds (disk_color_of slot) text c inv =
      colored c
        (λ x. record c {
          disk_colors = set c.disk_colors slot x;
          disk_color_set = set c.disk_color_set slot true;
        })
        text inv (λ x h. set-InBounds libc c slot x inv h)
  apply-InBounds led_invert text c inv =
      store_any-InBounds libc (λ b. record c { disk_invert = b }) c (parse_boolean text) inv
        (λ b. search)
  apply-InBounds mapping_method text c inv =
      store_any-InBounds libc (λ m. record c { disk_mapping = m }) c (parse_mapping text) inv
        (λ m. search)
  apply-InBounds disk_serial text c inv = parse_serials-InBounds libc text c inv
  apply-InBounds power_brightness text c inv =
      numbered c (λ n. record c { power_brightness = n }) text 0 255 inv (λ n h. search)
  apply-InBounds power_color text c inv =
      colored c (λ x. record c { power_color = x }) text inv (λ x h. search)
  apply-InBounds power_blink text c inv = parse_power_mode-InBounds libc text c inv
  apply-InBounds unknown text c inv = inv

  or_stop-InBounds :
      (r : Status × Config) (next : Config → Status × Config)
      → InBounds r.1
      → ((c : Config) → InBounds c → InBounds (next c).1)
      → InBounds (or_stop libc r next).1
  or_stop-InBounds (ok, c) next h k = k c h
  or_stop-InBounds (err e, c) next h k = h

  apply_line-InBounds :
      (line : Option (List ℕ × List ℕ)) (c : Config)
      → InBounds c
      → InBounds (apply_line libc line c).1
  apply_line-InBounds none c h = h
  apply_line-InBounds (some (key, text)) c h = apply-InBounds (setting_named libc key) text c h

  load_lines-InBounds :
      (lines : List (List ℕ)) (c : Config) → InBounds c → InBounds (load_lines libc lines c).1
  unfolding load_lines
  load_lines-InBounds [] c h = h
  load_lines-InBounds (line ∷ lines) c h =
      or_stop-InBounds (apply_line libc (read_line line) c) (load_lines libc lines)
        (apply_line-InBounds (read_line line) c h) (load_lines-InBounds lines)

  or_read_error-InBounds :
      (e : Status) (r : Status × Config) → InBounds r.1 → InBounds (or_read_error libc e r).1
  or_read_error-InBounds e (ok, c) h = h
  or_read_error-InBounds e (err n, c) h = h

  pub load_file-InBounds :
      (file : ConfigFile) (c : Config) → InBounds c → InBounds (load_file libc file c).1
  unfolding load_file
  load_file-InBounds (ConfigFile.missing e) c h = h
  load_file-InBounds (ConfigFile.opened lines read_error) c h =
      or_read_error-InBounds read_error (load_lines libc lines c) (load_lines-InBounds lines c h)
