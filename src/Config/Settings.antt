-- ===== src/Config/Settings.antt =====
-- The settings of the configuration file: the chain of key comparisons in `config_load_file`, and
-- the loop over the lines.
use ugreen_leds_controller.Prelude.{
  ℕ, true, false, List, [], ◌∷◌, Option, some, none, if◌then◌else◌, set,
}
use ugreen_leds_controller.Status.{Status, ok, err}
use ugreen_leds_controller.Config.{Config, codes}
use ugreen_leds_controller.Config.Values.{
  Libc, Parsed, value, bad, text_equal, copy_interface, parse_boolean, parse_mapping,
  parse_unsigned, parse_rgb, parse_serials, parse_power_mode, per_disk_color_slot,
}
use ugreen_leds_controller.Config.Lines.{read_line, is_empty}

-- The branches of the chain; `unknown` is its `else continue`.
pub data Setting : Type 0 where
  netdev_interface netdev_interval netdev_pulse netdev_rx netdev_tx netdev_brightness : Setting
  disk_interval disk_hold disk_pulse disk_brightness disk_color : Setting
  disk_color_of : (slot : ℕ) → Setting
  led_invert mapping_method disk_serial : Setting
  power_brightness power_color power_blink : Setting
  unknown : Setting

abbrev pub after_disk_color : List ℕ → Option ℕ → Setting
after_disk_color key (some slot) = disk_color_of slot
after_disk_color key none =
    if text_equal key (codes "LED_INVERT")
    then led_invert
    else if text_equal key (codes "MAPPING_METHOD")
    then mapping_method
    else if text_equal key (codes "DISK_SERIAL")
    then disk_serial
    else if text_equal key (codes "BRIGHTNESS_POWER")
    then power_brightness
    else if text_equal key (codes "COLOR_POWER")
    then power_color
    else if text_equal key (codes "BLINK_TYPE_POWER")
    then power_blink
    else unknown

-- A configuration file: it cannot be opened, or its lines and what `ferror` reports behind them.
pub data ConfigFile : Type 0 where
  missing : (errno : ℕ) → ConfigFile
  opened : (lines : List (List ℕ)) → (read_error : Status) → ConfigFile

module _ (libc : Libc) where
  unfoldable pub setting_named : List ℕ → Setting
  unfolding per_disk_color_slot
  setting_named key =
      if text_equal key (codes "NETDEV_INTERFACE")
      then netdev_interface
      else if text_equal key (codes "NETDEV_EBPF_INTERVAL_MS")
      then netdev_interval
      else if text_equal key (codes "NETDEV_EBPF_PULSE_MS")
      then netdev_pulse
      else if text_equal key (codes "COLOR_NETDEV_RX")
      then netdev_rx
      else if text_equal key (codes "COLOR_NETDEV_TX")
      then netdev_tx
      else if text_equal key (codes "BRIGHTNESS_NETDEV_LED")
      then netdev_brightness
      else if text_equal key (codes "DISK_EBPF_INTERVAL_MS")
      then disk_interval
      else if text_equal key (codes "DISK_EBPF_HOLD_MS")
      then disk_hold
      else if text_equal key (codes "DISK_EBPF_PULSE_MS")
      then disk_pulse
      else if text_equal key (codes "BRIGHTNESS_DISK_LEDS")
      then disk_brightness
      else if text_equal key (codes "COLOR_DISK_HEALTH")
      then disk_color
      else after_disk_color key (per_disk_color_slot libc key)

  -- `error = parse(..., &config->field)`
  abbrev pub store : {A : Type 0} → (A → Config) → Config → Parsed A → Status × Config
  store write c (value a) = (ok, write a)
  store write c (bad e) = (err e, c)

  unfoldable pub apply : Setting → List ℕ → Config → Status × Config
  unfolding parse_boolean parse_mapping parse_unsigned parse_rgb
  apply netdev_interface text c =
      if is_empty text
      then (ok, record c { interface = []; network_enabled = false })
      else copy_interface text c
  apply netdev_interval text c =
      store (λ n. record c { network_interval_ms = n }) c (parse_unsigned libc text 1 1000)
  apply netdev_pulse text c =
      store (λ n. record c { network_pulse_ms = n }) c (parse_unsigned libc text 0 1000)
  apply netdev_rx text c = store (λ x. record c { network_rx_color = x }) c (parse_rgb libc text)
  apply netdev_tx text c = store (λ x. record c { network_tx_color = x }) c (parse_rgb libc text)
  apply netdev_brightness text c =
      store (λ n. record c { network_brightness = n }) c (parse_unsigned libc text 0 255)
  apply disk_interval text c =
      store (λ n. record c { disk_interval_ms = n }) c (parse_unsigned libc text 1 1000)
  apply disk_hold text c =
      store (λ n. record c { disk_hold_ms = n }) c (parse_unsigned libc text 1 10000)
  apply disk_pulse text c =
      store (λ n. record c { disk_pulse_ms = n }) c (parse_unsigned libc text 1 1000)
  apply disk_brightness text c =
      store (λ n. record c { disk_brightness = n }) c (parse_unsigned libc text 0 255)
  apply disk_color text c = store (λ x. record c { disk_color = x }) c (parse_rgb libc text)
  apply (disk_color_of slot) text c =
      store
        (λ x. record c {
          disk_colors = set c.disk_colors slot x;
          disk_color_set = set c.disk_color_set slot true;
        })
        c (parse_rgb libc text)
  apply led_invert text c = store (λ b. record c { disk_invert = b }) c (parse_boolean text)
  apply mapping_method text c = store (λ m. record c { disk_mapping = m }) c (parse_mapping text)
  apply disk_serial text c = parse_serials libc text c
  apply power_brightness text c =
      store (λ n. record c { power_brightness = n }) c (parse_unsigned libc text 0 255)
  apply power_color text c = store (λ x. record c { power_color = x }) c (parse_rgb libc text)
  apply power_blink text c = parse_power_mode libc text c
  apply unknown text c = (ok, c)

  -- One round of the loop over the lines.
  abbrev pub apply_line : Option (List ℕ × List ℕ) → Config → Status × Config
  apply_line none c = (ok, c)
  apply_line (some (key, text)) c = apply (setting_named key) text c

  -- A setting that is refused ends the loop.
  abbrev pub or_stop : Status × Config → (Config → Status × Config) → Status × Config
  or_stop (ok, c) next = next c
  or_stop (err e, c) next = (err e, c)

  unfoldable pub load_lines : List (List ℕ) → Config → Status × Config
  load_lines [] c = (ok, c)
  load_lines (line ∷ lines) c = or_stop (apply_line (read_line line) c) (load_lines lines)

  -- `if (ferror(file) && !result)`
  abbrev pub or_read_error : Status → Status × Config → Status × Config
  or_read_error read_error (ok, c) = (read_error, c)
  or_read_error read_error (err e, c) = (err e, c)

  unfoldable pub load_file : ConfigFile → Config → Status × Config
  load_file (missing e) c = (err e, c)
  load_file (opened lines read_error) c = or_read_error read_error (load_lines lines c)
