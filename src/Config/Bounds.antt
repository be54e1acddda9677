-- ===== src/Config/Bounds.antt =====
-- The ranges that the LED modules rely on when they cast configured numbers to `uint8_t` and
-- `uint16_t`.
use ugreen_leds_controller.Prelude.{
  ℕ, ◌+◌, ◌≤◌, ◌<◌, sym, subst, arith, false, ◌&&◌, ltb, Bool-cases, inl, inr, get_or,
  get_or-replicate,
}
use ugreen_leds_controller.Types.{rgb, IsRgb, ugreen_disk_count}
use ugreen_leds_controller.Config.{Config, set_defaults, config_disk_color}

pub record InRange (c : Config) : Type 0 where
  pub network_interval : (1 ≤ c.network_interval_ms) × (c.network_interval_ms ≤ 1000)
  pub network_pulse : c.network_pulse_ms ≤ 1000
  pub network_brightness : c.network_brightness ≤ 255
  pub network_rx_color : IsRgb c.network_rx_color
  pub network_tx_color : IsRgb c.network_tx_color
  pub disk_interval : c.disk_interval_ms ≤ 1000
  pub disk_hold : (1 ≤ c.disk_hold_ms) × (c.disk_hold_ms ≤ 10000)
  pub disk_pulse : (1 ≤ c.disk_pulse_ms) × (c.disk_pulse_ms < c.disk_interval_ms)
  pub disk_brightness : c.disk_brightness ≤ 255
  pub disk_color : IsRgb c.disk_color
  pub disk_colors : (slot : ℕ) → IsRgb (get_or c.disk_colors slot (rgb 0 0 0))
  pub power_brightness : c.power_brightness ≤ 255
  pub power_color : IsRgb c.power_color
  pub power_times : c.power_on_ms + c.power_off_ms < 65536

pub set_defaults-InRange : InRange set_defaults
unfolding set_defaults
set_defaults-InRange = record {
  network_interval = omega arith;
  network_pulse = omega arith;
  network_brightness = omega arith;
  network_rx_color = omega arith;
  network_tx_color = omega arith;
  disk_interval = omega arith;
  disk_hold = omega arith;
  disk_pulse = omega arith;
  disk_brightness = omega arith;
  disk_color = omega arith;
  disk_colors =
      λ slot. subst IsRgb (sym (get_or-replicate ugreen_disk_count slot (rgb 0 0 0))) (omega arith);
  power_brightness = omega arith;
  power_color = omega arith;
  power_times = omega arith;
}

pub config_disk_color-IsRgb : (c : Config) (slot : ℕ) → InRange c → IsRgb (config_disk_color c slot)
unfolding config_disk_color
config_disk_color-IsRgb c slot h =
    elim (Bool-cases (ltb slot ugreen_disk_count && get_or c.disk_color_set slot false)) [
      | inl e ↦ rw e (h.disk_colors slot)
      | inr e ↦ rw e h.disk_color
    ]
