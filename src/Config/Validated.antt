-- ===== src/Config/Validated.antt =====
-- A command line that `config_parse_options` accepts leaves a configuration in range.
use ugreen_leds_controller.Prelude.{
  ℕ, ◌≤◌, ◌<◌, ◌≡◌, inl, inr, refl, arith, Bool, true, false, ◌||◌, not, List, [], ◌∷◌, Option,
  some, none, ◌==◌, if◌then◌else◌, Bool-cases, subst,
}
use ugreen_leds_controller.Status.{Status, ok, err, enoent, einval}
use ugreen_leds_controller.Types.{Rgb, IsRgb}
use ugreen_leds_controller.Config.{Config, set_defaults}
use ugreen_leds_controller.Config.Bounds.{InRange, set_defaults-InRange}
use ugreen_leds_controller.Config.Values.{Libc, parse_unsigned, parse_rgb, copy_interface}
use ugreen_leds_controller.Config.Settings.{load_file, store}
use ugreen_leds_controller.Config.Bounded.{InBounds, copy_interface-InBounds}
use ugreen_leds_controller.Config.Accepted.{numbered, colored, load_file-InBounds}
use ugreen_leds_controller.Config.Options.{
  Choice, Shell, Outcome, returns, exits, choose, choose_all, validate, is_refused, or_leave,
  of_result, after_file, with_path, parse_options, find_config_path, default_path,
}

module _ (libc : Libc) where
  -- What holds of the configuration, however the outcome is.
  InAll : Outcome → Type 0
  InAll (returns s c) = InBounds c
  InAll exits = Unit {0}

  of_result-InAll : (r : Status × Config) → InBounds r.1 → InAll (of_result libc r)
  unfolding InAll
  of_result-InAll (s, c) h = h

  chosen_number :
      (c : Config) (write : ℕ → Config) (t : List ℕ) (low high : ℕ)
      → InBounds c
      → ((n : ℕ) → (low ≤ n) × (n ≤ high) → InBounds (write n))
      → InAll (of_result libc (store libc write c (parse_unsigned libc t low high)))
  chosen_number c write t low high inv h =
      of_result-InAll (store libc write c (parse_unsigned libc t low high))
        (numbered libc c write t low high inv h)

  chosen_color :
      (c : Config) (write : Rgb → Config) (t : List ℕ)
      → InBounds c
      → ((x : Rgb) → IsRgb x → InBounds (write x))
      → InAll (of_result libc (store libc write c (parse_rgb libc t)))
  chosen_color c write t inv h =
      of_result-InAll (store libc write c (parse_rgb libc t)) (colored libc c write t inv h)

  choose-InAll : (choice : Choice) (c : Config) → InBounds c → InAll (choose libc choice c)
  unfolding choose InAll
  choose-InAll (Choice.interface t) c inv =
      of_result-InAll (copy_interface t c) (copy_interface-InBounds libc t c inv)
  choose-InAll (Choice.bpf_object t) c inv = search
  choose-InAll Choice.verbose c inv = search
  choose-InAll Choice.help c inv = tt
  choose-InAll (Choice.config t) c inv = search
  choose-InAll (Choice.i2c_device t) c inv = search
  choose-InAll Choice.no_network c inv = search
  choose-InAll Choice.no_disks c inv = search
  choose-InAll Choice.no_power c inv = search
  choose-InAll (Choice.interval t) c inv =
      chosen_number c (λ n. record c { network_interval_ms = n }) t 1 1000 inv (λ n h. search)
  choose-InAll (Choice.pulse t) c inv =
      chosen_number c (λ n. record c { network_pulse_ms = n }) t 0 1000 inv (λ n h. search)
  choose-InAll (Choice.rx_color t) c inv =
      chosen_color c (λ x. record c { network_rx_color = x }) t inv (λ x h. search)
  choose-InAll (Choice.tx_color t) c inv =
      chosen_color c (λ x. record c { network_tx_color = x }) t inv (λ x h. search)
  choose-InAll (Choice.brightness t) c inv =
      chosen_number c (λ n. record c { network_brightness = n }) t 0 255 inv (λ n h. search)
  choose-InAll (Choice.disk_interval t) c inv =
      chosen_number c (λ n. record c { disk_interval_ms = n }) t 1 1000 inv (λ n h. search)
  choose-InAll (Choice.disk_hold t) c inv =
      chosen_number c (λ n. record c { disk_hold_ms = n }) t 1 10000 inv (λ n h. search)
  choose-InAll (Choice.disk_pulse t) c inv =
      chosen_number c (λ n. record c { disk_pulse_ms = n }) t 1 1000 inv (λ n h. search)
  choose-InAll Choice.unrecognised c inv = inv

  -- An accepted configuration: in range, and with a component to run.
  pub record IsAccepted (c : Config) : Type 0 where
    pub in_range : InRange c
    pub runs : (c.power_enabled || c.disks_enabled || c.network_enabled) ≡ true

  Accepts : Outcome → Type 0
  Accepts (returns ok c) = IsAccepted c
  Accepts (returns (err e) c) = Unit {0}
  Accepts exits = Unit {0}

  accepted :
      (none_left : Bool) (c : Config) → InBounds c → is_refused libc none_left c ≡ false → InRange c
  accepted none_left c inv h =
      let pulse : c.disk_pulse_ms < c.disk_interval_ms = ground arith in
      let disk_pulse : (1 ≤ c.disk_pulse_ms) × (c.disk_pulse_ms < c.disk_interval_ms) =
        (inv.disk_pulse, pulse) in
      search

  either-Accepts :
      (b none_left : Bool) (c : Config)
      → is_refused libc none_left c ≡ b
      → InBounds c
      → Accepts (if b then returns (err einval) c else returns ok c)
  unfolding Accepts
  either-Accepts true none_left c e inv = tt
  either-Accepts false none_left c e inv = record {
    in_range = accepted none_left c inv e;
    runs = ground arith;
  }

  or_leave-Accepts :
      (o : Outcome) (next : Config → Outcome)
      → InAll o
      → ((d : Config) → InBounds d → Accepts (next d))
      → Accepts (or_leave libc o next)
  unfolding InAll Accepts
  or_leave-Accepts (returns ok c) next h k = k c h
  or_leave-Accepts (returns (err e) c) next h k = tt
  or_leave-Accepts exits next h k = tt

  choose_all-Accepts :
      (none_left : Bool) (choices : List Choice) (c : Config)
      → InBounds c
      → Accepts (choose_all libc none_left choices c)
  unfolding choose_all validate
  choose_all-Accepts none_left [] c inv = either-Accepts _ none_left c refl inv
  choose_all-Accepts none_left (choice ∷ choices) c inv =
      or_leave-Accepts (choose libc choice c) (choose_all libc none_left choices)
        (choose-InAll choice c inv) (choose_all-Accepts none_left choices)

  after_file-Accepts :
      (given : Bool) (r : Status × Config) (next : Config → Outcome)
      → InBounds r.1
      → ((d : Config) → InBounds d → Accepts (next d))
      → Accepts (after_file libc given r next)
  unfolding Accepts
  after_file-Accepts given (ok, c) next h k = k c h
  after_file-Accepts given (err e, c) next h k = elim (Bool-cases (not (e == enoent) || given)) [
    | inl leaves ↦ rw leaves tt
    | inr goes_on ↦ rw goes_on (k c h)
  ]

  InRange-InBounds : (c : Config) → InRange c → InBounds c
  InRange-InBounds c inv =
      let disk_interval : c.disk_interval_ms ≤ 1000 = inv.disk_interval in
      let disk_pulse : 1 ≤ c.disk_pulse_ms = inv.disk_pulse.0 in search

  path-InBounds :
      (c : Config) (path : List ℕ) → InBounds c → InBounds (record c { config_path = path })
  path-InBounds c path inv = search

  module _ (shell : Shell) where
    open shell use {file, choices, none_left}

    with_path-Accepts :
        (args : List (List ℕ)) (found : Option (List ℕ × Bool))
        → Accepts (with_path libc shell args found)
    unfolding Accepts
    with_path-Accepts args none = tt
    with_path-Accepts args (some (path, given)) =
        after_file-Accepts given
          (load_file libc (file path) (record set_defaults { config_path = path }))
          (choose_all libc (none_left args) (choices args))
          (load_file-InBounds libc (file path) _
            (path-InBounds set_defaults path (InRange-InBounds set_defaults set_defaults-InRange)))
          (choose_all-Accepts (none_left args) (choices args))

    -- Whatever the configuration file and the command line hold, a configuration that
    -- `config_parse_options` accepts has every number and colour in the range that the LED modules
    -- rely on, a disk pulse shorter than the disk interval, and a component to run.
    pub parse_options-IsAccepted :
        (args : List (List ℕ)) (c : Config)
        → parse_options libc shell args ≡ returns ok c
        → IsAccepted c
    unfolding parse_options Accepts
    parse_options-IsAccepted args c e =
        subst Accepts e (with_path-Accepts args (find_config_path args (default_path, false)))
