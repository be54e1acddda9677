-- ===== src/Config/Options.antt =====
-- The command line: `find_config_path` and `config_parse_options` of ebpf/src/config.c.
-- `getopt_long` is a parameter.
use ugreen_leds_controller.Prelude.{
  ℕ, Bool, true, false, ◌&&◌, ◌||◌, not, List, [], ◌∷◌, Option, some, none, ◌==◌, leb,
  if◌then◌else◌,
}
use ugreen_leds_controller.Status.{Status, ok, err, enoent, einval}
use ugreen_leds_controller.Config.{Config, set_defaults, codes}
use ugreen_leds_controller.Config.Values.{
  Libc, copy_interface, parse_unsigned, parse_rgb, text_equal,
}
use ugreen_leds_controller.Config.Settings.{ConfigFile, load_file, store}
use ugreen_leds_controller.DiskLed.Layout.{starts_with}

-- What `getopt_long` returns, with `optarg`.
pub data Choice : Type 0 where
  interface bpf_object config i2c_device : (text : List ℕ) → Choice
  interval pulse rx_color tx_color brightness : (text : List ℕ) → Choice
  disk_interval disk_hold disk_pulse : (text : List ℕ) → Choice
  verbose help no_network no_disks no_power unrecognised : Choice

-- The world of the command line: the choices that `getopt_long` finds in the arguments, whether no
-- argument is left behind them, and the files by their paths.
pub record Shell : Type 0 where
  pub choices : List (List ℕ) → List Choice
  pub none_left : List (List ℕ) → Bool
  pub file : List ℕ → ConfigFile

-- `config_parse_options` returns, or `-h` ends the program.
pub data Outcome : Type 0 where
  returns : Status → Config → Outcome
  exits : Outcome

-- The text behind "--config=".
abbrev pub drop_nine : List ℕ → List ℕ
drop_nine (a ∷ b ∷ c ∷ d ∷ e ∷ f ∷ g ∷ h ∷ i ∷ rest) = rest
drop_nine rest = []

abbrev pub default_path : List ℕ
default_path = codes "/etc/ugreen-leds.conf"

-- The loop of `find_config_path`: the path and whether it was given; `none` is -EINVAL.
unfoldable pub find_config_path : List (List ℕ) → List ℕ × Bool → Option (List ℕ × Bool)
find_config_path [] found = some found
find_config_path (a ∷ []) found =
    if text_equal a (codes "--config")
    then none
    else if starts_with a (codes "--config=")
    then some (drop_nine a, true)
    else some found
find_config_path (a ∷ b ∷ rest) found =
    let after_next = find_config_path rest (b, true) in
    let joined = find_config_path (b ∷ rest) (drop_nine a, true) in
    let other = find_config_path (b ∷ rest) found in
    if text_equal a (codes "--config")
    then after_next
    else if starts_with a (codes "--config=")
    then joined
    else other

module _ (libc : Libc) where
  abbrev pub of_result : Status × Config → Outcome
  of_result (s, c) = returns s c

  -- The `switch`.
  unfoldable pub choose : Choice → Config → Outcome
  choose (interface text) c = of_result (copy_interface text c)
  choose (bpf_object text) c = returns ok (record c { bpf_object = text })
  choose verbose c = returns ok (record c { verbose = true })
  choose help c = exits
  choose (config text) c = returns ok (record c { config_path = text })
  choose (i2c_device text) c = returns ok (record c { i2c_device = some text })
  choose no_network c = returns ok (record c { network_enabled = false })
  choose no_disks c = returns ok (record c { disks_enabled = false })
  choose no_power c = returns ok (record c { power_enabled = false })
  choose (interval text) c =
      of_result
        (store libc (λ n. record c { network_interval_ms = n }) c (parse_unsigned libc text 1 1000))
  choose (pulse text) c =
      of_result
        (store libc (λ n. record c { network_pulse_ms = n }) c (parse_unsigned libc text 0 1000))
  choose (rx_color text) c =
      of_result (store libc (λ x. record c { network_rx_color = x }) c (parse_rgb libc text))
  choose (tx_color text) c =
      of_result (store libc (λ x. record c { network_tx_color = x }) c (parse_rgb libc text))
  choose (brightness text) c =
      of_result
        (store libc (λ n. record c { network_brightness = n }) c (parse_unsigned libc text 0 255))
  choose (disk_interval text) c =
      of_result
        (store libc (λ n. record c { disk_interval_ms = n }) c (parse_unsigned libc text 1 1000))
  choose (disk_hold text) c =
      of_result
        (store libc (λ n. record c { disk_hold_ms = n }) c (parse_unsigned libc text 1 10000))
  choose (disk_pulse text) c =
      of_result
        (store libc (λ n. record c { disk_pulse_ms = n }) c (parse_unsigned libc text 1 1000))
  choose unrecognised c = returns (err einval) c

  abbrev pub or_leave : Outcome → (Config → Outcome) → Outcome
  or_leave (returns ok c) next = next c
  or_leave (returns (err e) c) next = returns (err e) c
  or_leave exits next = exits

  -- The test behind the loop.
  abbrev pub is_refused : Bool → Config → Bool
  is_refused none_left c =
      not none_left
      || leb c.disk_interval_ms c.disk_pulse_ms
      || (not c.power_enabled && not c.disks_enabled && not c.network_enabled)

  unfoldable pub validate : Bool → Config → Outcome
  validate none_left c = if is_refused none_left c then returns (err einval) c else returns ok c

  -- The loop over the options.
  unfoldable pub choose_all : Bool → List Choice → Config → Outcome
  unfolding validate
  choose_all none_left [] c = validate none_left c
  choose_all none_left (choice ∷ choices) c =
      or_leave (choose choice c) (choose_all none_left choices)

  -- A file that is not there is an error only if it was asked for.
  abbrev pub after_file : Bool → Status × Config → (Config → Outcome) → Outcome
  after_file given (ok, c) next = next c
  after_file given (err e, c) next =
      if not (e == enoent) || given then returns (err e) c else next c

  module _ (shell : Shell) where
    abbrev pub with_path : List (List ℕ) → Option (List ℕ × Bool) → Outcome
    with_path args none = returns (err einval) set_defaults
    with_path args (some (path, given)) =
        after_file given
          (load_file libc (shell.file path) (record set_defaults { config_path = path }))
          (choose_all (shell.none_left args) (shell.choices args))

    -- The arguments are those behind argv[0].
    unfoldable pub parse_options : List (List ℕ) → Outcome
    unfolding find_config_path choose_all
    parse_options args = with_path args (find_config_path args (default_path, false))
