-- ===== src/Controller/Open.antt =====
-- `led_controller_open` with the search for the I2C device, and `led_controller_close`.
use ugreen_leds_controller.Prelude.{
  ℕ, Bool, false, ◌||◌, not, ◌-◌, List, [], ◌∷◌, ◌++◌, Option, none, some, leb, if◌then◌else◌,
  length, replicate,
}
use ugreen_leds_controller.Types.{ugreen_led_count}
use ugreen_leds_controller.Status.{Status, ok, err, enoent, enametoolong}
use ugreen_leds_controller.Env.{Env, Fd, Reply, value, failed}
use ugreen_leds_controller.Config.{codes}
use ugreen_leds_controller.Config.Values.{Parsed, bad}
use ugreen_leds_controller.DiskLed.Layout.{starts_with}
use ugreen_leds_controller.Kernel.{
  Kernel, Directory, unlisted, listing, read_first_line, path_max, take,
}
use ugreen_leds_controller.Controller.State.{Controller, Session, zero_cache}

abbrev pub i2c_sysfs : List ℕ
i2c_sysfs = codes "/sys/class/i2c-dev"

abbrev pub adapter_name_size : ℕ
adapter_name_size = 256

abbrev pub ugreen_led_i2c_addr : ℕ
ugreen_led_i2c_addr = 0x3a

abbrev pub is_adapter : Parsed (List ℕ) → Bool
is_adapter (Parsed.value name) = starts_with name (codes "SMBus I801 adapter")
is_adapter (bad e) = false

-- A controller whose bytes are 0, but for the descriptor.
abbrev pub blank : Controller
blank = record { fd = none; path = []; cache = replicate ugreen_led_count zero_cache }

module _ (env : Env) (kernel : Kernel env.World) where
  open env use {World, close}
  open kernel use {opendir, closedir, open_file, set_slave}

  -- The tests of a directory entry: whether it is the adapter of the LED MCU.
  unfoldable pub test_entry : List ℕ → World → Bool × World
  unfolding read_first_line
  test_entry name w =
      let name_path = i2c_sysfs ++ 47 ∷ name ++ codes "/device/name" in
      let (adapter_name, w') = read_first_line kernel name_path adapter_name_size w in
      if not (starts_with name (codes "i2c-")) || leb path_max (length name_path)
      then (false, w)
      else (is_adapter adapter_name, w')

  abbrev pub device_path : List ℕ → Parsed (List ℕ)
  device_path name =
      let path = codes "/dev/" ++ name in
      if leb path_max (length path) then bad enametoolong else Parsed.value path

  -- The loop over the entries.
  unfoldable pub search : List (List ℕ) → World → Parsed (List ℕ) × World
  unfolding test_entry
  search [] w = (bad enoent, w)
  search (name ∷ names) w =
      let (found, w') = test_entry name w in
      let rest = search names w' in if found then (device_path name, w') else rest

  abbrev pub search_directory : Directory × World → Parsed (List ℕ) × World
  search_directory (unlisted e, w) = (bad e, w)
  search_directory (listing handle names, w) =
      let (result, w') = search names w in (result, closedir handle w')

  unfoldable pub find_i2c_device : World → Parsed (List ℕ) × World
  unfolding search
  find_i2c_device w = search_directory (opendir i2c_sysfs w)

  -- `if (fd >= 0) close(fd);`
  abbrev pub close_fd : Fd → World → World
  close_fd none w = w
  close_fd (some n) w = close (some n) w

  unfoldable pub led_controller_close : Session World → Session World
  led_controller_close s = record {
    controller = record c { fd = none };
    world = close_fd c.fd s.world;
  }
    where
      c : Controller
      c = s.controller

  -- The controller takes the path, cut to its field.
  abbrev pub keep_path : List ℕ → ℕ → Status × World → Status × Session World
  keep_path path fd (ok, w) = (
    ok,
    record {
      controller = record blank { fd = some fd; path = take (path_max - 1) path };
      world = w;
    },
  )
  keep_path path fd (err e, w) = (
    err e,
    led_controller_close (record { controller = record blank { fd = some fd }; world = w }),
  )

  abbrev pub claim : List ℕ → Reply × World → Status × Session World
  claim path (failed e, w) = (err e, record { controller = blank; world = w })
  claim path (value fd, w) = keep_path path fd (set_slave (some fd) ugreen_led_i2c_addr w)

  abbrev pub open_at : Parsed (List ℕ) × World → Status × Session World
  open_at (bad e, w) = (err e, record { controller = blank; world = w })
  open_at (Parsed.value path, w) = claim path (open_file path w)

  abbrev pub detect : Option (List ℕ) → World → Parsed (List ℕ) × World
  detect none w = find_i2c_device w
  detect (some path) w = (Parsed.value path, w)

  unfoldable pub led_controller_open :
      (override_path : Option (List ℕ)) → World → Status × Session World
  unfolding led_controller_close find_i2c_device
  led_controller_open override_path w = open_at (detect override_path w)
