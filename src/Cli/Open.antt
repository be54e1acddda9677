-- ===== src/Cli/Open.antt =====
-- Opening the device: `ugreen_leds_t::start` of cli/ugreen_leds.cpp and `i2c_device_t::start` of
-- cli/i2c.cpp; and the LED names of cli/ugreen_leds_cli.cpp.
use ugreen_leds_controller.Prelude.{ℕ, List, [], ◌∷◌, ◌++◌, Option, none, some, if◌then◌else◌}
use ugreen_leds_controller.Status.{Status, ok, err}
use ugreen_leds_controller.Env.{Env, Fd, Reply, value, failed}
use ugreen_leds_controller.Config.{codes}
use ugreen_leds_controller.Config.Values.{text_equal}
use ugreen_leds_controller.Config.Lines.{first_is}
use ugreen_leds_controller.DiskLed.Layout.{starts_with}
use ugreen_leds_controller.Kernel.{Kernel, File, unreadable, stream, Directory, unlisted, listing}
use ugreen_leds_controller.Cli.{Tool, LedData, minus_one}
use ugreen_leds_controller.Cli.Arguments.{Reading, reads, shows_help, aborts, bind}
use ugreen_leds_controller.Cli.Run.{get_status_robust}

abbrev pub i2c_dev_path : List ℕ
i2c_dev_path = codes "/sys/class/i2c-dev/"

abbrev pub ugreen_led_i2c_addr : ℕ
ugreen_led_i2c_addr = 0x3a

-- The line that `std::getline` leaves: empty where there is none.
abbrev pub line_of : File → List ℕ
line_of (unreadable e) = []
line_of (stream handle [] read_error) = []
line_of (stream handle (line ∷ lines) read_error) = line

module _ (env : Env) (kernel : Kernel env.World) where
  open env use {World, close}
  open kernel use {fopen, fclose, opendir, closedir, open_file, set_slave, exists}

  abbrev pub close_stream : File × World → World
  close_stream (unreadable e, w) = w
  close_stream (stream handle lines read_error, w) = fclose handle w

  -- `_fd` is 0 where the device is not open; here it is `none`.
  abbrev pub keep_device : ℕ → Status × World → (Status × Fd) × World
  keep_device fd (ok, w) = ((ok, some fd), w)
  keep_device fd (err e, w) = ((minus_one, none), close (some fd) w)

  abbrev pub claim : Reply × World → (Status × Fd) × World
  claim (failed e, w) = ((minus_one, none), w)
  claim (value fd, w) = keep_device fd (set_slave (some fd) ugreen_led_i2c_addr w)

  unfoldable pub i2c_start : (filename : List ℕ) → World → (Status × Fd) × World
  i2c_start filename w = claim (open_file filename w)

  -- The loop over the entries, all of which are directories.
  unfoldable pub start_entries : List (List ℕ) → World → (Status × Fd) × World
  unfolding i2c_start
  start_entries [] w = ((minus_one, none), w)
  start_entries (name ∷ names) w =
      let (file, w1) = fopen (i2c_dev_path ++ name ++ codes "/device/name") w in
      let w2 = close_stream (file, w1) in
      let rest = start_entries names w2 in
      if starts_with (line_of file) (codes "SMBus I801 adapter")
      then i2c_start (codes "/dev/" ++ name) w2
      else rest

  -- An iterator that cannot be made throws.
  abbrev pub start_in : Directory × World → Reading (Status × Fd) × World
  start_in (unlisted e, w) = (aborts, w)
  start_in (listing handle names, w) =
      let (result, w') = start_entries names w in (reads result, closedir handle w')

  unfoldable pub start : World → Reading (Status × Fd) × World
  unfolding start_entries
  start w =
      if exists i2c_dev_path w
      then start_in (opendir i2c_dev_path w)
      else (reads (minus_one, none), w)

-- `get_led_type`: the number of an LED's name.
unfoldable pub get_led_type : List ℕ → Reading ℕ
get_led_type name =
    if text_equal name (codes "power")
    then reads 0
    else if text_equal name (codes "netdev")
    then reads 1
    else if text_equal name (codes "disk1")
    then reads 2
    else if text_equal name (codes "disk2")
    then reads 3
    else if text_equal name (codes "disk3")
    then reads 4
    else if text_equal name (codes "disk4")
    then reads 5
    else if text_equal name (codes "disk5")
    then reads 6
    else if text_equal name (codes "disk6")
    then reads 7
    else if text_equal name (codes "disk7")
    then reads 8
    else if text_equal name (codes "disk8")
    then reads 9
    else shows_help

-- The LEDs in the order of their names, as `std::map` has them.
abbrev pub all_leds : List ℕ
all_leds = 2 ∷ 3 ∷ 4 ∷ 5 ∷ 6 ∷ 7 ∷ 8 ∷ 9 ∷ 1 ∷ 0 ∷ []

module _ (env : Env) (tool : Tool env) (fd : Fd) where
  open env use {World}

  abbrev pub if_available : ℕ → Option LedData → List ℕ → List ℕ
  if_available led_id none rest = rest
  if_available led_id (some data_read) rest = led_id ∷ rest

  -- The LEDs of `all`: those whose status can be read.
  unfoldable pub available : List ℕ → World → List ℕ × World
  unfolding get_status_robust
  available [] w = ([], w)
  available (led_id ∷ leds) w =
      let (status, w1) = get_status_robust env tool fd led_id w in
      let (rest, w2) = available leds w1 in (if_available led_id status rest, w2)

  abbrev pub with_led :
      Reading ℕ
      → (World → Reading (List ℕ × List (List ℕ)) × World)
      → World
      → Reading (List ℕ × List (List ℕ)) × World
  with_led (reads led_id) rest w =
      let (more, w') = rest w in (bind more (λ r. reads (led_id ∷ r.0, r.1)), w')
  with_led other rest w = (shows_help, w)

  -- The first loop over the arguments: the LEDs, and the arguments behind their names.
  unfoldable pub parse_leds : List (List ℕ) → World → Reading (List ℕ × List (List ℕ)) × World
  unfolding get_led_type available
  parse_leds [] w = (reads ([], []), w)
  parse_leds (name ∷ args) w =
      let (found, w1) = available all_leds w in
      let (more, w2) = parse_leds args w1 in
      let one = with_led (get_led_type name) (parse_leds args) w in
      if first_is 45 name
      then (reads ([], name ∷ args), w)
      else if text_equal name (codes "all")
      then (bind more (λ r. reads (found ++ r.0, r.1)), w2)
      else one
