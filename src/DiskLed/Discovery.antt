-- ===== src/DiskLed/Discovery.antt =====
-- ebpf/src/disk_led.c: which block device belongs to which slot. `sscanf` and the printing of
-- numbers are parameters.
use ugreen_leds_controller.Prelude.{
  ℕ, zero, suc, ◌+◌, ◌*◌, ◌%◌, ◌^◌, true, ◌&&◌, ◌||◌, not, List, [], ◌∷◌, ◌++◌, Option, none, some,
  leb, if◌then◌else◌, length, get_or, set,
}
use ugreen_leds_controller.Types.{ugreen_led_disk_first}
use ugreen_leds_controller.Status.{Status, ok, err, enoent, einval, enametoolong}
use ugreen_leds_controller.Env.{Env}
use ugreen_leds_controller.Config.{Config, DiskMapping, codes}
use ugreen_leds_controller.Config.Values.{Parsed, bad, text_equal}
use ugreen_leds_controller.Config.Lines.{is_empty, first_is}
use ugreen_leds_controller.Kernel.{
  Kernel, File, unreadable, stream, Directory, unlisted, listing, read_first_line, path_max,
  cut_newline,
}
use ugreen_leds_controller.DiskLed.Layout.{Scanner, starts_with, hctl_slot, ata_slot}
use ugreen_leds_controller.DiskLed.Slots.{DiskSlot, Disks, no_slot}

-- `sscanf(value, "%u:%u%c", ...)` where it returns 2, `%u` of `snprintf`, and the formats of
-- ebpf/src/disk_layout.c.
pub record Formats : Type 0 where
  pub dev_numbers : List ℕ → Option (ℕ × ℕ)
  pub show_unsigned : ℕ → List ℕ
  pub scan : Scanner

-- What `parse_dev` stores. `dev` is `(major << 20) | minor`, with a minor below 2 ^ 20.
pub record Device : Type 0 where
  pub dev : ℕ
  pub major : ℕ
  pub minor : ℕ

abbrev pub sys_block : List ℕ
sys_block = codes "/sys/class/block"

abbrev pub device_of : Option (ℕ × ℕ) → Parsed Device
device_of none = bad einval
device_of (some (major, minor)) =
    if leb (2 ^ 12) major || leb (2 ^ 20) minor
    then bad einval
    else Parsed.value (record { dev = major * 2 ^ 20 + minor; major = major; minor = minor })

abbrev pub drop : ℕ → List ℕ → List ℕ
drop zero text = text
drop (suc n) [] = []
drop (suc n) (c ∷ cs) = drop n cs

abbrev pub serial_prefix : List ℕ
serial_prefix = codes "E:ID_SERIAL_SHORT="

-- `length` is `UGREEN_MAX_SERIAL_LENGTH`.
abbrev pub fitting_serial : (length : ℕ) → List ℕ → Parsed (List ℕ)
fitting_serial size text = if leb size (length text) then bad enametoolong else Parsed.value text

-- The loop of `read_udev_serial` over the lines.
unfoldable pub serial_line : ℕ → List (List ℕ) → Parsed (List ℕ)
serial_line size [] = bad enoent
serial_line size (line ∷ lines) =
    let rest = serial_line size lines in
    if starts_with line serial_prefix
    then fitting_serial size (cut_newline (drop (length serial_prefix) line))
    else rest

-- The loop of `serial_slot` from slot `slot`, with `left` slots to go.
unfoldable pub serial_from : (left slot : ℕ) → List (List ℕ) → List ℕ → Option ℕ
serial_from zero slot serials serial = none
serial_from (suc left) slot [] serial = none
serial_from (suc left) slot (s ∷ serials) serial =
    let rest = serial_from left (slot + 1) serials serial in
    if not (is_empty s) && text_equal serial s then some slot else rest

-- A device with the slot that it belongs to.
pub record Located : Type 0 where
  pub slot : ℕ
  pub dev : ℕ
  pub name : List ℕ

abbrev pub name_size : ℕ
name_size = 64

-- A name that does not fit is not copied.
abbrev pub slot_with : Located → DiskSlot → DiskSlot
slot_with d old = record old {
  led_id = (ugreen_led_disk_first + d.slot % 256) % 256;
  present = true;
  dev = d.dev;
  name = if leb name_size (length d.name) then old.name else d.name;
}

-- The first device of a slot stays.
unfoldable pub place : Option Located → List DiskSlot → List DiskSlot
place none found = found
place (some d) found =
    if (get_or found d.slot no_slot).present
    then found
    else set found d.slot (slot_with d (get_or found d.slot no_slot))

module _ (env : Env) (kernel : Kernel env.World) (formats : Formats) (config : Config) where
  open env use {World}
  open kernel use {fopen, fclose, opendir, closedir, realpath, exists}
  open formats use {dev_numbers, show_unsigned, scan}

  -- `read_line` is the text of `read_first_line` in ebpf/src/led_controller.c.
  abbrev pub read_line : List ℕ → ℕ → World → Parsed (List ℕ) × World
  read_line path size w = read_first_line kernel path size w

  abbrev pub device_of_line : Parsed (List ℕ) → Parsed Device
  device_of_line (bad e) = bad enoent
  device_of_line (Parsed.value text) = device_of (dev_numbers text)

  unfoldable pub parse_dev : List ℕ → World → Parsed Device × World
  unfolding read_first_line
  parse_dev name w =
      let path = sys_block ++ 47 ∷ name ++ codes "/dev" in
      let (line, w') = read_line path 64 w in
      if leb path_max (length path) then (bad enametoolong, w) else (device_of_line line, w')

  abbrev pub serial_in : ℕ → File × World → Parsed (List ℕ) × World
  serial_in size (unreadable e, w) = (bad e, w)
  serial_in size (stream handle lines read_error, w) = (serial_line size lines, fclose handle w)

  unfoldable pub read_udev_serial : (major minor size : ℕ) → World → Parsed (List ℕ) × World
  unfolding serial_line
  read_udev_serial major minor size w =
      let path = codes "/run/udev/data/b" ++ show_unsigned major ++ 58 ∷ show_unsigned minor in
      if leb path_max (length path) then (bad enametoolong, w) else serial_in size (fopen path w)

  abbrev pub slot_of_serial : ℕ → Parsed (List ℕ) → Option ℕ
  slot_of_serial slot_count (bad e) = none
  slot_of_serial slot_count (Parsed.value serial) =
      serial_from slot_count 0 config.disk_serials serial

  unfoldable pub serial_slot : (slot_count major minor : ℕ) → World → Option ℕ × World
  unfolding serial_from read_udev_serial
  serial_slot slot_count major minor w =
      let (serial, w') = read_udev_serial major minor 128 w in
      (slot_of_serial slot_count serial, w')

  -- The slot by the resolved path of the device, or of the block device.
  abbrev pub layout_slot : (List ℕ → Option ℕ) → Option (List ℕ) → Option ℕ
  layout_slot place_path none = none
  layout_slot place_path (some resolved) = place_path resolved

  abbrev pub resolve : List ℕ → World → Option (List ℕ)
  resolve path w = if leb path_max (length path) then none else realpath path w

  -- With both links: the first must resolve in either case.
  abbrev pub if_resolved : Option (List ℕ) → Option ℕ → Option ℕ
  if_resolved none slot = none
  if_resolved (some resolved) slot = slot

  abbrev pub mapped_slot :
      DiskMapping
      → (product_name : List ℕ) → (slot_count : ℕ) → List ℕ
      → Device
      → World
      → Option ℕ × World
  mapped_slot DiskMapping.serial product_name slot_count name d w =
      serial_slot slot_count d.major d.minor w
  mapped_slot DiskMapping.hctl product_name slot_count name d w = (
    layout_slot (hctl_slot scan product_name slot_count)
        (resolve (sys_block ++ 47 ∷ name ++ codes "/device") w),
    w,
  )
  mapped_slot DiskMapping.ata product_name slot_count name d w = (
    if_resolved (resolve (sys_block ++ 47 ∷ name ++ codes "/device") w)
        (layout_slot (ata_slot scan product_name slot_count) (resolve (sys_block ++ 47 ∷ name) w)),
    w,
  )

  unfoldable pub device_slot :
      (product_name : List ℕ) → (slot_count : ℕ) → List ℕ → Device → World → Option ℕ × World
  unfolding serial_slot hctl_slot ata_slot
  device_slot product_name slot_count name d w =
      mapped_slot config.disk_mapping product_name slot_count name d w

  -- A slot within the model's count.
  abbrev pub within_count : (slot_count : ℕ) → List ℕ → Device → Option ℕ → Option Located
  within_count slot_count name d none = none
  within_count slot_count name d (some slot) =
      if leb slot_count slot then none else some (record { slot = slot; dev = d.dev; name = name })

  abbrev pub located :
      (product_name : List ℕ)
      → (slot_count : ℕ) → List ℕ
      → Parsed Device × World
      → Option Located × World
  located product_name slot_count name (bad e, w) = (none, w)
  located product_name slot_count name (Parsed.value d, w) =
      let (slot, w') = device_slot product_name slot_count name d w in
      (within_count slot_count name d slot, w')

  -- The tests of a directory entry up to its slot; `none` is a `continue`.
  unfoldable pub locate :
      (product_name : List ℕ) → (slot_count : ℕ) → List ℕ → World → Option Located × World
  unfolding parse_dev device_slot
  locate product_name slot_count name w =
      let partition_path = sys_block ++ 47 ∷ name ++ codes "/partition" in
      if first_is 46 name || leb path_max (length partition_path) || exists partition_path w
      then (none, w)
      else located product_name slot_count name (parse_dev name w)

  -- The loop over the entries.
  unfoldable pub discover_entries :
      (product_name : List ℕ)
      → (slot_count : ℕ) → List (List ℕ)
      → List DiskSlot
      → World
      → List DiskSlot × World
  unfolding locate place
  discover_entries product_name slot_count [] found w = (found, w)
  discover_entries product_name slot_count (name ∷ names) found w =
      let (d, w') = locate product_name slot_count name w in
      discover_entries product_name slot_count names (place d found) w'

  abbrev pub discover_in :
      Disks World → List DiskSlot → Directory × World → Status × (List DiskSlot × World)
  discover_in d found (unlisted e, w) = (err e, (found, w))
  discover_in d found (listing handle names, w) =
      let (found', w') = discover_entries d.product_name d.slot_count names found w in
      (ok, (found', closedir handle w'))

  unfoldable pub discover : Disks World → List DiskSlot → World → Status × (List DiskSlot × World)
  unfolding discover_entries
  discover d found w = discover_in d found (opendir sys_block w)
