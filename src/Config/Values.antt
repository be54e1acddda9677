-- ===== src/Config/Values.antt =====
-- The value parsers of ebpf/src/config.c. `strtoul` and `sscanf` are parameters.
use ugreen_leds_controller.Prelude.{
  ℕ, ◌+◌, ◌-◌, Bool, true, false, ◌&&◌, ◌||◌, not, List, [], ◌∷◌, Option, some, none, ◌==◌, ltb,
  leb, if◌then◌else◌, length, set, replicate,
}
use ugreen_leds_controller.Status.{Status, ok, err, enomem, e2big, einval, erange}
use ugreen_leds_controller.Types.{Rgb, rgb, ugreen_disk_count}
use ugreen_leds_controller.Config.{Config, PowerMode, DiskMapping, codes}

-- What `strtoul(text, &end, 10)` leaves: errno, the characters read, the value.
pub record Strtoul : Type 0 where
  pub errno : ℕ
  pub consumed : ℕ
  pub value : ℕ

-- What `sscanf(text, "%15s %u %u %c", ...)` leaves: its result and the variables.
pub record PowerFields : Type 0 where
  pub fields : ℕ
  pub mode : List ℕ
  pub on_ms : ℕ
  pub off_ms : ℕ

-- The functions of the C library that read numbers. A triple or a number is `some` where `sscanf`
-- returns the count that the code asks for. `strdup` tells whether there is memory for a copy.
pub record Libc : Type 0 where
  pub strtoul : List ℕ → Strtoul
  pub rgb_commas : List ℕ → Option (ℕ × ℕ × ℕ)
  pub rgb_spaces : List ℕ → Option (ℕ × ℕ × ℕ)
  pub power_fields : List ℕ → PowerFields
  pub per_disk : List ℕ → Option ℕ
  pub strdup : List ℕ → Bool

-- A parsed value, or the errno of a refusal.
pub data Parsed (A : Type 0) : Type 0 where
  value : A → Parsed A
  bad : ℕ → Parsed A

-- `strcmp(a, b) == 0`
abbrev pub text_equal : List ℕ → List ℕ → Bool
text_equal [] [] = true
text_equal [] (y ∷ ys) = false
text_equal (x ∷ xs) [] = false
text_equal (x ∷ xs) (y ∷ ys) = x == y && text_equal xs ys

abbrev pub is : List ℕ → List ℕ → Bool
is text word = text_equal text word

-- `tolower` of ASCII, and `strcasecmp(a, b) == 0`.
abbrev pub lower : ℕ → ℕ
lower c = if leb 65 c && leb c 90 then c + 32 else c

abbrev pub text_equal_nocase : List ℕ → List ℕ → Bool
text_equal_nocase [] [] = true
text_equal_nocase [] (y ∷ ys) = false
text_equal_nocase (x ∷ xs) [] = false
text_equal_nocase (x ∷ xs) (y ∷ ys) = lower x == lower y && text_equal_nocase xs ys

unfoldable pub parse_boolean : List ℕ → Parsed Bool
parse_boolean text =
    if text_equal_nocase text (codes "true")
      || text_equal text (codes "1")
      || text_equal_nocase text (codes "yes")
    then value true
    else if text_equal_nocase text (codes "false")
        || text_equal text (codes "0")
        || text_equal_nocase text (codes "no")
    then value false
    else bad einval

unfoldable pub parse_mapping : List ℕ → Parsed DiskMapping
parse_mapping text =
    if text_equal text (codes "ata")
    then value DiskMapping.ata
    else if text_equal text (codes "hctl")
    then value DiskMapping.hctl
    else if text_equal text (codes "serial")
    then value DiskMapping.serial
    else bad einval

-- `sizeof(config->interface)`
abbrev pub ifnamsiz : ℕ
ifnamsiz = 16

unfoldable pub copy_interface : List ℕ → Config → Status × Config
copy_interface text config =
    if length text == 0 || leb ifnamsiz (length text)
    then (err einval, config)
    else (ok, record config { interface = text; network_enabled = true })

-- `strtok_r` with " \t,": the pieces between separators, empty ones left out.
abbrev pub is_separator : ℕ → Bool
is_separator c = c == 32 || c == 9 || c == 44

abbrev pub end_token : List ℕ → List (List ℕ) → List (List ℕ)
end_token [] rest = rest
end_token (c ∷ piece) rest = (c ∷ piece) ∷ rest

abbrev pub add_to_token : ℕ → List (List ℕ) → List (List ℕ)
add_to_token c [] = (c ∷ []) ∷ []
add_to_token c (piece ∷ rest) = (c ∷ piece) ∷ rest

-- The first piece of the result is the one that the next character belongs to.
abbrev pub pieces : List ℕ → List (List ℕ)
pieces [] = [] ∷ []
pieces (c ∷ cs) = let rest = pieces cs in if is_separator c then [] ∷ rest else add_to_token c rest

abbrev pub tokens : List (List ℕ) → List (List ℕ)
tokens [] = []
tokens (piece ∷ rest) = end_token piece (tokens rest)

-- `UGREEN_MAX_SERIAL_LENGTH`
abbrev pub max_serial_length : ℕ
max_serial_length = 128

-- The loop of `parse_serials` from slot `slot`.
unfoldable pub store_serials : ℕ → List (List ℕ) → Config → Status × Config
store_serials slot [] config = (ok, config)
store_serials slot (token ∷ rest) config =
    let next =
      store_serials (slot + 1) rest
        (record config { disk_serials = set config.disk_serials slot token }) in
    if leb ugreen_disk_count slot || leb max_serial_length (length token)
    then (err e2big, config)
    else next

module _ (libc : Libc) where
  open libc use {strtoul, rgb_commas, rgb_spaces, power_fields, per_disk, strdup}

  unfoldable pub parse_unsigned : List ℕ → (minimum maximum : ℕ) → Parsed ℕ
  parse_unsigned text minimum maximum =
      let number = strtoul text in
      if not (number.errno == 0)
        || number.consumed == 0
        || ltb number.consumed (length text)
        || ltb number.value minimum
        || ltb maximum number.value
      then bad einval
      else value number.value

  abbrev pub or_else : Option (ℕ × ℕ × ℕ) → Option (ℕ × ℕ × ℕ) → Option (ℕ × ℕ × ℕ)
  or_else none other = other
  or_else (some c) other = some c

  abbrev pub rgb_of : Option (ℕ × ℕ × ℕ) → Parsed Rgb
  rgb_of none = bad einval
  rgb_of (some (r, g, b)) =
      if ltb 255 r || ltb 255 g || ltb 255 b then bad erange else value (rgb r g b)

  unfoldable pub parse_rgb : List ℕ → Parsed Rgb
  parse_rgb text = rgb_of (or_else (rgb_commas text) (rgb_spaces text))

  unfoldable pub parse_serials : List ℕ → Config → Status × Config
  unfolding store_serials
  parse_serials text config =
      if strdup text
      then store_serials 0 (tokens (pieces text))
          (record config { disk_serials = replicate ugreen_disk_count [] })
      else (err enomem, config)

  abbrev pub with_times : PowerMode → PowerFields → Config → Config
  with_times mode f config = record config {
    power_mode = mode;
    power_on_ms = f.on_ms;
    power_off_ms = f.off_ms;
  }

  abbrev pub uint16_max : ℕ
  uint16_max = 65535

  unfoldable pub parse_power_mode : List ℕ → Config → Status × Config
  parse_power_mode text config =
      let f = power_fields text in
      if f.fields == 1 && text_equal f.mode (codes "none")
      then (ok, record config { power_mode = PowerMode.on })
      else if not (f.fields == 3)
          || ltb uint16_max f.on_ms
          || ltb uint16_max f.off_ms
          || ltb uint16_max (f.on_ms + f.off_ms)
      then (err einval, config)
      else if text_equal f.mode (codes "blink")
      then (ok, with_times PowerMode.blink f config)
      else if text_equal f.mode (codes "breath")
      then (ok, with_times PowerMode.breath f config)
      else (err einval, config)

  abbrev pub slot_of : Option ℕ → Option ℕ
  slot_of none = none
  slot_of (some disk) = if ltb disk 1 || ltb ugreen_disk_count disk then none else some (disk - 1)

  -- `none` is -1.
  unfoldable pub per_disk_color_slot : List ℕ → Option ℕ
  per_disk_color_slot key = slot_of (per_disk key)
