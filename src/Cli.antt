-- ===== src/Cli.antt =====
-- The command line tool: cli/i2c.cpp and cli/ugreen_leds.cpp. It drives the MCU without a cache.
pub mod Arguments
pub mod Run
pub mod Open
pub mod Main
pub mod Serving
pub mod Served
pub mod Readings
mod Tests
use ugreen_leds_controller.Prelude.{
  ℕ, zero, suc, ◌+◌, ◌-◌, ◌*◌, ◌/◌, ◌%◌, Bool, true, false, ◌&&◌, ◌||◌, not, List, [], ◌∷◌, ◌++◌,
  Option, none, some, ◌==◌, ltb, leb, length, if◌then◌else◌,
}
use ugreen_leds_controller.Status.{Status, ok, err}
use ugreen_leds_controller.Env.{Env, Fd, Reply, value, failed}
use ugreen_leds_controller.Config.{codes}
use ugreen_leds_controller.Config.Values.{Parsed, bad}
use ugreen_leds_controller.DiskLed.Layout.{starts_with}
use ugreen_leds_controller.Controller.Transfer.{checksum, low_byte, i2c_smbus_block_max}
use ugreen_leds_controller.Kernel.{
  Kernel, File, unreadable, stream, Directory, unlisted, listing, cut_newline, take,
}

-- The call of the tool that the daemon does not make: a read of a block, `none` if it fails.
pub record Tool (env : Env) : Type 0 where
  pub read_block : Fd → (register size : ℕ) → env.World → Option (List ℕ) × env.World

-- `led_data_t` where it is available; `status` is the number of the mode.
pub record LedData : Type 0 where
  pub op_mode : ℕ
  pub brightness : ℕ
  pub color_r : ℕ
  pub color_g : ℕ
  pub color_b : ℕ
  pub t_on : ℕ
  pub t_off : ℕ

-- The error of a call that returns -1.
abbrev pub minus_one : Status
minus_one = err 1

-- The loop of `compute_checksum` over the first `size` bytes.
unfoldable pub compute_checksum : List ℕ → (size : ℕ) → ℕ
unfolding checksum
compute_checksum bytes size =
    if ltb size 2 || ltb (length bytes) size then 0 else checksum (take size bytes)

abbrev pub nth : List ℕ → ℕ → ℕ
nth [] i = 0
nth (x ∷ xs) zero = x
nth (x ∷ xs) (suc i) = nth xs i

unfoldable pub verify_checksum : List ℕ → Bool
unfolding compute_checksum
verify_checksum bytes =
    let size = length bytes in
    let sum = compute_checksum bytes (size - 2) in
    if ltb size 2
    then false
    else not (sum == 0) && sum == nth bytes (size - 1) + nth bytes (size - 2) * 256

unfoldable pub append_checksum : List ℕ → List ℕ
unfolding compute_checksum
append_checksum bytes =
    let sum = compute_checksum bytes (length bytes) in bytes ++ (sum / 256 % 256) ∷ (sum % 256) ∷ []

-- The bytes that `get_status` takes from a block of 11; `none` is one that is not available.
unfoldable pub parse_status : List ℕ → Option LedData
unfolding verify_checksum
parse_status (m ∷ brightness ∷ r ∷ g ∷ b ∷ h1 ∷ h0 ∷ l1 ∷ l0 ∷ c1 ∷ c0 ∷ []) =
    if not (verify_checksum (m ∷ brightness ∷ r ∷ g ∷ b ∷ h1 ∷ h0 ∷ l1 ∷ l0 ∷ c1 ∷ c0 ∷ []))
      || ltb 3 m
    then none
    else some (record {
      op_mode = m;
      brightness = brightness;
      color_r = r;
      color_g = g;
      color_b = b;
      t_on = l1 * 256 + l0;
      t_off = (h1 * 256 + h0 + 65536 - (l1 * 256 + l0)) % 65536;
    })
parse_status bytes = none

-- `bytes[0] = x`
abbrev pub with_first : ℕ → List ℕ → List ℕ
with_first x [] = []
with_first x (y ∷ ys) = x ∷ ys

-- The 12 bytes that `_change_status` writes.
unfoldable pub status_frame : (led_id command p0 p1 p2 p3 : ℕ) → List ℕ
unfolding append_checksum
status_frame led_id command p0 p1 p2 p3 =
    with_first led_id
      (append_checksum (0x00 ∷ 0xa0 ∷ 0x01 ∷ 0x00 ∷ 0x00 ∷ command ∷ p0 ∷ p1 ∷ p2 ∷ p3 ∷ []))

module _ (env : Env) (tool : Tool env) (fd : Fd) where
  open env use {World, smbus_write, smbus_read_byte}
  open tool use {read_block}

  -- A device that is not open has `_fd` 0, which is also a descriptor.
  abbrev pub if_open : {A : Type 0} → Fd → A → A → A
  if_open none closed opened = closed
  if_open (some zero) closed opened = closed
  if_open (some (suc n)) closed opened = opened

  abbrev pub bytes_or_none : Option (List ℕ) → List ℕ
  bytes_or_none none = []
  bytes_or_none (some bytes) = bytes

  unfoldable pub read_block_data : (command size : ℕ) → World → List ℕ × World
  read_block_data command size w =
      let (bytes, w') = read_block fd command size w in
      if_open fd ([], w)
        (if ltb i2c_smbus_block_max size then ([], w) else (bytes_or_none bytes, w'))

  -- At most 32 bytes are written.
  unfoldable pub write_block_data : (command : ℕ) → List ℕ → World → Status × World
  write_block_data command bytes w =
      let cut = take i2c_smbus_block_max bytes in
      if_open fd (minus_one, w) (smbus_write fd command (length cut ∷ cut) w)

  abbrev pub byte_or_zero : Reply → ℕ
  byte_or_zero (value v) = v
  byte_or_zero (failed e) = 0

  unfoldable pub read_byte_data : (command : ℕ) → World → ℕ × World
  read_byte_data command w =
      let (reply, w') = smbus_read_byte fd command w in
      if_open fd (0, w) (byte_or_zero (low_byte reply), w')

  unfoldable pub get_status : (led_id : ℕ) → World → Option LedData × World
  unfolding read_block_data parse_status
  get_status led_id w =
      let (bytes, w') = read_block_data ((0x81 + led_id) % 256) 0xb w in (parse_status bytes, w')

  unfoldable pub change_status : (led_id command p0 p1 p2 p3 : ℕ) → World → Status × World
  unfolding write_block_data status_frame
  change_status led_id command p0 p1 p2 p3 w =
      write_block_data led_id (status_frame led_id command p0 p1 p2 p3) w

  unfoldable pub set_onoff : (led_id status : ℕ) → World → Status × World
  set_onoff led_id status w =
      if leb 2 status then (minus_one, w) else change_status led_id 0x03 status 0 0 0 w

  unfoldable pub set_rgb : (led_id r g b : ℕ) → World → Status × World
  set_rgb led_id r g b w = change_status led_id 0x02 r g b 0 w

  unfoldable pub set_brightness : (led_id brightness : ℕ) → World → Status × World
  set_brightness led_id brightness w = change_status led_id 0x01 brightness 0 0 0 w

  -- `uint16_t t_hight = t_on + t_off` wraps.
  unfoldable pub set_blink_or_breath : (command led_id t_on t_off : ℕ) → World → Status × World
  set_blink_or_breath command led_id t_on t_off w =
      let t_hight = (t_on + t_off) % 65536 in
      change_status led_id command (t_hight / 256 % 256) (t_hight % 256) (t_on / 256 % 256)
        (t_on % 256) w

  unfoldable pub is_last_modification_successful : World → Bool × World
  unfolding read_byte_data
  is_last_modification_successful w = let (status, w') = read_byte_data 0x80 w in (status == 1, w')
