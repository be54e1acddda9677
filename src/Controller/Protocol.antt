-- ===== src/Controller/Protocol.antt =====
-- What the MCU promises, after "Communication Protocols" in README.md: the layout of a frame, what
-- a command changes, and what an acknowledgement means.
use ugreen_leds_controller.Prelude.{
  ℕ, ◌+◌, ◌*◌, ◌%◌, ◌≡◌, ◌<◌, ◌⊎◌, false, ◌&&◌, List, [], ◌∷◌, Option, none, some, ◌==◌,
  if◌then◌else◌, length,
}
use ugreen_leds_controller.Types.{Rgb, rgb}
use ugreen_leds_controller.Status.{ok}
use ugreen_leds_controller.Env.{Env, Fd, value}
use ugreen_leds_controller.Controller.Transfer.{sleep_failed}

pub data Light : Type 0 where
  dark steady : Light
  blinking breathing : (cycle on : ℕ) → Light

-- What one LED shows.
pub record Shown : Type 0 where
  pub color : Rgb
  pub brightness : ℕ
  pub light : Light

pub data Command : Type 0 where
  brightness_is : ℕ → Command
  color_is : Rgb → Command
  light_is : Light → Command

-- Bytes 0x05 to 0x09 of a frame.
unfoldable pub command_of : (kind p0 p1 p2 p3 : ℕ) → Option Command
command_of kind p0 p1 p2 p3 =
    if kind == 1
    then some (brightness_is p0)
    else if kind == 2
    then some (color_is (rgb p0 p1 p2))
    else if kind == 3 && p0 == 0
    then some (light_is dark)
    else if kind == 3 && p0 == 1
    then some (light_is steady)
    else if kind == 4
    then some (light_is (blinking (p0 * 256 + p1) (p2 * 256 + p3)))
    else if kind == 5
    then some (light_is (breathing (p0 * 256 + p1) (p2 * 256 + p3)))
    else none

-- A frame for LED `led_id`: its id, the constants, and the checksum of the bytes 0x01 to 0x09.
unfoldable pub decode : ℕ → List ℕ → Option Command
unfolding command_of
decode led_id (b0 ∷ b1 ∷ b2 ∷ b3 ∷ b4 ∷ b5 ∷ b6 ∷ b7 ∷ b8 ∷ b9 ∷ ba ∷ bb ∷ []) =
    if (b0 == led_id && b1 == 0xa0 && b2 == 0x01 && b3 == 0x00 && b4 == 0x00)
      && ba * 256 + bb == b1 + b2 + b3 + b4 + b5 + b6 + b7 + b8 + b9
    then command_of b5 b6 b7 b8 b9
    else none
decode led_id _ = none

abbrev pub execute : Option Command → Shown → Shown
execute none s = s
execute (some (brightness_is b)) s = record s { brightness = b }
execute (some (color_is c)) s = record s { color = c }
execute (some (light_is l)) s = record s { light = l }

-- The block of an SMBus write: its length, then the frame.
abbrev pub receive : ℕ → List ℕ → Shown → Shown
receive led_id [] s = s
receive led_id (n ∷ bytes) s = if n == length bytes then execute (decode led_id bytes) s else s

-- The MCU as the code relies on it. `shown w i` is what LED `i` shows in world `w`.
pub record Mcu (env : Env) : Type 0 where
  pub shown : env.World → ℕ → Shown
  -- a write to a register changes at most the LED of that number, and as its frame says; a write
  -- that fails may have taken effect or not
  pub write_effect :
      (fd : Fd) (register : ℕ) (block : List ℕ) (w : env.World) (i : ℕ)
      → (shown (env.smbus_write fd register block w).1 i ≡ shown w i)
        ⊎ ((i ≡ register)
            × (shown (env.smbus_write fd register block w).1 i
                ≡ receive register block (shown w i)))
  -- the byte of register 0x80 is 1 only if the last write was accepted
  pub ack_effect :
      (fd : Fd) (register : ℕ) (block : List ℕ) (w : env.World) (n v : ℕ)
      → let sent = env.smbus_write fd register block w in
        let waited = env.usleep n sent.1 in
        sent.0 ≡ ok
        → (env.smbus_read_byte fd 0x80 waited.1).0 ≡ value v
        → v % 256 ≡ 1
        → shown sent.1 register ≡ receive register block (shown w register)
  pub read_keeps :
      (fd : Fd) (register : ℕ) (w : env.World) (i : ℕ)
      → shown (env.smbus_read_byte fd register w).1 i ≡ shown w i
  pub sleep_keeps : (n : ℕ) (w : env.World) (i : ℕ) → shown (env.usleep n w).1 i ≡ shown w i
  -- a sleep shorter than a second fails only when a signal interrupts it
  pub sleep_interrupted :
      (n : ℕ) (w : env.World) → n < 1000000 → sleep_failed (env.usleep n w).0 ≡ false
