-- ===== src/Driver/Bus.antt =====
-- Transfers of kmod/led-ugreen.c: a command with its retries, and the state of an LED read back.
use ugreen_leds_controller.Prelude.{
  ℕ, zero, suc, ◌+◌, ◌*◌, ◌/◌, ◌%◌, Bool, false, ◌||◌, not, List, [], ◌∷◌, ◌==◌, if◌then◌else◌,
  get_or,
}
use ugreen_leds_controller.Status.{Status, ok, err}
use ugreen_leds_controller.Env.{Reply, value, failed}

abbrev pub ugreen_max_led_number : ℕ
ugreen_max_led_number = 10

abbrev pub change_state_retry_count : ℕ
change_state_retry_count = 5

abbrev pub state_off : ℕ
state_off = 0

abbrev pub state_on : ℕ
state_on = 1

abbrev pub state_blink : ℕ
state_blink = 2

abbrev pub state_breath : ℕ
state_breath = 3

abbrev pub state_invalid : ℕ
state_invalid = 4

pub record LedState : Type 0 where
  pub status : ℕ
  pub r : ℕ
  pub g : ℕ
  pub b : ℕ
  pub brightness : ℕ
  pub t_on : ℕ
  pub t_cycle : ℕ

-- A block that was read, or an errno.
pub data Block : Type 0 where
  bytes : List ℕ → Block
  fault : ℕ → Block

-- The kernel's calls for the client, over all that is outside the driver.
pub record Bus : Type 1 where
  pub World : Type 0
  -- `i2c_smbus_write_i2c_block_data(client, register, length, buf)`
  pub write_block : ℕ → List ℕ → World → Status × World
  -- `i2c_smbus_read_i2c_block_data(client, register, length, buf)`, with the bytes in the buffer
  pub read_block : ℕ → ℕ → World → Block × World
  -- `i2c_smbus_read_byte_data(client, register)`
  pub read_byte : ℕ → World → Reply × World
  pub usleep_range : ℕ → ℕ → World → World
  pub msleep : ℕ → World → World

-- What a failing function of the driver returns: -1.
abbrev pub minus_one : Status
minus_one = err 1

unfoldable pub change_state_frame : ℕ → ℕ → ℕ → ℕ → ℕ → ℕ → List ℕ
change_state_frame led_id command param1 param2 param3 param4 =
    let cksum = (0xa1 + command + param1 + param2 + param3 + param4) % 65536 in
    led_id
    ∷ 0xa0
    ∷ 0x01
    ∷ 0x00
    ∷ 0x00
    ∷ command
    ∷ param1
    ∷ param2
    ∷ param3
    ∷ param4
    ∷ (cksum / 256 % 256)
    ∷ (cksum % 256)
    ∷ []

-- The sum of the first `n` bytes, in a u16.
abbrev pub sum_bytes : ℕ → List ℕ → ℕ
sum_bytes zero buf = 0
sum_bytes (suc n) [] = 0
sum_bytes (suc n) (x ∷ xs) = (x + sum_bytes n xs) % 65536

abbrev pub byte_at : List ℕ → ℕ → ℕ
byte_at buf i = get_or buf i 0

unfoldable pub parse_state : List ℕ → LedState → Status × LedState
parse_state buf state =
    let sum = sum_bytes 9 buf in
    if sum == 0 || not (sum == byte_at buf 9 * 256 + byte_at buf 10) then (minus_one, state) else (
      ok,
      record {
        status = byte_at buf 0;
        brightness = byte_at buf 1;
        r = byte_at buf 2;
        g = byte_at buf 3;
        b = byte_at buf 4;
        t_cycle = byte_at buf 5 * 256 + byte_at buf 6;
        t_on = byte_at buf 7 * 256 + byte_at buf 8;
      },
    )

abbrev pub parse_block : Block → LedState → Status × LedState
parse_block (bytes buf) state = parse_state buf state
parse_block (fault e) state = (err e, state)

-- `rc == 1` of the status byte.
abbrev pub accepted : Reply → Bool
accepted (value rc) = rc == 1
accepted (failed e) = false

module _ (bus : Bus) where
  open bus use {World, write_block, read_block, read_byte, usleep_range, msleep}

  unfoldable pub change_state : ℕ → ℕ → ℕ → ℕ → ℕ → ℕ → World → Status × World
  unfolding change_state_frame
  change_state led_id command param1 param2 param3 param4 w =
      write_block led_id (change_state_frame led_id command param1 param2 param3 param4) w

  unfoldable pub get_last_command_status : World → Bool × World
  get_last_command_status w = let (rc, w') = read_byte 0x80 w in (accepted rc, w')

  abbrev pub pause : ℕ → World → World
  pause i w = if i == 0 then usleep_range 500 1500 w else msleep 30 w

  -- After a write: a wait and the question whether it was accepted.
  abbrev pub confirm : Status × World → Bool × World
  confirm (ok, w) = get_last_command_status (usleep_range 1500 2500 w)
  confirm (err e, w) = (false, w)

  module _ (led_id command param1 param2 param3 param4 : ℕ) where
    -- Round `i` of the retry loop: whether it returns 0.
    unfoldable pub change_state_round : ℕ → World → Bool × World
    change_state_round i w =
        confirm (change_state led_id command param1 param2 param3 param4 (pause i w))

    unfoldable pub change_state_rounds : (left i : ℕ) → World → Status × World
    change_state_rounds zero i w = (minus_one, w)
    change_state_rounds (suc left) i w =
        let (done, w') = change_state_round i w in
        let next = change_state_rounds left (i + 1) w' in if done then (ok, w') else next

    unfoldable pub change_state_robust : World → Status × World
    change_state_robust w = change_state_rounds change_state_retry_count 0 w

  unfoldable pub get_state : ℕ → LedState → World → (Status × LedState) × World
  unfolding parse_state
  get_state led_id state w =
      let (block, w') = read_block (0x81 + led_id) 11 w in (parse_block block state, w')

  -- `if (rc == 0) return 0;`, else the next round.
  abbrev pub read_or :
      (LedState → World → (Status × LedState) × World)
      → (Status × LedState) × World
      → (Status × LedState) × World
  read_or next ((ok, state), w) = ((ok, state), w)
  read_or next ((err e, state), w) = next state w

  unfoldable pub get_state_rounds :
      (left i led_id : ℕ) → LedState → World → (Status × LedState) × World
  get_state_rounds zero i led_id state w = ((minus_one, record state { status = state_invalid }), w)
  get_state_rounds (suc left) i led_id state w =
      read_or (get_state_rounds left (i + 1) led_id) (get_state led_id state (pause i w))

  unfoldable pub get_state_robust : ℕ → LedState → World → (Status × LedState) × World
  get_state_robust led_id state w = get_state_rounds change_state_retry_count 0 led_id state w
