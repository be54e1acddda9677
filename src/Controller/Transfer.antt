-- ===== src/Controller/Transfer.antt =====
-- One command to the MCU: `i2c_write_block`, `i2c_read_byte`, `checksum`, `change_status_once`
-- and `change_status` with its retries.
use ugreen_leds_controller.Prelude.{
  ℕ, zero, suc, ◌+◌, ◌/◌, ◌%◌, List, [], ◌∷◌, Bool, false, not, ◌==◌, ltb, leb, if◌then◌else◌,
  length,
}
use ugreen_leds_controller.Types.{ugreen_led_count}
use ugreen_leds_controller.Status.{Status, ok, err, eintr, einval, eio, emsgsize, eremoteio}
use ugreen_leds_controller.Env.{Env, Fd, Reply, value, failed}
use ugreen_leds_controller.Controller.State.{Controller, Session, invalidate}

abbrev pub i2c_smbus_block_max : ℕ
i2c_smbus_block_max = 32

abbrev pub command_retry_count : ℕ
command_retry_count = 5

abbrev pub ack_register : ℕ
ack_register = 0x80

-- `unsigned` sums of bytes; a frame is far too short to wrap them.
unfoldable pub checksum : List ℕ → ℕ
checksum [] = 0
checksum (x ∷ xs) = x + checksum xs

-- The 12 bytes that `change_status_once` sends. The sum is taken while `data[0]` is still 0.
unfoldable pub frame : ℕ → ℕ → ℕ → ℕ → ℕ → ℕ → List ℕ
unfolding checksum
frame led_id command p0 p1 p2 p3 =
    let body = 0x01 ∷ 0x00 ∷ 0x00 ∷ command ∷ p0 ∷ p1 ∷ p2 ∷ p3 ∷ [] in
    let sum = checksum (0x00 ∷ 0xa0 ∷ body) in
    led_id
    ∷ 0xa0
    ∷ 0x01
    ∷ 0x00
    ∷ 0x00
    ∷ command
    ∷ p0
    ∷ p1
    ∷ p2
    ∷ p3
    ∷ (sum / 256 % 256)
    ∷ (sum % 256)
    ∷ []

-- How one round of the retry loop ends: by a `return`, or with an error to try again.
pub data Attempt : Type 0 where
  returns : Status → Attempt
  retries : ℕ → Attempt

-- `usleep(...) < 0 && errno != EINTR`
abbrev pub sleep_failed : Status → Bool
sleep_failed ok = false
sleep_failed (err e) = not (e == eintr)

-- `smbus_data.byte & 0xff`
abbrev pub low_byte : Reply → Reply
low_byte (value v) = value (v % 256)
low_byte (failed e) = failed e

-- The sleep between the attempts.
abbrev pub attempt_delay : ℕ → ℕ
attempt_delay attempt = if attempt == 0 then 1000 else 30000

-- The status byte: 1 is an accepted command.
abbrev pub judge : Reply → Attempt
judge (value accepted) = if accepted == 1 then returns ok else retries eremoteio
judge (failed e) = retries e

module _ (env : Env) where
  open env use {World, smbus_write, smbus_read_byte, usleep}

  unfoldable pub i2c_write_block : Fd → ℕ → List ℕ → World → Status × World
  i2c_write_block fd command bytes w =
      if ltb i2c_smbus_block_max (length bytes)
      then (err emsgsize, w)
      else smbus_write fd command ((length bytes % 256) ∷ bytes) w

  unfoldable pub i2c_read_byte : Fd → ℕ → World → Reply × World
  i2c_read_byte fd command w =
      let (reply, w') = smbus_read_byte fd command w in (low_byte reply, w')

  -- `continue` after an error; every other way out of a round leaves the loop.
  abbrev pub resume : (ℕ → World → Attempt × World) → Attempt × World → Attempt × World
  resume next (returns s, w) = (returns s, w)
  resume next (retries e, w) = next e w

  module _ (fd : Fd) where
    -- After a write that succeeded: wait, and read the acknowledgement.
    unfoldable pub acknowledge : World → Attempt × World
    unfolding i2c_read_byte
    acknowledge w =
        let (slept, w1) = usleep 2000 w in
        let (reply, w2) = i2c_read_byte fd ack_register w1 in
        if sleep_failed slept then (returns slept, w1) else (judge reply, w2)

    abbrev pub sent : Status × World → Attempt × World
    sent (ok, w) = acknowledge w
    sent (err e, w) = (retries e, w)

  module _ (fd : Fd) (led_id command p0 p1 p2 p3 : ℕ) where
    unfoldable pub change_status_once : World → Status × World
    unfolding i2c_write_block frame
    change_status_once w = i2c_write_block fd led_id (frame led_id command p0 p1 p2 p3) w

    -- The body of the loop.
    unfoldable pub try_once : ℕ → World → Attempt × World
    try_once attempt w =
        let (slept, w1) = usleep (attempt_delay attempt) w in
        if sleep_failed slept then (returns slept, w1) else sent fd (change_status_once w1)

    -- The loop from round `attempt` with `left` rounds to go; `error` is the last round's.
    unfoldable pub attempts : (left attempt error : ℕ) → World → Attempt × World
    attempts zero attempt error w = (retries error, w)
    attempts (suc left) attempt error w = resume (attempts left (attempt + 1)) (try_once attempt w)

  -- What follows the loop: nothing after a `return`, else the cache entry is dropped.
  abbrev pub conclude : ℕ → Controller → Attempt × World → Status × Session World
  conclude led_id c (returns s, w) = (s, record { controller = c; world = w })
  conclude led_id c (retries e, w) = (err e, record { controller = invalidate c led_id; world = w })

  unfoldable pub change_status : ℕ → ℕ → ℕ → ℕ → ℕ → ℕ → Session World → Status × Session World
  change_status led_id command p0 p1 p2 p3 s =
      if leb ugreen_led_count led_id
      then (err einval, s)
      else conclude led_id s.controller
          (attempts s.controller.fd led_id command p0 p1 p2 p3 command_retry_count 0 eio s.world)
