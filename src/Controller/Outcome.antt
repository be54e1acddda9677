-- ===== src/Controller/Outcome.antt =====
-- How a transfer with its cache update ends: the value is on the LED and in the cache, or the
-- cache entry is dropped.
use ugreen_leds_controller.Prelude.{
  ℕ, zero, suc, ◌+◌, ◌<◌, ◌≡◌, ◌≢◌, ◌⊎◌, refl, ◌∙◌, inl, inr, ◌∷◌, ◌==◌, arith, Bool-cases, false,
  leb,
}
use ugreen_leds_controller.Types.{ugreen_led_count}
use ugreen_leds_controller.Status.{Status, ok, err, eio}
use ugreen_leds_controller.Env.{Env, Fd, Reply, value, failed}
use ugreen_leds_controller.Controller.State.{LedCache, Session, cache_at, set_cache, invalidate}
use ugreen_leds_controller.Controller.Transfer.{
  Attempt, returns, retries, frame, acknowledge, sent, try_once, resume, attempts, attempt_delay,
  judge, i2c_read_byte, ack_register, conclude, change_status, command_retry_count,
  change_status_once,
}
use ugreen_leds_controller.Controller.Commands.{record_success}
use ugreen_leds_controller.Controller.Protocol.{Mcu, execute, command_of}
use ugreen_leds_controller.Controller.Frame.{AreBytes, receive-frame}
use ugreen_leds_controller.Controller.Delivery.{Delivers, attempts-Delivers}

-- A `return` from inside the loop is `return 0`, since no sleep fails.
abbrev IsSettled : Attempt → Type 0
IsSettled (returns s) = s ≡ ok
IsSettled (retries e) = Unit {0}

module _ (env : Env) (mcu : Mcu env) where
  open env use {World, usleep, smbus_read_byte}

  judge-IsSettled : (reply : Reply) → IsSettled (judge reply)
  judge-IsSettled (value v) = elim (Bool-cases (v == 1)) [ inl e ↦ rw e refl | inr e ↦ rw e tt ]
  judge-IsSettled (failed e) = tt

  acknowledge-IsSettled : (fd : Fd) (w : World) → IsSettled (acknowledge env fd w).0
  unfolding acknowledge
  acknowledge-IsSettled fd w =
      rw (mcu.sleep_interrupted 2000 w (omega arith))
        (judge-IsSettled (i2c_read_byte env fd ack_register (usleep 2000 w).1).0)

  sent-IsSettled : (fd : Fd) (s : Status) (w : World) → IsSettled (sent env fd (s, w)).0
  sent-IsSettled fd ok w = acknowledge-IsSettled fd w
  sent-IsSettled fd (err e) w = tt

  delay_short : (attempt : ℕ) → attempt_delay attempt < 1000000
  delay_short attempt = ground arith

  module _ (fd : Fd) (led_id command p0 p1 p2 p3 : ℕ) where
    try_once-IsSettled :
        (attempt : ℕ) (w : World)
        → IsSettled (try_once env fd led_id command p0 p1 p2 p3 attempt w).0
    unfolding try_once
    try_once-IsSettled attempt w =
        let once =
          change_status_once env fd led_id command p0 p1 p2 p3
            (usleep (attempt_delay attempt) w).1 in
        rw (mcu.sleep_interrupted (attempt_delay attempt) w (delay_short attempt))
          (sent-IsSettled fd once.0 once.1)

    resume-IsSettled :
        (next : ℕ → World → Attempt × World) (result : Attempt × World)
        → IsSettled result.0
        → ((e : ℕ) → IsSettled (next e result.1).0)
        → IsSettled (resume env next result).0
    resume-IsSettled next (returns s, w) h later = h
    resume-IsSettled next (retries e, w) h later = later e

    attempts-IsSettled :
        (left attempt error : ℕ) (w : World)
        → IsSettled (attempts env fd led_id command p0 p1 p2 p3 left attempt error w).0
    unfolding attempts
    attempts-IsSettled zero attempt error w = tt
    attempts-IsSettled (suc left) attempt error w =
        resume-IsSettled (attempts env fd led_id command p0 p1 p2 p3 left (attempt + 1))
          (try_once env fd led_id command p0 p1 p2 p3 attempt w) (try_once-IsSettled attempt w)
          (λ e. attempts-IsSettled left (attempt + 1) e _)

  module _ (led_id command p0 p1 p2 p3 : ℕ) (change : LedCache → LedCache) where
    -- The new value is acknowledged and cached.
    pub record Written (s : Session World) (result : Status × Session World) : Type 0 where
      pub returns_ok : result.0 ≡ ok
      pub caches :
          result.1.controller
          ≡ set_cache s.controller led_id (change (cache_at s.controller led_id))
      pub shows :
          mcu.shown result.1.world led_id
          ≡ execute (command_of command p0 p1 p2 p3) (mcu.shown s.world led_id)
      pub elsewhere : (i : ℕ) → i ≢ led_id → mcu.shown result.1.world i ≡ mcu.shown s.world i

    -- Five rounds failed; the LED may have changed or not.
    pub record Lost (s : Session World) (result : Status × Session World) : Type 0 where
      pub error : ℕ
      pub returns_error : result.0 ≡ err error
      pub drops : result.1.controller ≡ invalidate s.controller led_id
      pub elsewhere : (i : ℕ) → i ≢ led_id → mcu.shown result.1.world i ≡ mcu.shown s.world i

    concluded :
        (s : Session World) (result : Attempt × World)
        → AreBytes command p0 p1 p2 p3
        → IsSettled result.0
        → Delivers env mcu led_id (12 ∷ frame led_id command p0 p1 p2 p3) s.world result
        → Written s (record_success led_id change (conclude env led_id s.controller result))
          ⊎ Lost s (record_success led_id change (conclude env led_id s.controller result))
    concluded s (returns ok, w) bytes settled d = inl (record {
      returns_ok = refl;
      caches = refl;
      shows =
          d.arrived refl
          ∙ receive-frame led_id command p0 p1 p2 p3 (mcu.shown s.world led_id) bytes;
      elsewhere = λ i ne. ground (arith, d.touched i);
    })
    concluded s (returns (err e), w) bytes settled d = absurd (cc settled)
    concluded s (retries e, w) bytes settled d = inr (record {
      error = e;
      returns_error = refl;
      drops = refl;
      elsewhere = λ i ne. ground (arith, d.touched i);
    })

    -- A setter that goes to the bus either writes or loses.
    pub transfer_outcome :
        (s : Session World)
        → led_id < ugreen_led_count
        → AreBytes command p0 p1 p2 p3
        → Written s (record_success led_id change (change_status env led_id command p0 p1 p2 p3 s))
          ⊎ Lost s (record_success led_id change (change_status env led_id command p0 p1 p2 p3 s))
    unfolding change_status
    transfer_outcome s in_range bytes =
        let guard : leb ugreen_led_count led_id ≡ false = ground arith in
        rw guard (
          concluded s
            (attempts env s.controller.fd led_id command p0 p1 p2 p3 command_retry_count 0 eio
              s.world)
            bytes (attempts-IsSettled _ led_id command p0 p1 p2 p3 _ _ _ _)
            (attempts-Delivers env mcu _ led_id command p0 p1 p2 p3 _ _ _ _))
