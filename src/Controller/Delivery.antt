-- ===== src/Controller/Delivery.antt =====
-- What the retries of `change_status` do to the LEDs, whichever of them fail.
use ugreen_leds_controller.Prelude.{
  ℕ, zero, suc, ◌+◌, ◌%◌, ◌≡◌, ◌⊎◌, refl, ap, ◌∙◌, inl, inr, List, ◌∷◌, if◌then◌else◌, arith,
  Bool-cases, true,
}
use ugreen_leds_controller.Status.{Status, ok, err}
use ugreen_leds_controller.Env.{Env, Fd, Reply, value, failed}
use ugreen_leds_controller.Controller.Transfer.{
  Attempt, returns, retries, frame, sleep_failed, low_byte, attempt_delay, judge,
  change_status_once, acknowledge, sent, try_once, resume, attempts,
}
use ugreen_leds_controller.Controller.Protocol.{Mcu, receive}
use ugreen_leds_controller.Controller.Frame.{receive_idem}

module _ (env : Env) (mcu : Mcu env) (led_id : ℕ) (block : List ℕ) where
  open env use {World, smbus_write, smbus_read_byte, usleep}
  open mcu use {shown}

  -- Each LED shows what it showed, but for LED `led_id`, which may have taken the block.
  abbrev pub Touched : World → World → Type 0
  Touched w w' =
      (i : ℕ)
      → (shown w' i ≡ shown w i) ⊎ ((i ≡ led_id) × (shown w' i ≡ receive led_id block (shown w i)))

  pub Touched-refl : {w w' : World} → ((i : ℕ) → shown w' i ≡ shown w i) → Touched w w'
  Touched-refl same i = inl (same i)

  pub Touched-trans : {w v u : World} → Touched w v → Touched v u → Touched w u
  Touched-trans {w} first later i =
      ground (arith, first i, later i, receive_idem led_id block (shown w i))

  -- The block is known to have arrived.
  abbrev pub Arrived : World → World → Type 0
  Arrived w w' = shown w' led_id ≡ receive led_id block (shown w led_id)

  -- What one round, or the whole loop, is allowed to do from `w`.
  pub record Delivers (w : World) (result : Attempt × World) : Type 0 where
    pub touched : Touched w result.1
    pub arrived : result.0 ≡ returns ok → Arrived w result.1

  judge-low_byte_ok :
      (reply : Reply)
      → judge (low_byte reply) ≡ returns ok
      → (v : ℕ) × (reply ≡ value v) × (v % 256 ≡ 1)
  judge-low_byte_ok (value v) e = (v, refl, ground arith)
  judge-low_byte_ok (failed x) e = cc

  module _ (fd : Fd) where
    -- The wait and the read change nothing that is shown.
    acknowledge_keeps : (w : World) (i : ℕ) → shown (acknowledge env fd w).1 i ≡ shown w i
    unfolding acknowledge
    acknowledge_keeps w i =
        ground (arith, mcu.sleep_keeps 2000 w i, mcu.read_keeps fd 0x80 (usleep 2000 w).1 i)

    acknowledge_ok :
        (w : World)
        → (acknowledge env fd w).0 ≡ returns ok
        → judge (low_byte (smbus_read_byte fd 0x80 (usleep 2000 w).1).0) ≡ returns ok
    unfolding acknowledge
    acknowledge_ok w h = ground arith

    acknowledge-Arrived :
        (w : World)
        → (smbus_write fd led_id block w).0 ≡ ok
        → (acknowledge env fd (smbus_write fd led_id block w).1).0 ≡ returns ok
        → Arrived w (smbus_write fd led_id block w).1
    acknowledge-Arrived w e h =
        let (v, got, one) =
          judge-low_byte_ok _ (acknowledge_ok (smbus_write fd led_id block w).1 h) in
        mcu.ack_effect fd led_id block w 2000 v e got one

    sent-Delivers :
        (w : World) (result : Status) (w1 : World)
        → Touched w w1
        → (result ≡ ok → (acknowledge env fd w1).0 ≡ returns ok → Arrived w w1)
        → Delivers w (sent env fd (result, w1))
    sent-Delivers w ok w1 t a = record {
      touched = Touched-trans t (Touched-refl (acknowledge_keeps w1));
      arrived = λ h. acknowledge_keeps w1 led_id ∙ a refl h;
    }
    sent-Delivers w (err e) w1 t a = record { touched = t; arrived = λ h. cc }

    pub write-Delivers : (w : World) → Delivers w (sent env fd (smbus_write fd led_id block w))
    write-Delivers w =
        sent-Delivers w (smbus_write fd led_id block w).0 (smbus_write fd led_id block w).1
          (mcu.write_effect fd led_id block w) (acknowledge-Arrived w)

  -- A step that keeps what is shown may stand before.
  pub Delivers-after :
      {w w1 : World} {result : Attempt × World}
      → ((i : ℕ) → shown w1 i ≡ shown w i)
      → Delivers w1 result
      → Delivers w result
  Delivers-after same d = record {
    touched = Touched-trans (Touched-refl same) d.touched;
    arrived = λ h. d.arrived h ∙ ap (receive led_id block) (same led_id);
  }

  -- So may a round that failed.
  pub Delivers-again :
      {w w1 : World} {result : Attempt × World}
      → Touched w w1
      → Delivers w1 result
      → Delivers w result
  Delivers-again {w} t d = record {
    touched = Touched-trans t d.touched;
    arrived =
        λ h. ground (arith, d.arrived h, t led_id, receive_idem led_id block (shown w led_id));
  }

  slept-Delivers :
      (n : ℕ) (w : World)
      → sleep_failed (usleep n w).0 ≡ true
      → Delivers w (returns (usleep n w).0, (usleep n w).1)
  slept-Delivers n w e = record {
    touched = Touched-refl (mcu.sleep_keeps n w);
    arrived = λ h. ground arith;
  }

  resume-Delivers :
      (next : ℕ → World → Attempt × World) (w : World) (result : Attempt × World)
      → Delivers w result
      → ((e : ℕ) → Delivers result.1 (next e result.1))
      → Delivers w (resume env next result)
  resume-Delivers next w (returns s, w1) d later = d
  resume-Delivers next w (retries e, w1) d later = Delivers-again d.touched (later e)

module _ (env : Env) (mcu : Mcu env) (fd : Fd) (led_id command p0 p1 p2 p3 : ℕ) where
  open env use {World, usleep, smbus_write}

  abbrev block : List ℕ
  block = 12 ∷ frame led_id command p0 p1 p2 p3

  abbrev FrameDelivers : World → Attempt × World → Type 0
  FrameDelivers = Delivers env mcu led_id block

  change_status_once_lem :
      (w : World)
      → change_status_once env fd led_id command p0 p1 p2 p3 w ≡ smbus_write fd led_id block w
  unfolding change_status_once
  change_status_once_lem w = refl

  try_once_lem :
      (attempt : ℕ) (w : World)
      → let slept = usleep (attempt_delay attempt) w in
        try_once env fd led_id command p0 p1 p2 p3 attempt w ≡ (
          if sleep_failed slept.0
          then (returns slept.0, slept.1)
          else sent env fd (smbus_write fd led_id block slept.1))
  unfolding try_once
  try_once_lem attempt w = rw change_status_once_lem

  try_once-Delivers :
      (attempt : ℕ) (w : World)
      → FrameDelivers w (try_once env fd led_id command p0 p1 p2 p3 attempt w)
  try_once-Delivers attempt w =
      let slept = usleep (attempt_delay attempt) w in
      rw (try_once_lem attempt w) (elim (Bool-cases (sleep_failed slept.0)) [
        | inl e ↦ rw e (slept-Delivers env mcu led_id block _ w e)
        | inr e ↦ rw e (
            Delivers-after env mcu led_id block (mcu.sleep_keeps _ w)
              (write-Delivers env mcu led_id block fd slept.1))
      ])

  -- However the rounds end, each LED but this one is as it was, and this one is as it was or as the
  -- frame says; if the loop returns 0 it is as the frame says.
  pub attempts-Delivers :
      (left attempt error : ℕ) (w : World)
      → FrameDelivers w (attempts env fd led_id command p0 p1 p2 p3 left attempt error w)
  unfolding attempts
  attempts-Delivers zero attempt error w = record {
    touched = Touched-refl env mcu led_id block (λ i. refl);
    arrived = λ h. cc;
  }
  attempts-Delivers (suc left) attempt error w =
      resume-Delivers env mcu led_id block
        (attempts env fd led_id command p0 p1 p2 p3 left (attempt + 1)) w
        (try_once env fd led_id command p0 p1 p2 p3 attempt w) (try_once-Delivers attempt w)
        (λ e. attempts-Delivers left (attempt + 1) e _)
