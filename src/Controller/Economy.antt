-- ===== src/Controller/Economy.antt =====
-- How much a call costs on the bus, counted by an environment that wraps another.
use ugreen_leds_controller.Prelude.{
  ℕ, zero, suc, ◌+◌, ◌%◌, ◌/◌, ◌≤◌, ◌≡◌, refl, Bool, true, false, ◌&&◌, ◌||◌, ◌==◌, leb, ltb,
  if◌then◌else◌, arith, Bool-cases, inl, inr,
}
use ugreen_leds_controller.Types.{rgb_equal, ugreen_led_count}
use ugreen_leds_controller.Status.{Status, ok, err, eio, einval}
use ugreen_leds_controller.Env.{Env, Fd}
use ugreen_leds_controller.Controller.State.{Session, cache_at, LedCache, Controller}
use ugreen_leds_controller.Controller.Transfer.{
  Attempt, returns, retries, sleep_failed, attempt_delay, sent, change_status_once, acknowledge,
  try_once, resume, attempts, conclude, command_retry_count, change_status,
}
use ugreen_leds_controller.Controller.Commands.{
  record_success, set_color, set_brightness, set_on, set_blink, mode_equal, power_mode_of,
  blink_mode_of, with_color, with_brightness, with_mode, with_blink,
}
use ugreen_leds_controller.Controller.Requests.{Request, request}

-- `env` with a count of the frames written.
abbrev pub counting : Env → Env
counting env = record {
  World = env.World × ℕ;
  smbus_write = λ fd register block w.
      let (result, v) = env.smbus_write fd register block w.0 in (result, (v, suc w.1));
  smbus_read_byte =
      λ fd register w. let (reply, v) = env.smbus_read_byte fd register w.0 in (reply, (v, w.1));
  usleep = λ n w. let (result, v) = env.usleep n w.0 in (result, (v, w.1));
  timerfd_create = λ w. let (result, v) = env.timerfd_create w.0 in (result, (v, w.1));
  timerfd_settime =
      λ fd flags t w. let (result, v) = env.timerfd_settime fd flags t w.0 in (result, (v, w.1));
  timerfd_read = λ fd w. let (result, v) = env.timerfd_read fd w.0 in (result, (v, w.1));
  clock_gettime = λ w. let (result, v) = env.clock_gettime w.0 in (result, (v, w.1));
  close = λ fd w. (env.close fd w.0, w.1);
}

module _ (env : Env) where
  abbrev pub Counted : Type 0
  Counted = env.World × ℕ

  acknowledge_count : (fd : Fd) (w : Counted) → (acknowledge (counting env) fd w).1.1 ≡ w.1
  unfolding acknowledge
  acknowledge_count fd w = ground arith

  sent_count : (fd : Fd) (s : Status) (w : Counted) → (sent (counting env) fd (s, w)).1.1 ≡ w.1
  sent_count fd ok w = acknowledge_count fd w
  sent_count fd (err e) w = refl

  module _ (fd : Fd) (led_id command p0 p1 p2 p3 : ℕ) where
    once_count :
        (w : Counted)
        → (change_status_once (counting env) fd led_id command p0 p1 p2 p3 w).1.1 ≡ suc w.1
    unfolding change_status_once
    once_count w = refl

    try_once_count :
        (attempt : ℕ) (w : Counted)
        → (try_once (counting env) fd led_id command p0 p1 p2 p3 attempt w).1.1 ≤ w.1 + 1
    unfolding try_once
    try_once_count attempt w =
        let slept = (counting env).usleep (attempt_delay attempt) w in
        let once = change_status_once (counting env) fd led_id command p0 p1 p2 p3 slept.1 in
        elim (Bool-cases (sleep_failed slept.0)) [
          | inl e ↦ rw e (omega arith)
          | inr e ↦ rw e (omega (arith, sent_count fd once.0 once.1, once_count slept.1))
        ]

    resume_count :
        (next : ℕ → Counted → Attempt × Counted) (result : Attempt × Counted) (m n : ℕ)
        → result.1.1 ≤ m + 1
        → ((e : ℕ) → (next e result.1).1.1 ≤ result.1.1 + n)
        → (resume (counting env) next result).1.1 ≤ m + suc n
    resume_count next (returns s, w) m n first later = omega arith
    resume_count next (retries e, w) m n first later = omega (arith, later e)

    attempts_count :
        (left attempt error : ℕ) (w : Counted)
        → (attempts (counting env) fd led_id command p0 p1 p2 p3 left attempt error w).1.1
          ≤ w.1 + left
    unfolding attempts
    attempts_count zero attempt error w = omega arith
    attempts_count (suc left) attempt error w =
        resume_count (attempts (counting env) fd led_id command p0 p1 p2 p3 left (attempt + 1))
          (try_once (counting env) fd led_id command p0 p1 p2 p3 attempt w) w.1 left
          (try_once_count attempt w) (λ e. attempts_count left (attempt + 1) e _)

  abbrev pub Session' : Type 0
  Session' = Session Counted

  conclude_count :
      (led_id : ℕ) (c : Controller) (change : LedCache → LedCache) (result : Attempt × Counted)
      → (record_success led_id change (conclude (counting env) led_id c result)).1.world.1
        ≡ result.1.1
  conclude_count led_id c change (returns ok, w) = refl
  conclude_count led_id c change (returns (err e), w) = refl
  conclude_count led_id c change (retries e, w) = refl

  pub record IsCheap (s : Session') (result : Status × Session') : Type 0 where
    pub frames : result.1.world.1 ≤ s.world.1 + 5

  change_status-IsCheap :
      (led_id command p0 p1 p2 p3 : ℕ) (change : LedCache → LedCache) (s : Session')
      → IsCheap s
          (record_success led_id change (change_status (counting env) led_id command p0 p1 p2 p3 s))
  unfolding change_status
  change_status-IsCheap led_id command p0 p1 p2 p3 change s =
      let result =
        attempts (counting env) s.controller.fd led_id command p0 p1 p2 p3 command_retry_count 0 eio
          s.world in
      elim (Bool-cases (leb ugreen_led_count led_id)) [
        | inl e ↦ rw e (record { frames = omega arith })
        | inr e ↦ rw e (record {
          frames = omega (
            arith,
            conclude_count led_id s.controller change result,
            attempts_count s.controller.fd led_id command p0 p1 p2 p3 command_retry_count 0 eio
                s.world,
          );
        })
      ]

  -- A branch that sends nothing, or a transfer.
  either-IsCheap :
      (b : Bool) (s : Session') (x : Status) (result : Status × Session')
      → IsCheap s result
      → IsCheap s (if b then (x, s) else result)
  either-IsCheap true s x result h = record { frames = omega arith }
  either-IsCheap false s x result h = h

  -- No setter writes more than five frames, on any bus, with any LED number and any cache.
  pub request-IsCheap :
      (led_id : ℕ) (q : Request) (s : Session') → IsCheap s (request (counting env) led_id q s)
  unfolding set_color set_brightness set_on set_blink
  request-IsCheap led_id (Request.color c) s =
      let cache = cache_at s.controller led_id in
      either-IsCheap (leb ugreen_led_count led_id) s (err einval) _ (
        either-IsCheap (cache.color_valid && rgb_equal cache.color c) s ok _
          (change_status-IsCheap led_id 0x02 c.r c.g c.b 0 (with_color c) s))
  request-IsCheap led_id (Request.brightness b) s =
      let cache = cache_at s.controller led_id in
      either-IsCheap (leb ugreen_led_count led_id) s (err einval) _ (
        either-IsCheap (cache.brightness_valid && cache.brightness == b) s ok _
          (change_status-IsCheap led_id 0x01 b 0 0 0 (with_brightness b) s))
  request-IsCheap led_id (Request.power p) s =
      either-IsCheap (leb ugreen_led_count led_id) s (err einval) _ (
        either-IsCheap (mode_equal (cache_at s.controller led_id).mode (power_mode_of p)) s ok _ (
          change_status-IsCheap led_id 0x03 (if p then 1 else 0) 0 0 0 (with_mode (power_mode_of p))
            s))
  request-IsCheap led_id (Request.blinking on_ms off_ms b) s =
      let cycle = (on_ms + off_ms) % 65536 in
      let cache = cache_at s.controller led_id in
      either-IsCheap (leb ugreen_led_count led_id || ltb cycle on_ms) s (err einval) _ (
        either-IsCheap
          (mode_equal cache.mode (blink_mode_of b)
            && cache.on_ms == on_ms
            && cache.off_ms == off_ms)
          s ok _
          (change_status-IsCheap led_id (if b then 0x05 else 0x04) (cycle / 256 % 256) (cycle % 256)
            (on_ms / 256 % 256) (on_ms % 256) (with_blink (blink_mode_of b) on_ms off_ms) s))
