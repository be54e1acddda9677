-- ===== src/Controller/Keeps.antt =====
-- What the bus calls leave alone, every setter leaves alone.
use ugreen_leds_controller.Prelude.{
  ℕ, zero, suc, ◌+◌, ◌/◌, ◌%◌, Bool, true, false, ◌&&◌, ◌||◌, ◌==◌, leb, ltb, if◌then◌else◌, List,
  Bool-cases, inl, inr,
}
use ugreen_leds_controller.Types.{Rgb, rgb_equal, ugreen_led_count}
use ugreen_leds_controller.Status.{Status, ok, err, eio, einval, Op, and_then, ◌>>◌}
use ugreen_leds_controller.Env.{Env, Fd}
use ugreen_leds_controller.Controller.State.{Session, cache_at, LedCache, Controller}
use ugreen_leds_controller.Controller.Transfer.{
  Attempt, returns, retries, sleep_failed, attempt_delay, sent, change_status_once, acknowledge,
  try_once, resume, attempts, conclude, command_retry_count, change_status,
}
use ugreen_leds_controller.Controller.Commands.{
  record_success, set_color, set_brightness, set_on, set_blink, mode_equal, power_mode_of,
  blink_mode_of, with_color, with_brightness, with_mode, with_blink,
}

-- `P` survives the calls that a transfer makes.
pub record OnBus (env : Env) (P : env.World → Type 0) : Type 0 where
  pub write :
      (fd : Fd) (register : ℕ) (block : List ℕ) (w : env.World)
      → P w
      → P (env.smbus_write fd register block w).1
  pub read :
      (fd : Fd) (register : ℕ) (w : env.World) → P w → P (env.smbus_read_byte fd register w).1
  pub sleep : (n : ℕ) (w : env.World) → P w → P (env.usleep n w).1

module _ (env : Env) (P : env.World → Type 0) (bus : OnBus env P) where
  open env use {World}

  acknowledge-keeps : (fd : Fd) (w : World) → P w → P (acknowledge env fd w).1
  unfolding acknowledge
  acknowledge-keeps fd w h = elim (Bool-cases (sleep_failed (env.usleep 2000 w).0)) [
    | inl e ↦ rw e (bus.sleep 2000 w h)
    | inr e ↦ rw e (bus.read fd 0x80 _ (bus.sleep 2000 w h))
  ]

  sent-keeps : (fd : Fd) (s : Status) (w : World) → P w → P (sent env fd (s, w)).1
  sent-keeps fd ok w h = acknowledge-keeps fd w h
  sent-keeps fd (err e) w h = h

  module _ (fd : Fd) (led_id command p0 p1 p2 p3 : ℕ) where
    once-keeps : (w : World) → P w → P (change_status_once env fd led_id command p0 p1 p2 p3 w).1
    unfolding change_status_once
    once-keeps w h = bus.write fd led_id _ w h

    try_once-keeps :
        (attempt : ℕ) (w : World) → P w → P (try_once env fd led_id command p0 p1 p2 p3 attempt w).1
    unfolding try_once
    try_once-keeps attempt w h =
        let slept = env.usleep (attempt_delay attempt) w in
        let once = change_status_once env fd led_id command p0 p1 p2 p3 slept.1 in
        let awake = bus.sleep (attempt_delay attempt) w h in
        elim (Bool-cases (sleep_failed slept.0)) [
          | inl e ↦ rw e awake
          | inr e ↦ rw e (sent-keeps fd once.0 once.1 (once-keeps slept.1 awake))
        ]

    resume-keeps :
        (next : ℕ → World → Attempt × World) (result : Attempt × World)
        → P result.1
        → ((e : ℕ) → P (next e result.1).1)
        → P (resume env next result).1
    resume-keeps next (returns s, w) h later = h
    resume-keeps next (retries e, w) h later = later e

    attempts-keeps :
        (left attempt error : ℕ) (w : World)
        → P w
        → P (attempts env fd led_id command p0 p1 p2 p3 left attempt error w).1
    unfolding attempts
    attempts-keeps zero attempt error w h = h
    attempts-keeps (suc left) attempt error w h =
        let once = try_once-keeps attempt w h in
        resume-keeps (attempts env fd led_id command p0 p1 p2 p3 left (attempt + 1))
          (try_once env fd led_id command p0 p1 p2 p3 attempt w) once
          (λ e. attempts-keeps left (attempt + 1) e _ once)

  -- `P` of the world of a result.
  abbrev pub Holds : Status × Session World → Type 0
  Holds result = P result.1.world

  conclude-keeps :
      (led_id : ℕ) (c : Controller) (change : LedCache → LedCache) (result : Attempt × World)
      → P result.1
      → Holds (record_success led_id change (conclude env led_id c result))
  conclude-keeps led_id c change (returns ok, w) h = h
  conclude-keeps led_id c change (returns (err e), w) h = h
  conclude-keeps led_id c change (retries e, w) h = h

  change_status-keeps :
      (led_id command p0 p1 p2 p3 : ℕ) (change : LedCache → LedCache) (s : Session World)
      → P s.world
      → Holds (record_success led_id change (change_status env led_id command p0 p1 p2 p3 s))
  unfolding change_status
  change_status-keeps led_id command p0 p1 p2 p3 change s h =
      elim (Bool-cases (leb ugreen_led_count led_id)) [
        | inl e ↦ rw e h
        | inr e ↦ rw e (
            conclude-keeps led_id s.controller change
              (attempts env s.controller.fd led_id command p0 p1 p2 p3 command_retry_count 0 eio
                s.world)
              (attempts-keeps s.controller.fd led_id command p0 p1 p2 p3 command_retry_count 0 eio
                s.world h))
      ]

  either-keeps :
      (b : Bool) (s : Session World) (x : Status) (result : Status × Session World)
      → P s.world
      → Holds result
      → Holds (if b then (x, s) else result)
  either-keeps true s x result h k = h
  either-keeps false s x result h k = k

  pub set_color-keeps :
      (led_id : ℕ) (color : Rgb) (s : Session World)
      → P s.world
      → Holds (set_color env led_id color s)
  unfolding set_color
  set_color-keeps led_id color s h =
      let cache = cache_at s.controller led_id in
      either-keeps (leb ugreen_led_count led_id) s (err einval) _ h (
        either-keeps (cache.color_valid && rgb_equal cache.color color) s ok _ h
          (change_status-keeps led_id 0x02 color.r color.g color.b 0 (with_color color) s h))

  pub set_brightness-keeps :
      (led_id brightness : ℕ) (s : Session World)
      → P s.world
      → Holds (set_brightness env led_id brightness s)
  unfolding set_brightness
  set_brightness-keeps led_id brightness s h =
      let cache = cache_at s.controller led_id in
      either-keeps (leb ugreen_led_count led_id) s (err einval) _ h (
        either-keeps (cache.brightness_valid && cache.brightness == brightness) s ok _ h
          (change_status-keeps led_id 0x01 brightness 0 0 0 (with_brightness brightness) s h))

  pub set_on-keeps :
      (led_id : ℕ) (power : Bool) (s : Session World)
      → P s.world
      → Holds (set_on env led_id power s)
  unfolding set_on
  set_on-keeps led_id power s h = either-keeps (leb ugreen_led_count led_id) s (err einval) _ h (
      either-keeps (mode_equal (cache_at s.controller led_id).mode (power_mode_of power)) s ok _ h (
        change_status-keeps led_id 0x03 (if power then 1 else 0) 0 0 0
          (with_mode (power_mode_of power)) s h))

  pub set_blink-keeps :
      (led_id on_ms off_ms : ℕ) (breathe : Bool) (s : Session World)
      → P s.world
      → Holds (set_blink env led_id on_ms off_ms breathe s)
  unfolding set_blink
  set_blink-keeps led_id on_ms off_ms breathe s h =
      let cycle = (on_ms + off_ms) % 65536 in
      let cache = cache_at s.controller led_id in
      either-keeps (leb ugreen_led_count led_id || ltb cycle on_ms) s (err einval) _ h (
        either-keeps
          (mode_equal cache.mode (blink_mode_of breathe)
            && cache.on_ms == on_ms
            && cache.off_ms == off_ms)
          s ok _ h
          (change_status-keeps led_id (if breathe then 0x05 else 0x04) (cycle / 256 % 256)
            (cycle % 256) (on_ms / 256 % 256) (on_ms % 256)
            (with_blink (blink_mode_of breathe) on_ms off_ms) s h))

  and_then-keeps :
      (first : Status × Session World) (k : Op (Session World))
      → Holds first
      → ((t : Session World) → P t.world → Holds (k t))
      → Holds (and_then first k)
  and_then-keeps (ok, t) k h next = next t h
  and_then-keeps (err e, t) k h next = h

  pub >>-keeps :
      (m k : Op (Session World)) (s : Session World)
      → Holds (m s)
      → ((t : Session World) → P t.world → Holds (k t))
      → Holds ((m >> k) s)
  >>-keeps m k s h next = and_then-keeps (m s) k h next
