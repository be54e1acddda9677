-- ===== src/Driver/Blinks.antt =====
-- The blink callback of the LED class: delays in, delays out.
use ugreen_leds_controller.Prelude.{
  ℕ, ◌+◌, ◌/◌, ◌%◌, ◌≤◌, ◌<◌, ◌≡◌, ◌⊎◌, inl, inr, refl, arith, true, ◌&&◌, ◌==◌, Bool-cases,
}
use ugreen_leds_controller.Status.{Status, ok, err}
use ugreen_leds_controller.Driver.Bus.{LedState, Bus, state_blink, change_state_robust}
use ugreen_leds_controller.Driver.Leds.{
  Cell, Delays, truncate_delay, truncate_blink_delay_time, set_blink, set_blink_or_breath, keep_if,
  blink_reply,
}

-- `t` is the delay of 100 to 32767 ms that is closest to `n`.
abbrev pub IsClamped : (n t : ℕ) → Type 0
IsClamped n t = (n < 100 × t ≡ 100) ⊎ (100 ≤ n × n ≤ 32767 × t ≡ n) ⊎ (32767 < n × t ≡ 32767)

truncate_delay-IsClamped : (n : ℕ) → IsClamped n (truncate_delay n)
unfolding truncate_delay
truncate_delay-IsClamped n = ground arith

IsClamped-bounds : (n t : ℕ) → IsClamped n t → (100 ≤ t) × (t ≤ 32767)
IsClamped-bounds n t h = omega (arith, h)

module _ (bus : Bus) where
  open bus use {World}

  -- The LED blinks with the delays `t`, in the cache and in the reply.
  pub record Blinks (t : Delays) (r : (Status × Delays) × Cell World) : Type 0 where
    pub returns_ok : r.0.0 ≡ ok
    pub on_delay : r.0.1.delay_on ≡ t.delay_on
    pub off_delay : r.0.1.delay_off ≡ t.delay_off
    pub cached_on : r.1.state.t_on ≡ t.delay_on
    pub cached_cycle : r.1.state.t_cycle ≡ t.delay_on + t.delay_off
    pub cached_status : r.1.state.status ≡ state_blink

  -- The five transfers of the command failed, and the cached state is as before.
  pub record Kept (led_id : ℕ) (t : Delays) (c : Cell World) (r : (Status × Delays) × Cell World)
      : Type 0 where
    pub error : ℕ
    pub not_sent :
        (change_state_robust bus led_id 0x04
          ((t.delay_on + t.delay_off) / 256 % 256)
          ((t.delay_on + t.delay_off) % 256)
          (t.delay_on / 256 % 256)
          (t.delay_on % 256)
          c.world).0
        ≡ err error
    pub same : r.1.state ≡ c.state

  -- The cache holds the blink.
  Holds : Delays → LedState → Type 0
  Holds t s =
      (s.t_on ≡ t.delay_on) × (s.t_cycle ≡ t.delay_on + t.delay_off) × (s.status ≡ state_blink)

  cached-Holds :
      (t : Delays) (s : LedState)
      → (s.t_on == t.delay_on && s.t_cycle == t.delay_on + t.delay_off && s.status == state_blink)
        ≡ true
      → Holds t s
  unfolding Holds
  cached-Holds t s e = ground arith

  Holds-Blinks :
      (t : Delays) (c : Cell World)
      → t.delay_on + t.delay_off < 65536
      → Holds t c.state
      → Blinks t (blink_reply bus c)
  unfolding Holds
  Holds-Blinks t c fits h = record {
    returns_ok = rw (h.2) refl;
    on_delay = h.0;
    off_delay = omega (arith, h);
    cached_on = h.0;
    cached_cycle = h.1;
    cached_status = h.2;
  }

  sent-outcome :
      (led_id : ℕ) (t : Delays) (c : Cell World) (result : Status × World)
      → t.delay_on + t.delay_off < 65536
      → (change_state_robust bus led_id 0x04
          ((t.delay_on + t.delay_off) / 256 % 256)
          ((t.delay_on + t.delay_off) % 256)
          (t.delay_on / 256 % 256)
          (t.delay_on % 256)
          c.world)
        ≡ result
      → let r = blink_reply bus (
          keep_if bus
            (λ s. record s {
              t_on = t.delay_on;
              t_cycle = t.delay_on + t.delay_off;
              status = state_blink;
            })
            c.state
            result) in
        Blinks t r ⊎ Kept led_id t c r
  unfolding Holds
  sent-outcome led_id t c (ok, w) fits e = inl (Holds-Blinks t _ fits (refl, refl, refl))
  sent-outcome led_id t c (err n, w) fits e = inr (record { error = n; not_sent = cc; same = refl })

  asked-outcome :
      (led_id : ℕ) (t : Delays) (c : Cell World)
      → t.delay_on + t.delay_off < 65536
      → let r =
          blink_reply bus
            (set_blink_or_breath bus led_id t.delay_on (t.delay_on + t.delay_off) true c) in
        Blinks t r ⊎ Kept led_id t c r
  unfolding set_blink_or_breath
  asked-outcome led_id t c fits =
      let cached =
        c.state.t_on == t.delay_on
        && c.state.t_cycle == t.delay_on + t.delay_off
        && c.state.status == state_blink in
      elim (Bool-cases cached) [
        | inl e ↦ rw e (inl (Holds-Blinks t c fits (cached-Holds t c.state e)))
        | inr e ↦ rw e (sent-outcome led_id t c _ fits refl)
      ]

  -- Whatever delays are asked for: each is replaced by 100 ms if it is shorter and by 32767 ms if it
  -- is longer, and is kept otherwise, and the sum of the two fits 16 bits; and either the cache holds
  -- them, 0 is returned and the reply names exactly them, or the command could not be sent and the
  -- cached state is as before.
  pub set_blink-outcome :
      (led_id : ℕ) (d : Delays) (c : Cell World)
      → let t = truncate_blink_delay_time d in
        let r = set_blink bus led_id d c in
        (IsClamped d.delay_on t.delay_on
          × IsClamped d.delay_off t.delay_off
          × (t.delay_on + t.delay_off < 65536))
        × (Blinks t r ⊎ Kept led_id t c r)
  unfolding set_blink truncate_blink_delay_time
  set_blink-outcome led_id d c =
      let t = truncate_blink_delay_time d in
      let clamped_on = truncate_delay-IsClamped d.delay_on in
      let clamped_off = truncate_delay-IsClamped d.delay_off in
      let on = IsClamped-bounds d.delay_on t.delay_on clamped_on in
      let off = IsClamped-bounds d.delay_off t.delay_off clamped_off in
      let fits : t.delay_on + t.delay_off < 65536 = omega (arith, on, off) in
      let on_cast : t.delay_on % 65536 ≡ t.delay_on = omega (arith, on) in
      let cycle_cast : (t.delay_on + t.delay_off) % 65536 ≡ t.delay_on + t.delay_off =
        omega arith in
      ((clamped_on, clamped_off, fits), rw (on_cast, cycle_cast) (asked-outcome led_id t c fits))
