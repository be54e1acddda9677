-- ===== src/Controller/Coherence.antt =====
-- The cache agrees with the LEDs: what it takes for valid is what the MCU shows.
use ugreen_leds_controller.Prelude.{
  ℕ, ◌+◌, ◌<◌, ◌≡◌, ◌≢◌, ◌⊎◌, refl, ap, sym, Bool, false, if◌then◌else◌, subst, subst₂, ◌∙◌, some,
  ℕ_discrete, inl, inr, true, arith, length-set, get_or-set_self, get_or-set_ne, length,
}
use ugreen_leds_controller.Types.{ugreen_led_count}
use ugreen_leds_controller.Status.{Status, ok, err}
use ugreen_leds_controller.Env.{Env}
use ugreen_leds_controller.Controller.State.{
  LedMode, unknown, off, on, blink, breath, LedCache, Controller, Session, cache_at, set_cache,
  zero_cache, invalidate, HasEntries,
}
use ugreen_leds_controller.Controller.Transfer.{change_status}
use ugreen_leds_controller.Controller.Commands.{record_success}
use ugreen_leds_controller.Controller.Protocol.{
  Light, dark, steady, blinking, breathing, Mcu, Shown, Command, execute, command_of,
}
use ugreen_leds_controller.Controller.Frame.{AreBytes}
use ugreen_leds_controller.Controller.Outcome.{Written, Lost, transfer_outcome}

abbrev pub LightAgrees : LedMode → ℕ → ℕ → Light → Type 0
LightAgrees unknown on_ms off_ms l = Unit {0}
LightAgrees off on_ms off_ms l = l ≡ dark
LightAgrees on on_ms off_ms l = l ≡ steady
LightAgrees blink on_ms off_ms l = l ≡ blinking (on_ms + off_ms) on_ms
LightAgrees breath on_ms off_ms l = l ≡ breathing (on_ms + off_ms) on_ms

pub record Agrees (c : LedCache) (s : Shown) : Type 0 where
  pub color : c.color_valid ≡ true → s.color ≡ c.color
  pub brightness : c.brightness_valid ≡ true → s.brightness ≡ c.brightness
  pub light : LightAgrees c.mode c.on_ms c.off_ms s.light

pub zero_cache-Agrees : (s : Shown) → Agrees zero_cache s
zero_cache-Agrees s = record { color = λ h. cc; brightness = λ h. cc; light = tt }

pub cache_at-set_self :
    (c : Controller) (i : ℕ) (v : LedCache)
    → HasEntries c
    → i < ugreen_led_count
    → cache_at (set_cache c i v) i ≡ v
cache_at-set_self c i v h lt = get_or-set_self c.cache i v zero_cache (omega arith)

pub cache_at-set_ne :
    (c : Controller) (i j : ℕ) (v : LedCache) → i ≢ j → cache_at (set_cache c i v) j ≡ cache_at c j
cache_at-set_ne c i j v ne = get_or-set_ne c.cache i j v zero_cache ne

pub invalidate_lem :
    (c : Controller) (i : ℕ) → i < ugreen_led_count → invalidate c i ≡ set_cache c i zero_cache
unfolding invalidate
invalidate_lem c i lt = ground arith

module _ (env : Env) (mcu : Mcu env) where
  open env use {World}
  open mcu use {shown}

  -- The invariant of the controller between two calls.
  pub record IsCoherent (s : Session World) : Type 0 where
    pub entries : HasEntries s.controller
    pub agrees : (i : ℕ) → i < ugreen_led_count → Agrees (cache_at s.controller i) (shown s.world i)

  -- One entry is written, together with what its LED shows; nothing else changes.
  pub write-IsCoherent :
      (s t : Session World) (led_id : ℕ) (v : LedCache)
      → led_id < ugreen_led_count
      → IsCoherent s
      → t.controller ≡ set_cache s.controller led_id v
      → ((i : ℕ) → i ≢ led_id → shown t.world i ≡ shown s.world i)
      → Agrees v (shown t.world led_id)
      → IsCoherent t
  write-IsCoherent s t led_id v in_range inv written elsewhere agree = record {
    entries =
        ap (λ (c : Controller). length c.cache) written
        ∙ length-set s.controller.cache led_id v
        ∙ inv.entries;
    agrees = λ i lt. elim (ℕ_discrete i led_id) [
      | yes e ↦
          subst (λ k. Agrees (cache_at t.controller k) (shown t.world k)) (sym e)
            (subst (λ c. Agrees c (shown t.world led_id)) (sym here) agree)
      | no ne ↦ subst₂ Agrees (sym (there i ne)) (sym (elsewhere i ne)) (inv.agrees i lt)
    ];
  }
    where
      here : cache_at t.controller led_id ≡ v
      here =
          ap (λ c. cache_at c led_id) written
          ∙ cache_at-set_self s.controller led_id v inv.entries in_range

      there : (i : ℕ) → i ≢ led_id → cache_at t.controller i ≡ cache_at s.controller i
      there i ne =
          ap (λ c. cache_at c i) written ∙ cache_at-set_ne s.controller led_id i v (λ e. ne (sym e))

  -- A setter that worked: the LED shows what was asked, and no other LED changed.
  pub record Served (led_id : ℕ) (command : Command) (s : Session World)
      (result : Status × Session World) : Type 0 where
    pub returns_ok : result.0 ≡ ok
    pub shows : shown result.1.world led_id ≡ execute (some command) (shown s.world led_id)
    pub elsewhere : (i : ℕ) → i ≢ led_id → shown result.1.world i ≡ shown s.world i
    pub coherent : IsCoherent result.1

  -- A setter that failed on the bus: it returns an error and takes nothing about the LED for valid.
  pub record Dropped (led_id : ℕ) (s : Session World) (result : Status × Session World)
      : Type 0 where
    pub error : ℕ
    pub returns_error : result.0 ≡ err error
    pub forgets : cache_at result.1.controller led_id ≡ zero_cache
    pub elsewhere : (i : ℕ) → i ≢ led_id → shown result.1.world i ≡ shown s.world i
    pub coherent : IsCoherent result.1

  abbrev pub Sets : ℕ → Command → Session World → Status × Session World → Type 0
  Sets led_id command s result = Served led_id command s result ⊎ Dropped led_id s result

  -- The cached value makes the transfer needless.
  pub skip-Sets :
      (led_id : ℕ) (command : Command) (s : Session World)
      → IsCoherent s
      → execute (some command) (shown s.world led_id) ≡ shown s.world led_id
      → Sets led_id command s (ok, s)
  skip-Sets led_id command s inv same =
      inl (record { returns_ok = refl; shows = sym same; elsewhere = λ i ne. refl; coherent = inv })

  module _ (led_id kind p0 p1 p2 p3 : ℕ) (change : LedCache → LedCache) (command : Command)
      (in_range : led_id < ugreen_led_count) (bytes : AreBytes kind p0 p1 p2 p3)
      (means : command_of kind p0 p1 p2 p3 ≡ some command)
      (sound : (c : LedCache) (t : Shown)
        → Agrees c t
        → Agrees (change c) (execute (some command) t)) where
    Written-Served :
        (s : Session World) (result : Status × Session World)
        → IsCoherent s
        → Written env mcu led_id kind p0 p1 p2 p3 change s result
        → Served led_id command s result
    Written-Served s result inv w = record {
      returns_ok = w.returns_ok;
      shows = shows;
      elsewhere = w.elsewhere;
      coherent =
          write-IsCoherent s result.1 led_id (change (cache_at s.controller led_id)) in_range inv
            w.caches w.elsewhere
            (subst (Agrees (change (cache_at s.controller led_id))) (sym shows)
              (sound _ _ (inv.agrees led_id in_range)));
    }
      where
        shows : shown result.1.world led_id ≡ execute (some command) (shown s.world led_id)
        shows = w.shows ∙ ap (λ c. execute c (shown s.world led_id)) means

    Lost-Dropped :
        (s : Session World) (result : Status × Session World)
        → IsCoherent s
        → Lost env mcu led_id kind p0 p1 p2 p3 change s result
        → Dropped led_id s result
    Lost-Dropped s result inv l = record {
      error = l.error;
      returns_error = l.returns_error;
      forgets =
          ap (λ c. cache_at c led_id) drops
          ∙ cache_at-set_self s.controller led_id zero_cache inv.entries in_range;
      elsewhere = l.elsewhere;
      coherent =
          write-IsCoherent s result.1 led_id zero_cache in_range inv drops l.elsewhere
            (zero_cache-Agrees (shown result.1.world led_id));
    }
      where
        drops : result.1.controller ≡ set_cache s.controller led_id zero_cache
        drops = l.drops ∙ invalidate_lem s.controller led_id in_range

    -- A setter that sends its command.
    pub transfer-Sets :
        (s : Session World)
        → IsCoherent s
        → Sets led_id command s
            (record_success led_id change (change_status env led_id kind p0 p1 p2 p3 s))
    transfer-Sets s inv =
        elim (transfer_outcome env mcu led_id kind p0 p1 p2 p3 change s in_range bytes) [
          | inl w ↦ inl (Written-Served s _ inv w)
          | inr l ↦ inr (Lost-Dropped s _ inv l)
        ]

    -- A setter: nothing is sent if `cached` says that the entry already holds the value.
    pub setter-Sets :
        (cached : Bool) (s : Session World)
        → IsCoherent s
        → (cached ≡ true → execute (some command) (shown s.world led_id) ≡ shown s.world led_id)
        → Sets led_id command s (
            if cached
            then (ok, s)
            else record_success led_id change (change_status env led_id kind p0 p1 p2 p3 s))
    setter-Sets true s inv same = skip-Sets led_id command s inv (same refl)
    setter-Sets false s inv same = transfer-Sets s inv
