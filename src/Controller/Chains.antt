-- ===== src/Controller/Chains.antt =====
-- Setters of one LED in a row, each run only if the one before returned 0.
use ugreen_leds_controller.Prelude.{ℕ, ◌≡◌, ◌≢◌, ap, ◌∙◌, inl, inr, refl, some, subst, sym}
use ugreen_leds_controller.Status.{Status, ok, err, Op, and_then, ◌>>◌}
use ugreen_leds_controller.Env.{Env}
use ugreen_leds_controller.Controller.State.{Session, cache_at}
use ugreen_leds_controller.Controller.Protocol.{Mcu, Shown, Command, execute}
use ugreen_leds_controller.Controller.Coherence.{IsCoherent, Sets, Agrees}

-- A call that changes no LED.
pub quiet-IsCoherent :
    (env : Env) (mcu : Mcu env) (s : Session env.World) (w : env.World)
    → ((i : ℕ) → mcu.shown w i ≡ mcu.shown s.world i)
    → IsCoherent env mcu s
    → IsCoherent env mcu (record s { world = w })
quiet-IsCoherent env mcu s w same inv = record {
  entries = inv.entries;
  agrees = λ i lt. subst (Agrees (cache_at s.controller i)) (sym (same i)) (inv.agrees i lt);
}

module _ (env : Env) (mcu : Mcu env) (led_id : ℕ) where
  open env use {World}
  open mcu use {shown}

  -- If the result is 0 the LED shows `want` of what it showed. In any case the other LEDs are as
  -- they were, and the cache agrees with all.
  pub record Shows (want : Shown → Shown) (s : Session World) (result : Status × Session World)
      : Type 0 where
    pub done : result.0 ≡ ok → shown result.1.world led_id ≡ want (shown s.world led_id)
    pub elsewhere : (i : ℕ) → i ≢ led_id → shown result.1.world i ≡ shown s.world i
    pub coherent : IsCoherent env mcu result.1

  pub Sets-Shows :
      (c : Command) (s : Session World) (result : Status × Session World)
      → Sets env mcu led_id c s result
      → Shows (execute (some c)) s result
  Sets-Shows c s result (inl served) = record {
    done = λ h. served.shows;
    elsewhere = served.elsewhere;
    coherent = served.coherent;
  }
  Sets-Shows c s result (inr dropped) = record {
    done = λ h. cc (dropped.returns_error);
    elsewhere = dropped.elsewhere;
    coherent = dropped.coherent;
  }

  and_then-Shows :
      (f g : Shown → Shown) (s : Session World) (first : Status × Session World)
      (k : Op (Session World))
      → Shows f s first
      → ((t : Session World) → IsCoherent env mcu t → Shows g t (k t))
      → Shows (λ x. g (f x)) s (and_then first k)
  and_then-Shows f g s (ok, t) k h next = record {
    done = λ e. (next t h.coherent).done e ∙ ap g (h.done refl);
    elsewhere = λ i ne. (next t h.coherent).elsewhere i ne ∙ h.elsewhere i ne;
    coherent = (next t h.coherent).coherent;
  }
  and_then-Shows f g s (err e, t) k h next = record {
    done = λ x. cc;
    elsewhere = h.elsewhere;
    coherent = h.coherent;
  }

  pub >>-Shows :
      (f g : Shown → Shown) (m k : Op (Session World)) (s : Session World)
      → Shows f s (m s)
      → ((t : Session World) → IsCoherent env mcu t → Shows g t (k t))
      → Shows (λ x. g (f x)) s ((m >> k) s)
  >>-Shows f g m k s h next = and_then-Shows f g s (m s) k h next
