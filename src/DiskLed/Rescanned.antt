-- ===== src/DiskLed/Rescanned.antt =====
-- A rescan shows exactly the devices that were found, and keeps the disk LEDs in step.
use ugreen_leds_controller.Prelude.{
  ℕ, zero, suc, ◌+◌, ◌%◌, ◌≤◌, ◌<◌, ◌≡◌, ◌≢◌, ◌⊎◌, inl, inr, refl, sym, ap, ap₂, subst, ◌∙◌, arith,
  Bool, true, false, ◌&&◌, List, [], ◌∷◌, length, ◌==◌, ==_iff, and_elim, if◌then◌else◌,
}
use ugreen_leds_controller.Types.{ugreen_disk_count}
use ugreen_leds_controller.Status.{Status, ok, err}
use ugreen_leds_controller.Env.{Env}
use ugreen_leds_controller.Config.{Config}
use ugreen_leds_controller.Config.Bounds.{InRange}
use ugreen_leds_controller.Controller.State.{Session}
use ugreen_leds_controller.Controller.Commands.{set_on}
use ugreen_leds_controller.Controller.Protocol.{Mcu, Shown}
use ugreen_leds_controller.Controller.Coherence.{IsCoherent}
use ugreen_leds_controller.Controller.Requests.{invalidate-IsCoherent}
use ugreen_leds_controller.Kernel.{Kernel}
use ugreen_leds_controller.DiskLed.Slots.{DiskSlot, set_steady, forget}
use ugreen_leds_controller.DiskLed.Blinking.{AreShown, AreShown-same, Local}
use ugreen_leds_controller.DiskLed.Discovery.{Formats}
use ugreen_leds_controller.DiskLed.Rescan.{
  Scanned, same_device, bool_equal, first_of, rescan_slot, rescan_slots,
}
use ugreen_leds_controller.DiskLed.Redrawn.{
  Rests, Redrawn, set_steady-Redrawn, set_on-Redrawn, either-Redrawn,
}

-- No slot is active.
abbrev pub AreIdle : List DiskSlot → Type 0
AreIdle [] = Unit {0}
AreIdle (d ∷ ds) = (d.active ≡ false) × AreIdle ds

-- The device of a slot, or its absence, is the one found.
abbrev pub IsSame : (old found : DiskSlot) → Type 0
IsSame old found = (old.present ≡ found.present) × (old.dev ≡ found.dev)

module _ (env : Env) (mcu : Mcu env) (kernel : Kernel env.World) (formats : Formats)
    (config : Config) (in_range : InRange config) where
  open env use {World}
  open mcu use {shown}

  -- A slot after the rescan, by what was found. With the same device, or still without one, the slot
  -- and its LED are as they were; else it is inactive, with its LED reset unless a setter failed.
  pub record Updated (slot : ℕ) (old found new : DiskSlot) (before w : World) (error : Status)
      : Type 0 where
    pub present : new.present ≡ found.present
    pub dev : new.dev ≡ found.dev
    pub kept_or_reset :
        (IsSame old found × (new ≡ old) × (shown w (2 + slot) ≡ shown before (2 + slot)))
        ⊎ ((¬ IsSame old found)
            × (new.active ≡ false)
            × (error ≡ ok → Rests env mcu config in_range slot new w))

  record Round (slot : ℕ) (old found : DiskSlot) (s : Session World)
      (r : DiskSlot × Status × Session World) : Type 0 where
    same_led : r.0.led_id ≡ 2 + slot
    local : Local env mcu config in_range (2 + slot) s r.2
    updated : Updated slot old found r.0 s.world r.2.world r.1
    untouched : r.0.active ≡ true → (r.0 ≡ old) × (r.2 ≡ s)

  bool_equal_lem : (a b : Bool) → bool_equal a b ≡ true → a ≡ b
  bool_equal_lem true b h = sym h
  bool_equal_lem false true h = absurd (cc)
  bool_equal_lem false false h = refl

  true_not_false : true ≡ false → ⊥
  true_not_false h = cc

  bool_equal_self : (a : Bool) → bool_equal a a ≡ true
  bool_equal_self true = refl
  bool_equal_self false = refl

  IsSame-same_device : (old new : DiskSlot) → IsSame old new → same_device old new ≡ true
  IsSame-same_device old new h =
      ap₂ (λ a n. bool_equal a new.present && n == new.dev) h.0 h.1
      ∙ ap₂ ◌&&◌ (bool_equal_self new.present) ((==_iff new.dev new.dev).1 refl)

  either-Round :
      (b : Bool) (slot : ℕ) (old found new : DiskSlot) (s : Session World)
      (r : Status × Session World)
      → (b ≡ true → IsSame old found)
      → (b ≡ false → ¬ IsSame old found)
      → old.led_id ≡ 2 + slot
      → new.led_id ≡ 2 + slot
      → (new.present ≡ found.present) × (new.dev ≡ found.dev) × (new.active ≡ false)
      → IsCoherent env mcu s
      → Redrawn env mcu config in_range slot new s r
      → Round slot old found s (if b then (old, ok, s) else (new, r.0, r.1))
  either-Round true slot old found new s r same differs old_id new_id is inv drawn = record {
    same_led = old_id;
    local = record { elsewhere = λ j ne. refl; coherent = inv };
    updated = record {
      present = (same refl).0;
      dev = (same refl).1;
      kept_or_reset = inl (same refl, refl, refl);
    };
    untouched = λ on. (refl, refl);
  }
  either-Round false slot old found new s r same differs old_id new_id is inv drawn = record {
    same_led = new_id;
    local = drawn.local;
    updated = record {
      present = is.0;
      dev = is.1;
      kept_or_reset = inr (differs refl, is.2, drawn.rests);
    };
    untouched = λ on. absurd (cc (is.2));
  }

  rescan_slot-Round :
      (slot : ℕ) (old found : DiskSlot) (s : Session World)
      → slot < ugreen_disk_count
      → old.led_id ≡ 2 + slot
      → found.active ≡ false
      → IsCoherent env mcu s
      → Round slot old found s (rescan_slot env kernel formats config slot old found s)
  unfolding rescan_slot
  rescan_slot-Round slot old found s lt old_id idle inv =
      let id : (2 + slot % 256) % 256 ≡ 2 + slot = omega arith in
      let new : DiskSlot = record found { led_id = (2 + slot % 256) % 256 } in
      let t = forget new.led_id s in
      let t_inv = invalidate-IsCoherent env mcu new.led_id s inv in
      let drawn =
        either-Redrawn env mcu config in_range new.present slot new t (set_steady env config new t)
          (set_on env new.led_id false t)
          (λ there. set_steady-Redrawn env mcu config in_range slot new t id lt there t_inv)
          (λ gone. set_on-Redrawn env mcu config in_range slot new t id lt gone t_inv) in
      either-Round (same_device old new) slot old found new s _
        (λ same.
          let both = and_elim (bool_equal old.present new.present) (old.dev == new.dev) same in
          (bool_equal_lem old.present new.present both.0, (==_iff old.dev new.dev).0 both.1))
        (λ other same. absurd (true_not_false (sym (IsSame-same_device old new same) ∙ other)))
        old_id id (refl, refl, idle) inv
        (record {
          local = record { elsewhere = drawn.local.elsewhere; coherent = drawn.local.coherent };
          rests = drawn.rests;
        })

  -- The first `left` slots are updated, the others are as they were.
  abbrev pub AreUpdated :
      (left slot : ℕ) → (olds founds news : List DiskSlot) → (before w : World) → Status → Type 0
  AreUpdated zero slot olds founds news before w error = news ≡ olds
  AreUpdated (suc left) slot [] founds news before w error = news ≡ []
  AreUpdated (suc left) slot (old ∷ olds) [] news before w error = news ≡ old ∷ olds
  AreUpdated (suc left) slot (old ∷ olds) (found ∷ founds) [] before w error = ⊥
  AreUpdated (suc left) slot (old ∷ olds) (found ∷ founds) (new ∷ news) before w error =
      Updated slot old found new before w error
      × AreUpdated left (suc slot) olds founds news before w error

  -- Only what the LEDs from `slot` on showed before matters.
  pub AreUpdated-before :
      (left slot : ℕ) (olds founds news : List DiskSlot) (b c w : World) (error : Status)
      → ((j : ℕ) → 2 + slot ≤ j → shown b j ≡ shown c j)
      → AreUpdated left slot olds founds news b w error
      → AreUpdated left slot olds founds news c w error
  AreUpdated-before zero slot olds founds news b c w error same h = h
  AreUpdated-before (suc left) slot [] founds news b c w error same h = h
  AreUpdated-before (suc left) slot (old ∷ olds) [] news b c w error same h = h
  AreUpdated-before (suc left) slot (old ∷ olds) (found ∷ founds) [] b c w error same h = h
  AreUpdated-before (suc left) slot (old ∷ olds) (found ∷ founds) (new ∷ news) b c w error same h =
      (
        record {
          present = h.0.present;
          dev = h.0.dev;
          kept_or_reset = elim h.0.kept_or_reset [
            | inl kept ↦ inl (kept.0, kept.1, kept.2 ∙ same (2 + slot) (omega arith))
            | inr reset ↦ inr reset
          ];
        },
        AreUpdated-before left (suc slot) olds founds news b c w error
            (λ j le. same j (omega arith)) h.1,
      )

  -- The slots from `slot` on after the loop; the LEDs before them are as they were.
  pub record Rescans (left slot : ℕ) (olds founds : List DiskSlot) (first : Status)
      (s : Session World) (r : Scanned World) : Type 0 where
    pub shows : AreShown env mcu config in_range (2 + slot) r.slots r.session.world
    pub coherent : IsCoherent env mcu r.session
    pub before : (j : ℕ) → j < 2 + slot → shown r.session.world j ≡ shown s.world j
    pub same_length : length r.slots ≡ length olds
    pub no_error : r.first_error ≡ ok → first ≡ ok
    pub updated : AreUpdated left slot olds founds r.slots s.world r.session.world r.first_error

  stop-Rescans :
      (left slot : ℕ) (olds founds : List DiskSlot) (first : Status) (s : Session World)
      → AreShown env mcu config in_range (2 + slot) olds s.world
      → IsCoherent env mcu s
      → AreUpdated left slot olds founds olds s.world s.world first
      → Rescans left slot olds founds first s
          (record { slots = olds; first_error = first; session = s })
  stop-Rescans left slot olds founds first s shows inv updated = record {
    shows = shows;
    coherent = inv;
    before = λ j lt. refl;
    same_length = refl;
    no_error = λ e. e;
    updated = updated;
  }

  first_of_ok : (a b : Status) → first_of a b ≡ ok → (a ≡ ok) × (b ≡ ok)
  first_of_ok ok b h = (refl, h)
  first_of_ok (err e) b h = absurd (cc)

  Updated-later :
      (slot : ℕ) (old found new : DiskSlot) (b v w : World) (error last : Status)
      → (last ≡ ok → error ≡ ok)
      → shown w (2 + slot) ≡ shown v (2 + slot)
      → Updated slot old found new b v error
      → Updated slot old found new b w last
  Updated-later slot old found new b v w error last worked same u = record {
    present = u.present;
    dev = u.dev;
    kept_or_reset = elim u.kept_or_reset [
      | inl kept ↦ inl (kept.0, kept.1, same ∙ kept.2)
      | inr reset ↦ inr (
        reset.0,
        reset.1,
        (λ e. (
          (λ on. same ∙ (reset.2 (worked e)).0 on),
          (λ off. ap (λ (x : Shown). x.light) same ∙ (reset.2 (worked e)).1 off),
        )),
      )
    ];
  }

  pub rescan_slots-Rescans :
      (left slot : ℕ) (olds founds : List DiskSlot) (first : Status) (s : Session World)
      → slot + length olds ≤ ugreen_disk_count
      → AreShown env mcu config in_range (2 + slot) olds s.world
      → AreIdle founds
      → IsCoherent env mcu s
      → Rescans left slot olds founds first s
          (rescan_slots env kernel formats config left slot olds founds first s)
  unfolding rescan_slots
  rescan_slots-Rescans zero slot olds founds first s fits h idle inv =
      stop-Rescans zero slot olds founds first s h inv refl
  rescan_slots-Rescans (suc left) slot [] founds first s fits h idle inv =
      stop-Rescans (suc left) slot [] founds first s h inv refl
  rescan_slots-Rescans (suc left) slot (old ∷ olds) [] first s fits h idle inv =
      stop-Rescans (suc left) slot (old ∷ olds) [] first s h inv refl
  rescan_slots-Rescans (suc left) slot (old ∷ olds) (found ∷ founds) first s fits h idle inv =
      let head = rescan_slot env kernel formats config slot old found s in
      let round = rescan_slot-Round slot old found s (omega arith) h.0 idle.0 inv in
      let away : (j : ℕ) → j ≢ 2 + slot → shown head.2.world j ≡ shown s.world j =
        round.local.elsewhere in
      let rest =
        rescan_slots-Rescans left (slot + 1) olds founds (first_of first head.1) head.2
          (omega arith)
          (AreShown-same env mcu config in_range (2 + (slot + 1)) olds s.world head.2.world
            (λ j le. away j (λ e. omega (arith, e, le)))
            (subst (λ n. AreShown env mcu config in_range n olds s.world) (omega arith) h.2))
          idle.1 round.local.coherent in
      let r =
        rescan_slots env kernel formats config left (slot + 1) olds founds (first_of first head.1)
          head.2 in
      record {
        shows = (
          round.same_led,
          (λ on.
              let kept = round.untouched on in
              ap (λ (t : Shown). t.light)
                (rest.before (2 + slot) (omega arith)
                  ∙ ap (λ (t : Session World). shown t.world (2 + slot)) kept.1)
              ∙ h.1 (ap (λ (d : DiskSlot). d.active) (sym kept.0) ∙ on)),
          subst (λ n. AreShown env mcu config in_range n r.slots r.session.world) (omega arith)
              rest.shows,
        );
        coherent = rest.coherent;
        before = λ j lt. rest.before j (omega arith) ∙ away j (λ e. omega (arith, e, lt));
        same_length = ap suc rest.same_length;
        no_error = λ e. (first_of_ok first head.1 (rest.no_error e)).0;
        updated = (
          Updated-later slot old found head.0 s.world head.2.world r.session.world head.1
              r.first_error (λ e. (first_of_ok first head.1 (rest.no_error e)).1)
              (rest.before (2 + slot) (omega arith)) round.updated,
          AreUpdated-before left (suc slot) olds founds r.slots head.2.world s.world r.session.world
              r.first_error (λ j le. away j (λ e. omega (arith, e, le)))
              (subst
                (λ n.
                  AreUpdated left n olds founds r.slots head.2.world r.session.world r.first_error)
                (omega arith) rest.updated),
        );
      }
