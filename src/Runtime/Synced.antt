-- ===== src/Runtime/Synced.antt =====
-- What `disk_leds_sync_bpf` leaves in the maps, and that it ends.
use ugreen_leds_controller.Prelude.{
  ℕ, zero, suc, ◌<◌, ◌≡◌, ◌≢◌, refl, sym, ap, ap₂, subst, ◌∙◌, arith, Bool, true, false, ◌&&◌, List,
  [], ◌∷◌, Option, none, some, ◌==◌, ==_iff, if◌then◌else◌, ℕ_discrete,
}
use ugreen_leds_controller.Status.{Status, ok, err}
use ugreen_leds_controller.Config.{codes}
use ugreen_leds_controller.DiskLed.Slots.{DiskSlot}
use ugreen_leds_controller.Runtime.{Libbpf, BpfRuntime, Element, led_number, next_emit_ns}
use ugreen_leds_controller.Runtime.Maps.{
  clear_map, map_named, then_clear, clear_disk_targets, or_take_back, then_target, set_in,
  set_disk_target, or_continue, set_targets, then_set, sync_bpf,
}
use ugreen_leds_controller.Runtime.Cleared.{MapLaws, Explained-ok, clear_loop-Cleared}

-- What the targets say of device `k`: the last of the first `left` slots that has it, or `before`.
pub target_of : (left : ℕ) → List DiskSlot → (k : ℕ) → Option Element → Option Element
target_of zero slots k before = before
target_of (suc left) [] k before = before
target_of (suc left) (slot ∷ slots) k before =
    target_of left slots k
      (if slot.present && k == slot.dev then some (led_number slot.led_id) else before)

module _ {W : Type 0} (bpf : Libbpf W) (laws : MapLaws bpf) (r : BpfRuntime) where
  open laws use {lookup, size}

  -- The object has the two maps.
  pub record HasMaps : Type 0 where
    pub targets : ℕ
    pub states : ℕ
    pub differ : targets ≢ states
    pub targets_found : (w : W) → map_named bpf r.object (codes "disk_targets") w ≡ some targets
    pub states_found : (w : W) → map_named bpf r.object (codes "disk_states") w ≡ some states

  module _ (maps : HasMaps) where
    open maps use {targets, states}

    take_back-ok :
        (dev : ℕ) (s : Status) (w : W)
        → (or_take_back bpf states dev (s, w)).0 ≡ ok
        → (s ≡ ok) × ((or_take_back bpf states dev (s, w)).1 ≡ w)
    take_back-ok dev ok w h = (refl, refl)
    take_back-ok dev (err e) w h = absurd (cc)

    abbrev with_target : (dev led_id k : ℕ) → Option Element → Option Element
    with_target dev led_id k before = if k == dev then some (led_number led_id) else before

    update-lookup :
        (dev led_id k : ℕ) (w : W)
        → (bpf.update_elem targets dev (led_number led_id) w).0 ≡ ok
        → lookup targets (bpf.update_elem targets dev (led_number led_id) w).1 k
          ≡ with_target dev led_id k (lookup targets w k)
    update-lookup dev led_id k w worked = elim (ℕ_discrete k dev) [
      | yes e ↦
          let same : (k == dev) ≡ true = (==_iff k dev).1 e in
          rw same (
            subst
              (λ j.
                lookup targets (bpf.update_elem targets dev (led_number led_id) w).1 j
                ≡ some (led_number led_id))
              (sym e) (laws.update_sets targets dev (led_number led_id) w worked))
      | no ne ↦
          let other : (k == dev) ≡ false = ground arith in
          rw other (laws.update_keeps targets dev k (led_number led_id) w ne)
    ]

    then_target-lookup :
        (dev led_id k : ℕ) (s : Status) (v w : W)
        → lookup targets w ≡ lookup targets v
        → (then_target bpf targets states dev led_id (s, w)).0 ≡ ok
        → lookup targets (then_target bpf targets states dev led_id (s, w)).1 k
          ≡ with_target dev led_id k (lookup targets v k)
    then_target-lookup dev led_id k (err e) v w same h = absurd (cc)
    then_target-lookup dev led_id k ok v w same h =
        let call = bpf.update_elem targets dev (led_number led_id) w in
        let worked = take_back-ok dev call.0 call.1 h in
        ap (λ x. lookup targets x k) worked.1
        ∙ update-lookup dev led_id k w worked.0
        ∙ ap (λ (f : ℕ → Option Element). with_target dev led_id k (f k)) same

    set_disk_target-lookup :
        (dev led_id k : ℕ) (w : W)
        → (set_disk_target bpf r dev led_id w).0 ≡ ok
        → lookup targets (set_disk_target bpf r dev led_id w).1 k
          ≡ with_target dev led_id k (lookup targets w k)
    unfolding set_disk_target
    set_disk_target-lookup dev led_id k w h =
        let call = bpf.update_elem states dev (next_emit_ns 0) w in
        let found =
          ap₂ (λ a b. set_in bpf a b dev led_id w) (maps.targets_found w) (maps.states_found w) in
        subst (λ x. x.0 ≡ ok → lookup targets x.1 k ≡ with_target dev led_id k (lookup targets w k))
          (sym found)
          (then_target-lookup dev led_id k call.0 w call.1
            (laws.update_elsewhere states dev targets (next_emit_ns 0) w maps.differ))
          h

    slot-lookup :
        (b : Bool) (dev led_id k : ℕ) (w : W)
        → (if b then set_disk_target bpf r dev led_id w else (ok, w)).0 ≡ ok
        → lookup targets (if b then set_disk_target bpf r dev led_id w else (ok, w)).1 k
          ≡ (if b && k == dev then some (led_number led_id) else lookup targets w k)
    slot-lookup true dev led_id k w h = set_disk_target-lookup dev led_id k w h
    slot-lookup false dev led_id k w h = refl

    or_continue-lookup :
        (left : ℕ) (slots : List DiskSlot) (k : ℕ) (first : Status × W)
        → ((w : W)
            → (set_targets bpf r left slots w).0 ≡ ok
            → lookup targets (set_targets bpf r left slots w).1 k
              ≡ target_of left slots k (lookup targets w k))
        → (or_continue bpf (set_targets bpf r left slots) first).0 ≡ ok
        → (first.0 ≡ ok)
          × (lookup targets (or_continue bpf (set_targets bpf r left slots) first).1 k
              ≡ target_of left slots k (lookup targets first.1 k))
    or_continue-lookup left slots k (ok, w) rest h = (refl, rest w h)
    or_continue-lookup left slots k (err e, w) rest h = absurd (cc)

    set_targets-lookup :
        (left : ℕ) (slots : List DiskSlot) (k : ℕ) (w : W)
        → (set_targets bpf r left slots w).0 ≡ ok
        → lookup targets (set_targets bpf r left slots w).1 k
          ≡ target_of left slots k (lookup targets w k)
    unfolding set_targets target_of
    set_targets-lookup zero slots k w h = refl
    set_targets-lookup (suc left) [] k w h = refl
    set_targets-lookup (suc left) (slot ∷ slots) k w h =
        let first =
          if slot.present then set_disk_target bpf r slot.dev slot.led_id w else (ok, w) in
        let done =
          or_continue-lookup left slots k first (λ v. set_targets-lookup left slots k v) h in
        done.1
        ∙ ap (target_of left slots k) (slot-lookup slot.present slot.dev slot.led_id k w done.0)

    -- The result of a synchronisation: it ends, and with 0 the targets are those of the slots.
    pub record Synced (slot_count : ℕ) (slots : List DiskSlot) (result : Option (Status × W))
        : Type 0 where
      pub status : Status
      pub after : W
      pub returns : result ≡ some (status, after)
      pub targets_are :
          status ≡ ok → (k : ℕ) → lookup targets after k ≡ target_of slot_count slots k none

    continue-Synced :
        (slot_count : ℕ) (slots : List DiskSlot) (s : Status) (w : W)
        → (s ≡ ok → (k : ℕ) → lookup targets w k ≡ none)
        → Synced slot_count slots (then_set bpf r slot_count slots (some (s, w)))
    continue-Synced slot_count slots ok w empty = record {
      status = (set_targets bpf r slot_count slots w).0;
      after = (set_targets bpf r slot_count slots w).1;
      returns = refl;
      targets_are = λ h k.
          set_targets-lookup slot_count slots k w h
          ∙ ap (target_of slot_count slots k) (empty refl k);
    }
    continue-Synced slot_count slots (err e) w empty = record {
      status = err e;
      after = w;
      returns = refl;
      targets_are = λ h. absurd (cc);
    }

    then_states :
        (fuel slot_count : ℕ) (slots : List DiskSlot) (s : Status) (w : W)
        → (s ≡ ok → (k : ℕ) → lookup targets w k ≡ none)
        → size states w < fuel
        → Synced slot_count slots (
            then_set bpf r slot_count slots (
              then_clear bpf
                (λ v. clear_map bpf fuel (map_named bpf r.object (codes "disk_states") v) v)
                (some (s, w))))
    then_states fuel slot_count slots (err e) w empty enough =
        continue-Synced slot_count slots (err e) w empty
    then_states fuel slot_count slots ok w empty enough =
        let cleared = clear_loop-Cleared bpf laws fuel states w enough in
        let kept = (cleared.elsewhere targets maps.differ).0 in
        rw (maps.states_found w, cleared.returns)
          (continue-Synced slot_count slots cleared.status cleared.after
            (λ done k. ap (λ (f : ℕ → Option Element). f k) kept ∙ empty refl k))

    -- With more rounds than the two maps have entries, `disk_leds_sync_bpf` ends; and if it returns
    -- 0, the map of targets sends each device of a present slot to that slot's LED, and has no
    -- other entry.
    pub sync_bpf-Synced :
        (fuel slot_count : ℕ) (slots : List DiskSlot) (w : W)
        → size targets w < fuel
        → size states w < fuel
        → Synced slot_count slots (sync_bpf bpf fuel r slot_count slots w)
    unfolding sync_bpf clear_disk_targets
    sync_bpf-Synced fuel slot_count slots w enough_targets enough_states =
        let cleared = clear_loop-Cleared bpf laws fuel targets w enough_targets in
        let same = (cleared.elsewhere states (λ e. maps.differ (sym e))).1 in
        rw (maps.targets_found w, cleared.returns)
          (then_states fuel slot_count slots cleared.status cleared.after
            (Explained-ok bpf laws targets cleared.status cleared.after cleared.explained)
            (omega (arith, same, enough_states)))
