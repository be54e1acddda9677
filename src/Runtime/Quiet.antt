-- ===== src/Runtime/Quiet.antt =====
-- What the calls on the maps keep, `disk_leds_sync_bpf` keeps.
use ugreen_leds_controller.Prelude.{
  ℕ, zero, suc, Bool, true, false, not, ◌==◌, if◌then◌else◌, List, [], ◌∷◌, Option, none, some,
}
use ugreen_leds_controller.Status.{Status, ok, err, enoent}
use ugreen_leds_controller.Config.{codes}
use ugreen_leds_controller.DiskLed.Slots.{DiskSlot}
use ugreen_leds_controller.Runtime.{Libbpf, BpfRuntime, Element, led_number, next_emit_ns}
use ugreen_leds_controller.Runtime.Maps.{
  deleted, with_key, clear_loop, clear_map, map_named, then_clear, clear_disk_targets, or_take_back,
  then_target, set_in, set_disk_target, or_continue, set_targets, then_set, sync_bpf,
}

pub record OnMaps {W : Type 0} (bpf : Libbpf W) (P : W → Type 0) : Type 0 where
  pub first_key : (fd : ℕ) (w : W) → P w → P (bpf.first_key fd w).1
  pub delete_elem : (fd key : ℕ) (w : W) → P w → P (bpf.delete_elem fd key w).1
  pub update_elem : (fd key : ℕ) (e : Element) (w : W) → P w → P (bpf.update_elem fd key e w).1

module _ {W : Type 0} (bpf : Libbpf W) (P : W → Type 0) (on_maps : OnMaps bpf P) where
  -- `P` of the world of a result, if there is one.
  abbrev pub Ends : Option (Status × W) → Type 0
  Ends none = Unit {0}
  Ends (some r) = P r.1

  either-Ends : (b : Bool) (x y : Option (Status × W)) → Ends x → Ends y → Ends (if b then x else y)
  either-Ends true x y h k = h
  either-Ends false x y h k = k

  deleted-Ends :
      (rest : W → Option (Status × W)) (r : Status × W)
      → P r.1
      → ((w : W) → P w → Ends (rest w))
      → Ends (deleted bpf rest r)
  deleted-Ends rest (ok, w) h next = next w h
  deleted-Ends rest (err e, w) h next =
      either-Ends (not (e == enoent)) (some (err e, w)) (rest w) h (next w h)

  with_key-Ends :
      (rest : W → Option (Status × W)) (fd : ℕ) (key : Option ℕ) (w : W)
      → P w
      → ((w : W) → P w → Ends (rest w))
      → Ends (with_key bpf rest fd (key, w))
  with_key-Ends rest fd none w h next = h
  with_key-Ends rest fd (some k) w h next =
      deleted-Ends rest (bpf.delete_elem fd k w) (on_maps.delete_elem fd k w h) next

  clear_loop-Ends : (fuel fd : ℕ) (w : W) → P w → Ends (clear_loop bpf fuel fd w)
  unfolding clear_loop
  clear_loop-Ends zero fd w h = tt
  clear_loop-Ends (suc fuel) fd w h =
      let first = bpf.first_key fd w in
      with_key-Ends (clear_loop bpf fuel fd) fd first.0 first.1 (on_maps.first_key fd w h)
        (clear_loop-Ends fuel fd)

  clear_map-Ends : (fuel : ℕ) (fd : Option ℕ) (w : W) → P w → Ends (clear_map bpf fuel fd w)
  clear_map-Ends fuel none w h = h
  clear_map-Ends fuel (some fd) w h = clear_loop-Ends fuel fd w h

  then_clear-Ends :
      (next : W → Option (Status × W)) (r : Option (Status × W))
      → Ends r
      → ((w : W) → P w → Ends (next w))
      → Ends (then_clear bpf next r)
  then_clear-Ends next none h k = tt
  then_clear-Ends next (some (ok, w)) h k = k w h
  then_clear-Ends next (some (err e, w)) h k = h

  or_take_back-keeps :
      (states dev : ℕ) (r : Status × W) → P r.1 → P (or_take_back bpf states dev r).1
  or_take_back-keeps states dev (ok, w) h = h
  or_take_back-keeps states dev (err e, w) h = on_maps.delete_elem states dev w h

  then_target-keeps :
      (targets states dev led_id : ℕ) (r : Status × W)
      → P r.1
      → P (then_target bpf targets states dev led_id r).1
  then_target-keeps targets states dev led_id (ok, w) h =
      or_take_back-keeps states dev (bpf.update_elem targets dev (led_number led_id) w)
        (on_maps.update_elem targets dev (led_number led_id) w h)
  then_target-keeps targets states dev led_id (err e, w) h = h

  set_in-keeps :
      (targets states : Option ℕ) (dev led_id : ℕ) (w : W)
      → P w
      → P (set_in bpf targets states dev led_id w).1
  set_in-keeps none states dev led_id w h = h
  set_in-keeps (some targets) none dev led_id w h = h
  set_in-keeps (some targets) (some states) dev led_id w h =
      then_target-keeps targets states dev led_id (bpf.update_elem states dev (next_emit_ns 0) w)
        (on_maps.update_elem states dev (next_emit_ns 0) w h)

  or_continue-keeps :
      (rest : W → Status × W) (r : Status × W)
      → P r.1
      → ((w : W) → P w → P (rest w).1)
      → P (or_continue bpf rest r).1
  or_continue-keeps rest (ok, w) h next = next w h
  or_continue-keeps rest (err e, w) h next = h

  slot-keeps :
      (b : Bool) (r : BpfRuntime) (dev led_id : ℕ) (w : W)
      → P w
      → P (if b then set_disk_target bpf r dev led_id w else (ok, w)).1
  unfolding set_disk_target
  slot-keeps true r dev led_id w h =
      set_in-keeps (map_named bpf r.object (codes "disk_targets") w)
        (map_named bpf r.object (codes "disk_states") w) dev led_id w h
  slot-keeps false r dev led_id w h = h

  set_targets-keeps :
      (r : BpfRuntime) (left : ℕ) (slots : List DiskSlot) (w : W)
      → P w
      → P (set_targets bpf r left slots w).1
  unfolding set_targets
  set_targets-keeps r zero slots w h = h
  set_targets-keeps r (suc left) [] w h = h
  set_targets-keeps r (suc left) (slot ∷ slots) w h =
      or_continue-keeps (set_targets bpf r left slots) _
        (slot-keeps slot.present r slot.dev slot.led_id w h) (set_targets-keeps r left slots)

  then_set-Ends :
      (r : BpfRuntime) (slot_count : ℕ) (slots : List DiskSlot) (cleared : Option (Status × W))
      → Ends cleared
      → Ends (then_set bpf r slot_count slots cleared)
  then_set-Ends r slot_count slots none h = tt
  then_set-Ends r slot_count slots (some c) h =
      or_continue-keeps (set_targets bpf r slot_count slots) c h
        (set_targets-keeps r slot_count slots)

  pub sync_bpf-Ends :
      (fuel : ℕ) (r : BpfRuntime) (slot_count : ℕ) (slots : List DiskSlot) (w : W)
      → P w
      → Ends (sync_bpf bpf fuel r slot_count slots w)
  unfolding sync_bpf clear_disk_targets
  sync_bpf-Ends fuel r slot_count slots w h = then_set-Ends r slot_count slots _ (
      then_clear-Ends _ (clear_map bpf fuel (map_named bpf r.object (codes "disk_targets") w) w)
        (clear_map-Ends fuel (map_named bpf r.object (codes "disk_targets") w) w h)
        (λ v k. clear_map-Ends fuel (map_named bpf r.object (codes "disk_states") v) v k))
