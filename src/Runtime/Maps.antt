-- ===== src/Runtime/Maps.antt =====
-- The maps that tell the disk program which devices to report: `clear_map`,
-- `bpf_runtime_clear_disk_targets` and `bpf_runtime_set_disk_target` of ebpf/src/bpf_runtime.c, and
-- `disk_leds_sync_bpf` of ebpf/src/disk_led.c.
use ugreen_leds_controller.Prelude.{
  ℕ, zero, suc, not, List, [], ◌∷◌, Option, none, some, ◌==◌, if◌then◌else◌,
}
use ugreen_leds_controller.Status.{Status, ok, err, enoent}
use ugreen_leds_controller.Config.{codes}
use ugreen_leds_controller.DiskLed.Slots.{DiskSlot}
use ugreen_leds_controller.Runtime.{Libbpf, BpfRuntime, led_number, next_emit_ns}

module _ {W : Type 0} (bpf : Libbpf W) where
  -- A deletion that finds no entry is no error.
  abbrev pub deleted : (W → Option (Status × W)) → Status × W → Option (Status × W)
  deleted rest (ok, w) = rest w
  deleted rest (err e, w) = if not (e == enoent) then some (err e, w) else rest w

  abbrev pub with_key : (W → Option (Status × W)) → ℕ → Option ℕ × W → Option (Status × W)
  with_key rest fd (none, w) = some (ok, w)
  with_key rest fd (some key, w) = deleted rest (bpf.delete_elem fd key w)

  -- The loop of `clear_map`, for `fuel` rounds at most; `none` is a loop that still runs.
  unfoldable pub clear_loop : (fuel fd : ℕ) → W → Option (Status × W)
  clear_loop zero fd w = none
  clear_loop (suc fuel) fd w = with_key (clear_loop fuel fd) fd (bpf.first_key fd w)

  abbrev pub clear_map : (fuel : ℕ) → Option ℕ → W → Option (Status × W)
  clear_map fuel none w = some (err enoent, w)
  clear_map fuel (some fd) w = clear_loop fuel fd w

  -- The maps of the runtime's object.
  abbrev pub map_named : Option ℕ → List ℕ → W → Option ℕ
  map_named none name w = none
  map_named (some object) name w = bpf.find_map object name w

  abbrev pub then_clear : (W → Option (Status × W)) → Option (Status × W) → Option (Status × W)
  then_clear next none = none
  then_clear next (some (ok, w)) = next w
  then_clear next (some (err e, w)) = some (err e, w)

  unfoldable pub clear_disk_targets : (fuel : ℕ) → BpfRuntime → W → Option (Status × W)
  unfolding clear_loop
  clear_disk_targets fuel r w =
      then_clear (λ v. clear_map fuel (map_named r.object (codes "disk_states") v) v)
        (clear_map fuel (map_named r.object (codes "disk_targets") w) w)

  -- After the update of the targets: a failure takes the new state back.
  abbrev pub or_take_back : (states dev : ℕ) → Status × W → Status × W
  or_take_back states dev (ok, w) = (ok, w)
  or_take_back states dev (err e, w) = (err e, (bpf.delete_elem states dev w).1)

  abbrev pub then_target : (targets states dev led_id : ℕ) → Status × W → Status × W
  then_target targets states dev led_id (ok, w) =
      or_take_back states dev (bpf.update_elem targets dev (led_number led_id) w)
  then_target targets states dev led_id (err e, w) = (err e, w)

  abbrev pub set_in : Option ℕ → Option ℕ → (dev led_id : ℕ) → W → Status × W
  set_in none states dev led_id w = (err enoent, w)
  set_in (some targets) none dev led_id w = (err enoent, w)
  set_in (some targets) (some states) dev led_id w =
      then_target targets states dev led_id (bpf.update_elem states dev (next_emit_ns 0) w)

  unfoldable pub set_disk_target : BpfRuntime → (dev led_id : ℕ) → W → Status × W
  set_disk_target r dev led_id w =
      set_in (map_named r.object (codes "disk_targets") w)
        (map_named r.object (codes "disk_states") w) dev led_id w

  abbrev pub or_continue : (W → Status × W) → Status × W → Status × W
  or_continue rest (ok, w) = rest w
  or_continue rest (err e, w) = (err e, w)

  -- The loop of `disk_leds_sync_bpf` over the first `left` slots.
  unfoldable pub set_targets : BpfRuntime → (left : ℕ) → List DiskSlot → W → Status × W
  unfolding set_disk_target
  set_targets r zero slots w = (ok, w)
  set_targets r (suc left) [] w = (ok, w)
  set_targets r (suc left) (slot ∷ slots) w =
      or_continue (set_targets r left slots)
        (if slot.present then set_disk_target r slot.dev slot.led_id w else (ok, w))

  abbrev pub then_set :
      BpfRuntime → (slot_count : ℕ) → List DiskSlot → Option (Status × W) → Option (Status × W)
  then_set r slot_count slots none = none
  then_set r slot_count slots (some cleared) =
      some (or_continue (set_targets r slot_count slots) cleared)

  unfoldable pub sync_bpf :
      (fuel : ℕ) → BpfRuntime → (slot_count : ℕ) → List DiskSlot → W → Option (Status × W)
  unfolding clear_disk_targets set_targets
  sync_bpf fuel r slot_count slots w = then_set r slot_count slots (clear_disk_targets fuel r w)
