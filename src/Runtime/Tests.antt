-- ===== src/Runtime/Tests.antt =====
-- A start that fails at the ring buffer, a synchronisation over old entries, and the theorems on them.
use ugreen_leds_controller.Prelude.{ℕ, ◌≡◌, refl, arith, true, List, [], ◌∷◌, some, suc, zero}
use ugreen_leds_controller.Status.{ok, err}
use ugreen_leds_controller.Config.{Config, set_defaults, codes}
use ugreen_leds_controller.Kernel.Ledger.{descriptor}
use ugreen_leds_controller.DiskLed.Slots.{DiskSlot, no_slot}
use ugreen_leds_controller.Runtime.{
  BpfRuntime, zero_runtime, led_number, next_emit_ns, bpf_runtime_start,
}
use ugreen_leds_controller.Runtime.Maps.{clear_loop, sync_bpf}
use ugreen_leds_controller.Runtime.Cleared.{Cleared, clear_loop-Cleared}
use ugreen_leds_controller.Runtime.Synced.{HasMaps, Synced, sync_bpf-Synced}
use ugreen_leds_controller.Runtime.Started.{StartOutcome, bpf_runtime_start-outcome}
use ugreen_leds_controller.Sim.Desk.{desk_bpf, desk_bpf_ledger, changed}
use ugreen_leds_controller.Sim.Maps.{with_map, erase, map_bpf, map_laws, MapWorld, Entries}

abbrev config : Config
config = record set_defaults { network_enabled = true; interface = codes "eth0" }

start_fails :
    bpf_runtime_start (desk_bpf changed) config (descriptor 3 ∷ [])
    ≡ (err 12, record { runtime = zero_runtime; world = descriptor 3 ∷ [] })
unfolding bpf_runtime_start set_defaults
start_fails = refl

bpf_runtime_start-outcome_example :
    StartOutcome
      (desk_bpf changed)
      (λ w. w)
      desk_bpf_ledger
      (descriptor 3 ∷ [])
      config
      (bpf_runtime_start (desk_bpf changed) config (descriptor 3 ∷ []))
bpf_runtime_start-outcome_example =
    bpf_runtime_start-outcome (desk_bpf changed) (λ w. w) desk_bpf_ledger config (descriptor 3 ∷ [])

abbrev entries_of : ℕ → Entries
entries_of zero = []
entries_of (suc zero) = (8388608, led_number 2) ∷ (8388624, led_number 3) ∷ []
entries_of (suc (suc fd)) = (8388608, next_emit_ns 5) ∷ []

abbrev old_maps : MapWorld
old_maps fd = entries_of fd

clear_loop-Cleared_example : Cleared map_bpf map_laws 1 old_maps (clear_loop map_bpf 3 1 old_maps)
clear_loop-Cleared_example = clear_loop-Cleared map_bpf map_laws 3 1 old_maps (omega arith)

-- An entry that is removed in between is no error.
removed_elsewhere :
    clear_loop map_bpf 2 3 old_maps ≡ some (ok, with_map 3 (erase 8388608 (old_maps 3)) old_maps)
unfolding clear_loop
removed_elsewhere = refl

abbrev runtime : BpfRuntime
runtime = record zero_runtime { object = some 1 }

abbrev maps : HasMaps map_bpf map_laws runtime
maps = record {
  targets = 1;
  states = 2;
  differ = λ e. omega (arith, e);
  targets_found = λ w. refl;
  states_found = λ w. refl;
}

abbrev slots : List DiskSlot
slots = record no_slot { led_id = 2; present = true; dev = 8388640 } ∷ no_slot ∷ []

sync_bpf-Synced_example :
    Synced map_bpf map_laws runtime maps 2 slots (sync_bpf map_bpf 3 runtime 2 slots old_maps)
sync_bpf-Synced_example =
    sync_bpf-Synced map_bpf map_laws runtime maps 3 2 slots old_maps (omega arith) (omega arith)
