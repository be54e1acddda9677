-- ===== src/DiskLed/Uevents.antt =====
-- ebpf/src/disk_led.c: the kernel's events on block devices, `disk_leds_handle_uevent`.
use ugreen_leds_controller.Prelude.{
  ℕ, zero, suc, Bool, false, ◌&&◌, ◌||◌, List, [], ◌∷◌, Option, none, some, ◌==◌, if◌then◌else◌,
}
use ugreen_leds_controller.Status.{Status, ok, err, eagain}
use ugreen_leds_controller.Env.{Env, Fd}
use ugreen_leds_controller.Config.{Config, codes}
use ugreen_leds_controller.Config.Values.{text_equal}
use ugreen_leds_controller.Controller.State.{Session}
use ugreen_leds_controller.Kernel.{Kernel, Datagram, received, not_received}
use ugreen_leds_controller.DiskLed.Slots.{Disks}
use ugreen_leds_controller.DiskLed.Discovery.{Formats}
use ugreen_leds_controller.DiskLed.Rescan.{rescan}
use ugreen_leds_controller.Runtime.{Libbpf, BpfRuntime}
use ugreen_leds_controller.Runtime.Maps.{sync_bpf}

-- The texts between NUL characters.
abbrev pub add_to_field : ℕ → List (List ℕ) → List (List ℕ)
add_to_field c [] = (c ∷ []) ∷ []
add_to_field c (field ∷ rest) = (c ∷ field) ∷ rest

abbrev pub fields : List ℕ → List (List ℕ)
fields [] = [] ∷ []
fields (c ∷ cs) = let rest = fields cs in if c == 0 then [] ∷ rest else add_to_field c rest

abbrev pub is_relevant : List ℕ → Bool
is_relevant field =
    text_equal field (codes "ACTION=add")
    || text_equal field (codes "ACTION=remove")
    || text_equal field (codes "ACTION=change")

-- The loop of `is_block_uevent`, which an empty field ends.
abbrev pub scan_fields : (block relevant_action : Bool) → List (List ℕ) → Bool
scan_fields block relevant_action [] = block && relevant_action
scan_fields block relevant_action ([] ∷ rest) = block && relevant_action
scan_fields block relevant_action ((c ∷ cs) ∷ rest) =
    scan_fields (block || text_equal (c ∷ cs) (codes "SUBSYSTEM=block"))
      (relevant_action || is_relevant (c ∷ cs)) rest

unfoldable pub is_block_uevent : List ℕ → Bool
is_block_uevent buffer = scan_fields false false (fields buffer)

-- How the loop over the datagrams ends.
pub record Drained (W : Type 0) : Type 0 where
  pub error : Status
  pub rescan_needed : Bool
  pub world : W

module _ (env : Env) (kernel : Kernel env.World) (formats : Formats) (config : Config)
    (bpf : Libbpf env.World) where
  open env use {World}
  open kernel use {recv}

  abbrev pub after_recv :
      (Bool → World → Option (Drained World)) → Bool → Datagram × World → Option (Drained World)
  after_recv rest rescan_needed (received bytes, w) =
      rest (rescan_needed || is_block_uevent bytes) w
  after_recv rest rescan_needed (not_received e, w) = some (record {
    error = if e == eagain then ok else err e;
    rescan_needed = rescan_needed;
    world = w;
  })

  -- The loop of `disk_leds_handle_uevent`, for `fuel` rounds at most; `none` is a loop that still
  -- runs.
  unfoldable pub drain : (fuel : ℕ) → Fd → Bool → World → Option (Drained World)
  unfolding is_block_uevent
  drain zero fd rescan_needed w = none
  drain (suc fuel) fd rescan_needed w = after_recv (drain fuel fd) rescan_needed (recv fd 8191 w)

  abbrev pub with_disks : Disks World → Option (Status × World) → Option (Status × Disks World)
  with_disks d none = none
  with_disks d (some (s, w)) = some (s, record d { session = record t { world = w } })
    where
      t : Session World
      t = d.session

  -- The result of the rescan itself is only reported on stderr.
  abbrev pub sync_after :
      (fuel : ℕ) → BpfRuntime → Status × Disks World → Option (Status × Disks World)
  sync_after fuel r (ignored, d) =
      with_disks d (sync_bpf bpf fuel r d.slot_count d.slots d.session.world)

  -- After the loop: its error, a rescan, or nothing.
  abbrev pub if_needed :
      (fuel : ℕ) → BpfRuntime → Disks World → Status → Bool → Option (Status × Disks World)
  if_needed fuel r d (err e) rescan_needed = some (err e, d)
  if_needed fuel r d ok rescan_needed =
      if rescan_needed then sync_after fuel r (rescan env kernel formats config d) else some (ok, d)

  abbrev pub after_drain :
      (fuel : ℕ) → BpfRuntime → Disks World → Option (Drained World) → Option (Status × Disks World)
  after_drain fuel r d none = none
  after_drain fuel r d (some drained) =
      if_needed fuel r (record d { session = record t { world = drained.world } }) drained.error
        drained.rescan_needed
    where
      t : Session World
      t = d.session

  unfoldable pub handle_uevent :
      (fuel : ℕ) → BpfRuntime → Disks World → Option (Status × Disks World)
  unfolding drain rescan sync_bpf
  handle_uevent fuel r d = after_drain fuel r d (drain fuel d.uevent_fd false d.session.world)
