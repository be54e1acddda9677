-- ===== src/DiskLed/Hotplug.antt =====
-- The disk LEDs stay in step through the kernel's events on block devices.
use ugreen_leds_controller.Prelude.{
  ℕ, zero, suc, refl, Bool, true, false, ◌||◌, if◌then◌else◌, [], Option, none, some,
}
use ugreen_leds_controller.Status.{Status, ok, err}
use ugreen_leds_controller.Env.{Env, Fd}
use ugreen_leds_controller.Config.{Config}
use ugreen_leds_controller.Config.Bounds.{InRange}
use ugreen_leds_controller.Controller.Protocol.{Mcu}
use ugreen_leds_controller.Controller.Timers.{Timers}
use ugreen_leds_controller.Kernel.{Kernel, Datagram, received, not_received}
use ugreen_leds_controller.Kernel.Tracks.{Tracks}
use ugreen_leds_controller.DiskLed.Slots.{Disks}
use ugreen_leds_controller.DiskLed.Following.{IsFollowed, quiet-IsFollowed}
use ugreen_leds_controller.DiskLed.Discovery.{Formats}
use ugreen_leds_controller.DiskLed.Rescan.{rescan}
use ugreen_leds_controller.DiskLed.Updates.{ShowsAs, rescan-Rescanned}
use ugreen_leds_controller.DiskLed.Uevents.{
  Drained, is_block_uevent, after_recv, drain, with_disks, sync_after, if_needed, after_drain,
  handle_uevent,
}
use ugreen_leds_controller.Runtime.{Libbpf, BpfRuntime}
use ugreen_leds_controller.Runtime.Quiet.{OnMaps, Ends, sync_bpf-Ends}

module _ (env : Env) (kernel : Kernel env.World) (formats : Formats) (config : Config)
    (bpf : Libbpf env.World) (mcu : Mcu env) (timers : Timers env mcu) (in_range : InRange config)
    (quiet : (before : env.World) → Tracks env kernel (ShowsAs env mcu before))
    (quiet_maps : (before : env.World) → OnMaps bpf (ShowsAs env mcu before [])) where
  open env use {World}
  open mcu use {shown}

  abbrev InStep : Disks World → Type 0
  InStep = IsFollowed env mcu timers config in_range

  abbrev WasDrained : World → Option (Drained World) → Type 0
  WasDrained before none = Unit {0}
  WasDrained before (some d) = ShowsAs env mcu before [] d.world

  after_recv-WasDrained :
      (before : World) (rest : Bool → World → Option (Drained World)) (needed : Bool)
      (datagram : Datagram) (w : World)
      → ShowsAs env mcu before [] w
      → ((b : Bool) (v : World) → ShowsAs env mcu before [] v → WasDrained before (rest b v))
      → WasDrained before (after_recv env kernel formats config bpf rest needed (datagram, w))
  after_recv-WasDrained before rest needed (received bytes) w h next =
      next (needed || is_block_uevent bytes) w h
  after_recv-WasDrained before rest needed (not_received e) w h next = h

  drain-WasDrained :
      (before : World) (fuel : ℕ) (fd : Fd) (needed : Bool) (w : World)
      → ShowsAs env mcu before [] w
      → WasDrained before (drain env kernel formats config bpf fuel fd needed w)
  unfolding drain
  drain-WasDrained before zero fd needed w h = tt
  drain-WasDrained before (suc fuel) fd needed w h =
      let got = kernel.recv fd 8191 w in
      after_recv-WasDrained before (drain env kernel formats config bpf fuel fd) needed got.0 got.1
        ((quiet before).recv [] fd 8191 w h) (λ b v. drain-WasDrained before fuel fd b v)

  -- The disks of a result, if there is one.
  abbrev pub StaysInStep : Option (Status × Disks World) → Type 0
  StaysInStep none = Unit {0}
  StaysInStep (some r) = InStep r.1

  with_disks-StaysInStep :
      (d : Disks World) (r : Option (Status × World))
      → InStep d
      → Ends bpf (ShowsAs env mcu d.session.world []) (quiet_maps d.session.world) r
      → StaysInStep (with_disks env kernel formats config bpf d r)
  with_disks-StaysInStep d none inv h = tt
  with_disks-StaysInStep d (some (s, w)) inv h =
      quiet-IsFollowed env mcu timers config in_range d w h inv

  sync_after-StaysInStep :
      (fuel : ℕ) (r : BpfRuntime) (result : Status × Disks World)
      → InStep result.1
      → StaysInStep (sync_after env kernel formats config bpf fuel r result)
  sync_after-StaysInStep fuel r (ignored, d) inv = with_disks-StaysInStep d _ inv (
      sync_bpf-Ends bpf (ShowsAs env mcu d.session.world []) (quiet_maps d.session.world) fuel r
        d.slot_count d.slots d.session.world (λ i. refl))

  either-StaysInStep :
      (b : Bool) (x y : Option (Status × Disks World))
      → StaysInStep x
      → StaysInStep y
      → StaysInStep (if b then x else y)
  either-StaysInStep true x y h k = h
  either-StaysInStep false x y h k = k

  if_needed-StaysInStep :
      (fuel : ℕ) (r : BpfRuntime) (d : Disks World) (s : Status) (needed : Bool)
      → InStep d
      → StaysInStep (if_needed env kernel formats config bpf fuel r d s needed)
  if_needed-StaysInStep fuel r d (err e) needed inv = inv
  if_needed-StaysInStep fuel r d ok needed inv =
      either-StaysInStep needed
        (sync_after env kernel formats config bpf fuel r (rescan env kernel formats config d))
        (some (ok, d))
        (sync_after-StaysInStep fuel r (rescan env kernel formats config d)
          (rescan-Rescanned env kernel formats config mcu timers in_range quiet d inv).followed)
        inv

  after_drain-StaysInStep :
      (fuel : ℕ) (r : BpfRuntime) (d : Disks World) (drained : Option (Drained World))
      → InStep d
      → WasDrained d.session.world drained
      → StaysInStep (after_drain env kernel formats config bpf fuel r d drained)
  after_drain-StaysInStep fuel r d none inv h = tt
  after_drain-StaysInStep fuel r d (some drained) inv h =
      if_needed-StaysInStep fuel r _ drained.error drained.rescan_needed
        (quiet-IsFollowed env mcu timers config in_range d drained.world h inv)

  pub handle_uevent-StaysInStep :
      (fuel : ℕ) (r : BpfRuntime) (d : Disks World)
      → InStep d
      → StaysInStep (handle_uevent env kernel formats config bpf fuel r d)
  unfolding handle_uevent
  handle_uevent-StaysInStep fuel r d inv =
      after_drain-StaysInStep fuel r d _ inv
        (drain-WasDrained d.session.world fuel d.uevent_fd false d.session.world (λ i. refl))
