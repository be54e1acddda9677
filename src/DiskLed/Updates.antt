-- ===== src/DiskLed/Updates.antt =====
-- `rescan` as a whole: discovery, the slots and their LEDs.
use ugreen_leds_controller.Prelude.{
  ℕ, zero, suc, ◌≡◌, refl, arith, false, Bool-cases, inl, inr, List, [], ◌∷◌, Option, none, some,
  get_or, set, replicate,
}
use ugreen_leds_controller.Types.{ugreen_disk_count}
use ugreen_leds_controller.Status.{Status, ok, err}
use ugreen_leds_controller.Env.{Env}
use ugreen_leds_controller.Config.{Config}
use ugreen_leds_controller.Config.Bounds.{InRange}
use ugreen_leds_controller.Controller.Protocol.{Mcu}
use ugreen_leds_controller.Controller.Chains.{quiet-IsCoherent}
use ugreen_leds_controller.Controller.Timers.{Timers}
use ugreen_leds_controller.Kernel.{Kernel, Directory, unlisted, listing}
use ugreen_leds_controller.Kernel.Ledger.{Resource}
use ugreen_leds_controller.Kernel.Tracks.{Tracks}
use ugreen_leds_controller.DiskLed.Slots.{DiskSlot, Disks, no_slot}
use ugreen_leds_controller.DiskLed.Blinking.{AreShown-same}
use ugreen_leds_controller.DiskLed.Following.{IsFollowed}
use ugreen_leds_controller.DiskLed.Discovery.{
  Formats, Located, sys_block, place, slot_with, locate, discover_entries, discover_in, discover,
}
use ugreen_leds_controller.DiskLed.Rescan.{rescan_found, rescan, rescan_slots}
use ugreen_leds_controller.DiskLed.Rescanned.{
  AreIdle, AreUpdated, AreUpdated-before, rescan_slots-Rescans,
}
use ugreen_leds_controller.DiskLed.Searching.{discover-tracks}

AreIdle-get : (ds : List DiskSlot) (i : ℕ) → AreIdle ds → (get_or ds i no_slot).active ≡ false
AreIdle-get [] i h = refl
AreIdle-get (d ∷ ds) zero h = h.0
AreIdle-get (d ∷ ds) (suc i) h = AreIdle-get ds i h.1

AreIdle-set :
    (ds : List DiskSlot) (i : ℕ) (d : DiskSlot)
    → d.active ≡ false
    → AreIdle ds
    → AreIdle (set ds i d)
AreIdle-set [] i d e h = tt
AreIdle-set (x ∷ ds) zero d e h = (e, h.1)
AreIdle-set (x ∷ ds) (suc i) d e h = (h.0, AreIdle-set ds i d e h.1)

AreIdle-replicate : (n : ℕ) → AreIdle (replicate n no_slot)
AreIdle-replicate zero = tt
AreIdle-replicate (suc n) = (refl, AreIdle-replicate n)

place-AreIdle :
    (d : Option Located) (found : List DiskSlot) → AreIdle found → AreIdle (place d found)
unfolding place
place-AreIdle none found h = h
place-AreIdle (some d) found h = elim (Bool-cases (get_or found d.slot no_slot).present) [
  | inl e ↦ rw e h
  | inr e ↦ rw e (
      AreIdle-set found d.slot (slot_with d (get_or found d.slot no_slot))
        (AreIdle-get found d.slot h) h)
]

-- Calls that change no LED, besides those of the bus.
abbrev pub ShowsAs : (env : Env) (mcu : Mcu env) → env.World → List Resource → env.World → Type 0
ShowsAs env mcu before held w = (i : ℕ) → mcu.shown w i ≡ mcu.shown before i

module _ (env : Env) (kernel : Kernel env.World) (formats : Formats) (config : Config) where
  open env use {World}

  discover_entries-AreIdle :
      (product_name : List ℕ) (slot_count : ℕ) (names : List (List ℕ)) (found : List DiskSlot)
      (w : World)
      → AreIdle found
      → AreIdle (discover_entries env kernel formats config product_name slot_count names found w).0
  unfolding discover_entries
  discover_entries-AreIdle product_name slot_count [] found w h = h
  discover_entries-AreIdle product_name slot_count (name ∷ names) found w h =
      let d = locate env kernel formats config product_name slot_count name w in
      discover_entries-AreIdle product_name slot_count names (place d.0 found) d.1
        (place-AreIdle d.0 found h)

  discover_in-AreIdle :
      (d : Disks World) (found : List DiskSlot) (directory : Directory) (w : World)
      → AreIdle found
      → AreIdle (discover_in env kernel formats config d found (directory, w)).1.0
  discover_in-AreIdle d found (unlisted e) w h = h
  discover_in-AreIdle d found (listing n names) w h =
      discover_entries-AreIdle d.product_name d.slot_count names found w h

  discover-AreIdle :
      (d : Disks World) (found : List DiskSlot) (w : World)
      → AreIdle found
      → AreIdle (discover env kernel formats config d found w).1.0
  unfolding discover
  discover-AreIdle d found w h =
      let directory = kernel.opendir sys_block w in
      discover_in-AreIdle d found directory.0 directory.1 h

  module _ (mcu : Mcu env) (timers : Timers env mcu) (in_range : InRange config)
      (quiet : (before : World) → Tracks env kernel (ShowsAs env mcu before)) where
    abbrev pub Followed : Disks World → Type 0
    Followed = IsFollowed env mcu timers config in_range

    -- What the discovery finds for a rescan.
    abbrev pub scan : Disks World → Status × (List DiskSlot × World)
    scan d =
        discover env kernel formats config d (replicate ugreen_disk_count no_slot) d.session.world

    -- After a rescan: the disk LEDs are in step, and the slots are those that were found.
    pub record Rescanned (d : Disks World) (result : Status × Disks World) : Type 0 where
      pub followed : Followed result.1
      pub same_count : result.1.slot_count ≡ d.slot_count
      pub updated :
          (scan d).0 ≡ ok
          → AreUpdated env mcu kernel formats config in_range d.slot_count 0 d.slots
              (scan d).1.0
              result.1.slots
              d.session.world
              result.1.session.world
              result.0

    found-Rescanned :
        (d : Disks World) (error : Status) (found : List DiskSlot) (w : World)
        → ((i : ℕ) → mcu.shown w i ≡ mcu.shown d.session.world i)
        → AreIdle found
        → Followed d
        → (Followed (rescan_found env kernel formats config d (error, (found, w))).1)
          × ((rescan_found env kernel formats config d (error, (found, w))).1.slot_count
              ≡ d.slot_count)
          × (error ≡ ok
              → AreUpdated env mcu kernel formats config in_range d.slot_count 0 d.slots found
                  (rescan_found env kernel formats config d (error, (found, w))).1.slots
                  d.session.world
                  (rescan_found env kernel formats config d (error, (found, w))).1.session.world
                  (rescan_found env kernel formats config d (error, (found, w))).0)
    found-Rescanned d (err e) found w same idle inv = (
      record {
        shows =
            AreShown-same env mcu config in_range 2 d.slots d.session.world w (λ j le. same j)
              inv.shows;
        coherent = quiet-IsCoherent env mcu d.session w same inv.coherent;
        fits = inv.fits;
      },
      refl,
      (λ h. absurd (cc)),
    )
    found-Rescanned d ok found w same idle inv =
        let r =
          rescan_slots-Rescans env mcu kernel formats config in_range d.slot_count 0 d.slots found
            ok (record d.session { world = w }) (omega (arith, inv.fits))
            (AreShown-same env mcu config in_range 2 d.slots d.session.world w (λ j le. same j)
              inv.shows)
            idle (quiet-IsCoherent env mcu d.session w same inv.coherent) in
        let scanned =
          rescan_slots env kernel formats config d.slot_count 0 d.slots found ok
            (record d.session { world = w }) in
        (
          record {
            shows = r.shows;
            coherent = r.coherent;
            fits = omega (arith, r.same_length, inv.fits);
          },
          refl,
          (λ h.
              AreUpdated-before env mcu kernel formats config in_range d.slot_count 0 d.slots found
                scanned.slots w d.session.world scanned.session.world scanned.first_error
                (λ j le. same j) r.updated),
        )

    pub rescan-Rescanned :
        (d : Disks World) → Followed d → Rescanned d (rescan env kernel formats config d)
    unfolding rescan
    rescan-Rescanned d inv =
        let found = scan d in
        let parts =
          found-Rescanned d found.0 found.1.0 found.1.1
            (discover-tracks env kernel formats config (ShowsAs env mcu d.session.world)
              (quiet d.session.world) d (replicate ugreen_disk_count no_slot) [] d.session.world
              (λ i. refl))
            (discover-AreIdle d (replicate ugreen_disk_count no_slot) d.session.world
              (AreIdle-replicate ugreen_disk_count))
            inv in
        record { followed = parts.0; same_count = parts.1; updated = parts.2 }
