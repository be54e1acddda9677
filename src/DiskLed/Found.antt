-- ===== src/DiskLed/Found.antt =====
-- `discover` keeps one device for each slot: the first that the directory lists.
use ugreen_leds_controller.Prelude.{
  ℕ, ◌<◌, ◌≡◌, ◌≢◌, refl, ap, subst, ◌∙◌, arith, Bool, true, false, Bool-cases, inl, inr, List, [],
  ◌∷◌, length, length-set, length-replicate, get_or-set_self, get_or-set_ne, get_or-replicate,
  if◌then◌else◌, Option, none, some, get_or, set, replicate, ◌==◌, ◌+◌, ◌%◌, ltb, leb, ap₂, ==_iff,
  ℕ_discrete,
}
use ugreen_leds_controller.Types.{ugreen_disk_count}
use ugreen_leds_controller.Env.{Env}
use ugreen_leds_controller.Config.{Config}
use ugreen_leds_controller.Kernel.{Kernel}
use ugreen_leds_controller.DiskLed.Slots.{DiskSlot, no_slot}
use ugreen_leds_controller.DiskLed.Discovery.{
  Formats, Located, place, slot_with, locate, discover_entries,
}

-- The first located device of slot `i`.
pub first_at : ℕ → List (Option Located) → Option Located
first_at i [] = none
first_at i (none ∷ ds) = first_at i ds
first_at i (some d ∷ ds) = let rest = first_at i ds in if d.slot == i then some d else rest

-- Entry `i` of the array for the device that belongs there, if any. A name of 64 bytes or more is
-- left out.
pub slot_for : ℕ → Option Located → DiskSlot
slot_for i none = record {
  led_id = 0;
  present = false;
  active = false;
  dev = 0;
  name = [];
  deadline_ns = 0;
}
slot_for i (some d) = record {
  led_id = 2 + i;
  present = true;
  active = false;
  dev = d.dev;
  name = if ltb (length d.name) 64 then d.name else [];
  deadline_ns = 0;
}

-- What the code writes there.
abbrev written_for : Option Located → DiskSlot → DiskSlot
written_for none x = x
written_for (some d) x = slot_with d x

same_name :
    (n : ℕ) (name : List ℕ) → (if leb 64 n then [] else name) ≡ (if ltb n 64 then name else [])
same_name n name = ground arith

slot_with-slot_for :
    (i : ℕ) (d : Located)
    → i < ugreen_disk_count
    → d.slot ≡ i
    → slot_with d no_slot ≡ slot_for i (some d)
unfolding slot_for
slot_with-slot_for i d lt at =
    let led : (2 + d.slot % 256) % 256 ≡ 2 + i = omega (arith, at, lt) in
    ap₂
      (λ n name. record {
        led_id = n;
        present = true;
        active = false;
        dev = d.dev;
        name = name;
        deadline_ns = 0;
      })
      led (same_name (length d.name) d.name)

first_at-slot_for :
    (i : ℕ) (ds : List (Option Located))
    → i < ugreen_disk_count
    → written_for (first_at i ds) no_slot ≡ slot_for i (first_at i ds)
unfolding first_at slot_for
first_at-slot_for i [] lt = refl
first_at-slot_for i (none ∷ ds) lt = first_at-slot_for i ds lt
first_at-slot_for i (some d ∷ ds) lt = elim (Bool-cases (d.slot == i)) [
  | inl e ↦ rw e (slot_with-slot_for i d lt ((==_iff d.slot i).0 e))
  | inr e ↦ rw e (first_at-slot_for i ds lt)
]

-- One round of the loop, as slot `i` sees it.
abbrev pub seen_by : ℕ → Option Located → DiskSlot → DiskSlot
seen_by i none x = x
seen_by i (some d) x = if d.slot == i then (if x.present then x else slot_with d x) else x

abbrev pub all_seen_by : ℕ → List (Option Located) → DiskSlot → DiskSlot
all_seen_by i [] x = x
all_seen_by i (d ∷ ds) x = all_seen_by i ds (seen_by i d x)

place-length : (d : Option Located) (found : List DiskSlot) → length (place d found) ≡ length found
unfolding place
place-length none found = refl
place-length (some d) found = elim (Bool-cases (get_or found d.slot no_slot).present) [
  | inl e ↦ rw e
  | inr e ↦ rw e (length-set found d.slot (slot_with d (get_or found d.slot no_slot)))
]

place-at :
    (b : Bool) (i : ℕ) (v : DiskSlot) (found : List DiskSlot)
    → i < length found
    → get_or (if b then found else set found i v) i no_slot
      ≡ (if b then get_or found i no_slot else v)
place-at true i v found lt = refl
place-at false i v found lt = get_or-set_self found i v no_slot lt

place-beside :
    (b : Bool) (i j : ℕ) (v : DiskSlot) (found : List DiskSlot)
    → j ≢ i
    → get_or (if b then found else set found j v) i no_slot ≡ get_or found i no_slot
place-beside true i j v found ne = refl
place-beside false i j v found ne = get_or-set_ne found j i v no_slot ne

place-get :
    (i : ℕ) (d : Option Located) (found : List DiskSlot)
    → i < length found
    → get_or (place d found) i no_slot ≡ seen_by i d (get_or found i no_slot)
unfolding place
place-get i none found lt = refl
place-get i (some d) found lt = elim (ℕ_discrete d.slot i) [
  | yes same ↦
      let here : (d.slot == i) ≡ true = (==_iff d.slot i).1 same in
      rw here (
        subst
          (λ k. get_or (place (some d) found) k no_slot ≡ (
            if (get_or found k no_slot).present
            then get_or found k no_slot
            else slot_with d (get_or found k no_slot)))
          same
          (place-at (get_or found d.slot no_slot).present d.slot
            (slot_with d (get_or found d.slot no_slot)) found (omega (arith, same, lt))))
  | no ne ↦
      let other : (d.slot == i) ≡ false = ground arith in
      rw other (
        place-beside (get_or found d.slot no_slot).present i d.slot
          (slot_with d (get_or found d.slot no_slot)) found ne)
]

kept : (a p : Bool) (x y : DiskSlot) → p ≡ true → (if a then (if p then x else y) else x) ≡ x
kept true true x y h = refl
kept true false x y h = absurd (cc)
kept false p x y h = refl

all_seen_by-present :
    (i : ℕ) (ds : List (Option Located)) (x : DiskSlot) → x.present ≡ true → all_seen_by i ds x ≡ x
all_seen_by-present i [] x h = refl
all_seen_by-present i (none ∷ ds) x h = all_seen_by-present i ds x h
all_seen_by-present i (some d ∷ ds) x h =
    ap (all_seen_by i ds) (kept (d.slot == i) x.present x (slot_with d x) h)
    ∙ all_seen_by-present i ds x h

all_seen_by-first_at :
    (i : ℕ) (ds : List (Option Located)) (x : DiskSlot)
    → x.present ≡ false
    → all_seen_by i ds x ≡ written_for (first_at i ds) x
unfolding first_at
all_seen_by-first_at i [] x h = refl
all_seen_by-first_at i (none ∷ ds) x h = all_seen_by-first_at i ds x h
all_seen_by-first_at i (some d ∷ ds) x h = elim (Bool-cases (d.slot == i)) [
  | inl e ↦ rw (e, h) (all_seen_by-present i ds (slot_with d x) refl)
  | inr e ↦ rw e (all_seen_by-first_at i ds x h)
]

module _ (env : Env) (kernel : Kernel env.World) (formats : Formats) (config : Config)
    (product_name : List ℕ) (slot_count : ℕ) where
  open env use {World}

  -- What each entry of the directory is, in the order of the directory.
  pub locate_all : List (List ℕ) → World → List (Option Located)
  locate_all [] w = []
  locate_all (name ∷ names) w =
      let d = locate env kernel formats config product_name slot_count name w in
      d.0 ∷ locate_all names d.1

  entries-seen_by :
      (i : ℕ) (names : List (List ℕ)) (found : List DiskSlot) (w : World)
      → i < length found
      → get_or
          (discover_entries env kernel formats config product_name slot_count names found w).0
          i
          no_slot
        ≡ all_seen_by i (locate_all names w) (get_or found i no_slot)
  unfolding discover_entries locate_all
  entries-seen_by i [] found w lt = refl
  entries-seen_by i (name ∷ names) found w lt =
      let d = locate env kernel formats config product_name slot_count name w in
      entries-seen_by i names (place d.0 found) d.1 (omega (arith, place-length d.0 found))
      ∙ ap (all_seen_by i (locate_all names d.1)) (place-get i d.0 found lt)

  -- Slot `i` of the array gets the first listed device that belongs to it: present and inactive, with
  -- LED `2 + i`, the device's number, and its name if that is shorter than 64 bytes. Later devices of
  -- the slot are ignored, and without one the slot stays empty.
  pub discover_entries-first_at :
      (i : ℕ) (names : List (List ℕ)) (w : World)
      → i < ugreen_disk_count
      → get_or
          (discover_entries env kernel formats config product_name slot_count names
            (replicate ugreen_disk_count no_slot)
            w).0
          i
          no_slot
        ≡ slot_for i (first_at i (locate_all names w))
  discover_entries-first_at i names w lt =
      entries-seen_by i names (replicate ugreen_disk_count no_slot) w
        (omega (arith, length-replicate ugreen_disk_count no_slot, lt))
      ∙ ap (all_seen_by i (locate_all names w)) (get_or-replicate ugreen_disk_count i no_slot)
      ∙ all_seen_by-first_at i (locate_all names w) no_slot refl
      ∙ first_at-slot_for i (locate_all names w) lt
