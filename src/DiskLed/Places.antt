-- ===== src/DiskLed/Places.antt =====
-- Device paths lead to slots that the model has, and different ports to different slots.
use ugreen_leds_controller.Prelude.{
  ℕ, zero, suc, ◌-◌, ◌<◌, ◌≡◌, refl, arith, Bool, true, false, ◌&&◌, ◌||◌, not, List, [], ◌∷◌,
  Option, none, some, ◌==◌, ltb, leb, if◌then◌else◌, Bool-cases, inl, inr,
}
use ugreen_leds_controller.Config.{codes}
use ugreen_leds_controller.DiskLed.Layout.{
  starts_with, six_slots, slot_count, Scanner, Hctl, dxp6800_slot, host_slot, port_slot, hctl_host,
  hctl_slot, ata_or, ata_from, ata_slot, base_name,
}

-- Two prefixes that differ within the length of both.
abbrev conflict : List ℕ → List ℕ → Bool
conflict [] q = false
conflict (x ∷ p) [] = false
conflict (x ∷ p) (y ∷ q) = not (x == y) || conflict p q

conflict_lem :
    (text p q : List ℕ)
    → conflict p q ≡ true
    → starts_with text p ≡ true
    → starts_with text q ≡ false
conflict_lem text [] q c h = absurd (cc)
conflict_lem text (x ∷ p) [] c h = absurd (cc)
conflict_lem [] (x ∷ p) (y ∷ q) c h = absurd (cc)
conflict_lem (z ∷ text) (x ∷ p) (y ∷ q) c h = elim (Bool-cases (z == y)) [
  | inr e ↦ rw e
  | inl e ↦ rw e (conflict_lem text p q (ground arith) (ground arith))
]

-- A model of the six-slot group has six slots.
six_slots-count : (product : List ℕ) → six_slots product ≡ true → slot_count product ≡ 6
unfolding slot_count
six_slots-count product h =
    let six = codes "DXP6800" in
    rw (
      conflict_lem product six (codes "DXP2800") refl h,
      conflict_lem product six (codes "DX4600") refl h,
      conflict_lem product six (codes "DX4700") refl h,
      conflict_lem product six (codes "DXP4800") refl h,
      h,
    )

table_bound : (port n : ℕ) → dxp6800_slot port ≡ some n → n < 6
table_bound port n h = ground arith

host_bound :
    (six : Bool) (count host n : ℕ)
    → (six ≡ true → count ≡ 6)
    → (if six then dxp6800_slot host else if ltb host count then some host else none) ≡ some n
    → n < count
host_bound true count host n c h = omega (arith, c refl, table_bound host n h)
host_bound false count host n c h = ground arith

port_bound :
    (six : Bool) (count ata n : ℕ)
    → (six ≡ true → count ≡ 6)
    → (if six
        then (if ata == 0 then none else dxp6800_slot (ata - 1))
        else if leb 1 ata && leb ata count
        then some (ata - 1)
        else none)
      ≡ some n
    → n < count
port_bound true count ata n c h = elim (Bool-cases (ata == 0)) [
  | inl e ↦ absurd (ground arith)
  | inr e ↦ omega (arith, c refl, table_bound (ata - 1) n (rw e at h))
]
port_bound false count ata n c h = ground arith

host_slot-bound :
    (product : List ℕ) (host n : ℕ)
    → host_slot product (slot_count product) host ≡ some n
    → n < slot_count product
unfolding host_slot
host_slot-bound product host n h =
    host_bound (six_slots product) (slot_count product) host n (six_slots-count product) h

port_slot-bound :
    (product : List ℕ) (ata n : ℕ)
    → port_slot product (slot_count product) ata ≡ some n
    → n < slot_count product
unfolding port_slot
port_slot-bound product ata n h =
    port_bound (six_slots product) (slot_count product) ata n (six_slots-count product) h

-- No two host numbers of a model lead to one slot.
pub host_slot-injective :
    (product : List ℕ) (count host other n : ℕ)
    → host_slot product count host ≡ some n
    → host_slot product count other ≡ some n
    → host ≡ other
unfolding host_slot
host_slot-injective product count host other n h k = ground arith

-- No two ATA port numbers of a model lead to one slot.
pub port_slot-injective :
    (product : List ℕ) (count ata other n : ℕ)
    → port_slot product count ata ≡ some n
    → port_slot product count other ≡ some n
    → ata ≡ other
unfolding port_slot
port_slot-injective product count ata other n h k = ground arith

module _ (scan : Scanner) (product : List ℕ) where
  abbrev Fits : Option ℕ → Type 0
  Fits slot = (n : ℕ) → slot ≡ some n → n < slot_count product

  hctl_host-Fits : (a : Option Hctl) → Fits (hctl_host scan product (slot_count product) a)
  hctl_host-Fits none n h = absurd (cc)
  hctl_host-Fits (some a) n h =
      elim (Bool-cases (not (a.channel == 0) || not (a.target == 0) || not (a.lun == 0))) [
        | inl e ↦ absurd (ground arith)
        | inr e ↦ host_slot-bound product a.host n (rw e at h)
      ]

  ata_or-Fits :
      (a rest : Option ℕ) → Fits rest → Fits (ata_or scan product (slot_count product) a rest)
  ata_or-Fits none rest h n e = h n e
  ata_or-Fits (some ata) rest h n e = port_slot-bound product ata n e

  either-Fits : (b : Bool) (x y : Option ℕ) → Fits x → Fits y → Fits (if b then x else y)
  either-Fits true x y h k = h
  either-Fits false x y h k = k

  ata_from-Fits :
      (skip : ℕ) (path : List ℕ) → Fits (ata_from scan product (slot_count product) skip path)
  unfolding ata_from
  ata_from-Fits skip [] = λ n h. absurd (cc)
  ata_from-Fits (suc skip) (x ∷ xs) = ata_from-Fits skip xs
  ata_from-Fits zero (x ∷ xs) =
      either-Fits (starts_with (x ∷ xs) (codes "/ata")) _ _
        (ata_or-Fits (scan.ata (x ∷ xs)) _ (ata_from-Fits 3 xs)) (ata_from-Fits 0 xs)

  -- Whatever the device path and the numbers in it, its HCTL address puts a disk only in a slot
  -- that the model has.
  pub hctl_slot-bound :
      (path : List ℕ) (n : ℕ)
      → hctl_slot scan product (slot_count product) path ≡ some n
      → n < slot_count product
  unfolding hctl_slot
  hctl_slot-bound path n h = hctl_host-Fits (scan.hctl (base_name path path)) n h

  -- Whatever the block path and the numbers in it, its ATA port puts a disk only in a slot that the
  -- model has.
  pub ata_slot-bound :
      (path : List ℕ) (n : ℕ)
      → ata_slot scan product (slot_count product) path ≡ some n
      → n < slot_count product
  unfolding ata_slot
  ata_slot-bound path n h = ata_from-Fits 0 path n h
