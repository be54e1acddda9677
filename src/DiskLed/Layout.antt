-- ===== src/DiskLed/Layout.antt =====
-- ebpf/src/disk_layout.c: how many slots a model has, and in which slot a device path puts a disk.
-- A slot is `none` where the code returns -1.
use ugreen_leds_controller.Prelude.{
  ℕ, zero, suc, ◌-◌, Bool, true, false, ◌&&◌, ◌||◌, not, List, [], ◌∷◌, Option, none, some, ◌==◌,
  ltb, leb, if◌then◌else◌,
}
use ugreen_leds_controller.Types.{ugreen_disk_count}
use ugreen_leds_controller.Config.{codes}

-- `strncmp(text, prefix, strlen(prefix)) == 0`
abbrev pub starts_with : List ℕ → List ℕ → Bool
starts_with text [] = true
starts_with [] (p ∷ ps) = false
starts_with (x ∷ xs) (p ∷ ps) = x == p && starts_with xs ps

-- The number of slots by the model's group.
abbrev pub four_slots : List ℕ → Bool
four_slots product_name =
    starts_with product_name (codes "DX4600")
    || starts_with product_name (codes "DX4700")
    || starts_with product_name (codes "DXP4800")

abbrev pub six_slots : List ℕ → Bool
six_slots product_name = starts_with product_name (codes "DXP6800")

unfoldable pub slot_count : List ℕ → ℕ
slot_count product_name =
    if starts_with product_name (codes "DXP2800")
    then 2
    else if four_slots product_name
    then 4
    else if six_slots product_name
    then 6
    else ugreen_disk_count

-- The four numbers of an HCTL address.
pub record Hctl : Type 0 where
  pub host : ℕ
  pub channel : ℕ
  pub target : ℕ
  pub lun : ℕ

-- `sscanf` with the two formats: `hctl` where exactly the four numbers are read, `ata` where at
-- least its number is.
pub record Scanner : Type 0 where
  pub hctl : List ℕ → Option Hctl
  pub ata : List ℕ → Option ℕ

-- What follows the last '/' of a path, or the path; `base` is the best so far.
abbrev pub base_name : List ℕ → List ℕ → List ℕ
base_name [] base = base
base_name (x ∷ xs) base = base_name xs (if x == 47 then xs else base)

-- The table of the DXP6800 by SATA port, from 0.
abbrev pub dxp6800_slot : ℕ → Option ℕ
dxp6800_slot port =
    if port == 0
    then some 4
    else if port == 1
    then some 5
    else if ltb port 6
    then some (port - 2)
    else none

unfoldable pub host_slot : List ℕ → ℕ → ℕ → Option ℕ
host_slot product_name count host =
    if six_slots product_name then dxp6800_slot host else if ltb host count then some host else none

-- ATA ports count from 1; entry 0 of the table is -1.
unfoldable pub port_slot : List ℕ → ℕ → ℕ → Option ℕ
port_slot product_name count ata =
    if six_slots product_name
    then (if ata == 0 then none else dxp6800_slot (ata - 1))
    else if leb 1 ata && leb ata count
    then some (ata - 1)
    else none

module _ (scan : Scanner) (product_name : List ℕ) (count : ℕ) where
  abbrev pub hctl_host : Option Hctl → Option ℕ
  hctl_host none = none
  hctl_host (some a) =
      if not (a.channel == 0) || not (a.target == 0) || not (a.lun == 0)
      then none
      else host_slot product_name count a.host

  unfoldable pub hctl_slot : List ℕ → Option ℕ
  unfolding host_slot
  hctl_slot device_path = hctl_host (scan.hctl (base_name device_path device_path))

  abbrev pub ata_or : Option ℕ → Option ℕ → Option ℕ
  ata_or none rest = rest
  ata_or (some ata) rest = port_slot product_name count ata

  -- The search for "/ata" from a cursor, `skip` characters of which are passed over.
  unfoldable pub ata_from : ℕ → List ℕ → Option ℕ
  unfolding port_slot
  ata_from skip [] = none
  ata_from (suc skip) (x ∷ xs) = ata_from skip xs
  ata_from zero (x ∷ xs) =
      let next = ata_from 3 xs in
      let later = ata_from 0 xs in
      if starts_with (x ∷ xs) (codes "/ata") then ata_or (scan.ata (x ∷ xs)) next else later

  unfoldable pub ata_slot : List ℕ → Option ℕ
  ata_slot block_path = ata_from 0 block_path
