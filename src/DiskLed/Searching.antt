-- ===== src/DiskLed/Searching.antt =====
-- What the calls keep, the discovery and the opening of the disk LEDs keep.
use ugreen_leds_controller.Prelude.{
  ℕ, Bool, true, false, ◌||◌, leb, List, [], ◌∷◌, ◌++◌, length, if◌then◌else◌,
}
use ugreen_leds_controller.Status.{Status, ok, err}
use ugreen_leds_controller.Env.{Env, Reply, value, failed}
use ugreen_leds_controller.Config.{Config, DiskMapping, codes}
use ugreen_leds_controller.Config.Values.{Parsed, bad}
use ugreen_leds_controller.Config.Lines.{first_is}
use ugreen_leds_controller.Kernel.{
  Kernel, File, unreadable, stream, Directory, unlisted, listing, path_max,
}
use ugreen_leds_controller.Kernel.Ledger.{Resource, descriptor, acquired, opened, listed}
use ugreen_leds_controller.Kernel.Tracks.{
  Tracks, fclose-tracks, closedir-tracks, close-tracks, read_first_line-tracks,
}
use ugreen_leds_controller.DiskLed.Slots.{DiskSlot, Disks}
use ugreen_leds_controller.DiskLed.Discovery.{
  Formats, Device, sys_block, parse_dev, serial_in, read_udev_serial, serial_slot, mapped_slot,
  device_slot, located, locate, place, discover_entries, discover_in, discover,
}
use ugreen_leds_controller.DiskLed.Rescan.{keep_socket, bind_socket, open_uevent_socket}

module _ (env : Env) (kernel : Kernel env.World) (formats : Formats) (config : Config)
    (P : List Resource → env.World → Type 0) (tracks : Tracks env kernel P) where
  open env use {World}

  either_world :
      {A : Type 0} (b : Bool) (x y : A × World) (xs : List Resource)
      → P xs x.1
      → P xs y.1
      → P xs (if b then x else y).1
  either_world true x y xs h k = h
  either_world false x y xs h k = k

  parse_dev-tracks :
      (name : List ℕ) (xs : List Resource) (w : World)
      → P xs w
      → P xs (parse_dev env kernel formats config name w).1
  unfolding parse_dev
  parse_dev-tracks name xs w h =
      let path = sys_block ++ 47 ∷ name ++ codes "/dev" in
      either_world (leb path_max (length path)) (_, w) _ xs h
        (read_first_line-tracks env kernel P tracks path 64 xs w h)

  serial_in-tracks :
      (size : ℕ) (file : File) (xs : List Resource) (w : World)
      → P (opened file xs) w
      → P xs (serial_in env kernel formats config size (file, w)).1
  serial_in-tracks size (unreadable e) xs w h = h
  serial_in-tracks size (stream n lines e) xs w h = fclose-tracks env kernel P tracks n xs w h

  read_udev_serial-tracks :
      (major minor size : ℕ) (xs : List Resource) (w : World)
      → P xs w
      → P xs (read_udev_serial env kernel formats config major minor size w).1
  unfolding read_udev_serial
  read_udev_serial-tracks major minor size xs w h =
      let path =
        codes "/run/udev/data/b"
        ++ formats.show_unsigned major
        ++ 58 ∷ formats.show_unsigned minor in
      let file = kernel.fopen path w in
      either_world (leb path_max (length path)) (_, w) _ xs h
        (serial_in-tracks size file.0 xs file.1 (tracks.fopen xs path w h))

  mapped_slot-tracks :
      (m : DiskMapping) (product_name : List ℕ) (slot_count : ℕ) (name : List ℕ) (d : Device)
      (xs : List Resource) (w : World)
      → P xs w
      → P xs (mapped_slot env kernel formats config m product_name slot_count name d w).1
  unfolding serial_slot
  mapped_slot-tracks DiskMapping.serial product_name slot_count name d xs w h =
      read_udev_serial-tracks d.major d.minor 128 xs w h
  mapped_slot-tracks DiskMapping.hctl product_name slot_count name d xs w h = h
  mapped_slot-tracks DiskMapping.ata product_name slot_count name d xs w h = h

  located-tracks :
      (product_name : List ℕ) (slot_count : ℕ) (name : List ℕ) (p : Parsed Device)
      (xs : List Resource) (w : World)
      → P xs w
      → P xs (located env kernel formats config product_name slot_count name (p, w)).1
  unfolding device_slot
  located-tracks product_name slot_count name (bad e) xs w h = h
  located-tracks product_name slot_count name (Parsed.value d) xs w h =
      mapped_slot-tracks config.disk_mapping product_name slot_count name d xs w h

  locate-tracks :
      (product_name : List ℕ) (slot_count : ℕ) (name : List ℕ) (xs : List Resource) (w : World)
      → P xs w
      → P xs (locate env kernel formats config product_name slot_count name w).1
  unfolding locate
  locate-tracks product_name slot_count name xs w h =
      let path = sys_block ++ 47 ∷ name ++ codes "/partition" in
      let parsed = parse_dev env kernel formats config name w in
      either_world (first_is 46 name || leb path_max (length path) || kernel.exists path w) (_, w) _
        xs h
        (located-tracks product_name slot_count name parsed.0 xs parsed.1
          (parse_dev-tracks name xs w h))

  discover_entries-tracks :
      (product_name : List ℕ) (slot_count : ℕ) (names : List (List ℕ)) (found : List DiskSlot)
      (xs : List Resource) (w : World)
      → P xs w
      → P xs (discover_entries env kernel formats config product_name slot_count names found w).1
  unfolding discover_entries
  discover_entries-tracks product_name slot_count [] found xs w h = h
  discover_entries-tracks product_name slot_count (name ∷ names) found xs w h =
      let d = locate env kernel formats config product_name slot_count name w in
      discover_entries-tracks product_name slot_count names (place d.0 found) xs d.1
        (locate-tracks product_name slot_count name xs w h)

  discover_in-tracks :
      (d : Disks World) (found : List DiskSlot) (directory : Directory) (xs : List Resource)
      (w : World)
      → P (listed directory xs) w
      → P xs (discover_in env kernel formats config d found (directory, w)).1.1
  discover_in-tracks d found (unlisted e) xs w h = h
  discover_in-tracks d found (listing n names) xs w h =
      closedir-tracks env kernel P tracks n xs _
        (discover_entries-tracks d.product_name d.slot_count names found _ w h)

  pub discover-tracks :
      (d : Disks World) (found : List DiskSlot) (xs : List Resource) (w : World)
      → P xs w
      → P xs (discover env kernel formats config d found w).1.1
  unfolding discover
  discover-tracks d found xs w h =
      let directory = kernel.opendir sys_block w in
      discover_in-tracks d found directory.0 xs directory.1 (tracks.opendir xs sys_block w h)

  keep_socket-tracks :
      (n : ℕ) (s : Status) (xs : List Resource) (w : World)
      → P (descriptor n ∷ xs) w
      → P
          (acquired descriptor (keep_socket env kernel formats config n (s, w)).0 xs)
          (keep_socket env kernel formats config n (s, w)).1
  keep_socket-tracks n ok xs w h = h
  keep_socket-tracks n (err e) xs w h = close-tracks env kernel P tracks n xs w h

  bind_socket-tracks :
      (reply : Reply) (xs : List Resource) (w : World)
      → P (acquired descriptor reply xs) w
      → P
          (acquired descriptor (bind_socket env kernel formats config (reply, w)).0 xs)
          (bind_socket env kernel formats config (reply, w)).1
  bind_socket-tracks (failed e) xs w h = h
  bind_socket-tracks (value n) xs w h =
      let bound = kernel.bind n w in keep_socket-tracks n bound.0 xs bound.1 (tracks.bind _ n w h)

  pub open_uevent_socket-tracks :
      (xs : List Resource) (w : World)
      → P xs w
      → P
          (acquired descriptor (open_uevent_socket env kernel formats config w).0 xs)
          (open_uevent_socket env kernel formats config w).1
  unfolding open_uevent_socket
  open_uevent_socket-tracks xs w h =
      let s = kernel.socket w in bind_socket-tracks s.0 xs s.1 (tracks.socket xs w h)
