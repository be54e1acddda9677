-- ===== src/Sim/Maps.antt =====
-- A libbpf for the tests whose maps are lists of entries.
use ugreen_leds_controller.Prelude.{
  ℕ, ◌≤◌, ◌<◌, ◌≡◌, ◌≢◌, refl, arith, false, Bool-cases, inl, inr, List, [], ◌∷◌, Option, none,
  some, if◌then◌else◌, ◌==◌, ==_refl, length,
}
use ugreen_leds_controller.Status.{Status, ok, err, enoent}
use ugreen_leds_controller.Env.{value}
use ugreen_leds_controller.Config.{codes}
use ugreen_leds_controller.DiskLed.Layout.{starts_with}
use ugreen_leds_controller.Runtime.{Libbpf, Element}
use ugreen_leds_controller.Runtime.Cleared.{MapLaws}

abbrev pub Entries : Type 0
Entries = List (ℕ × Element)

abbrev pub find : ℕ → Entries → Option Element
find k [] = none
find k ((j, e) ∷ xs) = let rest = find k xs in if k == j then some e else rest

abbrev pub erase : ℕ → Entries → Entries
erase k [] = []
erase k ((j, e) ∷ xs) = let rest = erase k xs in if k == j then rest else (j, e) ∷ rest

abbrev pub head_key : Entries → Option ℕ
head_key [] = none
head_key ((j, e) ∷ xs) = some j

length-erase : (k : ℕ) (xs : Entries) → length (erase k xs) ≤ length xs
length-erase k [] = omega arith
length-erase k ((j, e) ∷ xs) = elim (Bool-cases (k == j)) [
  | inl same ↦ rw same (omega (arith, length-erase k xs))
  | inr other ↦ rw other (omega (arith, length-erase k xs))
]

pub erase-shorter : (k : ℕ) (xs : Entries) → find k xs ≢ none → length (erase k xs) < length xs
erase-shorter k [] h = absurd (h refl)
erase-shorter k ((j, e) ∷ xs) h = elim (Bool-cases (k == j)) [
  | inl same ↦ rw same (omega (arith, length-erase k xs))
  | inr other ↦ rw other (omega (arith, erase-shorter k xs (rw other at h)))
]

pub head_key-find : (k : ℕ) (xs : Entries) → head_key xs ≡ some k → find k xs ≢ none
head_key-find k [] h = absurd (cc)
head_key-find k ((j, e) ∷ xs) h = λ gone. ground (arith, h, gone)

pub no_head : (xs : Entries) (k : ℕ) → head_key xs ≡ none → find k xs ≡ none
no_head [] k h = refl
no_head ((j, e) ∷ xs) k h = absurd (cc)

-- The maps by their descriptors: 1 holds the targets, 2 the states.
abbrev pub MapWorld : Type 0
MapWorld = ℕ → Entries

abbrev pub with_map : ℕ → Entries → MapWorld → MapWorld
with_map fd xs w g = if g == fd then xs else w g

pub with_map_self : (fd : ℕ) (xs : Entries) (w : MapWorld) → with_map fd xs w fd ≡ xs
with_map_self fd xs w = rw (==_refl fd)

pub with_map_ne : (fd g : ℕ) (xs : Entries) (w : MapWorld) → g ≢ fd → with_map fd xs w g ≡ w g
with_map_ne fd g xs w ne = let other : (g == fd) ≡ false = ground arith in rw other

-- The entries of map 3 are removed by another process, between the listing and the deletion.
abbrev pub deletion : ℕ → Status
deletion fd = if fd == 3 then err enoent else ok

abbrev pub map_bpf : Libbpf MapWorld
map_bpf = record {
  open_object = λ path w. (value 1, w);
  close_object = λ n w. w;
  load_object = λ n w. (ok, w);
  find_program = λ n name w. some 2;
  find_map = λ n name w. some (if starts_with name (codes "disk_targets") then 1 else 2);
  set_autoload = λ n b w. (ok, w);
  tc_hook_create = λ i a w. (ok, w);
  tc_attach = λ i a h p n w. (ok, w);
  tc_detach = λ i a h p w. w;
  if_nametoindex = λ name w. 2;
  attach_tracepoint = λ n category name w. (value 4, w);
  destroy_link = λ n w. w;
  new_ring = λ fd w. (value 5, w);
  free_ring = λ n w. w;
  ring_epoll_fd = λ n w. 9;
  consume_ring = λ n w. (([], ok), w);
  first_key = λ fd w. (head_key (w fd), w);
  delete_elem = λ fd key w. (deletion fd, with_map fd (erase key (w fd)) w);
  update_elem = λ fd key e w. (ok, with_map fd ((key, e) ∷ w fd) w);
}

pub other_key : (j k : ℕ) → j ≢ k → (j == k) ≡ false
other_key j k ne = ground arith

pub removed_shrinks :
    (fd k : ℕ) (w : MapWorld)
    → head_key (w fd) ≡ some k
    → length (with_map fd (erase k (w fd)) w fd) < length (w fd)
removed_shrinks fd k w listed =
    rw (with_map_self fd (erase k (w fd)) w)
      (erase-shorter k (w fd) (head_key-find k (w fd) listed))

abbrev pub map_laws : MapLaws map_bpf
map_laws = record {
  lookup = λ fd w k. find k (w fd);
  size = λ fd w. length (w fd);
  first_key_keeps = λ fd g w. (refl, refl);
  first_key_none = λ fd w k h. no_head (w fd) k h;
  delete_shrinks = λ fd k w listed done. removed_shrinks fd k w listed;
  delete_elsewhere = λ fd k g w ne.
      (rw (with_map_ne fd g (erase k (w fd)) w ne), rw (with_map_ne fd g (erase k (w fd)) w ne));
  update_sets = λ fd k e w h. rw (with_map_self fd ((k, e) ∷ w fd) w, ==_refl k);
  update_keeps = λ fd k j e w ne. rw (with_map_self fd ((k, e) ∷ w fd) w, other_key j k ne);
  update_elsewhere = λ fd k g e w ne. rw (with_map_ne fd g ((k, e) ∷ w fd) w ne);
}
