-- ===== src/Runtime/Owned.antt =====
-- What a `struct bpf_runtime` holds, and that `bpf_runtime_stop` gives it back.
use ugreen_leds_controller.Prelude.{
  ℕ, ◌≡◌, ap, ◌∙◌, Bool, true, false, List, ◌∷◌, Option, none, some, ==_refl,
}
use ugreen_leds_controller.Status.{Status, ok, err}
use ugreen_leds_controller.Kernel.Ledger.{
  Resource, bpf_object, bpf_link, ring_buffer, tc_filter, acquired, give_back,
}
use ugreen_leds_controller.Runtime.{
  Libbpf, BpfRuntime, Live, Element, bpf_tc_ingress, bpf_tc_egress, ugreen_tc_priority,
  detach_ingress, detach_egress, detach_tc, release, bpf_runtime_stop,
}

abbrev pub attached : Status → Resource → List Resource → List Resource
attached ok r held = r ∷ held
attached (err e) r held = held

-- How libbpf acquires and gives back. A call that gives back counts as doing so.
pub record BpfLedger {W : Type 0} (bpf : Libbpf W) (held : W → List Resource) : Type 0 where
  pub open_object_held :
      (path : List ℕ) (w : W)
      → held (bpf.open_object path w).1 ≡ acquired bpf_object (bpf.open_object path w).0 (held w)
  pub close_object_held :
      (n : ℕ) (w : W) → held (bpf.close_object n w) ≡ give_back (bpf_object n) (held w)
  pub load_object_held : (n : ℕ) (w : W) → held (bpf.load_object n w).1 ≡ held w
  pub set_autoload_held : (n : ℕ) (b : Bool) (w : W) → held (bpf.set_autoload n b w).1 ≡ held w
  pub tc_hook_create_held : (i a : ℕ) (w : W) → held (bpf.tc_hook_create i a w).1 ≡ held w
  pub tc_attach_held :
      (i a h p n : ℕ) (w : W)
      → held (bpf.tc_attach i a h p n w).1
        ≡ attached (bpf.tc_attach i a h p n w).0 (tc_filter i a h) (held w)
  pub tc_detach_held :
      (i a h p : ℕ) (w : W) → held (bpf.tc_detach i a h p w) ≡ give_back (tc_filter i a h) (held w)
  pub attach_tracepoint_held :
      (n : ℕ) (category name : List ℕ) (w : W)
      → held (bpf.attach_tracepoint n category name w).1
        ≡ acquired bpf_link (bpf.attach_tracepoint n category name w).0 (held w)
  pub destroy_link_held :
      (n : ℕ) (w : W) → held (bpf.destroy_link n w) ≡ give_back (bpf_link n) (held w)
  pub new_ring_held :
      (fd : ℕ) (w : W)
      → held (bpf.new_ring fd w).1 ≡ acquired ring_buffer (bpf.new_ring fd w).0 (held w)
  pub free_ring_held :
      (n : ℕ) (w : W) → held (bpf.free_ring n w) ≡ give_back (ring_buffer n) (held w)
  pub consume_ring_held : (n : ℕ) (w : W) → held (bpf.consume_ring n w).1 ≡ held w
  pub first_key_held : (fd : ℕ) (w : W) → held (bpf.first_key fd w).1 ≡ held w
  pub delete_elem_held : (fd key : ℕ) (w : W) → held (bpf.delete_elem fd key w).1 ≡ held w
  pub update_elem_held :
      (fd key : ℕ) (e : Element) (w : W) → held (bpf.update_elem fd key e w).1 ≡ held w

abbrev pub optional : (ℕ → Resource) → Option ℕ → List Resource → List Resource
optional kind none held = held
optional kind (some n) held = kind n ∷ held

abbrev pub when : Bool → Resource → List Resource → List Resource
when true r held = r ∷ held
when false r held = held

abbrev pub ingress_filter : ℕ → Resource
ingress_filter i = tc_filter i bpf_tc_ingress 1

abbrev pub egress_filter : ℕ → Resource
egress_filter i = tc_filter i bpf_tc_egress 2

-- What a runtime holds besides `base`, the newest first.
abbrev pub owned : BpfRuntime → List Resource → List Resource
owned r base = optional ring_buffer r.ring (
    optional bpf_link r.disk_link (
      when r.egress_attached (egress_filter r.ifindex)
        (when r.ingress_attached (ingress_filter r.ifindex) (optional bpf_object r.object base))))

give_back_ingress :
    (ring link : Option ℕ) (egress : Bool) (i : ℕ) (base : List Resource)
    → give_back (ingress_filter i) (
        optional ring_buffer ring
          (optional bpf_link link (when egress (egress_filter i) (ingress_filter i ∷ base))))
      ≡ optional ring_buffer ring (optional bpf_link link (when egress (egress_filter i) base))
give_back_ingress none none true i base = rw (==_refl i)
give_back_ingress none none false i base = rw (==_refl i)
give_back_ingress none (some l) true i base = rw (==_refl i)
give_back_ingress none (some l) false i base = rw (==_refl i)
give_back_ingress (some r) none true i base = rw (==_refl i)
give_back_ingress (some r) none false i base = rw (==_refl i)
give_back_ingress (some r) (some l) true i base = rw (==_refl i)
give_back_ingress (some r) (some l) false i base = rw (==_refl i)

give_back_egress :
    (ring link : Option ℕ) (i : ℕ) (base : List Resource)
    → give_back
        (egress_filter i)
        (optional ring_buffer ring (optional bpf_link link (egress_filter i ∷ base)))
      ≡ optional ring_buffer ring (optional bpf_link link base)
give_back_egress none none i base = rw (==_refl i)
give_back_egress none (some l) i base = rw (==_refl i)
give_back_egress (some r) none i base = rw (==_refl i)
give_back_egress (some r) (some l) i base = rw (==_refl i)

give_back_link :
    (ring : Option ℕ) (n : ℕ) (base : List Resource)
    → give_back (bpf_link n) (optional ring_buffer ring (bpf_link n ∷ base))
      ≡ optional ring_buffer ring base
give_back_link none n base = rw (==_refl n)
give_back_link (some r) n base = rw (==_refl n)

give_back_ring :
    (n : ℕ) (base : List Resource) → give_back (ring_buffer n) (ring_buffer n ∷ base) ≡ base
give_back_ring n base = rw (==_refl n)

give_back_object :
    (n : ℕ) (base : List Resource) → give_back (bpf_object n) (bpf_object n ∷ base) ≡ base
give_back_object n base = rw (==_refl n)

module _ {W : Type 0} (bpf : Libbpf W) (held : W → List Resource) (ledger : BpfLedger bpf held)
    (base : List Resource) where
  -- The record tells all that is held.
  abbrev pub IsAccounted : Live W → Type 0
  IsAccounted l = held l.world ≡ owned l.runtime base

  detach_ingress-IsAccounted :
      (object link ring : Option ℕ) (i : ℕ) (on off : Bool) (w : W)
      → held w
        ≡ owned
            (record {
              object = object;
              disk_link = link;
              ring = ring;
              ifindex = i;
              ingress_attached = on;
              egress_attached = off;
            })
            base
      → IsAccounted (
          detach_ingress bpf (record {
            world = w;
            runtime = record {
              object = object;
              disk_link = link;
              ring = ring;
              ifindex = i;
              ingress_attached = on;
              egress_attached = off;
            };
          }))
  detach_ingress-IsAccounted object link ring i false egress w h = h
  detach_ingress-IsAccounted object link ring i true egress w h =
      ledger.tc_detach_held i bpf_tc_ingress 1 ugreen_tc_priority w
      ∙ ap (give_back (ingress_filter i)) h
      ∙ give_back_ingress ring link egress i (optional bpf_object object base)

  detach_egress-IsAccounted :
      (object link ring : Option ℕ) (i : ℕ) (off : Bool) (w : W)
      → held w
        ≡ optional ring_buffer ring
            (optional bpf_link link (when off (egress_filter i) (optional bpf_object object base)))
      → held
          (detach_egress bpf (record {
            world = w;
            runtime = record {
              object = object;
              disk_link = link;
              ring = ring;
              ifindex = i;
              ingress_attached = false;
              egress_attached = off;
            };
          })).world
        ≡ optional ring_buffer ring (optional bpf_link link (optional bpf_object object base))
  detach_egress-IsAccounted object link ring i false w h = h
  detach_egress-IsAccounted object link ring i true w h =
      ledger.tc_detach_held i bpf_tc_egress 2 ugreen_tc_priority w
      ∙ ap (give_back (egress_filter i)) h
      ∙ give_back_egress ring link i (optional bpf_object object base)

  release_link-held :
      (link ring : Option ℕ) (w : W) (rest : List Resource)
      → held w ≡ optional ring_buffer ring (optional bpf_link link rest)
      → held (release bpf bpf.destroy_link link w) ≡ optional ring_buffer ring rest
  release_link-held none ring w rest h = h
  release_link-held (some n) ring w rest h =
      ledger.destroy_link_held n w ∙ ap (give_back (bpf_link n)) h ∙ give_back_link ring n rest

  release_ring-held :
      (ring : Option ℕ) (w : W) (rest : List Resource)
      → held w ≡ optional ring_buffer ring rest
      → held (release bpf bpf.free_ring ring w) ≡ rest
  release_ring-held none w rest h = h
  release_ring-held (some n) w rest h =
      ledger.free_ring_held n w ∙ ap (give_back (ring_buffer n)) h ∙ give_back_ring n rest

  release_object-held :
      (object : Option ℕ) (w : W)
      → held w ≡ optional bpf_object object base
      → held (release bpf bpf.close_object object w) ≡ base
  release_object-held none w h = h
  release_object-held (some n) w h =
      ledger.close_object_held n w ∙ ap (give_back (bpf_object n)) h ∙ give_back_object n base

  -- The two steps of `detach_tc` in a row, and the three releases.
  stopped-held :
      (object link ring : Option ℕ) (i : ℕ) (ingress egress : Bool) (w : W)
      → held w
        ≡ owned
            (record {
              object = object;
              disk_link = link;
              ring = ring;
              ifindex = i;
              ingress_attached = ingress;
              egress_attached = egress;
            })
            base
      → held
          (bpf_runtime_stop bpf (record {
            world = w;
            runtime = record {
              object = object;
              disk_link = link;
              ring = ring;
              ifindex = i;
              ingress_attached = ingress;
              egress_attached = egress;
            };
          })).world
        ≡ base
  unfolding bpf_runtime_stop detach_tc
  stopped-held object link ring i true true w h =
      let d1 = detach_ingress-IsAccounted object link ring i true true w h in
      let d2 = detach_egress-IsAccounted object link ring i true _ d1 in
      release_object-held object _ (release_ring-held ring _ _ (release_link-held link ring _ _ d2))
  stopped-held object link ring i true false w h =
      let d1 = detach_ingress-IsAccounted object link ring i true false w h in
      release_object-held object _ (release_ring-held ring _ _ (release_link-held link ring _ _ d1))
  stopped-held object link ring i false true w h =
      let d2 = detach_egress-IsAccounted object link ring i true w h in
      release_object-held object _ (release_ring-held ring _ _ (release_link-held link ring _ _ d2))
  stopped-held object link ring i false false w h =
      release_object-held object _ (release_ring-held ring _ _ (release_link-held link ring _ _ h))

  -- `bpf_runtime_stop` gives back what the record tells.
  pub bpf_runtime_stop-held :
      (l : Live W) → IsAccounted l → held (bpf_runtime_stop bpf l).world ≡ base
  bpf_runtime_stop-held l h =
      stopped-held l.runtime.object l.runtime.disk_link l.runtime.ring l.runtime.ifindex
        l.runtime.ingress_attached l.runtime.egress_attached l.world h
