-- ===== src/Runtime/Cleared.antt =====
-- What libbpf promises of the maps, and what `clear_map` makes of it.
use ugreen_leds_controller.Prelude.{
  ℕ, zero, suc, ◌<◌, ◌≡◌, ◌≢◌, ◌⊎◌, inl, inr, refl, ap, subst, ◌∙◌, arith, true, false, Option,
  none, some, ◌==◌, ==_iff, ℕ_discrete,
}
use ugreen_leds_controller.Status.{Status, ok, err, enoent}
use ugreen_leds_controller.Runtime.{Libbpf, Element}
use ugreen_leds_controller.Runtime.Maps.{deleted, with_key, clear_loop}

-- The maps as libbpf and the kernel promise them; nobody else adds entries. `lookup` is the value of a
-- key and `size` the number of entries.
pub record MapLaws {W : Type 0} (bpf : Libbpf W) : Type 0 where
  pub lookup : (fd : ℕ) → W → ℕ → Option Element
  pub size : ℕ → W → ℕ
  pub first_key_keeps :
      (fd g : ℕ) (w : W)
      → (lookup g (bpf.first_key fd w).1 ≡ lookup g w) × (size g (bpf.first_key fd w).1 ≡ size g w)
  pub first_key_none :
      (fd : ℕ) (w : W) (k : ℕ) → (bpf.first_key fd w).0 ≡ none → lookup fd w k ≡ none
  -- a key that was listed is gone behind its deletion: by this call, or, where that ends with
  -- ENOENT, by another removal in between; and it does not come back
  pub delete_shrinks :
      (fd k : ℕ) (w : W)
      → (bpf.first_key fd w).0 ≡ some k
      → let call = bpf.delete_elem fd k (bpf.first_key fd w).1 in
        (call.0 ≡ ok) ⊎ (call.0 ≡ err enoent) → size fd call.1 < size fd w
  pub delete_elsewhere :
      (fd k g : ℕ) (w : W)
      → g ≢ fd
      → (lookup g (bpf.delete_elem fd k w).1 ≡ lookup g w)
        × (size g (bpf.delete_elem fd k w).1 ≡ size g w)
  pub update_sets :
      (fd k : ℕ) (e : Element) (w : W)
      → (bpf.update_elem fd k e w).0 ≡ ok
      → lookup fd (bpf.update_elem fd k e w).1 k ≡ some e
  pub update_keeps :
      (fd k j : ℕ) (e : Element) (w : W)
      → j ≢ k
      → lookup fd (bpf.update_elem fd k e w).1 j ≡ lookup fd w j
  pub update_elsewhere :
      (fd k g : ℕ) (e : Element) (w : W)
      → g ≢ fd
      → lookup g (bpf.update_elem fd k e w).1 ≡ lookup g w

module _ {W : Type 0} (bpf : Libbpf W) (laws : MapLaws bpf) where
  open laws use {lookup, size}

  -- A deletion of a key that the map lists fails with `e`, which is not ENOENT, and is the last call.
  pub record DeleteFails (fd e : ℕ) (after : W) : Type 0 where
    pub at : W
    pub key : ℕ
    pub listed : (bpf.first_key fd at).0 ≡ some key
    pub fails : (bpf.delete_elem fd key (bpf.first_key fd at).1).0 ≡ err e
    pub leaves : (bpf.delete_elem fd key (bpf.first_key fd at).1).1 ≡ after
    pub is_error : e ≢ enoent

  -- What the result says: 0 that the map is empty, an error that a deletion failed with it.
  abbrev pub Explained : ℕ → Status → W → Type 0
  Explained fd ok after = (k : ℕ) → lookup fd after k ≡ none
  Explained fd (err e) after = DeleteFails fd e after

  -- The loop returns, with a result that is explained; the other maps are as they were.
  pub record Cleared (fd : ℕ) (w : W) (result : Option (Status × W)) : Type 0 where
    pub status : Status
    pub after : W
    pub returns : result ≡ some (status, after)
    pub explained : Explained fd status after
    pub elsewhere : (g : ℕ) → g ≢ fd → (lookup g after ≡ lookup g w) × (size g after ≡ size g w)

  pub Explained-ok :
      (fd : ℕ) (s : Status) (after : W)
      → Explained fd s after
      → s ≡ ok
      → (k : ℕ) → lookup fd after k ≡ none
  Explained-ok fd ok after h e k = h k
  Explained-ok fd (err n) after h e k = absurd (cc)

  Cleared-after :
      (fd : ℕ) (v w : W) (result : Option (Status × W))
      → ((g : ℕ) → g ≢ fd → (lookup g w ≡ lookup g v) × (size g w ≡ size g v))
      → Cleared fd w result
      → Cleared fd v result
  Cleared-after fd v w result same h = record {
    status = h.status;
    after = h.after;
    returns = h.returns;
    explained = h.explained;
    elsewhere =
        λ g ne. ((h.elsewhere g ne).0 ∙ (same g ne).0, (h.elsewhere g ne).1 ∙ (same g ne).1);
  }

  deleted-Cleared :
      (fd : ℕ) (v : W) (rest : W → Option (Status × W)) (s : Status) (w : W)
      → ((g : ℕ) → g ≢ fd → (lookup g w ≡ lookup g v) × (size g w ≡ size g v))
      → ((s ≡ ok) ⊎ (s ≡ err enoent) → Cleared fd w (rest w))
      → ((e : ℕ) → s ≡ err e → e ≢ enoent → DeleteFails fd e w)
      → Cleared fd v (deleted bpf rest (s, w))
  deleted-Cleared fd v rest ok w same next fails = Cleared-after fd v w _ same (next (inl refl))
  deleted-Cleared fd v rest (err e) w same next fails = elim (ℕ_discrete e enoent) [
    | yes gone ↦
        let absent : (e == enoent) ≡ true = (==_iff e enoent).1 gone in
        rw absent (Cleared-after fd v w _ same (next (inr (ap err gone))))
    | no ne ↦
        let other : (e == enoent) ≡ false = ground arith in
        rw other (record {
          status = err e;
          after = w;
          returns = refl;
          explained = fails e refl ne;
          elsewhere = same;
        })
  ]

  with_key-Cleared :
      (fd : ℕ) (v : W) (rest : W → Option (Status × W)) (key : Option ℕ) (w : W)
      → bpf.first_key fd v ≡ (key, w)
      → ((g : ℕ) → (lookup g w ≡ lookup g v) × (size g w ≡ size g v))
      → ((w' : W) → size fd w' < size fd v → Cleared fd w' (rest w'))
      → Cleared fd v (with_key bpf rest fd (key, w))
  with_key-Cleared fd v rest none w is same next = record {
    status = ok;
    after = w;
    returns = refl;
    explained = λ k.
        ap (λ (f : ℕ → Option Element). f k) (same fd).0
        ∙ laws.first_key_none fd v k (ap (λ (r : Option ℕ × W). r.0) is);
    elsewhere = λ g ne. same g;
  }
  with_key-Cleared fd v rest (some k) w is same next =
      let gone = bpf.delete_elem fd k w in
      let listed : (bpf.first_key fd v).0 ≡ some k = ap (λ (r : Option ℕ × W). r.0) is in
      let call : bpf.delete_elem fd k (bpf.first_key fd v).1 ≡ gone =
        ap (λ (r : Option ℕ × W). bpf.delete_elem fd k r.1) is in
      Cleared-after fd v w _ (λ g ne. same g)
        (deleted-Cleared fd w rest gone.0 gone.1 (λ g ne. laws.delete_elsewhere fd k g w ne)
          (λ done. next gone.1 (
            subst (λ (r : Status × W). (r.0 ≡ ok) ⊎ (r.0 ≡ err enoent) → size fd r.1 < size fd v)
              call (laws.delete_shrinks fd k v listed) done))
          (λ e failed ne. record {
            at = v;
            key = k;
            listed = listed;
            fails = ap (λ (r : Status × W). r.0) call ∙ failed;
            leaves = ap (λ (r : Status × W). r.1) call;
            is_error = ne;
          }))

  -- `clear_map` ends within one round more than the map has entries. It returns 0 with the map empty,
  -- or the error with which the deletion of a listed key failed, never ENOENT, and stops there. The other maps keep
  -- their entries.
  pub clear_loop-Cleared :
      (fuel fd : ℕ) (w : W) → size fd w < fuel → Cleared fd w (clear_loop bpf fuel fd w)
  unfolding clear_loop
  clear_loop-Cleared zero fd w enough = absurd (omega arith)
  clear_loop-Cleared (suc fuel) fd w enough =
      let first = bpf.first_key fd w in
      with_key-Cleared fd w (clear_loop bpf fuel fd) first.0 first.1 refl
        (λ g. laws.first_key_keeps fd g w)
        (λ w' smaller. clear_loop-Cleared fuel fd w' (omega (arith, smaller, enough)))
