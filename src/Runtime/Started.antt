-- ===== src/Runtime/Started.antt =====
-- `bpf_runtime_start` holds exactly what its record says, and every error path gives it back.
use ugreen_leds_controller.Prelude.{
  ℕ, ◌+◌, ◌≡◌, ◌⊎◌, inl, inr, refl, sym, subst, ap, ◌∙◌, Bool, true, false, List, Option, none,
  some, ◌==◌, if◌then◌else◌,
}
use ugreen_leds_controller.Status.{Status, ok, err, eexist, enodev, Op, and_then, ◌>>◌}
use ugreen_leds_controller.Env.{Reply, value, failed}
use ugreen_leds_controller.Config.{Config, codes}
use ugreen_leds_controller.Kernel.{or_eio}
use ugreen_leds_controller.Kernel.Ledger.{Resource, bpf_object, bpf_link, ring_buffer, acquired}
use ugreen_leds_controller.Runtime.{
  Libbpf, BpfRuntime, Live, zero_runtime, bpf_tc_ingress, bpf_tc_egress, ugreen_tc_priority,
  with_world, found, set_autoload, create_qdisc, unless_exists, mark_ingress, mark_egress,
  attach_ingress, attach_egress, attach_tc, bpf_runtime_stop, load, write_config, bpf_config,
  configuration, start_network, keep_link, start_disks, keep_ring, start_ring, start_object,
  or_stop, with_object, bpf_runtime_start,
}
use ugreen_leds_controller.Runtime.Owned.{
  BpfLedger, attached, owned, ingress_filter, egress_filter, IsAccounted, bpf_runtime_stop-held,
}

abbrev pub is_some : Option ℕ → Bool
is_some none = false
is_some (some n) = true

-- The record after each stage of the start.
record IsBare (r : BpfRuntime) : Type 0 where
  no_ring : r.ring ≡ none
  no_link : r.disk_link ≡ none
  no_egress : r.egress_attached ≡ false
  no_ingress : r.ingress_attached ≡ false

record HasIngress (r : BpfRuntime) : Type 0 where
  no_ring : r.ring ≡ none
  no_link : r.disk_link ≡ none
  no_egress : r.egress_attached ≡ false
  ingress : r.ingress_attached ≡ true

record HasNetwork (config : Config) (r : BpfRuntime) : Type 0 where
  no_ring : r.ring ≡ none
  no_link : r.disk_link ≡ none
  egress : r.egress_attached ≡ config.network_enabled
  ingress : r.ingress_attached ≡ config.network_enabled

record HasDisks (config : Config) (r : BpfRuntime) : Type 0 where
  no_ring : r.ring ≡ none
  link : is_some r.disk_link ≡ config.disks_enabled
  egress : r.egress_attached ≡ config.network_enabled
  ingress : r.ingress_attached ≡ config.network_enabled

-- A ring buffer, and the programs of the collectors that are enabled.
pub record IsRunning (config : Config) (r : BpfRuntime) : Type 0 where
  pub ring : is_some r.ring ≡ true
  pub link : is_some r.disk_link ≡ config.disks_enabled
  pub egress : r.egress_attached ≡ config.network_enabled
  pub ingress : r.ingress_attached ≡ config.network_enabled

module _ {W : Type 0} (bpf : Libbpf W) (held : W → List Resource) (ledger : BpfLedger bpf held)
    (base : List Resource) where
  abbrev Accounted : Live W → Type 0
  Accounted = IsAccounted bpf held ledger base

  -- A step of the start: what is held stays accounted for, and if the result is 0 the stage is
  -- reached.
  record To (Stage : BpfRuntime → Type 0) (result : Status × Live W) : Type 0 where
    accounted : Accounted result.1
    reached : result.0 ≡ ok → Stage result.1.runtime

  and_then-To :
      (S T : BpfRuntime → Type 0) (first : Status × Live W) (k : Op (Live W))
      → To S first
      → ((l : Live W) → S l.runtime → Accounted l → To T (k l))
      → To T (and_then first k)
  and_then-To S T (ok, l) k h next = next l (h.reached refl) h.accounted
  and_then-To S T (err e, l) k h next = record { accounted = h.accounted; reached = λ x. cc }

  >>-To :
      (S T : BpfRuntime → Type 0) (m k : Op (Live W)) (l : Live W)
      → To S (m l)
      → ((l : Live W) → S l.runtime → Accounted l → To T (k l))
      → To T ((m >> k) l)
  >>-To S T m k l h next = and_then-To S T (m l) k h next

  -- A call that acquires nothing.
  quiet-To :
      (S : BpfRuntime → Type 0) (l : Live W) (r : Status × W)
      → S l.runtime
      → Accounted l
      → held r.1 ≡ held l.world
      → To S (with_world bpf l.runtime r)
  quiet-To S l r stage acc same = record { accounted = same ∙ acc; reached = λ e. stage }

  error-To : (S : BpfRuntime → Type 0) (e : ℕ) (l : Live W) → Accounted l → To S (err e, l)
  error-To S e l acc = record { accounted = acc; reached = λ x. cc }

  found-To :
      (S : BpfRuntime → Type 0) (o : Option ℕ) (next : ℕ → Op (Live W)) (l : Live W)
      → Accounted l
      → ((n : ℕ) → To S (next n l))
      → To S (found bpf o next l)
  found-To S none next l acc h = error-To S _ l acc
  found-To S (some n) next l acc h = h n

  set_autoload-To :
      (object : ℕ) (name : List ℕ) (b : Bool) (l : Live W)
      → IsBare l.runtime
      → Accounted l
      → To IsBare (set_autoload bpf object name b l)
  unfolding set_autoload
  set_autoload-To object name b l bare acc =
      found-To IsBare (bpf.find_program object name l.world) _ l acc (λ n.
        quiet-To IsBare l (bpf.set_autoload n b l.world) bare acc
          (ledger.set_autoload_held n b l.world))

  load-To :
      (config : Config) (object : ℕ) (l : Live W)
      → IsBare l.runtime
      → Accounted l
      → To IsBare (load bpf config object l)
  load-To config object l bare acc =
      quiet-To IsBare l _ bare acc (ledger.load_object_held object l.world)

  write_config-To :
      (config : Config) (object : ℕ) (l : Live W)
      → IsBare l.runtime
      → Accounted l
      → To IsBare (write_config bpf config object l)
  write_config-To config object l bare acc =
      found-To IsBare (bpf.find_map object (codes "config_map") l.world) _ l acc (λ fd.
        quiet-To IsBare l _ bare acc
          (ledger.update_elem_held fd 0 (configuration (bpf_config config)) l.world))

  unless_exists-To :
      (S : BpfRuntime → Type 0) (result : Status × Live W)
      → S result.1.runtime
      → Accounted result.1
      → To S (unless_exists bpf result)
  unless_exists-To S (ok, l) stage acc = record { accounted = acc; reached = λ x. stage }
  unless_exists-To S (err e, l) stage acc = either (e == eexist)
    where
      either : (b : Bool) → To S (if b then (ok, l) else (err e, l))
      either true = record { accounted = acc; reached = λ x. stage }
      either false = error-To S e l acc

  mark_ingress-To :
      (r : BpfRuntime) (s : Status) (w : W)
      → IsBare r
      → held w ≡ attached s (ingress_filter r.ifindex) (owned r base)
      → To HasIngress (mark_ingress bpf (s, record { runtime = r; world = w }))
  mark_ingress-To r ok w bare h = record {
    accounted =
        let before = rw (bare.no_ring, bare.no_link, bare.no_egress, bare.no_ingress) at h in
        rw (bare.no_ring, bare.no_link, bare.no_egress) before;
    reached = λ x. record {
      no_ring = bare.no_ring;
      no_link = bare.no_link;
      no_egress = bare.no_egress;
      ingress = refl;
    };
  }
  mark_ingress-To r (err e) w bare h = error-To HasIngress e _ h

  mark_egress-To :
      (config : Config) (r : BpfRuntime) (s : Status) (w : W)
      → config.network_enabled ≡ true
      → HasIngress r
      → held w ≡ attached s (egress_filter r.ifindex) (owned r base)
      → To (HasNetwork config) (mark_egress bpf (s, record { runtime = r; world = w }))
  mark_egress-To config r ok w on has h = record {
    accounted =
        let before = rw (has.no_ring, has.no_link, has.no_egress) at h in
        rw (has.no_ring, has.no_link) before;
    reached = λ x. record {
      no_ring = has.no_ring;
      no_link = has.no_link;
      egress = sym on;
      ingress = has.ingress ∙ sym on;
    };
  }
  mark_egress-To config r (err e) w on has h = error-To (HasNetwork config) e _ h

  attached_on :
      (s : Status) (r : Resource) (w : W) (before : List Resource)
      → held w ≡ attached s r before
      → (xs : List Resource) → before ≡ xs
      → held w ≡ attached s r xs
  attached_on s r w before h xs e = subst (λ ys. held w ≡ attached s r ys) e h

  attach_tc-To :
      (config : Config) (object : ℕ) (l : Live W)
      → config.network_enabled ≡ true
      → IsBare l.runtime
      → Accounted l
      → To (HasNetwork config) (attach_tc bpf object l)
  unfolding attach_tc
  attach_tc-To config object l on bare acc =
      found-To (HasNetwork config)
        (bpf.find_program object (codes "ugreen_network_ingress") l.world) _ l acc
        (λ ingress.
          found-To (HasNetwork config)
            (bpf.find_program object (codes "ugreen_network_egress") l.world) _ l acc
            (λ egress.
              >>-To HasIngress (HasNetwork config) (create_qdisc bpf >> attach_ingress bpf ingress)
                (attach_egress bpf egress) l
                (>>-To IsBare HasIngress (create_qdisc bpf) (attach_ingress bpf ingress) l
                  (unless_exists-To IsBare
                    (with_world bpf l.runtime (
                      bpf.tc_hook_create l.runtime.ifindex (bpf_tc_ingress + bpf_tc_egress)
                        l.world))
                    bare
                    (ledger.tc_hook_create_held l.runtime.ifindex (bpf_tc_ingress + bpf_tc_egress)
                        l.world
                      ∙ acc))
                  (λ t bare_t acc_t.
                    let call =
                      bpf.tc_attach t.runtime.ifindex bpf_tc_ingress 1 ugreen_tc_priority ingress
                        t.world in
                    mark_ingress-To t.runtime call.0 call.1 bare_t (
                      attached_on call.0 (ingress_filter t.runtime.ifindex) call.1 (held t.world)
                        (ledger.tc_attach_held t.runtime.ifindex bpf_tc_ingress 1 ugreen_tc_priority
                          ingress t.world)
                        (owned t.runtime base) acc_t)))
                (λ t has_t acc_t.
                  let call =
                    bpf.tc_attach t.runtime.ifindex bpf_tc_egress 2 ugreen_tc_priority egress
                      t.world in
                  mark_egress-To config t.runtime call.0 call.1 on has_t (
                    attached_on call.0 (egress_filter t.runtime.ifindex) call.1 (held t.world)
                      (ledger.tc_attach_held t.runtime.ifindex bpf_tc_egress 2 ugreen_tc_priority
                        egress t.world)
                      (owned t.runtime base) acc_t))))

  either-To :
      (S : BpfRuntime → Type 0) (b : Bool) (x y : Status × Live W)
      → (b ≡ true → To S x)
      → (b ≡ false → To S y)
      → To S (if b then x else y)
  either-To S true x y h k = h refl
  either-To S false x y h k = k refl

  with_ifindex-Accounted :
      (l : Live W) (i : ℕ)
      → IsBare l.runtime
      → Accounted l
      → Accounted (record { world = l.world; runtime = record l.runtime { ifindex = i } })
  with_ifindex-Accounted l i bare acc =
      let before = rw (bare.no_ring, bare.no_link, bare.no_egress, bare.no_ingress) at acc in
      rw (bare.no_ring, bare.no_link, bare.no_egress, bare.no_ingress) before

  start_network-To :
      (config : Config) (object : ℕ) (l : Live W)
      → IsBare l.runtime
      → Accounted l
      → To (HasNetwork config) (start_network bpf config object l)
  start_network-To config object l bare acc =
      let i = bpf.if_nametoindex config.interface l.world in
      let named : Live W = record { world = l.world; runtime = record l.runtime { ifindex = i } } in
      let named_acc = with_ifindex-Accounted l i bare acc in
      either-To (HasNetwork config) config.network_enabled _ (ok, l)
        (λ on.
          either-To (HasNetwork config) (i == 0) (err enodev, named) (attach_tc bpf object named)
            (λ none_such. error-To (HasNetwork config) enodev named named_acc)
            (λ some_such.
              attach_tc-To config object named on
                (record {
                  no_ring = bare.no_ring;
                  no_link = bare.no_link;
                  no_egress = bare.no_egress;
                  no_ingress = bare.no_ingress;
                })
                named_acc))
        (λ off. record {
          accounted = acc;
          reached = λ x. record {
            no_ring = bare.no_ring;
            no_link = bare.no_link;
            egress = bare.no_egress ∙ sym off;
            ingress = bare.no_ingress ∙ sym off;
          };
        })

  keep_link-To :
      (config : Config) (object : ℕ) (r : BpfRuntime) (reply : Reply) (w : W)
      → config.disks_enabled ≡ true
      → HasNetwork config r
      → held w ≡ acquired bpf_link reply (owned r base)
      → To (HasDisks config) (keep_link bpf config object r (reply, w))
  keep_link-To config object r (failed e) w on has h = record {
    accounted = let before = rw (has.no_ring, has.no_link) at h in rw (has.no_ring) before;
    reached = λ x. cc;
  }
  keep_link-To config object r (value n) w on has h = record {
    accounted = let before = rw (has.no_ring, has.no_link) at h in rw (has.no_ring) before;
    reached = λ x. record {
      no_ring = has.no_ring;
      link = sym on;
      egress = has.egress;
      ingress = has.ingress;
    };
  }

  keep_ring-To :
      (config : Config) (object : ℕ) (r : BpfRuntime) (reply : Reply) (w : W)
      → HasDisks config r
      → held w ≡ acquired ring_buffer reply (owned r base)
      → To (IsRunning config) (keep_ring bpf config object r (reply, w))
  keep_ring-To config object r (failed e) w has h = record {
    accounted = rw (has.no_ring) at h;
    reached = λ x. cc;
  }
  keep_ring-To config object r (value n) w has h = record {
    accounted = rw (has.no_ring) at h;
    reached =
        λ x. record { ring = refl; link = has.link; egress = has.egress; ingress = has.ingress };
  }

  acquired_on :
      (kind : ℕ → Resource) (reply : Reply) (w : W) (before xs : List Resource)
      → held w ≡ acquired kind reply before
      → before ≡ xs
      → held w ≡ acquired kind reply xs
  acquired_on kind reply w before xs h e = subst (λ ys. held w ≡ acquired kind reply ys) e h

  start_disks-To :
      (config : Config) (object : ℕ) (l : Live W)
      → HasNetwork config l.runtime
      → Accounted l
      → To (HasDisks config) (start_disks bpf config object l)
  start_disks-To config object l has acc =
      either-To (HasDisks config) config.disks_enabled _ (ok, l)
        (λ on.
          found-To (HasDisks config) (bpf.find_program object (codes "ugreen_disk_issue") l.world) _
            l acc
            (λ n.
              let call = bpf.attach_tracepoint n (codes "block") (codes "block_rq_issue") l.world in
              keep_link-To config object l.runtime call.0 call.1 on has (
                acquired_on bpf_link call.0 call.1 (held l.world) (owned l.runtime base)
                  (ledger.attach_tracepoint_held n (codes "block") (codes "block_rq_issue") l.world)
                  acc)))
        (λ off. record {
          accounted = acc;
          reached = λ x. record {
            no_ring = has.no_ring;
            link = ap is_some has.no_link ∙ sym off;
            egress = has.egress;
            ingress = has.ingress;
          };
        })

  start_ring-To :
      (config : Config) (object : ℕ) (l : Live W)
      → HasDisks config l.runtime
      → Accounted l
      → To (IsRunning config) (start_ring bpf config object l)
  start_ring-To config object l has acc =
      found-To (IsRunning config) (bpf.find_map object (codes "events") l.world) _ l acc (λ fd.
        let call = bpf.new_ring fd l.world in
        keep_ring-To config object l.runtime call.0 call.1 has (
          acquired_on ring_buffer call.0 call.1 (held l.world) (owned l.runtime base)
            (ledger.new_ring_held fd l.world) acc))

  start_object-To :
      (config : Config) (object : ℕ) (l : Live W)
      → IsBare l.runtime
      → Accounted l
      → To (IsRunning config) (start_object bpf config object l)
  start_object-To config object l bare acc =
      let a1 = set_autoload bpf object (codes "ugreen_network_ingress") config.network_enabled in
      let a2 = set_autoload bpf object (codes "ugreen_network_egress") config.network_enabled in
      let a3 = set_autoload bpf object (codes "ugreen_disk_issue") config.disks_enabled in
      let load_it = load bpf config object in
      let write_it = write_config bpf config object in
      let network = start_network bpf config object in
      let disks = start_disks bpf config object in
      let set_it = set_autoload-To object in
      >>-To (HasDisks config) (IsRunning config)
        (a1 >> a2 >> a3 >> load_it >> write_it >> network >> disks) (start_ring bpf config object) l
        (>>-To (HasNetwork config) (HasDisks config)
          (a1 >> a2 >> a3 >> load_it >> write_it >> network) disks l
          (>>-To IsBare (HasNetwork config) (a1 >> a2 >> a3 >> load_it >> write_it) network l
            (>>-To IsBare IsBare (a1 >> a2 >> a3 >> load_it) write_it l
              (>>-To IsBare IsBare (a1 >> a2 >> a3) load_it l
                (>>-To IsBare IsBare (a1 >> a2) a3 l
                  (>>-To IsBare IsBare a1 a2 l (set_it _ _ l bare acc) (set_it _ _)) (set_it _ _))
                (load-To config object))
              (write_config-To config object))
            (start_network-To config object))
          (start_disks-To config object))
        (start_ring-To config object)

  -- The collectors run, and the record tells all that is held.
  pub record Starts (config : Config) (result : Status × Live W) : Type 0 where
    pub returns_ok : result.0 ≡ ok
    pub running : IsRunning config result.1.runtime
    pub accounted : Accounted result.1

  -- An error, with an empty record and nothing held.
  pub record Fails (result : Status × Live W) : Type 0 where
    pub error : ℕ
    pub returns_error : result.0 ≡ err error
    pub empty : result.1.runtime ≡ zero_runtime
    pub holds : held result.1.world ≡ base

  abbrev pub StartOutcome : Config → Status × Live W → Type 0
  StartOutcome config result = Starts config result ⊎ Fails result

  or_stop-outcome :
      (config : Config) (result : Status × Live W)
      → To (IsRunning config) result
      → StartOutcome config (or_stop bpf result)
  unfolding bpf_runtime_stop
  or_stop-outcome config (ok, l) h =
      inl (record { returns_ok = refl; running = h.reached refl; accounted = h.accounted })
  or_stop-outcome config (err e, l) h = inr (record {
    error = e;
    returns_error = refl;
    empty = refl;
    holds = bpf_runtime_stop-held bpf held ledger base l h.accounted;
  })

  with_object-outcome :
      (config : Config) (reply : Reply) (w : W)
      → held w ≡ acquired bpf_object reply base
      → StartOutcome config (with_object bpf config (reply, w))
  with_object-outcome config (failed e) w h =
      inr (record { error = or_eio e; returns_error = refl; empty = refl; holds = h })
  with_object-outcome config (value n) w h = or_stop-outcome config _ (
      start_object-To config n
        (record { runtime = record zero_runtime { object = some n }; world = w })
        (record { no_ring = refl; no_link = refl; no_egress = refl; no_ingress = refl }) h)

-- Whatever libbpf returns: `bpf_runtime_start` either returns 0 with a ring buffer and with the two
-- network filters and the disk link attached just where the configuration enables them, and the
-- record tells all that is newly held; or it returns an error with a cleared record, and the BPF
-- object, the filters, the link and the ring buffer that it acquired are given back.
pub bpf_runtime_start-outcome :
    {W : Type 0} (bpf : Libbpf W) (held : W → List Resource) (ledger : BpfLedger bpf held)
    (config : Config) (w : W)
    → StartOutcome bpf held ledger (held w) config (bpf_runtime_start bpf config w)
unfolding bpf_runtime_start
bpf_runtime_start-outcome bpf held ledger config w =
    let object = bpf.open_object config.bpf_object w in
    with_object-outcome bpf held ledger (held w) config object.0 object.1
      (ledger.open_object_held config.bpf_object w)
