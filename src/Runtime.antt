-- ===== src/Runtime.antt =====
-- ebpf/src/bpf_runtime.c: loading, attaching and stopping the BPF programs. libbpf is a parameter.
pub mod Maps
pub mod Cleared
pub mod Synced
pub mod Quiet
pub mod Owned
pub mod Started
mod Tests
use ugreen_leds_controller.Prelude.{
  ℕ, ◌+◌, ◌*◌, ◌%◌, ◌^◌, Bool, true, false, ◌&&◌, ◌||◌, not, List, [], Option, none, some, ◌==◌,
  if◌then◌else◌,
}
use ugreen_leds_controller.Status.{Status, ok, err, enoent, enodev, eexist, Op, ◌>>◌}
use ugreen_leds_controller.Env.{Reply, value, failed}
use ugreen_leds_controller.Bpf.{BpfConfig, LedEvent}
use ugreen_leds_controller.Config.{Config, codes}
use ugreen_leds_controller.Kernel.{or_eio}

-- The values that the daemon writes to maps: the configuration, an LED number, a next deadline.
pub data Element : Type 0 where
  configuration : BpfConfig → Element
  led_number : ℕ → Element
  next_emit_ns : ℕ → Element

-- A record of the ring buffer: shorter than an event, or an event.
pub data Sample : Type 0 where
  short_sample : Sample
  sample : LedEvent → Sample

-- libbpf, over the state of the world. Objects, programs, links and rings are numbers; a map is the
-- number that `bpf_map__fd` gives.
pub record Libbpf (W : Type 0) : Type 0 where
  -- `bpf_object__open_file`, or errno
  pub open_object : List ℕ → W → Reply × W
  pub close_object : ℕ → W → W
  pub load_object : ℕ → W → Status × W
  pub find_program : ℕ → List ℕ → W → Option ℕ
  pub find_map : ℕ → List ℕ → W → Option ℕ
  pub set_autoload : ℕ → Bool → W → Status × W
  pub tc_hook_create : (ifindex attach_point : ℕ) → W → Status × W
  pub tc_attach : (ifindex attach_point handle priority program : ℕ) → W → Status × W
  pub tc_detach : (ifindex attach_point handle priority : ℕ) → W → W
  pub if_nametoindex : List ℕ → W → ℕ
  -- `bpf_program__attach_tracepoint` with `libbpf_get_error` of the link
  pub attach_tracepoint : ℕ → List ℕ → List ℕ → W → Reply × W
  pub destroy_link : ℕ → W → W
  -- `ring_buffer__new`, or errno
  pub new_ring : ℕ → W → Reply × W
  pub free_ring : ℕ → W → W
  pub ring_epoll_fd : ℕ → W → ℕ
  -- `ring_buffer__consume`: the samples that the callback gets one after the other, and the result
  pub consume_ring : ℕ → W → (List Sample × Status) × W
  -- `bpf_map_get_next_key(fd, NULL, &key)`, `none` if it does not return 0
  pub first_key : ℕ → W → Option ℕ × W
  pub delete_elem : ℕ → (key : ℕ) → W → Status × W
  pub update_elem : ℕ → (key : ℕ) → Element → W → Status × W

pub record BpfRuntime : Type 0 where
  pub object : Option ℕ
  pub disk_link : Option ℕ
  pub ring : Option ℕ
  pub ifindex : ℕ
  pub ingress_attached : Bool
  pub egress_attached : Bool

abbrev pub zero_runtime : BpfRuntime
zero_runtime = record {
  object = none;
  disk_link = none;
  ring = none;
  ifindex = 0;
  ingress_attached = false;
  egress_attached = false;
}

-- The runtime with the world that its calls change.
pub record Live (W : Type 0) : Type 0 where
  pub runtime : BpfRuntime
  pub world : W

abbrev pub bpf_tc_ingress : ℕ
bpf_tc_ingress = 1

abbrev pub bpf_tc_egress : ℕ
bpf_tc_egress = 2

abbrev pub ugreen_tc_priority : ℕ
ugreen_tc_priority = 49152

abbrev pub bpf_config : Config → BpfConfig
bpf_config c = record {
  network_interval_ns = c.network_interval_ms * 1000000 % 2 ^ 64;
  disk_interval_ns = c.disk_interval_ms * 1000000 % 2 ^ 64;
}

module _ {W : Type 0} (bpf : Libbpf W) where
  abbrev pub with_world : BpfRuntime → Status × W → Status × Live W
  with_world runtime (s, w) = (s, record { runtime = runtime; world = w })

  abbrev pub found : Option ℕ → (ℕ → Op (Live W)) → Op (Live W)
  found none next l = (err enoent, l)
  found (some n) next l = next n l

  unfoldable pub set_autoload : ℕ → List ℕ → Bool → Op (Live W)
  set_autoload object name enabled l =
      found (bpf.find_program object name l.world)
        (λ program l. with_world l.runtime (bpf.set_autoload program enabled l.world)) l

  -- -EEXIST is no error here.
  abbrev pub unless_exists : Status × Live W → Status × Live W
  unless_exists (ok, l) = (ok, l)
  unless_exists (err e, l) = if e == eexist then (ok, l) else (err e, l)

  abbrev pub create_qdisc : Op (Live W)
  create_qdisc l = unless_exists (
      with_world l.runtime
        (bpf.tc_hook_create l.runtime.ifindex (bpf_tc_ingress + bpf_tc_egress) l.world))

  abbrev pub with_ingress : Live W → Live W
  with_ingress l = record l { runtime = record r { ingress_attached = true } }
    where
      r : BpfRuntime
      r = l.runtime

  abbrev pub with_egress : Live W → Live W
  with_egress l = record l { runtime = record r { egress_attached = true } }
    where
      r : BpfRuntime
      r = l.runtime

  abbrev pub mark_ingress : Status × Live W → Status × Live W
  mark_ingress (ok, l) = (ok, with_ingress l)
  mark_ingress (err e, l) = (err e, l)

  abbrev pub mark_egress : Status × Live W → Status × Live W
  mark_egress (ok, l) = (ok, with_egress l)
  mark_egress (err e, l) = (err e, l)

  abbrev pub attach_ingress : ℕ → Op (Live W)
  attach_ingress program l = mark_ingress (
      with_world l.runtime
        (bpf.tc_attach l.runtime.ifindex bpf_tc_ingress 1 ugreen_tc_priority program l.world))

  abbrev pub attach_egress : ℕ → Op (Live W)
  attach_egress program l = mark_egress (
      with_world l.runtime
        (bpf.tc_attach l.runtime.ifindex bpf_tc_egress 2 ugreen_tc_priority program l.world))

  unfoldable pub attach_tc : ℕ → Op (Live W)
  attach_tc object l =
      found (bpf.find_program object (codes "ugreen_network_ingress") l.world)
        (λ ingress.
          found (bpf.find_program object (codes "ugreen_network_egress") l.world)
            (λ egress. create_qdisc >> attach_ingress ingress >> attach_egress egress))
        l

  abbrev pub detach_ingress : Live W → Live W
  detach_ingress l =
      if l.runtime.ingress_attached
      then record {
        runtime = record r { ingress_attached = false };
        world = bpf.tc_detach r.ifindex bpf_tc_ingress 1 ugreen_tc_priority l.world;
      }
      else l
    where
      r : BpfRuntime
      r = l.runtime

  abbrev pub detach_egress : Live W → Live W
  detach_egress l =
      if l.runtime.egress_attached
      then record {
        runtime = record r { egress_attached = false };
        world = bpf.tc_detach r.ifindex bpf_tc_egress 2 ugreen_tc_priority l.world;
      }
      else l
    where
      r : BpfRuntime
      r = l.runtime

  unfoldable pub detach_tc : Live W → Live W
  detach_tc l = detach_egress (detach_ingress l)

  -- `if (pointer) release(pointer);`
  abbrev pub release : (ℕ → W → W) → Option ℕ → W → W
  release give none w = w
  release give (some n) w = give n w

  unfoldable pub bpf_runtime_stop : Live W → Live W
  unfolding detach_tc
  bpf_runtime_stop l =
      let d = detach_tc l in
      let w1 = release bpf.destroy_link d.runtime.disk_link d.world in
      let w2 = release bpf.free_ring d.runtime.ring w1 in
      let w3 = release bpf.close_object d.runtime.object w2 in
      record { runtime = zero_runtime; world = w3 }

  module _ (config : Config) (object : ℕ) where
    abbrev pub load : Op (Live W)
    load l = with_world l.runtime (bpf.load_object object l.world)

    abbrev pub write_config : Op (Live W)
    write_config l =
        found (bpf.find_map object (codes "config_map") l.world)
          (λ fd l.
            with_world l.runtime (bpf.update_elem fd 0 (configuration (bpf_config config)) l.world))
          l

    abbrev pub attach_if_found : Op (Live W)
    attach_if_found l = if l.runtime.ifindex == 0 then (err enodev, l) else attach_tc object l

    abbrev pub start_network : Op (Live W)
    start_network l =
        if config.network_enabled
        then attach_if_found (record l {
          runtime = record r { ifindex = bpf.if_nametoindex config.interface l.world };
        })
        else (ok, l)
      where
        r : BpfRuntime
        r = l.runtime

    abbrev pub keep_link : BpfRuntime → Reply × W → Status × Live W
    keep_link r (failed e, w) =
        (err e, record { runtime = record r { disk_link = none }; world = w })
    keep_link r (value link, w) =
        (ok, record { runtime = record r { disk_link = some link }; world = w })

    abbrev pub start_disks : Op (Live W)
    start_disks l =
        if config.disks_enabled
        then found (bpf.find_program object (codes "ugreen_disk_issue") l.world)
            (λ program l.
              keep_link l.runtime
                (bpf.attach_tracepoint program (codes "block") (codes "block_rq_issue") l.world))
            l
        else (ok, l)

    abbrev pub keep_ring : BpfRuntime → Reply × W → Status × Live W
    keep_ring r (failed e, w) =
        (err (or_eio e), record { runtime = record r { ring = none }; world = w })
    keep_ring r (value ring, w) =
        (ok, record { runtime = record r { ring = some ring }; world = w })

    abbrev pub start_ring : Op (Live W)
    start_ring l =
        found (bpf.find_map object (codes "events") l.world)
          (λ fd l. keep_ring l.runtime (bpf.new_ring fd l.world)) l

    -- From `set_autoload` to the ring buffer; an error leads to `fail`.
    abbrev pub start_object : Op (Live W)
    start_object =
        set_autoload object (codes "ugreen_network_ingress") config.network_enabled
        >> set_autoload object (codes "ugreen_network_egress") config.network_enabled
        >> set_autoload object (codes "ugreen_disk_issue") config.disks_enabled
        >> load
        >> write_config
        >> start_network
        >> start_disks
        >> start_ring

  abbrev pub or_stop : Status × Live W → Status × Live W
  or_stop (ok, l) = (ok, l)
  or_stop (err e, l) = (err e, bpf_runtime_stop l)

  abbrev pub with_object : Config → Reply × W → Status × Live W
  with_object config (failed e, w) = (err (or_eio e), record { runtime = zero_runtime; world = w })
  with_object config (value object, w) = or_stop (
      start_object config object
        (record { runtime = record zero_runtime { object = some object }; world = w }))

  unfoldable pub bpf_runtime_start : Config → W → Status × Live W
  unfolding set_autoload attach_tc bpf_runtime_stop
  bpf_runtime_start config w = with_object config (bpf.open_object config.bpf_object w)

  abbrev pub epoll_fd_of : Option ℕ → W → Option ℕ
  epoll_fd_of none w = none
  epoll_fd_of (some ring) w = some (bpf.ring_epoll_fd ring w)

  -- `none` is -ENOENT, which is no descriptor.
  unfoldable pub bpf_runtime_epoll_fd : BpfRuntime → W → Option ℕ
  bpf_runtime_epoll_fd r w = epoll_fd_of r.ring w

  abbrev pub consumed : Option ℕ → W → (List Sample × Status) × W
  consumed none w = (([], err enoent), w)
  consumed (some ring) w = bpf.consume_ring ring w

  -- The samples go to the callback.
  unfoldable pub bpf_runtime_consume : BpfRuntime → W → (List Sample × Status) × W
  bpf_runtime_consume r w = consumed r.ring w
