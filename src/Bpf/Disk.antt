-- ===== src/Bpf/Disk.antt =====
-- ebpf/bpf/disk.bpf.c: `ugreen_disk_issue` on several CPUs at once. A run of the program has two
-- atomic steps: it looks up its maps and reads the clock and the deadline; then it swaps the
-- deadline if it is still the one it read. The steps of all CPUs interleave. An event of the model is
-- a call of `bpf_ringbuf_output`, which a full ring buffer refuses; the result is ignored.
use ugreen_leds_controller.Prelude.{
  ℕ, ◌%◌, ◌+◌, Bool, ◌||◌, List, [], ◌∷◌, Option, none, some, ◌==◌, leb, if◌then◌else◌,
}
use ugreen_leds_controller.Bpf.{u64, LedEvent, BpfConfig, event_disk, disk_interval}

-- Where a run of the program is: not running, or with the swap before it.
pub data Phase : Type 0 where
  idle : Phase
  swapping : (led_id dev now old_deadline : ℕ) → Phase

-- The maps, the runs by CPU, and the events, the newest first.
pub record System : Type 0 where
  pub targets : ℕ → Option ℕ
  pub states : ℕ → Option ℕ
  pub cpus : ℕ → Phase
  pub events : List LedEvent

-- One atomic step of a CPU: `issue` for a request to device `dev` at time `now`, then `swap`.
pub data Step : Type 0 where
  issue : (cpu dev now : ℕ) → Step
  swap : (cpu : ℕ) → Step

abbrev pub at {ℓ} : {A : Type ℓ} → (ℕ → A) → ℕ → A → ℕ → A
at f i v j = if j == i then v else f j

-- `!old_deadline || now >= old_deadline`
abbrev pub due : ℕ → ℕ → Bool
due now old_deadline = old_deadline == 0 || leb old_deadline now

abbrev pub look_up : ℕ → ℕ → Option ℕ → Option ℕ → Phase
look_up dev now none state = idle
look_up dev now (some led_id) none = idle
look_up dev now (some led_id) (some old_deadline) =
    if due now old_deadline then swapping led_id dev now old_deadline else idle

abbrev pub disk_event : (led_id dev now : ℕ) → LedEvent
disk_event led_id dev now = record {
  timestamp_ns = now;
  first_bytes = 0;
  second_bytes = 0;
  source = dev;
  kind = event_disk;
  led_id = led_id;
}

-- A program is not entered again on a CPU that still runs it.
abbrev pub enter : Phase → Phase → Phase
enter idle next = next
enter (swapping led_id dev now old_deadline) next = swapping led_id dev now old_deadline

-- `__sync_val_compare_and_swap(&state->next_emit_ns, ...)` and the output behind it, given the
-- value that the deadline has now.
unfoldable pub swap_deadline :
    Option BpfConfig → (led_id dev now old_deadline : ℕ) → Option ℕ → System → System
swap_deadline config led_id dev now old_deadline none s = s
swap_deadline config led_id dev now old_deadline (some deadline) s =
    if deadline == old_deadline
    then record s {
      states = at s.states dev (some (u64 (now + disk_interval config)));
      events = disk_event (led_id % 256) dev now ∷ s.events;
    }
    else s

unfoldable pub compare_and_swap : Option BpfConfig → Phase → System → System
unfolding swap_deadline
compare_and_swap config idle s = s
compare_and_swap config (swapping led_id dev now old_deadline) s =
    swap_deadline config led_id dev now old_deadline (s.states dev) s

unfoldable pub disk_step : Option BpfConfig → Step → System → System
unfolding compare_and_swap
disk_step config (issue cpu dev now) s = record s {
  cpus = at s.cpus cpu (enter (s.cpus cpu) (look_up dev now (s.targets dev) (s.states dev)));
}
disk_step config (swap cpu) s =
    let t = compare_and_swap config (s.cpus cpu) s in record t { cpus = at t.cpus cpu idle }

unfoldable pub disk_steps : Option BpfConfig → List Step → System → System
disk_steps config [] s = s
disk_steps config (x ∷ xs) s = disk_steps config xs (disk_step config x s)
