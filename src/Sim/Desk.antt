-- ===== src/Sim/Desk.antt =====
-- A kernel and a libbpf for the tests: one I2C adapter, one disk, and calls that work. `change` is
-- what a world keeps of what is held.
use ugreen_leds_controller.Prelude.{
  ℕ, ◌≡◌, refl, true, false, List, [], ◌∷◌, none, some, if◌then◌else◌, inl,
}
use ugreen_leds_controller.Types.{rgb}
use ugreen_leds_controller.Status.{ok, err, eio, eagain, eexist}
use ugreen_leds_controller.Env.{Env, value, failed}
use ugreen_leds_controller.Config.{codes}
use ugreen_leds_controller.Controller.Protocol.{Mcu, dark}
use ugreen_leds_controller.DiskLed.Layout.{starts_with}
use ugreen_leds_controller.DiskLed.Discovery.{Formats}
use ugreen_leds_controller.Kernel.{Kernel, stream, listing, not_received, signal, polled}
use ugreen_leds_controller.Kernel.Ledger.{
  Ledger, Resource, descriptor, open_stream, open_directory, bpf_object, bpf_link, ring_buffer,
  tc_filter, give_back, closed,
}
use ugreen_leds_controller.Runtime.{Libbpf}
use ugreen_leds_controller.Runtime.Owned.{BpfLedger}

abbrev lines_of : List ℕ → List (List ℕ)
lines_of path =
    if starts_with path (codes "/sys/class/i2c-dev")
    then codes "SMBus I801 adapter at efa0" ∷ []
    else codes "8:0" ∷ []

abbrev names_of : List ℕ → List (List ℕ)
names_of path =
    if starts_with path (codes "/sys/class/i2c-dev")
    then codes "." ∷ codes "i2c-1" ∷ []
    else codes ".." ∷ codes "sda" ∷ []

abbrev pub desk_kernel : {W : Type 0} → ((List Resource → List Resource) → W → W) → Kernel W
desk_kernel change = record {
  fopen = λ path w. (stream 4 (lines_of path) ok, change (◌∷◌ (open_stream 4)) w);
  fclose = λ n w. change (give_back (open_stream n)) w;
  opendir = λ path w. (listing 5 (names_of path), change (◌∷◌ (open_directory 5)) w);
  closedir = λ n w. change (give_back (open_directory n)) w;
  open_file = λ path w. (value 3, change (◌∷◌ (descriptor 3)) w);
  set_slave = λ fd address w. (err eio, w);
  realpath = λ path w. some path;
  exists = λ path w. false;
  socket = λ w. (value 6, change (◌∷◌ (descriptor 6)) w);
  bind = λ n w. (ok, w);
  recv = λ fd size w. (not_received eagain, w);
  setrlimit = λ w. (ok, w);
  sigprocmask = λ w. (ok, w);
  signalfd = λ w. (value 8, change (◌∷◌ (descriptor 8)) w);
  read_signal = λ fd w. (signal 15, w);
  poll = λ a b c d e w. (
    polled (record { readable = true; broken = false })
        (record { readable = false; broken = false }) (record { readable = false; broken = false })
        (record { readable = false; broken = false }) (record { readable = true; broken = false }),
    w,
  );
}

abbrev pub formats : Formats
formats = record {
  dev_numbers = λ text. some (8, 0);
  show_unsigned = λ n. [];
  scan = record { hctl = λ text. none; ata = λ text. some 1 };
}

-- A world that is what is held. The MCU does not answer.
abbrev pub desk : Env
desk = record {
  World = List Resource;
  smbus_write = λ fd register block w. (err eio, w);
  smbus_read_byte = λ fd register w. (failed eio, w);
  usleep = λ n w. (ok, w);
  timerfd_create = λ w. (value 7, descriptor 7 ∷ w);
  timerfd_settime = λ fd flags t w. (ok, w);
  timerfd_read = λ fd w. (ok, w);
  clock_gettime = λ w. (none, w);
  close = closed;
}

pub no_answer : err eio ≡ ok → ⊥
no_answer h = cc

abbrev pub desk_mcu : Mcu desk
desk_mcu = record {
  shown = λ w i. record { color = rgb 255 255 255; brightness = 128; light = dark };
  write_effect = λ fd register block w i. inl refl;
  ack_effect = λ fd register block w n v sent answered. absurd (no_answer sent);
  read_keeps = λ fd register w i. refl;
  sleep_keeps = λ n w i. refl;
  sleep_interrupted = λ n w h. refl;
}

abbrev pub changed : (List Resource → List Resource) → List Resource → List Resource
changed f w = f w

abbrev pub held_kernel : Kernel (List Resource)
held_kernel = desk_kernel changed

abbrev pub desk_ledger : Ledger desk held_kernel
desk_ledger = record {
  held = λ w. w;
  write_held = λ fd register block w. refl;
  read_held = λ fd register w. refl;
  usleep_held = λ n w. refl;
  timerfd_create_held = λ w. refl;
  timerfd_settime_held = λ fd flags t w. refl;
  timerfd_read_held = λ fd w. refl;
  clock_gettime_held = λ w. refl;
  close_held = λ fd w. refl;
  fopen_held = λ path w. refl;
  fclose_held = λ n w. refl;
  opendir_held = λ path w. refl;
  closedir_held = λ n w. refl;
  open_file_held = λ path w. refl;
  set_slave_held = λ fd address w. refl;
  socket_held = λ w. refl;
  bind_held = λ n w. refl;
  recv_held = λ fd size w. refl;
  setrlimit_held = λ w. refl;
  sigprocmask_held = λ w. refl;
  signalfd_held = λ w. refl;
  read_signal_held = λ fd w. refl;
  poll_held = λ a b c d e w. refl;
}

-- Everything is found and works, but for the ring buffer.
abbrev pub desk_bpf : {W : Type 0} → ((List Resource → List Resource) → W → W) → Libbpf W
desk_bpf change = record {
  open_object = λ path w. (value 1, change (◌∷◌ (bpf_object 1)) w);
  close_object = λ n w. change (give_back (bpf_object n)) w;
  load_object = λ n w. (ok, w);
  find_program = λ n name w. some 2;
  find_map = λ n name w. some 3;
  set_autoload = λ n b w. (ok, w);
  tc_hook_create = λ i a w. (err eexist, w);
  tc_attach = λ i a h p n w. (ok, change (◌∷◌ (tc_filter i a h)) w);
  tc_detach = λ i a h p w. change (give_back (tc_filter i a h)) w;
  if_nametoindex = λ name w. 2;
  attach_tracepoint = λ n category name w. (value 4, change (◌∷◌ (bpf_link 4)) w);
  destroy_link = λ n w. change (give_back (bpf_link n)) w;
  new_ring = λ fd w. (failed 12, w);
  free_ring = λ n w. change (give_back (ring_buffer n)) w;
  ring_epoll_fd = λ n w. 9;
  consume_ring = λ n w. (([], ok), w);
  first_key = λ fd w. (none, w);
  delete_elem = λ fd key w. (ok, w);
  update_elem = λ fd key e w. (ok, w);
}

abbrev pub desk_bpf_ledger : BpfLedger (desk_bpf changed) (λ w. w)
desk_bpf_ledger = record {
  open_object_held = λ path w. refl;
  close_object_held = λ n w. refl;
  load_object_held = λ n w. refl;
  set_autoload_held = λ n b w. refl;
  tc_hook_create_held = λ i a w. refl;
  tc_attach_held = λ i a h p n w. refl;
  tc_detach_held = λ i a h p w. refl;
  attach_tracepoint_held = λ n category name w. refl;
  destroy_link_held = λ n w. refl;
  new_ring_held = λ fd w. refl;
  free_ring_held = λ n w. refl;
  consume_ring_held = λ n w. refl;
  first_key_held = λ fd w. refl;
  delete_elem_held = λ fd key w. refl;
  update_elem_held = λ fd key e w. refl;
}
