-- ===== src/Sim/Quiet.antt =====
-- The kernel and the libbpf of the desk over the simulated MCU: none of their calls changes an LED.
use ugreen_leds_controller.Prelude.{List, []}
use ugreen_leds_controller.Kernel.{Kernel}
use ugreen_leds_controller.Kernel.Ledger.{Resource}
use ugreen_leds_controller.Kernel.Tracks.{Tracks}
use ugreen_leds_controller.DiskLed.Updates.{ShowsAs}
use ugreen_leds_controller.Runtime.{Libbpf}
use ugreen_leds_controller.Runtime.Quiet.{OnMaps}
use ugreen_leds_controller.Sim.{sim, sim_mcu, SimWorld}
use ugreen_leds_controller.Sim.Desk.{desk_kernel, desk_bpf}

abbrev pub unchanged : (List Resource → List Resource) → SimWorld → SimWorld
unchanged f w = w

abbrev pub kernel : Kernel SimWorld
kernel = desk_kernel unchanged

abbrev pub bpf : Libbpf SimWorld
bpf = desk_bpf unchanged

abbrev pub quiet : (before : SimWorld) → Tracks sim kernel (ShowsAs sim sim_mcu before)
quiet before = record {
  timerfd_create = λ xs w h. h;
  timerfd_settime = λ xs fd flags t w h. h;
  timerfd_read = λ xs fd w h. h;
  clock_gettime = λ xs w h. h;
  close = λ xs fd w h. h;
  fopen = λ xs path w h. h;
  fclose = λ xs n w h. h;
  opendir = λ xs path w h. h;
  closedir = λ xs n w h. h;
  socket = λ xs w h. h;
  bind = λ xs n w h. h;
  recv = λ xs fd size w h. h;
  read_signal = λ xs fd w h. h;
  poll = λ xs a b c d e w h. h;
}

abbrev pub quiet_maps : (before : SimWorld) → OnMaps bpf (ShowsAs sim sim_mcu before [])
quiet_maps before = record {
  first_key = λ fd w h. h;
  delete_elem = λ fd key w h. h;
  update_elem = λ fd key e w h. h;
}
