-- ===== src/Network.antt =====
-- ebpf/src/network_led.c: one LED pulse at a time for the traffic that the collector reports.
-- The diagnostics on stderr are left out.
pub mod Pulses
pub mod Paced
pub mod Sessions
pub mod Others
pub mod Beside
mod Tests
use ugreen_leds_controller.Prelude.{
  ℕ, ◌*◌, ◌/◌, ◌%◌, Bool, true, false, ◌&&◌, none, some, not, ◌==◌, if◌then◌else◌,
}
use ugreen_leds_controller.Status.{Status, ok, err, eagain, Op, ◌>>◌}
use ugreen_leds_controller.Types.{Rgb, ugreen_led_network}
use ugreen_leds_controller.Env.{Env, Fd, TimerValue, Reply, value, failed}
use ugreen_leds_controller.Config.{Config}
use ugreen_leds_controller.Scheduler.{
  LongDouble, PulseScheduler, initial, saturating_add, choose_rx,
}
use ugreen_leds_controller.Controller.State.{Session, invalidate}
use ugreen_leds_controller.Controller.Timers.{read_failed}
use ugreen_leds_controller.Controller.Commands.{set_color, set_brightness, set_on}

pub record NetworkLed (F : Type 0) : Type 0 where
  pub scheduler : PulseScheduler F
  pub pending_rx_bytes : ℕ
  pub pending_tx_bytes : ℕ
  pub led_on : Bool
  pub timer_fd : Fd

-- The component with the controller that it points to.
pub record State (F W : Type 0) : Type 0 where
  pub network : NetworkLed F
  pub session : Session W

-- The one-shot timer of a pulse; a width of 0 ms is one nanosecond, since 0 would disarm.
unfoldable pub pulse_timer : Config → TimerValue
pulse_timer config =
    let tv_sec = config.network_pulse_ms / 1000 in
    let tv_nsec = config.network_pulse_ms % 1000 * 1000000 in
    record { tv_sec = tv_sec; tv_nsec = if tv_sec == 0 && tv_nsec == 0 then 1 else tv_nsec }

abbrev pub forget_led : {W : Type 0} → Session W → Session W
forget_led s = record s { controller = invalidate s.controller ugreen_led_network }

-- `if (fd >= 0) close(fd);`
abbrev pub close_open : (env : Env) → Fd → env.World → env.World
close_open env none w = w
close_open env (some fd) w = env.close (some fd) w

module _ (env : Env) (f : LongDouble) (config : Config) where
  open env use {World, timerfd_create, timerfd_settime, timerfd_read, close}
  open f use {Carrier}

  abbrev pub Net : Type 0
  Net = State Carrier World

  unfoldable pub arm_timer : Fd → Op (Session World)
  unfolding pulse_timer
  arm_timer fd s =
      let (result, w) = timerfd_settime fd 0 (pulse_timer config) s.world in
      (result, record s { world = w })

  -- A `struct network_led` whose other bytes are 0.
  abbrev pub fresh_led : Fd → NetworkLed Carrier
  fresh_led fd = record {
    scheduler = initial f;
    pending_rx_bytes = 0;
    pending_tx_bytes = 0;
    led_on = false;
    timer_fd = fd;
  }

  abbrev pub close_on_error : Fd → Status × Session World → Status × Net
  close_on_error fd (ok, s) = (ok, record { network = fresh_led fd; session = s })
  close_on_error fd (err e, s) =
      (err e, record { network = fresh_led none; session = record s { world = close fd s.world } })

  abbrev pub init_with : Session World → Reply × World → Status × Net
  init_with s (failed e, w) =
      (err e, record { network = fresh_led none; session = record s { world = w } })
  init_with s (value fd, w) = close_on_error (some fd) (
      (set_brightness env ugreen_led_network (config.network_brightness % 256)
          >> set_on env ugreen_led_network false)
        (record s { world = w }))

  unfoldable pub network_led_init : Session World → Status × Net
  network_led_init s = init_with s (timerfd_create s.world)

  unfoldable pub add_sample : ℕ → ℕ → Net → Net
  unfolding saturating_add
  add_sample rx_bytes tx_bytes st = record st {
    network = record n {
      pending_rx_bytes = saturating_add n.pending_rx_bytes rx_bytes;
      pending_tx_bytes = saturating_add n.pending_tx_bytes tx_bytes;
    };
  }
    where
      n : NetworkLed Carrier
      n = st.network

  -- After `arm_timer`: without a timer the pulse would not end, so the LED is turned off again.
  abbrev pub armed : NetworkLed Carrier → Status × Session World → Status × Net
  armed n (ok, s) = (ok, record { network = n; session = s })
  armed n (err e, s) = (
    err e,
    record {
      network = record n { led_on = false };
      session = (set_on env ugreen_led_network false s).1;
    },
  )

  -- After the LED commands: a failure drops the pulse and is not reported.
  abbrev pub started : NetworkLed Carrier → Status × Session World → Status × Net
  started n (ok, s) = armed (record n { led_on = true }) (arm_timer n.timer_fd s)
  started n (err e, s) =
      (ok, record { network = record n { led_on = false }; session = forget_led s })

  abbrev pub pulse_color : Bool → Rgb
  pulse_color rx = if rx then config.network_rx_color else config.network_tx_color

  unfoldable pub start_led : Rgb → Op (Session World)
  start_led color = set_color env ugreen_led_network color >> set_on env ugreen_led_network true

  -- The second half of `network_led_render`, with something to show.
  unfoldable pub pulse : Net → Status × Net
  unfolding start_led arm_timer
  pulse st =
      let n = st.network in
      let (rx, scheduler) = choose_rx f n.scheduler n.pending_rx_bytes n.pending_tx_bytes in
      started (record n { pending_rx_bytes = 0; pending_tx_bytes = 0; scheduler = scheduler })
        (start_led (pulse_color rx) st.session)

  unfoldable pub render : Net → Status × Net
  render st =
      if st.network.led_on
      then (ok, st)
      else if st.network.pending_rx_bytes == 0 && st.network.pending_tx_bytes == 0
      then (ok, st)
      else pulse st

  -- The LED goes off; if the command fails, its cache entry is dropped and the pulse is over anyway.
  abbrev pub ended : NetworkLed Carrier → Status × Session World → Net
  ended n (ok, s) = record { network = record n { led_on = false }; session = s }
  ended n (err e, s) = record { network = record n { led_on = false }; session = forget_led s }

  unfoldable pub handle_timer : Net → Status × Net
  handle_timer st =
      let (size, w) = timerfd_read st.network.timer_fd st.session.world in
      let s = record st.session { world = w } in
      if read_failed size
      then (size, record st { session = s })
      else if not st.network.led_on
      then (ok, record st { session = s })
      else render (ended st.network (set_on env ugreen_led_network false s))

  unfoldable pub network_led_cleanup : Net → Net
  network_led_cleanup st =
      let s = (set_on env ugreen_led_network false st.session).1 in
      record {
        network = record n { timer_fd = none };
        session = record s { world = close_open env n.timer_fd s.world };
      }
    where
      n : NetworkLed Carrier
      n = st.network
