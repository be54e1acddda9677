-- ===== src/Network/Sessions.antt =====
-- The network LED from its initialisation on, through all events.
use ugreen_leds_controller.Prelude.{ℕ, ◌≡◌, some, refl, arith, false, List, [], ◌∷◌, ◌%◌}
use ugreen_leds_controller.Status.{Status, ok, err, ◌>>◌}
use ugreen_leds_controller.Env.{Env, Fd, Reply, value, failed}
use ugreen_leds_controller.Config.{Config}
use ugreen_leds_controller.Config.Bounds.{InRange}
use ugreen_leds_controller.Scheduler.{LongDouble}
use ugreen_leds_controller.Controller.State.{Session}
use ugreen_leds_controller.Controller.Commands.{set_on, set_brightness}
use ugreen_leds_controller.Controller.Protocol.{Mcu, dark, light_is, brightness_is, execute}
use ugreen_leds_controller.Controller.Coherence.{IsCoherent}
use ugreen_leds_controller.Controller.Timers.{Timers}
use ugreen_leds_controller.Controller.Setters.{set_on-Sets, set_brightness-Sets}
use ugreen_leds_controller.Controller.Chains.{quiet-IsCoherent, Shows, Sets-Shows, >>-Shows}
use ugreen_leds_controller.Network.{
  State, network_led_init, init_with, close_on_error, add_sample, render, handle_timer,
}
use ugreen_leds_controller.Network.Paced.{
  IsPaced, unlit-IsPaced, render-IsPaced, handle_timer-IsPaced,
}

-- What reaches the component from outside: traffic counts, a call to show them, and its timer.
pub data Event : Type 0 where
  sample : (rx_bytes tx_bytes : ℕ) → Event
  show : Event
  timer : Event

module _ (env : Env) (f : LongDouble) (config : Config) where
  open env use {World}
  open f use {Carrier}

  abbrev pub handle : Event → State Carrier World → State Carrier World
  handle (sample rx_bytes tx_bytes) st = add_sample env f config rx_bytes tx_bytes st
  handle show st = (render env f config st).1
  handle timer st = (handle_timer env f config st).1

  pub handle_all : List Event → State Carrier World → State Carrier World
  handle_all [] st = st
  handle_all (e ∷ es) st = handle_all es (handle e st)

module _ (env : Env) (mcu : Mcu env) (timers : Timers env mcu) (f : LongDouble) (config : Config)
    (in_range : InRange config) where
  open env use {World, timerfd_create, close}
  open mcu use {shown}
  open f use {Carrier}

  abbrev pub Paced : State Carrier World → Type 0
  Paced = IsPaced env mcu timers f config in_range

  handle-IsPaced :
      (e : Event) (st : State Carrier World) → Paced st → Paced (handle env f config e st)
  unfolding add_sample
  handle-IsPaced (sample rx_bytes tx_bytes) st inv = record {
    coherent = inv.coherent;
    steady_light = inv.steady_light;
    live = inv.live;
  }
  handle-IsPaced show st inv = render-IsPaced env mcu timers f config in_range st inv
  handle-IsPaced timer st inv = handle_timer-IsPaced env mcu timers f config in_range st inv

  handle_all-IsPaced :
      (es : List Event) (st : State Carrier World)
      → Paced st
      → Paced (handle_all env f config es st)
  unfolding handle_all
  handle_all-IsPaced [] st inv = inv
  handle_all-IsPaced (e ∷ es) st inv =
      handle_all-IsPaced es (handle env f config e st) (handle-IsPaced e st inv)

  close_on_error-IsPaced :
      (fd : Fd) (r : Status × Session World)
      → IsCoherent env mcu r.1
      → Paced (close_on_error env f config fd r).1
  close_on_error-IsPaced fd (ok, s) inv = unlit-IsPaced env mcu timers f config in_range _ refl inv
  close_on_error-IsPaced fd (err e, s) inv =
      unlit-IsPaced env mcu timers f config in_range _ refl
        (quiet-IsCoherent env mcu s (close fd s.world) (timers.close_shows fd s.world) inv)

  brightness_cast : config.network_brightness % 256 ≡ config.network_brightness
  brightness_cast = omega (arith, in_range.network_brightness)

  init_commands-Shows :
      (s : Session World)
      → IsCoherent env mcu s
      → Shows env mcu 1
          (λ t. record t { brightness = config.network_brightness; light = dark })
          s
          ((set_brightness env 1 (config.network_brightness % 256) >> set_on env 1 false) s)
  init_commands-Shows s inv = rw brightness_cast (
      >>-Shows env mcu 1 (execute (some (brightness_is config.network_brightness)))
        (execute (some (light_is dark))) (set_brightness env 1 config.network_brightness)
        (set_on env 1 false) s
        (Sets-Shows env mcu 1 _ s _ (
          set_brightness-Sets env mcu 1 config.network_brightness s (omega arith)
            (omega (arith, in_range.network_brightness)) inv))
        (λ t coherent.
          Sets-Shows env mcu 1 _ t _ (set_on-Sets env mcu 1 false t (omega arith) coherent)))

  init_with-IsPaced :
      (s : Session World) (reply : Reply) (w : World)
      → IsCoherent env mcu (record s { world = w })
      → Paced (init_with env f config s (reply, w)).1
  init_with-IsPaced s (failed e) w inv = unlit-IsPaced env mcu timers f config in_range _ refl inv
  init_with-IsPaced s (value fd) w inv =
      close_on_error-IsPaced (some fd) _ (init_commands-Shows (record s { world = w }) inv).coherent

  network_led_init-IsPaced :
      (s : Session World) → IsCoherent env mcu s → Paced (network_led_init env f config s).1
  unfolding network_led_init
  network_led_init-IsPaced s inv =
      let created = timerfd_create s.world in
      init_with-IsPaced s created.0 created.1
        (quiet-IsCoherent env mcu s created.1 (timers.create_shows s.world) inv)

  -- From `network_led_init` on, after any samples, renderings and expirations, whatever the bus, the
  -- timer calls and the arithmetic do: while the component takes the LED for lit, the LED is steady
  -- and a timer that will end the pulse is armed or has fired unread; and the cache agrees with all
  -- LEDs.
  pub session-IsPaced :
      (es : List Event) (s : Session World)
      → IsCoherent env mcu s
      → Paced (handle_all env f config es (network_led_init env f config s).1)
  session-IsPaced es s inv =
      handle_all-IsPaced es (network_led_init env f config s).1 (network_led_init-IsPaced s inv)
