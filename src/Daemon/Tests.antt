-- ===== src/Daemon/Tests.antt =====
-- The daemon at a desk: the start that fails, the loop that a signal ends, and the theorems on them.
use ugreen_leds_controller.Prelude.{◌≡◌, refl, arith, inr, some, true, false, [], ◌∷◌}
use ugreen_leds_controller.Status.{ok}
use ugreen_leds_controller.Config.{set_defaults, codes}
use ugreen_leds_controller.Kernel.Ledger.{descriptor}
use ugreen_leds_controller.Sim.Start.{thousandths}
use ugreen_leds_controller.Sim.Desk.{desk, held_kernel, formats, desk_bpf, changed}
use ugreen_leds_controller.Config.Bounds.{set_defaults-InRange}
use ugreen_leds_controller.Sim.{sim, sim_mcu, start_session, broken}
use ugreen_leds_controller.Sim.Start.{sim_timers, start-IsCoherent}
use ugreen_leds_controller.Sim.Quiet.{kernel, bpf, quiet, quiet_maps}
use ugreen_leds_controller.DiskLed.Slots.{no_slot}
use ugreen_leds_controller.Daemon.InStep.{CourseInStep, run_event_loop-InStep}
use ugreen_leds_controller.Daemon.Loop.{Daemon, zero_app, run_event_loop, exits}
use ugreen_leds_controller.Daemon.Signals.{at_world, run_event_loop-exits}

abbrev app : Daemon desk held_kernel thousandths set_defaults formats (desk_bpf changed) 9
app =
    record (zero_app desk held_kernel thousandths set_defaults formats (desk_bpf changed) 9
      (descriptor 8 ∷ [])) { signal_fd = some 8 }

run_event_loop-exits_example :
    run_event_loop desk held_kernel thousandths set_defaults formats (desk_bpf changed) 9 5 app
    ≡ exits ok (
        at_world desk held_kernel thousandths set_defaults formats
          (desk_bpf changed)
          9
          (descriptor 8 ∷ [])
          app)
run_event_loop-exits_example =
    run_event_loop-exits desk held_kernel thousandths set_defaults formats (desk_bpf changed) 9 4 15
      app (descriptor 8 ∷ []) (descriptor 8 ∷ []) (record { readable = true; broken = false })
      (record { readable = false; broken = false }) (record { readable = false; broken = false })
      (record { readable = false; broken = false }) (record { readable = true; broken = false })
      refl refl (inr refl) refl

-- A daemon with one resting disk.
abbrev watching : Daemon sim kernel thousandths set_defaults formats bpf 9
watching =
    record (zero_app sim kernel thousandths set_defaults formats bpf 9
      (start_session (broken ∷ [])).world) {
        session = start_session (broken ∷ []);
        signal_fd = some 8;
        disks_initialized = true;
        disks = record {
          slots = record no_slot { led_id = 2; present = true; dev = 8388608 } ∷ [];
          slot_count = 1;
          product_name = codes "DXP2800";
          timer_fd = some 7;
          uevent_fd = some 6;
          session = start_session (broken ∷ []);
        };
      }

run_event_loop-InStep_example :
    CourseInStep sim kernel thousandths set_defaults formats bpf 9 sim_mcu sim_timers
      set_defaults-InRange quiet quiet_maps
      (λ n w i. refl)
      (run_event_loop sim kernel thousandths set_defaults formats bpf 9 5 watching)
run_event_loop-InStep_example =
    run_event_loop-InStep sim kernel thousandths set_defaults formats bpf 9 sim_mcu sim_timers
      set_defaults-InRange quiet quiet_maps (λ n w i. refl) 5 watching
      (record {
        shows = (refl, (λ on. absurd (cc)), tt);
        coherent = start-IsCoherent (broken ∷ []);
        fits = omega arith;
      })
