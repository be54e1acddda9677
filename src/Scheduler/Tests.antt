-- ===== src/Scheduler/Tests.antt =====
-- `test_weighted_ratio` of ebpf/tests/ugreen_ledd_test.c, with credits counted in thousandths.
use ugreen_leds_controller.Prelude.{◌≡◌, refl, arith}
use ugreen_leds_controller.Scheduler.{initial, choose_rx}
use ugreen_leds_controller.Sim.Start.{thousandths}
use ugreen_leds_controller.Scheduler.Fairness.{IsExact, IsFair, pulses, pulses-IsFair}

thousandths-IsExact : IsExact thousandths 800 200
thousandths-IsExact = record {
  units = λ a b. (a, b);
  zero_units = refl;
  add_rx = λ a b h k. ground arith;
  add_tx = λ a b h k. ground arith;
  sub_one = λ a b h k. ground arith;
  ge_units = λ a b c d h k l m. refl;
}

weighted_ratio :
    let s = pulses thousandths 800 200 100 (initial thousandths) in
    (s.rx_pulses ≡ 80) × (s.tx_pulses ≡ 20)
unfolding pulses choose_rx
weighted_ratio = (refl, refl)

pulses-IsFair_example :
    IsFair thousandths 800 200 100 (pulses thousandths 800 200 100 (initial thousandths))
pulses-IsFair_example =
    pulses-IsFair thousandths 800 200 thousandths-IsExact 100 (omega arith) (omega arith)
      (omega arith)
