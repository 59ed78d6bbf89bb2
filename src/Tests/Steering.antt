-- ===== src/Tests/Steering.antt =====
-- The speed controller over numbers in millionths.
use safety_autonomy_core.Common.{ℕ, ◌/◌, ◌≡◌, refl, true, false, List, [], ◌∷◌, some}
use safety_autonomy_core.Common.Int.{pos, pos_part, ◌-ℤ◌}
use safety_autonomy_core.Common.Double.Micro.{Micro, micros, micro_double, Micro-IsOrdered}
use safety_autonomy_core.Pid.{SafetyPidController, compute, compute_forward, localization_valid}
use safety_autonomy_core.Pid.Limits.{IsWithin, compute_bounds}
use safety_autonomy_core.Pid.Forgotten.{
  Call, Past, plain, feed_forward, localized, run, with_past, stale_forgets,
}
use safety_autonomy_core.Time.{Duration}
use safety_autonomy_core.Tests.Data.{quiet, at_five}
use safety_autonomy_core.Tests.Configuration.{config}

abbrev pub seconds : Duration → Micro
seconds a = micros (pos_part a / 1000)

-- A controller whose localization was last updated at `stamp`.
abbrev controller : ℕ → SafetyPidController Micro
controller stamp = record {
  clock = true;
  config = some (record config { timing = record config.timing { localization_timeout = pos 2 } });
  diag_transport = true;
  gains = record {
    kp = micros 1000000;
    ki = micros 500000;
    kd = micros 0;
    max_integral = micros 100000000;
  };
  integral = micros 0;
  prev_error = micros 0;
  last_output = micros 0;
  first_update = true;
  last_update = pos 3;
  last_localization_update = pos stamp;
}

compute_bounds_example :
    IsWithin
      (micros 1500000)
      (compute seconds at_five (micros 2000000) (micros 500000) (controller 4) quiet).2
    × IsWithin
        (micros 1500000)
        (compute_forward seconds at_five
          (micros 2000000)
          (micros 500000)
          (micros 9000000)
          (micros 0)
          (controller 4)
          quiet).2
unfolding micro_double
compute_bounds_example =
    compute_bounds Micro-IsOrdered seconds at_five (micros 2000000) (micros 500000) (micros 9000000)
      (micros 0) (controller 4)
      (record config { timing = record config.timing { localization_timeout = pos 2 } }) quiet refl
      refl

-- A controller that was driving, and one update of the localization between two calls.
abbrev driven : Past Micro
driven = record {
  integral = micros 700000;
  prev_error = micros 300000;
  last_output = micros 900000;
  first_update = false;
  last_update = pos 4;
  last_localization_update = pos 2;
}

abbrev calls : List (Call Micro)
calls =
    plain at_five (micros 2000000) (micros 500000)
    ∷ localized (pos 5)
    ∷ feed_forward at_five (micros 2000000) (micros 500000) (micros 100000) (micros 0)
    ∷ []

stale_forgets_example :
    (run seconds (plain at_five (micros 2000000) (micros 500000) ∷ calls) (controller 1) quiet
      ≡ run seconds
          (plain at_five (micros 2000000) (micros 500000) ∷ calls)
          (with_past driven (controller 1))
          quiet)
    × (run seconds
          (feed_forward at_five (micros 2000000) (micros 500000) (micros 9000000) (micros 0)
            ∷ calls)
          (controller 1)
          quiet
        ≡ run seconds
            (feed_forward at_five (micros 2000000) (micros 500000) (micros 9000000) (micros 0)
              ∷ calls)
            (with_past driven (controller 1))
            quiet)
unfolding micro_double localization_valid ◌-ℤ◌
stale_forgets_example =
    stale_forgets seconds at_five (micros 2000000) (micros 500000) (micros 9000000) (micros 0) calls
      (controller 1) driven quiet refl refl
