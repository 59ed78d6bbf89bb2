-- ===== src/Tests/Slipping.antt =====
-- The slip detector over numbers in millionths.
use safety_autonomy_core.Common.{◌≡◌, ◌⊎◌, false, [], none, some, ◌*◌}
use safety_autonomy_core.Common.Int.{ℤ, pos, negsuc}
use safety_autonomy_core.Common.Double.Micro.{Micro, micros, micro_double}
use safety_autonomy_core.SlipDetector.{SlipDetectorNode, Stamp, timer_tick}
use safety_autonomy_core.SlipDetector.Verdict.{IsSilent, IsReported, slip_tick_lem}

abbrev of_int : ℤ → Micro
of_int (pos seconds) = micros (seconds * 1000000)
of_int (negsuc n) = Micro.nan

abbrev elapsed_s : Stamp → Stamp → Micro
elapsed_s later earlier = micros 10000

-- A linear approximation of the exponential near 0 is enough here.
abbrev exp : Micro → Micro
exp x = micro_double.add (micros 1000000) x

abbrev to_float : Micro → Micro
to_float x = x

-- The wheels turn at 1 m/s, the estimate from the accelerations is 0.5 m/s.
abbrev node : SlipDetectorNode Micro
node = record {
  params = record {
    slip_threshold_mps = micros 100000;
    angular_slip_threshold_radps = micros 300000;
    imu_vel_decay_time_s = micros 2000000;
    publish_period_s = micros 100000;
    max_imu_age_s = micros 50000;
    stationary_threshold_mps = micros 10000;
  };
  latest_odom = some (record {
    stamp = record { sec = pos 7; nanosec = 20000000 };
    linear_x = micros 1000000;
    angular_z = micros 200000;
  });
  latest_imu = some (record {
    stamp = record { sec = pos 7; nanosec = 10000000 };
    linear_acceleration_x = micros 0;
    angular_velocity_z = micros 100000;
  });
  imu_vel_x = micros 500000;
  last_imu_time = none;
  is_slipping = false;
  last_slip_magnitude = micros 0;
  last_slip_ratio = micros 0;
  last_detail = [];
}

slip_tick_lem_example :
    ((timer_tick exp to_float of_int elapsed_s node ≡ (node, none))
      × IsSilent exp to_float of_int elapsed_s node)
    ⊎ IsReported exp to_float of_int elapsed_s node (timer_tick exp to_float of_int elapsed_s node)
slip_tick_lem_example = slip_tick_lem exp to_float of_int elapsed_s node
