-- ===== src/Tests/Driving.antt =====
-- The drive bridge and the envelope node over numbers in millionths.
use safety_autonomy_core.Common.{
  ◌≡◌, refl, true, false, none, some, All, List, [], ◌∷◌, ◌++◌, map, replicate, arith,
}
use safety_autonomy_core.Common.Int.{◌+ℤ◌}
use safety_autonomy_core.Common.Double.Micro.{
  Micro, micros, plus_inf, micro_double, Micro-IsOrdered, Micro-IsMonotone,
}
use safety_autonomy_core.Motion.{at_rest}
use safety_autonomy_core.Pid.Limits.{IsWithin}
use safety_autonomy_core.DriveBridge.{
  SafetyDriveBridgeNode, Twist, Params, Event, cmd_vel_nav, envelope, safe_stop, state, odom, tick,
  create, zero_twist, control_tick, handle, run,
}
use safety_autonomy_core.DriveBridge.Ready.{IsReady}
use safety_autonomy_core.DriveBridge.Limits.{IsAllowed, tick-IsAllowed}
use safety_autonomy_core.DriveBridge.Stopping.{follow, remaining, run_follows}
use safety_autonomy_core.DriveBridge.Resuming.{fault_resumes}
use safety_autonomy_core.EnvelopeNode.{
  SafetyEnvelopeNode, LaserScan, nearest_obstacle, point_ahead, on_scan,
}
use safety_autonomy_core.EnvelopeNode.Nearest.{IsLeast, obstacles, nearest_obstacle-IsLeast}
use safety_autonomy_core.EnvelopeNode.Standing.{standing_stays}
use safety_autonomy_core.Tests.Configuration.{config}

abbrev params : Params Micro
params = record {
  max_linear_mps = micros 1500000;
  max_angular_radps = micros 1500000;
  max_decel_mps2 = micros 1000000;
  max_jerk_mps3 = micros 2000000;
  cmd_freshness_s = micros 250000;
  control_period_s = micros 50000;
}

abbrev started : SafetyDriveBridgeNode Micro
started = record {
  params = params;
  safe_stop_active = false;
  fault_latched = false;
  recommended_speed_limit_mps = micros 1000000000000000;
  recovery_speed_limit_mps = micros 1000000000000000;
  measured_forward_speed_mps = micros 0;
  latest_nav_cmd = none;
  latest_nav_cmd_time_ns = 0;
  cmd_freshness_timeout_ns = 250000000;
  stop_profile_active = false;
  stop_profile_index = 0;
  stop_profile = [];
  last_published_linear = micros 0;
}

abbrev fast : Twist Micro
fast = record { linear_x = micros 3000000; angular_z = micros 200000 }

-- A command on the way, and the limit of an envelope in the Warning zone.
abbrev messages : List (Event Micro)
messages = cmd_vel_nav fast 1000 ∷ envelope 1 (micros 600000) ∷ odom (micros 500000) ∷ []

tick-IsAllowed_example :
    IsAllowed 2000 (run messages started).0 (control_tick 2000 (run messages started).0).1
unfolding micro_double create
tick-IsAllowed_example = tick-IsAllowed Micro-IsOrdered params started messages 2000 refl refl refl

-- In the middle of a stop, with two speeds left.
abbrev stopping : SafetyDriveBridgeNode Micro
stopping = record started {
  safe_stop_active = true;
  stop_profile_active = true;
  stop_profile_index = 1;
  stop_profile =
      record (at_rest (micros 0) (micros 0)) { speed_mps = micros 500000 }
      ∷ record (at_rest (micros 50000) (micros 20000)) { speed_mps = micros 400000 }
      ∷ at_rest (micros 100000) (micros 30000)
      ∷ [];
}

run_follows_example :
    (run (tick 10 ∷ cmd_vel_nav fast 15 ∷ safe_stop true ∷ tick 20 ∷ tick 30 ∷ []) stopping).1
    ≡ follow 3 (remaining stopping)
run_follows_example =
    run_follows (tick 10 ∷ cmd_vel_nav fast 15 ∷ safe_stop true ∷ tick 20 ∷ tick 30 ∷ []) stopping
      refl refl (tt, (tt, (refl, (tt, (tt, tt)))))

fault_resumes_example :
    (run (state true ∷ (map tick (10 ∷ 20 ∷ []) ++ (state false ∷ tick 30 ∷ []))) stopping).1
    ≡ replicate 2 zero_twist ++ (record { linear_x = micros 400000; angular_z = micros 0 } ∷ [])
unfolding micro_double
fault_resumes_example =
    fault_resumes (10 ∷ 20 ∷ []) 30 stopping
      (record { linear_x = micros 400000; angular_z = micros 0 }) (zero_twist ∷ []) refl refl

-- An envelope node that looks straight ahead: the sine is 0 and the cosine is 1.
abbrev sin : Micro → Micro
sin x = micros 0

abbrev cos : Micro → Micro
cos x = micros 1000000

abbrev node : SafetyEnvelopeNode Micro
node = record {
  config = config;
  params = record {
    envelope = config.envelope;
    dynamic_buffer_enabled = false;
    velocity_factor = micros 300000;
    min_buffer_m = micros 500000;
    footprint = record {
      length_m = micros 800000;
      width_m = micros 600000;
      front_overhang_m = micros 100000;
    };
    corridor_half_width_m = micros 500000;
    scan_min_valid_range_m = micros 50000;
    scan_ignore_min_range_m = micros 500000;
    startup_grace_period_s = micros 2000000;
  };
  latest_speed_mps = micros 0;
}

abbrev scan : List Micro → LaserScan Micro
scan ranges = record {
  ranges = ranges;
  angle_min = micros 0;
  angle_increment = micros 10000;
  range_max = micros 30000000;
}

nearest_obstacle-IsLeast_example :
    IsLeast
      (nearest_obstacle sin cos node.params
        (scan (micros 4000000 ∷ micros 3000000 ∷ plus_inf ∷ [])))
      (obstacles sin cos node.params (scan (micros 4000000 ∷ micros 3000000 ∷ plus_inf ∷ [])))
      plus_inf
    × All
        (λ x. (micro_double.lt (micros 0) x ≡ true) × (micro_double.lt x (micros 500000) ≡ false))
        (obstacles sin cos node.params (scan (micros 4000000 ∷ micros 3000000 ∷ plus_inf ∷ [])))
unfolding micro_double
nearest_obstacle-IsLeast_example =
    nearest_obstacle-IsLeast sin cos Micro-IsOrdered Micro-IsMonotone node.params
      (scan (micros 4000000 ∷ micros 3000000 ∷ plus_inf ∷ []))

waiting-IsReady :
    IsReady (record started { latest_nav_cmd = some fast; latest_nav_cmd_time_ns = 1000 })
unfolding micro_double
waiting-IsReady = record {
  linear = refl;
  angular = refl;
  recommended = refl;
  recovery = refl;
  profile = omega arith;
}

-- An obstacle at 0.4 m ahead is nearer than the ignored range.
standing_stays_example :
    let status = on_scan sin cos (micros 3000000) (scan (micros 400000 ∷ [])) node in
    let bridge' =
      (handle
        (envelope status.zone status.recommended_speed_limit_mps)
        (record started { latest_nav_cmd = some fast; latest_nav_cmd_time_ns = 1000 })).0 in
    IsWithin (micros 0) (control_tick 2000 bridge').1.linear_x
unfolding micro_double point_ahead ◌+ℤ◌
standing_stays_example =
    standing_stays sin cos Micro-IsOrdered Micro-IsMonotone (micros 3000000)
      (scan (micros 400000 ∷ [])) node
      (record started { latest_nav_cmd = some fast; latest_nav_cmd_time_ns = 1000 }) 2000 refl refl
      refl refl waiting-IsReady refl
