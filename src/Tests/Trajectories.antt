-- ===== src/Tests/Trajectories.antt =====
-- Trajectories and stopping profiles over numbers in millionths.
use safety_autonomy_core.Common.{◌≡◌, ◌≢◌, ◌⊎◌, refl, true, false, List, [], ◌∷◌, none, some, All}
use safety_autonomy_core.Common.Double.Micro.{Micro, micros, micro_double, Micro-IsOrdered}
use safety_autonomy_core.Common.Int.{◌+ℤ◌}
use safety_autonomy_core.Envelope.{
  evaluate_in_envelope, evaluate_stop_distance, evaluation_of, zone_of, required_of,
}
use safety_autonomy_core.Motion.{
  TrajectoryPoint, TrajectoryValidator, validate, validate_from, point_violation,
  generate_emergency_stop_profile, generate_jerk_limited_stop_profile,
}
use safety_autonomy_core.Motion.Verdict.{IsVerdict, validate_lem}
use safety_autonomy_core.Motion.Accepted.{IsSafePoint, IsTimed, accepted-IsSafePoint}
use safety_autonomy_core.Motion.Profiles.{IsRefusedOrStop, profiles_stop}
use safety_autonomy_core.Tests.Configuration.{config}

abbrev validator : TrajectoryValidator Micro
validator = record {
  config = some config;
  max_jerk_mps3 = micros 5000000;
  obstacle_distance_m = micros 6000000;
}

abbrev start : TrajectoryPoint Micro
start = record {
  t_s = micros 0;
  speed_mps = micros 1000000;
  accel_mps2 = micros 0;
  jerk_mps3 = micros 0;
  distance_m = micros 0;
}

-- One second later and one metre further on.
abbrev points : List (TrajectoryPoint Micro)
points = start ∷ record start { t_s = micros 1000000; distance_m = micros 1000000 } ∷ []

points_accepted : (validate validator (some points)).ok ≡ true
unfolding validate validate_from point_violation micro_double evaluate_in_envelope
    evaluate_stop_distance evaluation_of zone_of required_of ◌+ℤ◌
points_accepted = refl

accepted-IsSafePoint_example : All (IsSafePoint validator config) points × IsTimed points
unfolding micro_double
accepted-IsSafePoint_example =
    accepted-IsSafePoint Micro-IsOrdered validator config points refl refl refl refl points_accepted

validate_lem_example :
    ((validate validator none).ok ≡ false)
    × ((points ≡ []) ⊎ IsVerdict validator 0 none points (validate validator (some points)))
    × ((points ≢ []) ⊎ ((validate validator (some points)).ok ≡ false))
validate_lem_example = validate_lem validator points

profiles_stop_example :
    IsRefusedOrStop 20
      (generate_emergency_stop_profile (micros 1500000) (micros 1000000) (micros 100000) true 20)
    × IsRefusedOrStop 20 (
        generate_jerk_limited_stop_profile
          (micros 1500000)
          (micros 1000000)
          (micros 5000000)
          (micros 100000)
          true
          20)
profiles_stop_example =
    profiles_stop (micros 1500000) (micros 1000000) (micros 5000000) (micros 100000) true 20
