-- ===== src/Tests/Stopping.antt =====
-- The safety envelope over numbers in millionths.
use safety_autonomy_core.Common.{◌≤◌, ◌≡◌, ◌⊎◌, refl}
use safety_autonomy_core.Common.Double.{nought}
use safety_autonomy_core.Common.Double.Laws.{◌≼◌}
use safety_autonomy_core.Common.Double.Micro.{
  Micro, micros, micro_double, Micro-IsOrdered, Micro-IsMonotone,
}
use safety_autonomy_core.Envelope.{evaluate_stop_distance}
use safety_autonomy_core.Envelope.Zones.{
  zone_number, IsHeld, zone_of_nearer, zone_of_faster, evaluate_not_a_number,
}

abbrev decel : Micro
decel = micros 1000000

abbrev latency : Micro
latency = micros 100000

abbrev buffer : Micro
buffer = micros 200000

-- 2 m and 5 m from an obstacle at 1.5 m/s.
zone_of_nearer_example :
    zone_number (evaluate_stop_distance (micros 5000000) (micros 1500000) decel latency buffer).zone
    ≤ zone_number
        (evaluate_stop_distance (micros 2000000) (micros 1500000) decel latency buffer).zone
unfolding micro_double
zone_of_nearer_example =
    zone_of_nearer Micro-IsOrdered (micros 2000000) (micros 5000000) (micros 1500000) decel latency
      buffer refl

-- 2 m from an obstacle at 0.5 m/s and 1.5 m/s.
zone_of_faster_example :
    zone_number (evaluate_stop_distance (micros 2000000) (micros 500000) decel latency buffer).zone
    ≤ zone_number
        (evaluate_stop_distance (micros 2000000) (micros 1500000) decel latency buffer).zone
unfolding micro_double
zone_of_faster_example =
    zone_of_faster Micro-IsOrdered Micro-IsMonotone (micros 2000000) (micros 500000)
      (micros 1500000) decel latency buffer refl refl refl refl refl refl

evaluate_not_a_number_example :
    let e = evaluate_stop_distance (micros 2000000) Micro.nan decel latency buffer in
    ((micros 2000000 ≼ micros 2000000) ⊎ IsHeld e)
    × ((Micro.nan ≼ Micro.nan)
        ⊎ (e ≡ evaluate_stop_distance (micros 2000000) nought decel latency buffer))
evaluate_not_a_number_example =
    evaluate_not_a_number Micro-IsOrdered (micros 2000000) Micro.nan decel latency buffer
