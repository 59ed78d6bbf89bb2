-- ===== src/Tests/Sensors.antt =====
-- Sensors that degrade, recover and time out, and the speed limit with them.
use safety_autonomy_core.Common.{ℕ, ◌≡◌, refl, Bool, true, false, List, [], ◌∷◌, none, some, arith}
use safety_autonomy_core.Common.Double.Micro.{micros, micro_double}
use safety_autonomy_core.Recovery.{
  Name, SensorRecoveryManager, HealthTransition, Operation, healthy, degraded_status, find,
  same_name, process_health_msg, check_timeouts, operate_all,
}
use safety_autonomy_core.Recovery.Forgotten.{HasTimedOut, timed_out_forever}
use safety_autonomy_core.Recovery.Timeouts.{IsChecked, check_timeouts_lem}
use safety_autonomy_core.Recovery.SpeedLimit.{
  new_limit, on_recovered, update, tick_all, on_recovered_arrives,
}

abbrev pub imu : Name
imu = 105 ∷ 109 ∷ 117 ∷ []

abbrev gps : Name
gps = 103 ∷ 112 ∷ 115 ∷ []

-- The imu was given up, and the gps is degraded since 10.
abbrev pub manager : SensorRecoveryManager
manager = record {
  sensor_states =
      (imu, record { status = 2; degradation_start_ns = none; timed_out = true })
      ∷ (gps, record { status = 2; degradation_start_ns = some 10; timed_out = false })
      ∷ [];
  worst_sensor_status = 2;
  last_sensor_health_time_ns = some 20;
  in_degraded_mode = true;
}

-- The imu is healthy again.
abbrev imu_back : List Operation
imu_back = Operation.health imu healthy 30 ∷ Operation.check 40 5 ∷ []

imu_timed_out : HasTimedOut imu manager.sensor_states
unfolding find same_name
imu_timed_out = (record { status = 2; degradation_start_ns = none; timed_out = true }, refl, refl)

timed_out_forever_example :
    let m' = operate_all imu_back manager in
    HasTimedOut imu m'.sensor_states
    × (process_health_msg imu degraded_status 50 m' ≡ (m', HealthTransition.no_transition))
timed_out_forever_example = timed_out_forever imu imu_back 50 manager imu_timed_out

check_timeouts_lem_example :
    let (m', name) = check_timeouts 40 5 manager in
    IsChecked 40 5 manager.sensor_states (m'.sensor_states, name)
    × (m' ≡ record manager { sensor_states = m'.sensor_states })
check_timeouts_lem_example = check_timeouts_lem 40 5 manager

abbrev ticks : List (ℕ × Bool)
ticks = (110, false) ∷ (150, false) ∷ []

on_recovered_arrives_example :
    (update 300 false (tick_all ticks (on_recovered 100 (new_limit (micros 1500000) 200)))).1
    ≡ micros 1500000
unfolding new_limit
on_recovered_arrives_example =
    on_recovered_arrives 100 300 ticks (new_limit (micros 1500000) 200) (refl, (refl, tt))
      (omega arith)
