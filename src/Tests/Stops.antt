-- ===== src/Tests/Stops.antt =====
-- The supervisor node at an emergency.
use safety_autonomy_core.Common.{◌≡◌, refl, true, false, List, [], ◌∷◌, none, some}
use safety_autonomy_core.Common.Double.{nought}
use safety_autonomy_core.Common.Double.Micro.{Micro, micros, micro_double}
use safety_autonomy_core.Ports.{Readings}
use safety_autonomy_core.Envelope.{SafetyZone}
use safety_autonomy_core.Recovery.SpeedLimit.{new_limit}
use safety_autonomy_core.Node.{
  SupervisorNode, TickTimes, Event, on_envelope, handle_all, timer_tick,
}
use safety_autonomy_core.Node.Halted.{NodeIsHalted, emergency_stops}
use safety_autonomy_core.Node.State.{build_state_msg}
use safety_autonomy_core.Nav2.{IsSafeCondition, failure, on_safety_state, tick}
use safety_autonomy_core.Nav2.Standstill.{emergency_fails}
use safety_autonomy_core.Tests.Data.{quiet, at_five, driving}
use safety_autonomy_core.Tests.Monitoring.{watching}
use safety_autonomy_core.Tests.Sensors.{manager, imu}

abbrev node : SupervisorNode Micro
node = record {
  machine = driving;
  supervisor = watching;
  recovery_mgr = manager;
  speed_ctrl = new_limit (micros 1500000) 200;
  last_odom_time_ns = some 100;
  latest_zone = SafetyZone.clear;
  safe_stop_requested = false;
  auto_recover_from_obstacle = true;
  localization_timeout_ns = 500;
  sensor_timeout_ns = 500;
  recovery_timeout_ns = 50;
}

abbrev at_tick : TickTimes
at_tick = record { start_ns = 200; localization_ns = 201; sensor_ns = 202 }

-- The way is clear again, a sensor degrades, and a tick passes.
abbrev later : List (Readings × Event)
later =
    (at_five, Event.envelope SafetyZone.clear)
    ∷ (at_five, Event.sensor_health imu 1 210 211)
    ∷ (at_five, Event.tick at_tick)
    ∷ []

emergency_stops_example :
    let (stopped, w') = on_envelope at_five SafetyZone.emergency node quiet in
    let (n'', w'') = handle_all later stopped w' in
    NodeIsHalted stopped
    × NodeIsHalted n''
    × ((timer_tick at_five at_tick n'' w'').2 ≡ nought)
    × ((timer_tick at_five at_tick n'' w'').3 ≡ true)
emergency_stops_example =
    emergency_stops at_five at_five later at_tick node quiet (refl, (refl, (refl, tt)))

abbrev condition : IsSafeCondition
condition = record {
  last_msg = record {
    mode = 2;
    fault_latched = false;
    fault_code = 0;
    zone = 1;
    safe_stop_requested = false;
  };
  have_msg = true;
}

emergency_fails_example :
    let (stopped, w') = on_envelope at_five SafetyZone.emergency node quiet in
    let (n'', w'') = handle_all later stopped w' in
    tick none (some true) (
      on_safety_state
        (build_state_msg n''.machine.mode (timer_tick at_five at_tick n'' w'').0)
        condition)
    ≡ failure
emergency_fails_example =
    emergency_fails none (some true) condition at_five at_five later at_tick node quiet
      (refl, (refl, (refl, tt)))
