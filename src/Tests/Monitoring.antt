-- ===== src/Tests/Monitoring.antt =====
-- The safety supervisor at concrete events.
use safety_autonomy_core.Common.{refl, true, [], ◌∷◌, arith}
use safety_autonomy_core.StateMachine.Invariant.{IsSafe}
use safety_autonomy_core.Supervisor.{
  SafetySupervisor, MonitorSeverity, MonitorType, MonitorEvent, process_monitor_event,
}
use safety_autonomy_core.Supervisor.Escalation.{
  IsEscalated, IsWatched, process_monitor_event_lem, observe_samples_lem,
}
use safety_autonomy_core.Tests.Data.{quiet, at_five, driving}

abbrev pub watching : SafetySupervisor
watching = record {
  machine = true;
  transport = true;
  clock = true;
  has_clock_sample = true;
  last_clock_ns = 100;
}

abbrev stale : MonitorEvent
stale = record {
  type = MonitorType.localization_stale;
  severity = MonitorSeverity.degrading;
  code = 1002;
  detail = "late";
}

driving-IsSafe : IsSafe driving
driving-IsSafe = record { stopped = λ h. ground arith; code_of_fault = λ h. refl }

process_monitor_event_lem_example :
    IsEscalated MonitorSeverity.degrading 1002 driving
      (process_monitor_event watching 1 at_five stale driving quiet)
process_monitor_event_lem_example =
    process_monitor_event_lem watching 1 at_five stale driving quiet refl

observe_samples_lem_example : IsWatched watching at_five (120 ∷ 110 ∷ 130 ∷ []) driving quiet
observe_samples_lem_example =
    observe_samples_lem watching at_five (120 ∷ 110 ∷ 130 ∷ []) driving quiet refl refl
