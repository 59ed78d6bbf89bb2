-- ===== src/Supervisor/Halting.antt =====
-- What the operations of the machine and of src/safety/safety_supervisor.cpp do once a fault is latched.
use safety_autonomy_core.Common.{ℕ, ◌≡◌, refl, true, arith}
use safety_autonomy_core.Ports.{
  Mode, degraded, avoiding_obstacle, localization_lost, safe_stop, World, Readings,
}
use safety_autonomy_core.StateMachine.{
  ModeStateMachine, Outcome, transition_to, latch_fault, request_obstacle_hold,
  report_localization_lost,
}
use safety_autonomy_core.StateMachine.Invariant.{transition_to_lem}
use safety_autonomy_core.Supervisor.{
  SafetySupervisor, MonitorSeverity, MonitorType, fault_code_clock_regression, MonitorEvent,
  escalate, escalate_warning, escalate_degraded, escalate_critical, process_monitor_event,
  observe_localization_age, observe_clock_sample, publish_monitor_event,
}
use safety_autonomy_core.Diag.Topics

-- A fault is latched, and the machine is in SafeStop.
abbrev pub IsHalted : ModeStateMachine → Type 0
IsHalted m = (m.latched_fault ≡ true) × (m.mode ≡ safe_stop)

-- An operation that leaves a halted machine halted.
abbrev pub Halts : (ModeStateMachine → World → Outcome) → Type 0
Halts f = (m : ModeStateMachine) (w : World) → IsHalted m → IsHalted (f m w).0

pub transition_to-Halts :
    (failures : ℕ) (r : Readings) (target : Mode) → Halts (transition_to failures r target)
transition_to-Halts failures r target m w h =
    ground (arith, transition_to_lem failures r target m w)

pub latch_fault-IsHalted :
    (r : Readings) (code : ℕ) (m : ModeStateMachine) (w : World)
    → IsHalted (latch_fault r code m w).0
unfolding latch_fault
latch_fault-IsHalted r code m w = (refl, refl)

pub hold-Halts : (r : Readings) → Halts (request_obstacle_hold 0 r)
unfolding request_obstacle_hold
hold-Halts r = transition_to-Halts 0 r avoiding_obstacle

pub lost-Halts : (r : Readings) → Halts (report_localization_lost 0 r)
unfolding report_localization_lost
lost-Halts r = transition_to-Halts 0 r localization_lost

escalate-Halts :
    (v : MonitorSeverity) (s : SafetySupervisor) (failures : ℕ) (r : Readings) (e : MonitorEvent)
    → Halts (escalate v s failures r e)
unfolding escalate escalate_warning escalate_degraded escalate_critical
escalate-Halts MonitorSeverity.no_severity s failures r e m w h = h
escalate-Halts MonitorSeverity.warning s failures r e m w h = h
escalate-Halts MonitorSeverity.degrading s failures r e m w h =
    let w' = publish_monitor_event s r Topics.safety_degraded_request e w in
    ground (arith, transition_to-Halts failures r degraded m w' h)
escalate-Halts MonitorSeverity.critical s failures r e m w h =
    let w' = publish_monitor_event s r Topics.safety_safe_stop_forced e w in
    ground (arith, latch_fault-IsHalted r e.code m w')

pub age-Halts :
    (s : SafetySupervisor) (r : Readings) (age timeout : ℕ)
    → Halts (observe_localization_age s 0 r age timeout)
unfolding observe_localization_age process_monitor_event
age-Halts s r age timeout = escalate-Halts _ s 0 r _

pub clock-Halts :
    (s : SafetySupervisor) (t : ℕ) (r : Readings) (m : ModeStateMachine) (w : World)
    → IsHalted m
    → IsHalted (observe_clock_sample s t r m w).1.0
unfolding observe_clock_sample process_monitor_event
clock-Halts s t r m w h =
    let fallen : MonitorEvent = record {
      type = MonitorType.clock_regression;
      severity = MonitorSeverity.critical;
      code = fault_code_clock_regression;
      detail = "clock moved backwards";
    } in
    let sampled = record s { has_clock_sample = true; last_clock_ns = t } in
    ground (arith, escalate-Halts MonitorSeverity.critical sampled 0 r fallen m w h)
