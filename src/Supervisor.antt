-- ===== src/Supervisor.antt =====
-- include/safety_core/safety/safety_supervisor.hpp, src/safety/safety_supervisor.cpp: monitor events
-- and their escalation into the mode machine. The machine is shared, so it is passed along; the
-- supervisor keeps whether its pointer is set.
pub mod Escalation
pub mod Halting
use safety_autonomy_core.Common.{
  ℕ, ◌*◌, Bool, true, false, not, ◌&&◌, ◌||◌, String, List, [], ◌∷◌, ◌++◌, ◌==◌, ltb, leb,
  if◌then◌else◌,
}
use safety_autonomy_core.Common.Words.{u64}
use safety_autonomy_core.Common.Printf.{codes, print_unsigned, snprintf}
use safety_autonomy_core.Result.{Result, StatusCode, is_ok, ok_result, fault_result}
use safety_autonomy_core.Ports.{Mode, degraded, safe_stop, World, Readings, publish_event}
use safety_autonomy_core.Diag.Topics
use safety_autonomy_core.StateMachine.{
  ModeStateMachine, Outcome, mode_eq, transition_to, latch_fault,
}

pub data MonitorSeverity : Type 0 where
  no_severity warning degrading critical : MonitorSeverity

pub data MonitorType : Type 0 where
  clock_regression localization_stale trajectory_envelope diagnostic_drop : MonitorType

pub record MonitorEvent : Type 0 where
  pub type : MonitorType
  pub severity : MonitorSeverity
  pub code : ℕ
  pub detail : String

-- The values of `enum class MonitorSeverity : std::uint8_t`.
abbrev pub severity_number : MonitorSeverity → ℕ
severity_number MonitorSeverity.no_severity = 0
severity_number MonitorSeverity.warning = 1
severity_number MonitorSeverity.degrading = 2
severity_number MonitorSeverity.critical = 3

abbrev pub fault_code_clock_regression : ℕ
fault_code_clock_regression = 1001

abbrev pub fault_code_localization_lost : ℕ
fault_code_localization_lost = 1002

abbrev pub fault_code_transport_drop : ℕ
fault_code_transport_drop = 1003

monitor_name : MonitorType → String
monitor_name MonitorType.clock_regression = "clock_regression"
monitor_name MonitorType.localization_stale = "localization_stale"
monitor_name MonitorType.trajectory_envelope = "trajectory_envelope"
monitor_name MonitorType.diagnostic_drop = "diagnostic_drop"

pub record SafetySupervisor : Type 0 where
  pub machine : Bool
  pub transport : Bool
  pub clock : Bool
  pub has_clock_sample : Bool
  pub last_clock_ns : ℕ

pub publish_monitor_event : SafetySupervisor → Readings → String → MonitorEvent → World → World
unfolding monitor_name
publish_monitor_event s r topic e w =
    publish_event s.transport s.clock r topic
      (snprintf 128 (
        codes "monitor="
        ++ (codes (monitor_name e.type)
            ++ (codes " severity="
                ++ (print_unsigned (severity_number e.severity)
                    ++ (codes " code="
                        ++ (print_unsigned e.code ++ (codes " detail=" ++ codes e.detail))))))))
      w

unfoldable pub escalate_warning :
    SafetySupervisor → Readings → MonitorEvent → ModeStateMachine → World → Outcome
escalate_warning s r e m w =
    (m, publish_monitor_event s r Topics.safety_monitor_warning e w, ok_result)

unfoldable pub escalate_degraded :
    SafetySupervisor → ℕ → Readings → MonitorEvent → ModeStateMachine → World → Outcome
escalate_degraded s failures r e m w =
    let w' = publish_monitor_event s r Topics.safety_degraded_request e w in
    if not s.machine
    then (m, w', ok_result)
    else let (m'', w'', res) = transition_to failures r degraded m w' in
      if not (is_ok res) && not (mode_eq m''.mode degraded) && not (mode_eq m''.mode safe_stop)
      then (m'', w'', fault_result "failed to request degraded mode")
      else (m'', w'', ok_result)

abbrev is_fault : StatusCode → Bool
is_fault StatusCode.fault = true
is_fault _ = false

unfoldable pub escalate_critical :
    SafetySupervisor → Readings → MonitorEvent → ModeStateMachine → World → Outcome
escalate_critical s r e m w =
    let w' = publish_monitor_event s r Topics.safety_safe_stop_forced e w in
    if not s.machine
    then (m, w', fault_result "critical event without state machine")
    else let (m'', w'', res) = latch_fault r e.code m w' in
      if not (is_fault res.code)
      then (m'', w'', fault_result "critical escalation did not latch fault")
      else (m'', w'', res)

-- The `switch` of `process_monitor_event`.
unfoldable pub escalate :
    MonitorSeverity
    → SafetySupervisor
    → ℕ
    → Readings
    → MonitorEvent
    → ModeStateMachine
    → World
    → Outcome
escalate MonitorSeverity.no_severity s failures r e m w = (m, w, ok_result)
escalate MonitorSeverity.warning s failures r e m w = escalate_warning s r e m w
escalate MonitorSeverity.degrading s failures r e m w = escalate_degraded s failures r e m w
escalate MonitorSeverity.critical s failures r e m w = escalate_critical s r e m w

unfoldable pub process_monitor_event :
    SafetySupervisor → ℕ → Readings → MonitorEvent → ModeStateMachine → World → Outcome
process_monitor_event s failures r e m w = escalate e.severity s failures r e m w

unfoldable pub observe_clock_sample :
    SafetySupervisor → ℕ → Readings → ModeStateMachine → World → SafetySupervisor × Outcome
observe_clock_sample s now_ns r m w =
    let s' = record s { has_clock_sample = true; last_clock_ns = now_ns } in
    if not s.has_clock_sample
    then (s', (m, w, ok_result))
    else if ltb now_ns s.last_clock_ns
    then (
      s',
      process_monitor_event s' 0 r
          (record {
            type = MonitorType.clock_regression;
            severity = MonitorSeverity.critical;
            code = fault_code_clock_regression;
            detail = "clock moved backwards";
          })
          m w,
    )
    else (s', (m, w, ok_result))

-- The severity of a localization age, with the product on `std::uint64_t`.
unfoldable pub localization_severity : ℕ → ℕ → MonitorSeverity
localization_severity age_ns timeout_ns =
    if timeout_ns == 0 || leb age_ns timeout_ns
    then MonitorSeverity.no_severity
    else if leb (u64 (2 * timeout_ns)) age_ns
    then MonitorSeverity.critical
    else MonitorSeverity.degrading

unfoldable pub observe_localization_age :
    SafetySupervisor → ℕ → Readings → ℕ → ℕ → ModeStateMachine → World → Outcome
observe_localization_age s failures r age_ns timeout_ns m w =
    process_monitor_event s failures r
      (record {
        type = MonitorType.localization_stale;
        severity = localization_severity age_ns timeout_ns;
        code = fault_code_localization_lost;
        detail = "localization age exceeded timeout";
      })
      m w

unfoldable pub drop_event : MonitorSeverity → String → MonitorEvent
drop_event severity detail = record {
  type = MonitorType.diagnostic_drop;
  severity = severity;
  code = fault_code_transport_drop;
  detail = detail;
}

unfoldable pub observe_transport_drop_count :
    SafetySupervisor → Readings → ℕ → ℕ → ℕ → ModeStateMachine → World → Outcome
unfolding drop_event
observe_transport_drop_count s r dropped warning_threshold critical_threshold m w =
    if ltb 0 critical_threshold && leb critical_threshold dropped
    then process_monitor_event s 0 r
        (drop_event MonitorSeverity.critical "diagnostic drop critical threshold exceeded") m w
    else if ltb 0 warning_threshold && leb warning_threshold dropped
    then process_monitor_event s 0 r
        (drop_event MonitorSeverity.warning "diagnostic drop warning threshold exceeded") m w
    else (m, w, ok_result)
