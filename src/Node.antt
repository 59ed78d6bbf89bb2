-- ===== src/Node.antt =====
-- ros2/src/safety_core_ros/src/safety_supervisor_node.cpp: the handlers of the supervisor node. The
-- node owns its machine, supervisor, recovery manager and speed limit. Messages are given by what the
-- handlers read of them; logs, ROS publications and the timing of the ticks are left out. The
-- compare-and-swap of the machine does not fail here (`transition_to_failures`).
pub mod Halted
pub mod State
use safety_autonomy_core.Common.{
  ℕ, ◌+◌, ◌*◌, Bool, true, false, not, ◌&&◌, ◌||◌, List, [], ◌∷◌, Option, none, some, ◌==◌, ltb,
  if◌then◌else◌,
}
use safety_autonomy_core.Common.Int.{ℤ}
use safety_autonomy_core.Common.Words.{u64, sub64, u64_of_i64}
use safety_autonomy_core.Common.Double.{Double}
use safety_autonomy_core.Common.Printf.{codes}
use safety_autonomy_core.Ports.{
  Mode, idle, moving, degraded, avoiding_obstacle, localization_lost, safe_stop, World, Readings,
}
use safety_autonomy_core.Result.{is_ok}
use safety_autonomy_core.Envelope.{SafetyZone}
use safety_autonomy_core.StateMachine.{
  ModeStateMachine, Outcome, mode_eq, transition_to, latch_fault, clear_fault,
  request_obstacle_hold, report_localization_lost,
}
use safety_autonomy_core.Supervisor.{
  SafetySupervisor, observe_localization_age, observe_clock_sample,
}
use safety_autonomy_core.Recovery.{
  Name, SensorRecoveryManager, HealthTransition, same_name, process_health_msg, check_timeouts,
  update_summary, set_degraded_mode, is_any_degraded, healthy, degraded_status, fault_status,
}
use safety_autonomy_core.Recovery.SpeedLimit.{
  SpeedLimitController, update, on_degraded, on_recovered,
}

pub record SupervisorNode (W : Type 0) : Type 0 where
  pub machine : ModeStateMachine
  pub supervisor : SafetySupervisor
  pub recovery_mgr : SensorRecoveryManager
  pub speed_ctrl : SpeedLimitController W
  pub last_odom_time_ns : Option ℕ
  pub latest_zone : SafetyZone
  pub safe_stop_requested : Bool
  pub auto_recover_from_obstacle : Bool
  pub localization_timeout_ns : ℕ
  pub sensor_timeout_ns : ℕ
  pub recovery_timeout_ns : ℕ

-- The clock as a tick reads it: at its start, for the localization and for the sensors.
pub record TickTimes : Type 0 where
  pub start_ns : ℕ
  pub localization_ns : ℕ
  pub sensor_ns : ℕ

-- The callbacks of the node, with what they read.
pub data Event : Type 0 where
  odom : ℤ → ℕ → Event
  envelope : SafetyZone → Event
  sensor_health : Name → ℕ → ℕ → ℕ → Event
  tick : TickTimes → Event
  clear_request : Event

-- `TimeUtils::is_stale`
abbrev pub is_stale : ℕ → ℕ → ℕ → Bool
is_stale timestamp_ns current_ns timeout_ns = ltb timeout_ns (sub64 current_ns timestamp_ns)

abbrev is_clear : SafetyZone → Bool
is_clear SafetyZone.clear = true
is_clear _ = false

abbrev is_empty : Name → Bool
is_empty [] = true
is_empty _ = false

module _ {W : Type 0} where
  -- An operation of the machine, whose result is only logged.
  unfoldable pub on_machine :
      (ModeStateMachine → World → Outcome) → SupervisorNode W → World → SupervisorNode W × World
  on_machine f n w = let (m, w', res) = f n.machine w in (record n { machine = m }, w')

  -- The latching of a fault, with the request of SafeStop that follows it.
  unfoldable pub force_stop : Readings → ℕ → SupervisorNode W → World → SupervisorNode W × World
  force_stop r code n w =
      let (n', w') = on_machine (latch_fault r code) n w in
      let (n'', w'') = on_machine (transition_to 0 r safe_stop) n' w' in
      (record n'' { safe_stop_requested = true }, w'')

  -- A transition to Moving that takes back the request of SafeStop.
  unfoldable pub move_on : Readings → SupervisorNode W → World → SupervisorNode W × World
  move_on r n w =
      let (n', w') = on_machine (transition_to 0 r moving) n w in
      (record n' { safe_stop_requested = false }, w')

  -- `on_odom`, at the seconds and nanoseconds of the stamp.
  pub on_odom : ℤ → ℕ → SupervisorNode W → SupervisorNode W
  on_odom sec nanosec n = record n {
    last_odom_time_ns = some (u64 (u64_of_i64 sec * 1000000000 + nanosec));
  }

  -- `handle_zone_transition`
  unfoldable pub handle_zone_transition :
      Readings → SafetyZone → SupervisorNode W → World → SupervisorNode W × World
  handle_zone_transition r zone n w =
      let resumed =
        (if mode_eq n.machine.mode avoiding_obstacle && n.auto_recover_from_obstacle
          then move_on r n w
          else (n, w)) in
      elim zone [
        | SafetyZone.clear ↦ resumed
        | SafetyZone.warning ↦ resumed
        | SafetyZone.protective ↦
            if mode_eq n.machine.mode moving
            then on_machine (request_obstacle_hold 0 r) n w
            else (n, w)
        | SafetyZone.emergency ↦ force_stop r 57345 n w
      ]

  -- `on_envelope`
  unfoldable pub on_envelope :
      Readings → SafetyZone → SupervisorNode W → World → SupervisorNode W × World
  on_envelope r zone n w =
      let seen = record n { latest_zone = zone } in
      let (n', w') =
        (if mode_eq n.machine.mode idle && is_clear zone then move_on r seen w else (seen, w)) in
      handle_zone_transition r zone n' w'

  -- `check_localization_staleness` behind its early return.
  unfoldable pub age_localization :
      Readings → ℕ → ℕ → SupervisorNode W → World → SupervisorNode W × World
  age_localization r current_ns odom_ns n w =
      let (n', w') =
        on_machine
          (observe_localization_age n.supervisor 0 r (sub64 current_ns odom_ns)
            n.localization_timeout_ns)
          n w in
      if is_stale odom_ns current_ns n.localization_timeout_ns
        && not (mode_eq n'.machine.mode localization_lost)
        && not (mode_eq n'.machine.mode safe_stop)
      then on_machine (report_localization_lost 0 r) n' w'
      else (n', w')

  -- `check_localization_staleness`
  unfoldable pub check_localization_staleness :
      Readings → ℕ → SupervisorNode W → World → SupervisorNode W × World
  check_localization_staleness r current_ns n w = elim n.last_odom_time_ns [
    | none ↦ (n, w)
    | some odom_ns ↦ age_localization r current_ns odom_ns n w
  ]

  set_mode_flag : Bool → SupervisorNode W × World → SupervisorNode W × World
  set_mode_flag val (n, w) = (record n { recovery_mgr = set_degraded_mode val n.recovery_mgr }, w)

  -- `check_sensor_health` behind its early returns.
  unfoldable pub react_to_sensors : Readings → SupervisorNode W → World → SupervisorNode W × World
  unfolding set_mode_flag
  react_to_sensors r n w =
      let worst = n.recovery_mgr.worst_sensor_status in
      let degraded_mode = n.recovery_mgr.in_degraded_mode in
      if worst == fault_status
      then set_mode_flag false (force_stop r 57346 n w)
      else if worst == degraded_status
      then (if mode_eq n.machine.mode moving && not degraded_mode
          then set_mode_flag true (on_machine (transition_to 0 r degraded) n w)
          else (n, w))
      else if worst == healthy && degraded_mode && mode_eq n.machine.mode degraded
      then set_mode_flag false (on_machine (transition_to 0 r moving) n w)
      else (n, w)

  -- `check_sensor_health`
  unfoldable pub check_sensor_health :
      Readings → ℕ → SupervisorNode W → World → SupervisorNode W × World
  check_sensor_health r current_ns n w =
      let reacted : SupervisorNode W × World = (elim n.recovery_mgr.last_sensor_health_time_ns [
        | none ↦ (n, w)
        | some last_ns ↦
            if is_stale last_ns current_ns n.sensor_timeout_ns
            then (n, w)
            else react_to_sensors r n w
      ]) in
      if mode_eq n.machine.mode safe_stop then (n, w) else reacted

  -- `check_sensor_recovery_timeouts`
  unfoldable pub check_sensor_recovery_timeouts :
      Readings → ℕ → SupervisorNode W → World → SupervisorNode W × World
  unfolding set_mode_flag
  check_sensor_recovery_timeouts r now_ns n w =
      let (mgr, timed_out) = check_timeouts now_ns n.recovery_timeout_ns n.recovery_mgr in
      let checked = record n { recovery_mgr = mgr } in
      if mode_eq n.machine.mode safe_stop
      then (n, w)
      else if is_empty timed_out
      then (checked, w)
      else set_mode_flag false (force_stop r 57347 checked w)

  -- The call of `observe_clock_sample`.
  unfoldable pub sample_clock : Readings → ℕ → SupervisorNode W → World → SupervisorNode W × World
  sample_clock r now_ns n w =
      let (s, out) = observe_clock_sample n.supervisor now_ns r n.machine w in
      (record n { supervisor = s; machine = out.0 }, out.1)

  -- `on_clear_fault`, with the success that it answers.
  unfoldable pub on_clear_fault :
      Readings → SupervisorNode W → World → SupervisorNode W × World × Bool
  on_clear_fault r n w =
      let (m, w', res) = clear_fault r n.machine w in
      if is_ok res
      then (record n { machine = m; safe_stop_requested = false }, w', true)
      else (record n { machine = m }, w', false)

  module _ ⦃d : Double W⦄ where
    -- `handle_sensor_degraded`
    unfoldable pub handle_sensor_degraded :
        Readings → SupervisorNode W → World → SupervisorNode W × World
    handle_sensor_degraded r n w =
        let (n', w') =
          (if mode_eq n.machine.mode moving
            then on_machine (transition_to 0 r degraded) n w
            else (n, w)) in
        (
          record n' {
            recovery_mgr = set_degraded_mode true n'.recovery_mgr;
            speed_ctrl = on_degraded n'.speed_ctrl;
          },
          w',
        )

    -- `handle_sensor_recovered`
    unfoldable pub handle_sensor_recovered :
        Readings → ℕ → SupervisorNode W → World → SupervisorNode W × World
    handle_sensor_recovered r now_ns n w =
        let (n', w') =
          (if mode_eq n.machine.mode degraded
            then on_machine (transition_to 0 r moving) n w
            else (n, w)) in
        if not (is_any_degraded n.recovery_mgr)
        then (
          record n' {
            recovery_mgr = set_degraded_mode false n'.recovery_mgr;
            speed_ctrl = on_recovered now_ns n'.speed_ctrl;
          },
          w',
        )
        else (n, w)

    -- `on_sensor_health`, with the clock at its start and in `handle_sensor_recovered`.
    unfoldable pub on_sensor_health :
        Readings → Name → ℕ → ℕ → ℕ → SupervisorNode W → World → SupervisorNode W × World
    on_sensor_health r name status now_ns later_ns n w =
        let (mgr, change) = process_health_msg name status now_ns n.recovery_mgr in
        let n' = record n { recovery_mgr = mgr } in
        if same_name name (codes "all")
        then (record n { recovery_mgr = update_summary status now_ns n.recovery_mgr }, w)
        else elim change [
          | HealthTransition.to_degraded ↦ handle_sensor_degraded r n' w
          | HealthTransition.recovered ↦ handle_sensor_recovered r later_ns n' w
          | HealthTransition.no_transition ↦ (n', w)
        ]

    -- `timer_tick`, with the speed limit and the stop flag that it publishes; the flag looks at the
    -- mode at the start of the tick.
    unfoldable pub timer_tick :
        Readings → TickTimes → SupervisorNode W → World → SupervisorNode W × World × W × Bool
    timer_tick r t n w =
        let (n₁, w₁) = check_localization_staleness r t.localization_ns n w in
        let (n₂, w₂) = check_sensor_health r t.sensor_ns n₁ w₁ in
        let (n₃, w₃) = check_sensor_recovery_timeouts r t.start_ns n₂ w₂ in
        let (speed, limit) = update t.start_ns (mode_eq n₃.machine.mode safe_stop) n₃.speed_ctrl in
        let (n₄, w₄) = sample_clock r t.start_ns (record n₃ { speed_ctrl = speed }) w₃ in
        (n₄, w₄, limit, n₄.safe_stop_requested || mode_eq n.machine.mode safe_stop)

    unfoldable pub handle : Readings → Event → SupervisorNode W → World → SupervisorNode W × World
    handle r (Event.odom sec nanosec) n w = (on_odom sec nanosec n, w)
    handle r (Event.envelope zone) n w = on_envelope r zone n w
    handle r (Event.sensor_health name status now_ns later_ns) n w =
        on_sensor_health r name status now_ns later_ns n w
    handle r (Event.tick t) n w = let (n', w', limit, stop) = timer_tick r t n w in (n', w')
    handle r Event.clear_request n w = let (n', w', success) = on_clear_fault r n w in (n', w')

    unfoldable pub handle_all :
        List (Readings × Event) → SupervisorNode W → World → SupervisorNode W × World
    handle_all [] n w = (n, w)
    handle_all ((r, e) ∷ es) n w = let (n', w') = handle r e n w in handle_all es n' w'
