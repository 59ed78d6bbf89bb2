-- ===== src/Node/Halted.antt =====
-- The node of safety_supervisor_node.cpp once a fault is latched: nothing that it handles moves it
-- again.
use safety_autonomy_core.Common.{
  ℕ, ◌≡◌, refl, Bool, true, false, ◌||◌, All, List, [], ◌∷◌, Option, none, some, arith,
  if◌then◌else◌,
}
use safety_autonomy_core.Common.Double.{Double, nought}
use safety_autonomy_core.Ports.{moving, degraded, safe_stop, World, Readings}
use safety_autonomy_core.Envelope.{SafetyZone}
use safety_autonomy_core.StateMachine.{
  ModeStateMachine, Outcome, mode_eq, transition_to, request_obstacle_hold,
  report_localization_lost,
}
use safety_autonomy_core.Supervisor.{observe_localization_age}
use safety_autonomy_core.Common.Words.{sub64}
use safety_autonomy_core.Recovery.{Name, process_health_msg}
use safety_autonomy_core.Recovery.SpeedLimit.{SpeedLimitController, update}
use safety_autonomy_core.Supervisor.Halting.{
  IsHalted, Halts, transition_to-Halts, latch_fault-IsHalted, hold-Halts, lost-Halts, age-Halts,
  clock-Halts,
}
use safety_autonomy_core.Node.{
  SupervisorNode, TickTimes, Event, on_machine, force_stop, move_on, on_odom,
  handle_zone_transition, on_envelope, age_localization, check_localization_staleness,
  check_sensor_health, check_sensor_recovery_timeouts, sample_clock, handle_sensor_degraded,
  handle_sensor_recovered, on_sensor_health, timer_tick, handle, handle_all,
}

-- The events other than a request to clear the fault.
abbrev pub keeps_fault : Event → Bool
keeps_fault Event.clear_request = false
keeps_fault _ = true

or_true : (b : Bool) → b || true ≡ true
or_true b = ground arith

module _ {W : Type 0} where
  -- The machine of the node is halted.
  abbrev pub NodeIsHalted : SupervisorNode W → Type 0
  NodeIsHalted n = IsHalted n.machine

  on_machine-IsHalted :
      (f : ModeStateMachine → World → Outcome) (n : SupervisorNode W) (w : World)
      → Halts f
      → NodeIsHalted n
      → NodeIsHalted (on_machine f n w).0
  unfolding on_machine
  on_machine-IsHalted f n w k h = k n.machine w h

  force_stop-IsHalted :
      (r : Readings) (code : ℕ) (n : SupervisorNode W) (w : World)
      → NodeIsHalted (force_stop r code n w).0
  unfolding force_stop on_machine
  force_stop-IsHalted r code n w =
      transition_to-Halts 0 r safe_stop _ _ (latch_fault-IsHalted r code n.machine w)

  move_on-IsHalted :
      (r : Readings) (n : SupervisorNode W) (w : World)
      → NodeIsHalted n
      → NodeIsHalted (move_on r n w).0
  unfolding move_on on_machine
  move_on-IsHalted r n w h = transition_to-Halts 0 r moving n.machine w h

  zone-IsHalted :
      (r : Readings) (zone : SafetyZone) (n : SupervisorNode W) (w : World)
      → NodeIsHalted n
      → NodeIsHalted (handle_zone_transition r zone n w).0
  unfolding handle_zone_transition
  zone-IsHalted r SafetyZone.clear n w h = ground (arith, move_on-IsHalted r n w h)
  zone-IsHalted r SafetyZone.warning n w h = ground (arith, move_on-IsHalted r n w h)
  zone-IsHalted r SafetyZone.protective n w h =
      ground (arith, on_machine-IsHalted (request_obstacle_hold 0 r) n w (hold-Halts r) h)
  zone-IsHalted r SafetyZone.emergency n w h = force_stop-IsHalted r _ n w

  -- Both branches of a test.
  either-IsHalted :
      (b : Bool) (x y : SupervisorNode W × World)
      → NodeIsHalted x.0
      → NodeIsHalted y.0
      → NodeIsHalted (if b then x else y).0
  either-IsHalted true x y h k = h
  either-IsHalted false x y h k = k

  envelope-IsHalted :
      (r : Readings) (zone : SafetyZone) (n : SupervisorNode W) (w : World)
      → NodeIsHalted n
      → NodeIsHalted (on_envelope r zone n w).0
  unfolding on_envelope
  envelope-IsHalted r zone n w h =
      let seen = record n { latest_zone = zone } in
      zone-IsHalted r zone _ _
        (either-IsHalted _ (move_on r seen w) (seen, w) (move_on-IsHalted r seen w h) h)

  age-IsHalted :
      (r : Readings) (t odom_ns : ℕ) (n : SupervisorNode W) (w : World)
      → NodeIsHalted n
      → NodeIsHalted (age_localization r t odom_ns n w).0
  unfolding age_localization
  age-IsHalted r t odom_ns n w h =
      let age = sub64 t odom_ns in
      let observe = observe_localization_age n.supervisor 0 r age n.localization_timeout_ns in
      let aged = on_machine observe n w in
      let halted =
        on_machine-IsHalted observe n w (age-Halts n.supervisor r age n.localization_timeout_ns)
          h in
      either-IsHalted _ (on_machine (report_localization_lost 0 r) aged.0 aged.1) aged
        (on_machine-IsHalted (report_localization_lost 0 r) aged.0 aged.1 (lost-Halts r) halted)
        halted

  localization_cases-IsHalted :
      (o : Option ℕ) (r : Readings) (t : ℕ) (n : SupervisorNode W) (w : World)
      → NodeIsHalted n
      → NodeIsHalted
          (elim o as (λ _. SupervisorNode W × World) [
            | none ↦ (n, w)
            | some odom_ns ↦ age_localization r t odom_ns n w
          ]).0
  localization_cases-IsHalted none r t n w h = h
  localization_cases-IsHalted (some odom_ns) r t n w h = age-IsHalted r t odom_ns n w h

  localization-IsHalted :
      (r : Readings) (t : ℕ) (n : SupervisorNode W) (w : World)
      → NodeIsHalted n
      → NodeIsHalted (check_localization_staleness r t n w).0
  unfolding check_localization_staleness
  localization-IsHalted r t n w h = localization_cases-IsHalted n.last_odom_time_ns r t n w h

  sensors-IsHalted :
      (r : Readings) (t : ℕ) (n : SupervisorNode W) (w : World)
      → NodeIsHalted n
      → NodeIsHalted (check_sensor_health r t n w).0
  unfolding check_sensor_health
  sensors-IsHalted r t n w h = ground arith

  timeouts-IsHalted :
      (r : Readings) (t : ℕ) (n : SupervisorNode W) (w : World)
      → NodeIsHalted n
      → NodeIsHalted (check_sensor_recovery_timeouts r t n w).0
  unfolding check_sensor_recovery_timeouts
  timeouts-IsHalted r t n w h = ground arith

  sample-IsHalted :
      (r : Readings) (t : ℕ) (n : SupervisorNode W) (w : World)
      → NodeIsHalted n
      → NodeIsHalted (sample_clock r t n w).0
  unfolding sample_clock
  sample-IsHalted r t n w h = clock-Halts n.supervisor t r n.machine w h

  module _ ⦃d : Double W⦄ where
    degraded-IsHalted :
        (r : Readings) (n : SupervisorNode W) (w : World)
        → NodeIsHalted n
        → NodeIsHalted (handle_sensor_degraded r n w).0
    unfolding handle_sensor_degraded
    degraded-IsHalted r n w h =
        either-IsHalted _ (on_machine (transition_to 0 r degraded) n w) (n, w)
          (on_machine-IsHalted _ n w (transition_to-Halts 0 r degraded) h) h

    recovered-IsHalted :
        (r : Readings) (t : ℕ) (n : SupervisorNode W) (w : World)
        → NodeIsHalted n
        → NodeIsHalted (handle_sensor_recovered r t n w).0
    unfolding handle_sensor_recovered
    recovered-IsHalted r t n w h =
        either-IsHalted _ (_, _) (n, w)
          (either-IsHalted _ (on_machine (transition_to 0 r moving) n w) (n, w)
            (on_machine-IsHalted _ n w (transition_to-Halts 0 r moving) h) h)
          h

    health-IsHalted :
        (r : Readings) (name : Name) (status now_ns later_ns : ℕ) (n : SupervisorNode W) (w : World)
        → NodeIsHalted n
        → NodeIsHalted (on_sensor_health r name status now_ns later_ns n w).0
    unfolding on_sensor_health
    health-IsHalted r name status now_ns later_ns n w h =
        let (mgr, change) = process_health_msg name status now_ns n.recovery_mgr in
        let n' = record n { recovery_mgr = mgr } in
        ground (arith, degraded-IsHalted r n' w h, recovered-IsHalted r later_ns n' w h)

    limit_in_stop :
        (t : ℕ) (m : ModeStateMachine) (c : SpeedLimitController W)
        → IsHalted m
        → (update t (mode_eq m.mode safe_stop) c).1 ≡ nought
    unfolding update
    limit_in_stop t m c h = rw h.1 refl

    -- What a tick does to a halted node: the node stays halted, the limit is 0 and the stop flag set.
    pub tick-IsHalted :
        (r : Readings) (t : TickTimes) (n : SupervisorNode W) (w : World)
        → NodeIsHalted n
        → NodeIsHalted (timer_tick r t n w).0
          × ((timer_tick r t n w).2 ≡ nought)
          × ((timer_tick r t n w).3 ≡ true)
    unfolding timer_tick
    tick-IsHalted r t n w h =
        let (n₁, w₁) = check_localization_staleness r t.localization_ns n w in
        let (n₂, w₂) = check_sensor_health r t.sensor_ns n₁ w₁ in
        let (n₃, w₃) = check_sensor_recovery_timeouts r t.start_ns n₂ w₂ in
        let h₁ = localization-IsHalted r t.localization_ns n w h in
        let h₂ = sensors-IsHalted r t.sensor_ns n₁ w₁ h₁ in
        let h₃ = timeouts-IsHalted r t.start_ns n₂ w₂ h₂ in
        (
          sample-IsHalted r t.start_ns _ w₃ h₃,
          limit_in_stop t.start_ns n₃.machine n₃.speed_ctrl h₃,
          rw h.1 (or_true _),
        )

    handle-IsHalted :
        (r : Readings) (e : Event) (n : SupervisorNode W) (w : World)
        → keeps_fault e ≡ true
        → NodeIsHalted n
        → NodeIsHalted (handle r e n w).0
    unfolding handle on_odom
    handle-IsHalted r (Event.odom sec nanosec) n w k h = h
    handle-IsHalted r (Event.envelope zone) n w k h = envelope-IsHalted r zone n w h
    handle-IsHalted r (Event.sensor_health name status now_ns later_ns) n w k h =
        health-IsHalted r name status now_ns later_ns n w h
    handle-IsHalted r (Event.tick t) n w k h = (tick-IsHalted r t n w h).0
    handle-IsHalted r Event.clear_request n w k h = absurd (ground (arith, k))

    handle_all-IsHalted :
        (es : List (Readings × Event)) (n : SupervisorNode W) (w : World)
        → All (λ e. keeps_fault e.1 ≡ true) es
        → NodeIsHalted n
        → NodeIsHalted (handle_all es n w).0
    unfolding handle_all
    handle_all-IsHalted [] n w k h = h
    handle_all-IsHalted ((r, e) ∷ es) n w (k, ks) h =
        let (n', w') = handle r e n w in
        handle_all-IsHalted es n' w' ks (handle-IsHalted r e n w k h)

    emergency-IsHalted :
        (r : Readings) (n : SupervisorNode W) (w : World)
        → NodeIsHalted (on_envelope r SafetyZone.emergency n w).0
    unfolding on_envelope handle_zone_transition
    emergency-IsHalted r n w = force_stop-IsHalted r _ _ _

    -- When an envelope message reports the Emergency zone, whatever the state of the node, a fault is
    -- latched and the machine is in SafeStop. That is still so after any further messages and ticks
    -- without a request to clear the fault, and every later tick publishes the speed limit 0 and the
    -- stop flag.
    pub emergency_stops :
        (r later : Readings) (es : List (Readings × Event)) (t : TickTimes) (n : SupervisorNode W)
        (w : World)
        → All (λ e. keeps_fault e.1 ≡ true) es
        → let (stopped, w') = on_envelope r SafetyZone.emergency n w in
          let (n'', w'') = handle_all es stopped w' in
          NodeIsHalted stopped
          × NodeIsHalted n''
          × ((timer_tick later t n'' w'').2 ≡ nought)
          × ((timer_tick later t n'' w'').3 ≡ true)
    emergency_stops r later es t n w k =
        let (stopped, w') = on_envelope r SafetyZone.emergency n w in
        let (n'', w'') = handle_all es stopped w' in
        let h = emergency-IsHalted r n w in
        let h'' = handle_all-IsHalted es stopped w' k h in
        let (still, limit, stop) = tick-IsHalted later t n'' w'' h'' in (h, h'', limit, stop)
