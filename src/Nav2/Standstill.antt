-- ===== src/Nav2/Standstill.antt =====
-- ros2/src/safety_core_nav2/src/is_safe_condition.cpp behind safety_supervisor_node.cpp: what the
-- navigation is told after an emergency.
use safety_autonomy_core.Common.{◌≡◌, refl, Bool, true, List, Option, All}
use safety_autonomy_core.Common.Double.{Double}
use safety_autonomy_core.Ports.{World, Readings}
use safety_autonomy_core.Envelope.{SafetyZone}
use safety_autonomy_core.Node.{
  SupervisorNode, TickTimes, Event, on_envelope, timer_tick, handle_all,
}
use safety_autonomy_core.Node.State.{SafetyState, build_state_msg}
use safety_autonomy_core.Node.Halted.{keeps_fault, NodeIsHalted, tick-IsHalted, emergency_stops}
use safety_autonomy_core.Nav2.{IsSafeCondition, failure, on_safety_state, tick}

latched_fails :
    (allow_warning allow_protective : Option Bool) (msg : SafetyState) (c : IsSafeCondition)
    → msg.fault_latched ≡ true
    → tick allow_warning allow_protective (on_safety_state msg c) ≡ failure
unfolding tick on_safety_state
latched_fails allow_warning allow_protective msg c h = rw h refl

module _ {W : Type 0} ⦃d : Double W⦄ where
  -- The state message of a tick at the end of which a fault is latched makes the condition fail.
  tick_fails :
      (allow_warning allow_protective : Option Bool) (c : IsSafeCondition) (r : Readings)
      (t : TickTimes) (n : SupervisorNode W) (w : World)
      → NodeIsHalted (timer_tick r t n w).0
      → tick allow_warning allow_protective
          (on_safety_state (build_state_msg n.machine.mode (timer_tick r t n w).0) c)
        ≡ failure
  unfolding build_state_msg
  tick_fails allow_warning allow_protective c r t n w h =
      latched_fails allow_warning allow_protective _ c h.0

  -- When the supervisor node has received the Emergency zone, then, as long as no fault is cleared and
  -- whatever other messages and ticks follow, the state that its next tick publishes makes the
  -- navigation's condition fail, whatever zones its ports allow.
  pub emergency_fails :
      (allow_warning allow_protective : Option Bool) (c : IsSafeCondition) (r later : Readings)
      (es : List (Readings × Event)) (t : TickTimes) (n : SupervisorNode W) (w : World)
      → All (λ e. keeps_fault e.1 ≡ true) es
      → let (stopped, w') = on_envelope r SafetyZone.emergency n w in
        let (n'', w'') = handle_all es stopped w' in
        tick allow_warning allow_protective
          (on_safety_state (build_state_msg n''.machine.mode (timer_tick later t n'' w'').0) c)
        ≡ failure
  emergency_fails allow_warning allow_protective c r later es t n w k =
      let (stopped, w') = on_envelope r SafetyZone.emergency n w in
      let (n'', w'') = handle_all es stopped w' in
      let (h, h'', limit, stop) = emergency_stops r later es t n w k in
      tick_fails allow_warning allow_protective c later t n'' w''
        (tick-IsHalted later t n'' w'' h'').0
