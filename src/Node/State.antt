-- ===== src/Node/State.antt =====
-- ros2/src/safety_core_ros/src/safety_supervisor_node.cpp: the state message that a tick publishes.
use safety_autonomy_core.Common.{ℕ, Bool, ◌||◌}
use safety_autonomy_core.Ports.{Mode, safe_stop}
use safety_autonomy_core.Envelope.Zones.{zone_number}
use safety_autonomy_core.StateMachine.{mode_eq, mode_number}
use safety_autonomy_core.Node.{SupervisorNode}

-- `safety_core_msgs::msg::SafetyState` without its header.
pub record SafetyState : Type 0 where
  pub mode : ℕ
  pub fault_latched : Bool
  pub fault_code : ℕ
  pub zone : ℕ
  pub safe_stop_requested : Bool

module _ {W : Type 0} where
  -- `build_state_msg`
  unfoldable pub build_state_msg : Mode → SupervisorNode W → SafetyState
  build_state_msg current_mode n = record {
    mode = mode_number current_mode;
    fault_latched = n.machine.latched_fault;
    fault_code = 0;
    zone = zone_number n.latest_zone;
    safe_stop_requested = n.safe_stop_requested || mode_eq current_mode safe_stop;
  }
