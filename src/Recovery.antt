-- ===== src/Recovery.antt =====
-- ros2/src/safety_core_ros/include/safety_core_ros/sensor_recovery_manager.hpp, with the constants of
-- ros2/src/safety_core_msgs/msg/SensorHealth.msg. A map from names is a list of pairs in the order in
-- which it is walked; names are lists of character codes. The log lines are left out, and so is the
-- name in the result of `process_health_msg`, which is the reported one at a transition.
pub mod Forgotten
pub mod Timeouts
pub mod SpeedLimit
use safety_autonomy_core.Common.{
  ℕ, zero, suc, ◌+◌, Bool, true, false, not, ◌&&◌, ◌||◌, List, [], ◌∷◌, Option, none, some, ◌==◌,
  ltb, if◌then◌else◌,
}
use safety_autonomy_core.Common.Words.{sub64}

abbrev pub unknown : ℕ
unknown = 0

abbrev pub healthy : ℕ
healthy = 1

abbrev pub degraded_status : ℕ
degraded_status = 2

abbrev pub fault_status : ℕ
fault_status = 3

abbrev pub Name : Type 0
Name = List ℕ

-- `==` of two names.
unfoldable pub same_name : Name → Name → Bool
same_name [] [] = true
same_name (a ∷ more) (b ∷ bs) = let rest = same_name more bs in a == b && rest
same_name _ _ = false

pub record SensorRecoveryInfo : Type 0 where
  pub status : ℕ
  pub degradation_start_ns : Option ℕ
  pub timed_out : Bool

abbrev pub Sensors : Type 0
Sensors = List (Name × SensorRecoveryInfo)

pub record SensorRecoveryManager : Type 0 where
  pub sensor_states : Sensors
  pub worst_sensor_status : ℕ
  pub last_sensor_health_time_ns : Option ℕ
  pub in_degraded_mode : Bool

pub data HealthTransition : Type 0 where
  no_transition to_degraded recovered : HealthTransition

-- `sensor_states_.find(name)`
unfoldable pub find : Name → Sensors → Option SensorRecoveryInfo
find name [] = none
find name ((key, info) ∷ rest) =
    let later = find name rest in if same_name name key then some info else later

-- The first report of a sensor.
unfoldable pub first_info : ℕ → ℕ → SensorRecoveryInfo × HealthTransition
first_info status now_ns = (
  record {
    status = status;
    degradation_start_ns = if status == degraded_status then some now_ns else none;
    timed_out = false;
  },
  if status == degraded_status
      then HealthTransition.to_degraded
      else HealthTransition.no_transition,
)

-- A report of a known sensor.
unfoldable pub next_info : SensorRecoveryInfo → ℕ → ℕ → SensorRecoveryInfo × HealthTransition
next_info info status now_ns =
    if info.timed_out && status == degraded_status
    then (info, HealthTransition.no_transition)
    else if info.status == status
    then (info, HealthTransition.no_transition)
    else if status == degraded_status
    then (
      record info { status = status; degradation_start_ns = some now_ns },
      HealthTransition.to_degraded,
    )
    else if info.status == degraded_status && status == healthy
    then (record info { status = status; degradation_start_ns = none }, HealthTransition.recovered)
    else if status == fault_status
    then (
      record info { status = status; degradation_start_ns = none },
      HealthTransition.no_transition,
    )
    else (record info { status = status }, HealthTransition.no_transition)

-- The search and the update of `process_health_msg` in one walk; a new sensor is put at the end.
unfoldable pub process_sensors : Name → ℕ → ℕ → Sensors → Sensors × HealthTransition
process_sensors name status now_ns [] =
    let (info, change) = first_info status now_ns in ((name, info) ∷ [], change)
process_sensors name status now_ns ((key, info) ∷ rest) =
    let (info', change) = next_info info status now_ns in
    let (rest', later) = process_sensors name status now_ns rest in
    if same_name name key then ((key, info') ∷ rest, change) else ((key, info) ∷ rest', later)

-- `process_health_msg`
unfoldable pub process_health_msg :
    Name → ℕ → ℕ → SensorRecoveryManager → SensorRecoveryManager × HealthTransition
process_health_msg name status now_ns m =
    let (sensors, change) = process_sensors name status now_ns m.sensor_states in
    (record m { sensor_states = sensors }, change)

-- A degraded sensor whose time to recover is over.
unfoldable pub is_overdue : ℕ → ℕ → SensorRecoveryInfo → Bool
is_overdue now_ns timeout_ns info =
    info.status == degraded_status && (elim info.degradation_start_ns [
      | none ↦ false
      | some start ↦ ltb timeout_ns (sub64 now_ns start)
    ])

abbrev pub timed_out_info : SensorRecoveryInfo → SensorRecoveryInfo
timed_out_info info = record info { timed_out = true; degradation_start_ns = none }

-- The loop of `check_timeouts`, with the name that it returns, the empty one if no sensor is overdue.
unfoldable pub time_out_first : ℕ → ℕ → Sensors → Sensors × Name
time_out_first now_ns timeout_ns [] = ([], [])
time_out_first now_ns timeout_ns ((key, info) ∷ rest) =
    let (rest', found) = time_out_first now_ns timeout_ns rest in
    if is_overdue now_ns timeout_ns info
    then ((key, timed_out_info info) ∷ rest, key)
    else ((key, info) ∷ rest', found)

-- `check_timeouts`
unfoldable pub check_timeouts : ℕ → ℕ → SensorRecoveryManager → SensorRecoveryManager × Name
check_timeouts now_ns timeout_ns m =
    let (sensors, found) = time_out_first now_ns timeout_ns m.sensor_states in
    (record m { sensor_states = sensors }, found)

-- `update_summary`
unfoldable pub update_summary : ℕ → ℕ → SensorRecoveryManager → SensorRecoveryManager
update_summary status now_ns m = record m {
  worst_sensor_status = status;
  last_sensor_health_time_ns = some now_ns;
}

-- `set_degraded_mode`
unfoldable pub set_degraded_mode : Bool → SensorRecoveryManager → SensorRecoveryManager
set_degraded_mode val m = record m { in_degraded_mode = val }

any_degraded : Sensors → Bool
any_degraded [] = false
any_degraded ((key, info) ∷ rest) =
    let later = any_degraded rest in if info.status == degraded_status then true else later

-- `is_any_degraded`
unfoldable pub is_any_degraded : SensorRecoveryManager → Bool
unfolding any_degraded
is_any_degraded m = any_degraded m.sensor_states

-- The operations that change the manager.
pub data Operation : Type 0 where
  health : Name → ℕ → ℕ → Operation
  check : ℕ → ℕ → Operation
  summary : ℕ → ℕ → Operation
  set_mode : Bool → Operation

unfoldable pub operate : Operation → SensorRecoveryManager → SensorRecoveryManager
operate (Operation.health name status now_ns) m = (process_health_msg name status now_ns m).0
operate (Operation.check now_ns timeout_ns) m = (check_timeouts now_ns timeout_ns m).0
operate (Operation.summary status now_ns) m = update_summary status now_ns m
operate (Operation.set_mode val) m = set_degraded_mode val m

unfoldable pub operate_all : List Operation → SensorRecoveryManager → SensorRecoveryManager
operate_all [] m = m
operate_all (o ∷ os) m = operate_all os (operate o m)
