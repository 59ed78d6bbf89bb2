-- ===== src/Nav2.antt =====
-- ros2/src/safety_core_nav2/src/is_safe_condition.cpp: the condition that the navigation's behavior tree
-- asks whether to move on. The values of the input ports are arguments, `none` where a port is not set.
pub mod Standstill
use safety_autonomy_core.Common.{
  ℕ, ◌≡◌, ◌⊎◌, ◌↔◌, inl, inr, refl, Bool, true, false, not, ◌||◌, Option, none, some, ◌==◌, arith,
  if◌then◌else◌,
}
use safety_autonomy_core.Node.State.{SafetyState}

pub data NodeStatus : Type 0 where
  success failure : NodeStatus

pub record IsSafeCondition : Type 0 where
  pub last_msg : SafetyState
  pub have_msg : Bool

-- `on_safety_state`
unfoldable pub on_safety_state : SafetyState → IsSafeCondition → IsSafeCondition
on_safety_state msg c = record { last_msg = msg; have_msg = true }

-- The value of a port that `getInput` reads, or the default.
abbrev pub input : Option Bool → Bool → Bool
input none default = default
input (some b) default = b

-- The modes that `tick` refuses: `SAFE_STOP`, `DEGRADED` and `LOCALIZATION_LOST`.
unfoldable pub refused_mode : ℕ → Bool
refused_mode mode = mode == 7 || (mode == 3 || mode == 5)

-- `tick`
unfoldable pub tick : Option Bool → Option Bool → IsSafeCondition → NodeStatus
unfolding refused_mode
tick allow_warning allow_protective c =
    let msg = c.last_msg in
    if not c.have_msg
    then failure
    else if msg.fault_latched || msg.safe_stop_requested
    then failure
    else if refused_mode msg.mode
    then failure
    else if msg.zone == 0
    then success
    else if msg.zone == 1
    then (if input allow_warning true then success else failure)
    else if msg.zone == 2
    then (if input allow_protective false then success else failure)
    else failure

-- The zones in which the robot may move: clear, and the warning and protective zones where allowed.
abbrev pub IsAllowedZone : Option Bool → Option Bool → ℕ → Type 0
IsAllowedZone allow_warning allow_protective zone =
    (zone ≡ 0)
    ⊎ (((zone ≡ 1) × (input allow_warning true ≡ true))
        ⊎ ((zone ≡ 2) × (input allow_protective false ≡ true)))

-- The condition succeeds exactly if a state has been received, its last one has no latched fault and
-- no requested stop, its mode is none of SAFE_STOP, DEGRADED and LOCALIZATION_LOST, and its zone is
-- clear or allowed by the port for it.
pub tick_iff :
    (allow_warning allow_protective : Option Bool) (c : IsSafeCondition)
    → (tick allow_warning allow_protective c ≡ success) ↔ (
        (c.have_msg ≡ true)
        × (c.last_msg.fault_latched ≡ false)
        × (c.last_msg.safe_stop_requested ≡ false)
        × (refused_mode c.last_msg.mode ≡ false)
        × IsAllowedZone allow_warning allow_protective c.last_msg.zone)
unfolding tick
tick_iff allow_warning allow_protective c = ground arith
