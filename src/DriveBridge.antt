-- ===== src/DriveBridge.antt =====
-- ros2/src/safety_core_ros/src/safety_drive_bridge_node.cpp and its header: the node between the
-- navigation's commands and the drive. A message is what the handlers read of it; each tick publishes
-- one command, which `control_tick` returns. Logs are left out, the parameters are arguments.
pub mod Ready
pub mod Limits
pub mod Stopping
pub mod Resuming
use safety_autonomy_core.Common.{
  ℕ, ◌+◌, Bool, true, false, not, ◌&&◌, ◌||◌, List, [], ◌∷◌, ◌++◌, Option, none, some, get_elem?,
  length, ltb, ◌==◌, if◌then◌else◌,
}
use safety_autonomy_core.Common.Words.{sub64}
use safety_autonomy_core.Common.Double.{Double, nought, fmax, fmin, clamp}
use safety_autonomy_core.Motion.{TrajectoryPoint, generate_jerk_limited_stop_profile}
use safety_autonomy_core.Node.{is_stale}

-- The speeds that the node reads and writes of a `geometry_msgs::msg::Twist`.
pub record Twist (W : Type 0) : Type 0 where
  pub linear_x : W
  pub angular_z : W

pub record Params (W : Type 0) : Type 0 where
  pub max_linear_mps : W
  pub max_angular_radps : W
  pub max_decel_mps2 : W
  pub max_jerk_mps3 : W
  pub cmd_freshness_s : W
  pub control_period_s : W

-- The buffer of the stop profile holds the points of the last run of the generator; `stop_profile_count`
-- is their number.
pub record SafetyDriveBridgeNode (W : Type 0) : Type 0 where
  pub params : Params W
  pub safe_stop_active : Bool
  pub fault_latched : Bool
  pub recommended_speed_limit_mps : W
  pub recovery_speed_limit_mps : W
  pub measured_forward_speed_mps : W
  pub latest_nav_cmd : Option (Twist W)
  pub latest_nav_cmd_time_ns : ℕ
  pub cmd_freshness_timeout_ns : ℕ
  pub stop_profile_active : Bool
  pub stop_profile_index : ℕ
  pub stop_profile : List (TrajectoryPoint W)
  pub last_published_linear : W

-- `kStopProfileCapacity`
abbrev pub stop_profile_capacity : ℕ
stop_profile_capacity = 256

-- The callbacks, with what they read of the message, and the time where they read the clock.
pub data Event (W : Type 0) : Type 0 where
  cmd_vel_nav : Twist W → ℕ → Event W
  envelope : ℕ → W → Event W
  safe_stop : Bool → Event W
  state : Bool → Event W
  odom : W → Event W
  recovery_speed_limit : W → Event W
  tick : ℕ → Event W

module _ {W : Type 0} where
  -- `on_cmd_vel_nav`, at the time that the clock shows.
  unfoldable pub on_cmd_vel_nav : Twist W → ℕ → SafetyDriveBridgeNode W → SafetyDriveBridgeNode W
  on_cmd_vel_nav cmd now_ns n = record n {
    latest_nav_cmd = some cmd;
    latest_nav_cmd_time_ns = now_ns;
  }

  -- `on_state` and `on_odom`
  unfoldable pub on_state : Bool → SafetyDriveBridgeNode W → SafetyDriveBridgeNode W
  on_state fault_latched n = record n { fault_latched = fault_latched }

  unfoldable pub on_odom : W → SafetyDriveBridgeNode W → SafetyDriveBridgeNode W
  on_odom speed n = record n { measured_forward_speed_mps = speed }

module _ {W : Type 0} ⦃d : Double W⦄ where
  open d use {dec, le, mul, neg, to_nat}

  -- The constructor: `none` where it throws.
  unfoldable pub create : Params W → Option (SafetyDriveBridgeNode W)
  create p =
      if le p.max_linear_mps nought
        || le p.max_angular_radps nought
        || le p.max_decel_mps2 nought
        || le p.max_jerk_mps3 nought
        || le p.cmd_freshness_s nought
        || le p.control_period_s nought
      then none
      else some (record {
        params = p;
        safe_stop_active = false;
        fault_latched = false;
        recommended_speed_limit_mps = dec 1000000000 0;
        recovery_speed_limit_mps = dec 1000000000 0;
        measured_forward_speed_mps = nought;
        latest_nav_cmd = none;
        latest_nav_cmd_time_ns = 0;
        cmd_freshness_timeout_ns = to_nat (mul p.cmd_freshness_s (dec 1000000000 0));
        stop_profile_active = false;
        stop_profile_index = 0;
        stop_profile = [];
        last_published_linear = nought;
      })

  -- `on_envelope`, with the number of the zone.
  unfoldable pub on_envelope : ℕ → W → SafetyDriveBridgeNode W → SafetyDriveBridgeNode W
  on_envelope zone recommended n = record n {
    recommended_speed_limit_mps =
        if zone == 0 then n.params.max_linear_mps else fmax nought recommended;
  }

  unfoldable pub on_recovery_speed_limit : W → SafetyDriveBridgeNode W → SafetyDriveBridgeNode W
  on_recovery_speed_limit limit n = record n { recovery_speed_limit_mps = fmax nought limit }

  unfoldable pub start_jerk_limited_stop : SafetyDriveBridgeNode W → SafetyDriveBridgeNode W
  start_jerk_limited_stop n =
      let (points, ok) =
        generate_jerk_limited_stop_profile (fmax nought n.measured_forward_speed_mps)
          n.params.max_decel_mps2 n.params.max_jerk_mps3 n.params.control_period_s true
          stop_profile_capacity in
      record n {
        stop_profile = points;
        stop_profile_index = 0;
        stop_profile_active = ok && ltb 0 (length points);
      }

  unfoldable pub on_safe_stop : Bool → SafetyDriveBridgeNode W → SafetyDriveBridgeNode W
  unfolding start_jerk_limited_stop
  on_safe_stop requested n =
      let n' = record n { safe_stop_active = requested } in
      let started =
        (if requested && not n.safe_stop_active then start_jerk_limited_stop n' else n') in
      if not requested then record started { stop_profile_active = false } else started

  abbrev pub zero_twist : Twist W
  zero_twist = record { linear_x = nought; angular_z = nought }

  -- A command that is published, and remembered by its speed.
  unfoldable pub publish : Twist W → SafetyDriveBridgeNode W → SafetyDriveBridgeNode W × Twist W
  publish cmd n = (record n { last_published_linear = cmd.linear_x }, cmd)

  -- `clamp_command`
  unfoldable pub clamp_command : Twist W → W → SafetyDriveBridgeNode W → Twist W
  clamp_command cmd speed_limit n =
      let v_limit = fmin (fmin n.params.max_linear_mps speed_limit) n.recovery_speed_limit_mps in
      record {
        linear_x = clamp cmd.linear_x (neg v_limit) v_limit;
        angular_z = clamp cmd.angular_z (neg n.params.max_angular_radps) n.params.max_angular_radps;
      }

  -- `execute_stop_profile`: the next command of the profile, if there is one.
  unfoldable pub next_of_profile : SafetyDriveBridgeNode W → Option (Twist W)
  next_of_profile n =
      if n.stop_profile_active
      then elim (get_elem? n.stop_profile n.stop_profile_index) [
        | none ↦ none
        | some p ↦ some (record { linear_x = p.speed_mps; angular_z = nought })
      ]
      else none

  unfoldable pub execute_stop_profile :
      SafetyDriveBridgeNode W → Option (SafetyDriveBridgeNode W × Twist W)
  execute_stop_profile n = elim (next_of_profile n) [
    | none ↦ none
    | some cmd ↦ some (publish cmd (record n { stop_profile_index = n.stop_profile_index + 1 }))
  ]

  -- `process_and_publish_command`
  unfoldable pub process_and_publish_command :
      Twist W → SafetyDriveBridgeNode W → SafetyDriveBridgeNode W × Twist W
  process_and_publish_command latest n =
      publish (clamp_command latest n.recommended_speed_limit_mps n) n

  -- `control_tick`, at the time that the clock shows.
  unfoldable pub control_tick : ℕ → SafetyDriveBridgeNode W → SafetyDriveBridgeNode W × Twist W
  control_tick now_ns n =
      if n.fault_latched
      then publish zero_twist n
      else if n.safe_stop_active
      then elim (execute_stop_profile n) [ none ↦ publish zero_twist n | some out ↦ out ]
      else elim n.latest_nav_cmd [
        | none ↦ publish zero_twist n
        | some latest ↦
            if is_stale n.latest_nav_cmd_time_ns now_ns n.cmd_freshness_timeout_ns
            then publish zero_twist n
            else process_and_publish_command latest n
      ]

  -- One callback, with the commands that it publishes.
  unfoldable pub handle :
      Event W → SafetyDriveBridgeNode W → SafetyDriveBridgeNode W × List (Twist W)
  handle (cmd_vel_nav cmd now_ns) n = (on_cmd_vel_nav cmd now_ns n, [])
  handle (envelope zone recommended) n = (on_envelope zone recommended n, [])
  handle (safe_stop requested) n = (on_safe_stop requested n, [])
  handle (state fault_latched) n = (on_state fault_latched n, [])
  handle (odom speed) n = (on_odom speed n, [])
  handle (recovery_speed_limit limit) n = (on_recovery_speed_limit limit n, [])
  handle (tick now_ns) n = let (n', cmd) = control_tick now_ns n in (n', cmd ∷ [])

  -- A sequence of callbacks: the node behind them, and the commands published on the way.
  unfoldable pub run :
      List (Event W) → SafetyDriveBridgeNode W → SafetyDriveBridgeNode W × List (Twist W)
  run [] n = (n, [])
  run (e ∷ events) n =
      let (n', out) = handle e n in let (n'', outs) = run events n' in (n'', out ++ outs)
