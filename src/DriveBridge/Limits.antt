-- ===== src/DriveBridge/Limits.antt =====
-- ros2/src/safety_core_ros/src/safety_drive_bridge_node.cpp: the bounds of what the node publishes.
use safety_autonomy_core.Common.{
  ℕ, ◌≡◌, ◌⊎◌, inl, inr, sym, ap, ◌∙◌, subst⁻¹, true, false, List, some, arith, Bool-cases,
}
use safety_autonomy_core.Common.Double.{Double, nought, fmin, clamp}
use safety_autonomy_core.Common.Double.Laws.{◌≼◌, IsOrdered, clamp_bounds, fmin_le, lt_not_a_number}
use safety_autonomy_core.Node.{is_stale}
use safety_autonomy_core.Pid.Limits.{IsWithin}
use safety_autonomy_core.DriveBridge.{
  SafetyDriveBridgeNode, Twist, Params, Event, create, zero_twist, publish, clamp_command,
  next_of_profile, control_tick, run,
}
use safety_autonomy_core.DriveBridge.Ready.{
  IsReady, control_tick-IsTick, create-IsReady, run-IsReady,
}

module _ {W : Type 0} ⦃d : Double W⦄ where
  open d use {le, neg}

  -- Within the limits of the parameters, of the envelope and of the recovery.
  abbrev pub IsLimited : SafetyDriveBridgeNode W → Twist W → Type 0
  IsLimited n cmd =
      IsWithin n.params.max_linear_mps cmd.linear_x
      × IsWithin n.recommended_speed_limit_mps cmd.linear_x
      × IsWithin n.recovery_speed_limit_mps cmd.linear_x
      × IsWithin n.params.max_angular_radps cmd.angular_z

  -- What a tick may publish: standstill, the next speed of the stop profile, or a command that is fresh
  -- and within the limits.
  abbrev pub IsAllowed : ℕ → SafetyDriveBridgeNode W → Twist W → Type 0
  IsAllowed now_ns n cmd =
      (cmd ≡ zero_twist)
      ⊎ (((n.fault_latched ≡ false) × (n.safe_stop_active ≡ true) × (next_of_profile n ≡ some cmd))
          ⊎ ((n.fault_latched ≡ false)
              × (n.safe_stop_active ≡ false)
              × (is_stale n.latest_nav_cmd_time_ns now_ns n.cmd_freshness_timeout_ns ≡ false)
              × IsLimited n cmd))

  module _ (laws : IsOrdered W) where
    open laws use {refl_of_le, le_trans, neg_le, neg_anti}

    -- A value clamped to a limit is within each larger limit.
    clamp-IsWithin :
        (y limit wider : W)
        → nought ≼ limit
        → limit ≼ wider
        → IsWithin wider (clamp y (neg limit) limit)
    clamp-IsWithin y limit wider h k = elim (Bool-cases (le y y)) [
      | inl e ↦
          let o = le_trans _ _ _ (neg_le limit h) h in
          let (low, high) = clamp_bounds laws y (neg limit) limit e o in
          inl (le_trans _ _ _ (neg_anti limit wider k) low, le_trans _ _ _ high k)
      | inr e ↦
          inr
            (rw (lt_not_a_number laws y (neg limit) e).0 (rw (lt_not_a_number laws y limit e).1 e))
    ]

    clamp_command-IsLimited :
        (cmd : Twist W) (n : SafetyDriveBridgeNode W)
        → IsReady n
        → IsLimited n (clamp_command cmd n.recommended_speed_limit_mps n)
    unfolding clamp_command
    clamp_command-IsLimited cmd n r =
        let max_linear = n.params.max_linear_mps in
        let speed_limit = n.recommended_speed_limit_mps in
        let recovery = n.recovery_speed_limit_mps in
        let first = fmin max_linear speed_limit in
        let (le_max, le_speed) =
          fmin_le laws max_linear speed_limit (refl_of_le _ _ r.linear).1
            (refl_of_le _ _ r.recommended).1 in
        let first_nonneg : nought ≼ first = ground (arith, r.linear, r.recommended) in
        let (le_first, le_recovery) =
          fmin_le laws first recovery (refl_of_le _ _ first_nonneg).1
            (refl_of_le _ _ r.recovery).1 in
        let nonneg : nought ≼ fmin first recovery = ground (arith, first_nonneg, r.recovery) in
        (
          clamp-IsWithin cmd.linear_x _ max_linear nonneg (le_trans _ _ _ le_first le_max),
          clamp-IsWithin cmd.linear_x _ speed_limit nonneg (le_trans _ _ _ le_first le_speed),
          clamp-IsWithin cmd.linear_x _ recovery nonneg le_recovery,
          clamp-IsWithin cmd.angular_z _ n.params.max_angular_radps r.angular
              (refl_of_le _ _ r.angular).1,
        )

    pub control_tick-IsAllowed :
        (now_ns : ℕ) (n : SafetyDriveBridgeNode W)
        → IsReady n
        → IsAllowed now_ns n (control_tick now_ns n).1
    unfolding publish
    control_tick-IsAllowed now_ns n r = elim (control_tick-IsTick now_ns n) [
      | inl e ↦ inl (ap (λ out. out.1) e)
      | inr (inl (f, s, (cmd, h, e))) ↦ inr (inl (f, s, h ∙ sym (ap (λ out. some out.1) e)))
      | inr (inr (f, s, o, (latest, _, e))) ↦
          inr (
            inr
              (f, s, o, subst⁻¹ (λ out. IsLimited n out.1) e (clamp_command-IsLimited latest n r)))
    ]

    -- A bridge is created with speed limits that are numbers, and receives any messages and ticks. Each
    -- command that it then publishes is standstill, or the next speed of the stop profile while a safe
    -- stop is active, or a command that is not stale and whose speed is within the limits of the
    -- parameters, the envelope and the recovery, and whose turn rate is within that of the parameters;
    -- a speed or turn rate that is not a number passes as it is. While a fault is latched it is
    -- standstill, and while a safe stop is active never the command.
    pub tick-IsAllowed :
        (p : Params W) (start : SafetyDriveBridgeNode W) (events : List (Event W)) (now_ns : ℕ)
        → p.max_linear_mps ≼ p.max_linear_mps
        → p.max_angular_radps ≼ p.max_angular_radps
        → create p ≡ some start
        → let n = (run events start).0 in IsAllowed now_ns n (control_tick now_ns n).1
    tick-IsAllowed p start events now_ns hl ha h =
        control_tick-IsAllowed now_ns _
          (run-IsReady laws events start (create-IsReady laws p start hl ha h))
