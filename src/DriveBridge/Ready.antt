-- ===== src/DriveBridge/Ready.antt =====
-- ros2/src/safety_core_ros/src/safety_drive_bridge_node.cpp: the kinds of ticks, and what every callback
-- keeps.
use safety_autonomy_core.Common.{
  ℕ, ◌+◌, ◌≤◌, ◌≡◌, ◌⊎◌, inl, inr, refl, subst⁻¹, Bool, true, false, List, [], ◌∷◌, some, length,
  arith, Option-cases, if_cases, option_cases,
}
use safety_autonomy_core.Common.Double.{Double, nought, fmax}
use safety_autonomy_core.Common.Double.Laws.{◌≼◌, IsOrdered, nought-le-fmax, nought_refl}
use safety_autonomy_core.Motion.{generate_jerk_limited_stop_profile}
use safety_autonomy_core.Motion.Profiles.{profiles_stop}
use safety_autonomy_core.Node.{is_stale}
use safety_autonomy_core.DriveBridge.{
  SafetyDriveBridgeNode, Twist, Params, Event, cmd_vel_nav, envelope, safe_stop, state, odom,
  recovery_speed_limit, tick, create, on_cmd_vel_nav, on_envelope, on_safe_stop, on_state, on_odom,
  on_recovery_speed_limit, start_jerk_limited_stop, zero_twist, publish, clamp_command,
  next_of_profile, execute_stop_profile, process_and_publish_command, control_tick, handle, run,
}

module _ {W : Type 0} ⦃d : Double W⦄ where
  open d use {le, neg}

  -- The three kinds of ticks: one that stops, one that follows the stop profile and one that passes a
  -- fresh command on.
  abbrev pub IsTick : ℕ → SafetyDriveBridgeNode W → SafetyDriveBridgeNode W × Twist W → Type 0
  IsTick now_ns n out =
      (out ≡ publish zero_twist n)
      ⊎ (((n.fault_latched ≡ false)
            × (n.safe_stop_active ≡ true)
            × ((cmd : Twist W) × (next_of_profile n ≡ some cmd)
                × (out ≡ publish cmd (record n { stop_profile_index = n.stop_profile_index + 1 }))))
          ⊎ ((n.fault_latched ≡ false)
              × (n.safe_stop_active ≡ false)
              × (is_stale n.latest_nav_cmd_time_ns now_ns n.cmd_freshness_timeout_ns ≡ false)
              × ((latest : Twist W) × (n.latest_nav_cmd ≡ some latest)
                  × (out ≡ publish (clamp_command latest n.recommended_speed_limit_mps n) n))))

  pub control_tick-IsTick :
      (now_ns : ℕ) (n : SafetyDriveBridgeNode W) → IsTick now_ns n (control_tick now_ns n)
  unfolding control_tick execute_stop_profile process_and_publish_command
  control_tick-IsTick now_ns n =
      let P : SafetyDriveBridgeNode W × Twist W → Type 0 = IsTick now_ns n in
      if_cases P n.fault_latched (λ f. inl refl)
        (λ f.
          if_cases P n.safe_stop_active
            (λ s.
              option_cases P (execute_stop_profile n) (λ e. inl refl)
                (λ out e. inr (inl (f, s, executed out e))))
            (λ s.
              option_cases P n.latest_nav_cmd (λ e. inl refl)
                (λ latest e.
                  if_cases P (is_stale n.latest_nav_cmd_time_ns now_ns n.cmd_freshness_timeout_ns)
                    (λ o. inl refl) (λ o. inr (inr (f, s, o, (latest, e, refl)))))))
    where
      executed :
          (out : SafetyDriveBridgeNode W × Twist W)
          → execute_stop_profile n ≡ some out
          → (cmd : Twist W) × (next_of_profile n ≡ some cmd)
            × (out ≡ publish cmd (record n { stop_profile_index = n.stop_profile_index + 1 }))
      executed out e = elim (Option-cases (next_of_profile n)) [
        | inl h ↦ absurd (ground arith)
        | inr (cmd, h) ↦ (cmd, h, ground arith)
      ]

  -- What every callback keeps: limits that are not negative, and a profile within the buffer.
  pub record IsReady (n : SafetyDriveBridgeNode W) : Type 0 where
    pub linear : nought ≼ n.params.max_linear_mps
    pub angular : nought ≼ n.params.max_angular_radps
    pub recommended : nought ≼ n.recommended_speed_limit_mps
    pub recovery : nought ≼ n.recovery_speed_limit_mps
    pub profile : length n.stop_profile ≤ 256

  publish-IsReady :
      (cmd : Twist W) (n : SafetyDriveBridgeNode W) → IsReady n → IsReady (publish cmd n).0
  unfolding publish
  publish-IsReady cmd n r = record {
    linear = r.linear;
    angular = r.angular;
    recommended = r.recommended;
    recovery = r.recovery;
    profile = r.profile;
  }

  control_tick-IsReady :
      (now_ns : ℕ) (n : SafetyDriveBridgeNode W) → IsReady n → IsReady (control_tick now_ns n).0
  control_tick-IsReady now_ns n r = elim (control_tick-IsTick now_ns n) [
    | inl e ↦ subst⁻¹ (λ out. IsReady out.0) e (publish-IsReady zero_twist n r)
    | inr (inl (_, _, (cmd, _, e))) ↦
        subst⁻¹ (λ out. IsReady out.0) e
          (publish-IsReady cmd (record n { stop_profile_index = n.stop_profile_index + 1 })
            (record {
              linear = r.linear;
              angular = r.angular;
              recommended = r.recommended;
              recovery = r.recovery;
              profile = r.profile;
            }))
    | inr (inr (_, _, _, (latest, _, e))) ↦
        subst⁻¹ (λ out. IsReady out.0) e
          (publish-IsReady (clamp_command latest n.recommended_speed_limit_mps n) n r)
  ]

  -- A generated profile fits the buffer.
  generated_fits :
      (speed decel jerk dt : W)
      → length (generate_jerk_limited_stop_profile speed decel jerk dt true 256).0 ≤ 256
  generated_fits speed decel jerk dt =
      let out = generate_jerk_limited_stop_profile speed decel jerk dt true 256 in
      elim ((profiles_stop speed decel jerk dt true 256).1) [
        | inl e ↦ subst⁻¹ (λ o. length o.0 ≤ 256) e (omega arith)
        | inr (inl (_, fits, _)) ↦ fits
        | inr (inr (_, full, _)) ↦ omega arith
      ]

  on_safe_stop-IsReady :
      (requested : Bool) (n : SafetyDriveBridgeNode W)
      → IsReady n
      → IsReady (on_safe_stop requested n)
  unfolding on_safe_stop start_jerk_limited_stop
  on_safe_stop-IsReady requested n r =
      let decel = n.params.max_decel_mps2 in
      let jerk = n.params.max_jerk_mps3 in
      let dt = n.params.control_period_s in
      record {
        linear = ground (arith, r.linear);
        angular = ground (arith, r.angular);
        recommended = ground (arith, r.recommended);
        recovery = ground (arith, r.recovery);
        profile = ground (
          arith,
          r.profile,
          generated_fits (fmax nought n.measured_forward_speed_mps) decel jerk dt,
        );
      }

  module _ (laws : IsOrdered W) where
    open laws use {
      refl_of_finite, le_trans, literal_finite, literal_mono, lt-eq-not-le, le_total, neg_le,
      neg_anti, refl_of_le,
    }

    pub handle-IsReady :
        (e : Event W) (n : SafetyDriveBridgeNode W) → IsReady n → IsReady (handle e n).0
    unfolding handle on_cmd_vel_nav on_envelope on_state on_odom on_recovery_speed_limit
    handle-IsReady (cmd_vel_nav cmd now_ns) n r = record {
      linear = r.linear;
      angular = r.angular;
      recommended = r.recommended;
      recovery = r.recovery;
      profile = r.profile;
    }
    handle-IsReady (envelope zone limit) n r = record {
      linear = r.linear;
      angular = r.angular;
      recommended = ground (arith, r.linear, nought-le-fmax laws limit);
      recovery = r.recovery;
      profile = r.profile;
    }
    handle-IsReady (safe_stop requested) n r = on_safe_stop-IsReady requested n r
    handle-IsReady (state fault_latched) n r = record {
      linear = r.linear;
      angular = r.angular;
      recommended = r.recommended;
      recovery = r.recovery;
      profile = r.profile;
    }
    handle-IsReady (odom speed) n r = record {
      linear = r.linear;
      angular = r.angular;
      recommended = r.recommended;
      recovery = r.recovery;
      profile = r.profile;
    }
    handle-IsReady (recovery_speed_limit limit) n r = record {
      linear = r.linear;
      angular = r.angular;
      recommended = r.recommended;
      recovery = nought-le-fmax laws limit;
      profile = r.profile;
    }
    handle-IsReady (tick now_ns) n r = control_tick-IsReady now_ns n r

    pub run-IsReady :
        (events : List (Event W)) (n : SafetyDriveBridgeNode W)
        → IsReady n
        → IsReady (run events n).0
    unfolding run
    run-IsReady [] n r = r
    run-IsReady (e ∷ events) n r = run-IsReady events (handle e n).0 (handle-IsReady e n r)

    positive : (x : W) → x ≼ x → le x nought ≡ false → nought ≼ x
    positive x h k = ground (arith, le_total x nought h (nought_refl laws))

    -- A node that is created with speed limits that are numbers is ready.
    pub create-IsReady :
        (p : Params W) (n : SafetyDriveBridgeNode W)
        → p.max_linear_mps ≼ p.max_linear_mps
        → p.max_angular_radps ≼ p.max_angular_radps
        → create p ≡ some n
        → IsReady n
    unfolding create
    create-IsReady p n hl ha h =
        let billion = literal_mono 0 1000000000 0 (omega arith) (omega arith) in
        record {
          linear = ground (arith, positive p.max_linear_mps hl, h);
          angular = ground (arith, positive p.max_angular_radps ha, h);
          recommended = ground (arith, billion, h);
          recovery = ground (arith, billion, h);
          profile = ground (arith, h);
        }
