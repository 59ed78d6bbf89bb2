-- ===== src/EnvelopeNode/Standing.antt =====
-- ros2/src/safety_core_ros/src/safety_envelope_node.cpp together with safety_drive_bridge_node.cpp: a scan
-- without an obstacle, for a robot that stands.
use safety_autonomy_core.Common.{
  IsOneOf, ℕ, ◌≡◌, ◌⊎◌, inl, inr, refl, ◌∙◌, subst, subst⁻¹, false, [], arith,
}
use safety_autonomy_core.Common.Double.{Double, nought, fmax}
use safety_autonomy_core.Common.Double.Laws.{◌≼◌, IsOrdered, IsMonotone, not-lt_of_le, nought_refl}
use safety_autonomy_core.Pid.Limits.{IsWithin}
use safety_autonomy_core.EnvelopeNode.{
  SafetyEnvelopeNode, EnvelopeStatus, Params, LaserScan, nearest_obstacle, publish_envelope,
  cautious_speed, on_scan,
}
use safety_autonomy_core.EnvelopeNode.Nearest.{obstacles, IsLeast, nearest_obstacle-IsLeast}
use safety_autonomy_core.DriveBridge.{
  SafetyDriveBridgeNode, Twist, on_envelope, control_tick, handle, envelope,
}
use safety_autonomy_core.DriveBridge.Ready.{IsReady, handle-IsReady}
use safety_autonomy_core.DriveBridge.Limits.{IsAllowed, control_tick-IsAllowed}

module _ {W : Type 0} ⦃d : Double W⦄ (sin cos : W → W) where
  open d use {lt, mul, dec, infinity, is_finite}

  -- What is published of a scan without an obstacle behind the grace period.
  abbrev pub IsBlind : SafetyEnvelopeNode W → EnvelopeStatus W → Type 0
  IsBlind n status =
      (status.zone ≡ 1)
      × (status.within_envelope ≡ false)
      × (status.recommended_speed_limit_mps ≡ cautious_speed n (fmax nought n.latest_speed_mps))

  module _ (laws : IsOrdered W) (mono : IsMonotone W) where
    nearest_none :
        (p : Params W) (scan : LaserScan W)
        → obstacles sin cos p scan ≡ []
        → nearest_obstacle sin cos p scan ≡ infinity
    nearest_none p scan e =
        one
          (subst (λ xs. IsLeast (nearest_obstacle sin cos p scan) xs infinity) e
            (nearest_obstacle-IsLeast sin cos laws mono p scan).0).1
      where
        one :
            (nearest_obstacle sin cos p scan ≡ infinity)
              ⊎ IsOneOf (nearest_obstacle sin cos p scan) []
            → nearest_obstacle sin cos p scan ≡ infinity
        one (inl h) = h
        one (inr h) = absurd h

    -- Behind the grace period, a scan all of whose returns are skipped, for being nearer than the ignored
    -- range or outside the corridor or for any other reason, is published as the Warning zone with the
    -- current speed as the limit, at most half of the maximum: it never stops the robot.
    pub on_scan-IsBlind :
        (elapsed_s : W) (scan : LaserScan W) (n : SafetyEnvelopeNode W)
        → lt elapsed_s n.params.startup_grace_period_s ≡ false
        → obstacles sin cos n.params scan ≡ []
        → IsBlind n (on_scan sin cos elapsed_s scan n)
    unfolding on_scan publish_envelope
    on_scan-IsBlind elapsed_s scan n g e =
        rw (nearest_none n.params scan e, mono.infinity_not_finite, g) (refl, refl, refl)

    -- The limit for a robot that stands, or is said to go backwards, is 0.
    cautious-nought :
        (n : SafetyEnvelopeNode W)
        → n.latest_speed_mps ≼ nought
        → nought ≼ mul n.config.envelope.max_speed_mps (dec 5 1)
        → cautious_speed n (fmax nought n.latest_speed_mps) ≡ nought
    unfolding cautious_speed
    cautious-nought n h k =
        rw (not-lt_of_le laws nought n.latest_speed_mps h, not-lt_of_le laws _ nought k) refl

    no_stop :
        (b : SafetyDriveBridgeNode W) (zone : ℕ) (limit : W)
        → b.safe_stop_active ≡ false
        → (handle (envelope zone limit) b).0.safe_stop_active ≡ false
    unfolding handle on_envelope
    no_stop b zone limit s = s

    no_limit :
        (b : SafetyDriveBridgeNode W) (zone : ℕ) (limit : W)
        → zone ≡ 1
        → limit ≡ nought
        → (handle (envelope zone limit) b).0.recommended_speed_limit_mps ≡ nought
    unfolding handle on_envelope
    no_limit b zone limit p q =
        rw (p, q) (rw (not-lt_of_le laws nought nought (nought_refl laws)) refl)

    -- With the limit 0 and no safe stop, whatever may be published is held to 0.
    held :
        (b : SafetyDriveBridgeNode W) (now_ns : ℕ) (cmd : Twist W)
        → IsAllowed now_ns b cmd
        → b.safe_stop_active ≡ false
        → b.recommended_speed_limit_mps ≡ nought
        → IsWithin nought cmd.linear_x
    held b now_ns cmd (inl e) s q =
        let still = nought_refl laws in
        subst⁻¹ (λ c. IsWithin nought c.linear_x) e (inl (laws.neg_le nought still, still))
    held b now_ns cmd (inr (inl (_, active, _))) s q = absurd (ground arith)
    held b now_ns cmd (inr (inr (_, _, _, (_, recommended, _, _)))) s q =
        subst (λ l. IsWithin l cmd.linear_x) q recommended

    -- A robot stands, no return of the scan counts as an obstacle, and the grace period is over. Then the
    -- limit that the envelope node publishes makes the bridge, which is in no safe stop, hold each
    -- command to the speed 0: the robot does not start, however free the way is. Only a command that is
    -- not a number is not held.
    pub standing_stays :
        (elapsed_s : W) (scan : LaserScan W) (n : SafetyEnvelopeNode W)
        (bridge : SafetyDriveBridgeNode W) (now_ns : ℕ)
        → lt elapsed_s n.params.startup_grace_period_s ≡ false
        → obstacles sin cos n.params scan ≡ []
        → n.latest_speed_mps ≼ nought
        → nought ≼ mul n.config.envelope.max_speed_mps (dec 5 1)
        → IsReady bridge
        → bridge.safe_stop_active ≡ false
        → let status = on_scan sin cos elapsed_s scan n in
          let bridge' =
            (handle (envelope status.zone status.recommended_speed_limit_mps) bridge).0 in
          IsWithin nought (control_tick now_ns bridge').1.linear_x
    standing_stays elapsed_s scan n bridge now_ns g e h k r s =
        let status = on_scan sin cos elapsed_s scan n in
        let limit = status.recommended_speed_limit_mps in
        let (zone, _, recommended) = on_scan-IsBlind elapsed_s scan n g e in
        let bridge' = (handle (envelope status.zone limit) bridge).0 in
        held bridge' now_ns _
          (control_tick-IsAllowed laws now_ns bridge'
            (handle-IsReady laws (envelope status.zone limit) bridge r))
          (no_stop bridge status.zone limit s)
          (no_limit bridge status.zone limit zone (recommended ∙ cautious-nought n h k))
