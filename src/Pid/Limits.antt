-- ===== src/Pid/Limits.antt =====
-- What the output of src/control/safety_pid.cpp keeps to, and what a stale localization does to it.
use safety_autonomy_core.Common.{
  ◌≡◌, ◌⊎◌, inl, inr, ◌∙◌, ap, refl, true, false, not, ◌||◌, some, arith, Bool-cases,
}
use safety_autonomy_core.Common.Int.{◌-ℤ◌, leb_ℤ}
use safety_autonomy_core.Common.Double.{Double, nought, clamp}
use safety_autonomy_core.Common.Double.Laws.{◌≼◌, ◌≺◌, IsOrdered, clamp_bounds, lt_not_a_number}
use safety_autonomy_core.Time.{Duration, TimePoint}
use safety_autonomy_core.Ports.{World, Readings, stamp_of}
use safety_autonomy_core.Config.Types.{SystemConfig}
use safety_autonomy_core.Pid.{
  SafetyPidController, localization_valid, reset, clamp_speed, clamp_accel, configured_dt, control,
  compute, compute_forward,
}

module _ {W : Type 0} ⦃d : Double W⦄ where
  open d use {le, is_finite, add, mul, neg}

  -- Between the two limits, or not a number.
  abbrev pub IsWithin : W → W → Type 0
  IsWithin limit y = ((neg limit ≼ y) × (y ≼ limit)) ⊎ (le y y ≡ false)

  -- A localization that became stale: the controller starts anew and takes the time of this call for
  -- that of an update.
  abbrev pub IsRestarted : TimePoint → SafetyPidController W → Type 0
  IsRestarted now_tp c =
      (c.integral ≡ nought)
      × (c.last_output ≡ nought)
      × (c.first_update ≡ true)
      × (c.last_localization_update ≡ now_tp)

  restarted-valid :
      (c : SafetyPidController W) (cfg : SystemConfig W) (now_tp t : TimePoint)
      → c.config ≡ some cfg
      → c.last_localization_update ≡ now_tp
      → leb_ℤ (t -ℤ now_tp) cfg.timing.localization_timeout ≡ true
      → localization_valid c t ≡ true
  unfolding localization_valid
  restarted-valid c cfg now_tp t e l h = rw (e, l, h) (ground arith)

  module _ (seconds : Duration → W) where
    compute_config :
        (r : Readings) (setpoint measurement : W) (c : SafetyPidController W) (w : World)
        → (compute seconds r setpoint measurement c w).0.config ≡ c.config
    unfolding compute reset
    compute_config r setpoint measurement c w =
        elim (Bool-cases (localization_valid c (stamp_of c.clock r))) [
          | inl h ↦ rw h refl
          | inr h ↦ rw h refl
        ]

    -- With a configuration whose localization timeout has passed, `compute` returns 0 and starts anew,
    -- and the overload with feed-forward, for finite terms, still returns the feed-forward terms, only
    -- limited in speed. Without any update of the localization, the localization then counts as valid
    -- until the timeout has passed once more.
    pub compute_stale :
        (r : Readings) (setpoint measurement ff_velocity ff_acceleration : W)
        (c : SafetyPidController W) (cfg : SystemConfig W) (t : TimePoint) (w : World)
        → c.config ≡ some cfg
        → localization_valid c (stamp_of c.clock r) ≡ false
        → is_finite ff_velocity ≡ true
        → is_finite ff_acceleration ≡ true
        → leb_ℤ (t -ℤ stamp_of c.clock r) cfg.timing.localization_timeout ≡ true
        → let (c', w', output) = compute seconds r setpoint measurement c w in
          let forward =
            compute_forward seconds r setpoint measurement ff_velocity ff_acceleration c w in
          (output ≡ nought)
          × IsRestarted (stamp_of c.clock r) c'
          × (localization_valid c' t ≡ true)
          × (forward.2
              ≡ clamp_speed c'
                  (add (add nought ff_velocity) (mul ff_acceleration (configured_dt seconds c'))))
    unfolding compute compute_forward reset
    compute_stale r setpoint measurement ff_velocity ff_acceleration c cfg t w e stale fv fa h =
        rw (stale, fv, fa)
          (
            refl,
            (refl, refl, refl, refl),
            restarted-valid _ cfg (stamp_of c.clock r) t e refl h,
            refl,
          )

  module _ (laws : IsOrdered W) (seconds : Duration → W) where
    open laws use {le_trans, neg_le, le_of_lt, lt-eq-not-le, refl_of_le}

    clamp_not_a_number : (v lo hi : W) → le v v ≡ false → clamp v lo hi ≡ v
    clamp_not_a_number v lo hi h =
        rw ((lt_not_a_number laws v lo h).0, (lt_not_a_number laws v hi h).1) refl

    clamp-IsWithin : (v limit : W) → nought ≺ limit → IsWithin limit (clamp v (neg limit) limit)
    clamp-IsWithin v limit h =
        let above = le_of_lt nought limit h in
        let range = le_trans (neg limit) nought limit (neg_le limit above) above in
        elim (Bool-cases (le v v)) [
          | inl n ↦ inl (clamp_bounds laws v (neg limit) limit n range)
          | inr n ↦
              let same = clamp_not_a_number v (neg limit) limit n in inr (ap (λ x. le x x) same ∙ n)
        ]

    positive_limit : (limit : W) → nought ≺ limit → le limit nought ≡ false
    positive_limit limit h =
        let (n, l) = refl_of_le nought limit (le_of_lt nought limit h) in
        ground (arith, lt-eq-not-le nought limit n l)

    clamp_speed-IsWithin :
        (c : SafetyPidController W) (cfg : SystemConfig W) (v : W)
        → c.config ≡ some cfg
        → nought ≺ cfg.envelope.max_speed_mps
        → IsWithin cfg.envelope.max_speed_mps (clamp_speed c v)
    unfolding clamp_speed
    clamp_speed-IsWithin c cfg v e h =
        rw (e, positive_limit cfg.envelope.max_speed_mps h)
          (clamp-IsWithin v cfg.envelope.max_speed_mps h)

    clamp_accel-IsWithin :
        (c : SafetyPidController W) (cfg : SystemConfig W) (v dt : W)
        → c.config ≡ some cfg
        → nought ≺ cfg.envelope.max_speed_mps
        → IsWithin cfg.envelope.max_speed_mps v
        → IsWithin cfg.envelope.max_speed_mps (clamp_accel c v dt)
    unfolding clamp_accel
    clamp_accel-IsWithin c cfg v dt e h k =
        rw e (elim (Bool-cases (le cfg.envelope.max_accel_mps2 nought || le dt nought)) [
          | inl n ↦ rw n k
          | inr n ↦ rw n (clamp_speed-IsWithin _ cfg _ refl h)
        ])

    compute-IsWithin :
        (r : Readings) (setpoint measurement : W) (c : SafetyPidController W) (cfg : SystemConfig W)
        (w : World)
        → c.config ≡ some cfg
        → nought ≺ cfg.envelope.max_speed_mps
        → IsWithin cfg.envelope.max_speed_mps (compute seconds r setpoint measurement c w).2
    unfolding compute control
    compute-IsWithin r setpoint measurement c cfg w e h =
        let above = le_of_lt nought cfg.envelope.max_speed_mps h in
        elim (Bool-cases (localization_valid c (stamp_of c.clock r))) [
          | inl n ↦ rw n (clamp_accel-IsWithin c cfg _ _ e h (clamp_speed-IsWithin c cfg _ e h))
          | inr n ↦ rw n (inl (neg_le cfg.envelope.max_speed_mps above, above))
        ]

    forward-IsWithin :
        (r : Readings) (setpoint measurement ff_velocity ff_acceleration : W)
        (c : SafetyPidController W) (cfg : SystemConfig W) (w : World)
        → c.config ≡ some cfg
        → nought ≺ cfg.envelope.max_speed_mps
        → IsWithin cfg.envelope.max_speed_mps
            (compute_forward seconds r setpoint measurement ff_velocity ff_acceleration c w).2
    unfolding compute_forward
    forward-IsWithin r setpoint measurement ff_velocity ff_acceleration c cfg w e h =
        let same = compute_config seconds r setpoint measurement c w in
        elim (Bool-cases (not (is_finite ff_velocity) || not (is_finite ff_acceleration))) [
          | inl n ↦ rw n (compute-IsWithin r setpoint measurement c cfg w e h)
          | inr n ↦ rw n (clamp_speed-IsWithin _ cfg _ (same ∙ e) h)
        ]

    -- With a configuration whose largest speed is positive, each output of `compute`, with and without
    -- feed-forward, is between minus the largest speed and the largest speed, or not a number.
    pub compute_bounds :
        (r : Readings) (setpoint measurement ff_velocity ff_acceleration : W)
        (c : SafetyPidController W) (cfg : SystemConfig W) (w : World)
        → c.config ≡ some cfg
        → nought ≺ cfg.envelope.max_speed_mps
        → IsWithin cfg.envelope.max_speed_mps (compute seconds r setpoint measurement c w).2
          × IsWithin cfg.envelope.max_speed_mps
              (compute_forward seconds r setpoint measurement ff_velocity ff_acceleration c w).2
    compute_bounds r setpoint measurement ff_velocity ff_acceleration c cfg w e h = (
      compute-IsWithin r setpoint measurement c cfg w e h,
      forward-IsWithin r setpoint measurement ff_velocity ff_acceleration c cfg w e h,
    )
