-- ===== src/Motion/Accepted.antt =====
-- What a trajectory that the validator of src/motion/trajectory.cpp accepts promises.
use safety_autonomy_core.Common.{
  ℕ, ◌+◌, ◌≡◌, true, false, List, [], ◌∷◌, Option, none, some, arith, All, Option-cases, inl, inr,
}
use safety_autonomy_core.Common.Double.{Double, nought, fmax}
use safety_autonomy_core.Common.Double.Laws.{◌≼◌, ◌≺◌, IsOrdered, lt_of_le-lt}
use safety_autonomy_core.Config.Types.{SystemConfig}
use safety_autonomy_core.Envelope.{
  evaluate_in_envelope, evaluate_stop_distance, evaluation_of, required_of,
}
use safety_autonomy_core.Motion.{
  TrajectoryPoint, TrajectoryValidator, point_violation, validate_from, validate, is_finite_point,
  order_violation, bound_violation, is_outside, limit_of,
}

module _ {W : Type 0} ⦃d : Double W⦄ where
  open d use {dec, lt, le, is_finite, add, sub, abs}

  -- Every value of a point is finite, its speed, acceleration and jerk are not above the limits, and what
  -- is left to the obstacle is at least the clearance that stopping from its speed takes.
  abbrev pub IsSafePoint : TrajectoryValidator W → SystemConfig W → TrajectoryPoint W → Type 0
  IsSafePoint v cfg p =
      let e = cfg.envelope in
      (is_finite p.t_s ≡ true)
      × (is_finite p.speed_mps ≡ true)
      × (is_finite p.accel_mps2 ≡ true)
      × (is_finite p.jerk_mps3 ≡ true)
      × (is_finite p.distance_m ≡ true)
      × (lt (add (fmax nought e.max_speed_mps) (dec 1 12)) (abs p.speed_mps) ≡ false)
      × (lt (add (fmax nought e.max_accel_mps2) (dec 1 12)) (abs p.accel_mps2) ≡ false)
      × (lt (add v.max_jerk_mps3 (dec 1 12)) (abs p.jerk_mps3) ≡ false)
      × (required_of p.speed_mps e.max_comfort_decel_mps2 e.control_latency_s e.safety_buffer_m
          ≼ sub v.obstacle_distance_m p.distance_m)

  -- Each point comes after all before it.
  abbrev pub IsTimed : List (TrajectoryPoint W) → Type 0
  IsTimed [] = Unit
  IsTimed (p ∷ points) = All (λ later. p.t_s ≺ later.t_s) points × IsTimed points

  point-IsSafePoint :
      (v : TrajectoryValidator W) (cfg : SystemConfig W) (prev : Option (TrajectoryPoint W))
      (p : TrajectoryPoint W)
      → v.config ≡ some cfg
      → nought ≼ v.obstacle_distance_m
      → nought ≺ cfg.envelope.max_speed_mps
      → nought ≺ cfg.envelope.max_accel_mps2
      → point_violation v prev p ≡ none
      → IsSafePoint v cfg p
  unfolding point_violation is_finite_point bound_violation is_outside limit_of evaluate_in_envelope
      evaluate_stop_distance evaluation_of
  point-IsSafePoint v cfg prev p c h s a n = ground arith

  -- An accepted point is finite in time and after the one before it.
  point_after :
      (v : TrajectoryValidator W) (prev p : TrajectoryPoint W)
      → point_violation v (some prev) p ≡ none
      → (is_finite p.t_s ≡ true) × (le p.t_s prev.t_s ≡ false)
  unfolding point_violation is_finite_point order_violation
  point_after v prev p n = ground arith

  accepted_from :
      (v : TrajectoryValidator W) (cfg : SystemConfig W) (i : ℕ) (prev : Option (TrajectoryPoint W))
      (points : List (TrajectoryPoint W))
      → v.config ≡ some cfg
      → nought ≼ v.obstacle_distance_m
      → nought ≺ cfg.envelope.max_speed_mps
      → nought ≺ cfg.envelope.max_accel_mps2
      → (validate_from v i prev points).ok ≡ true
      → All (IsSafePoint v cfg) points
  unfolding validate_from
  accepted_from v cfg i prev [] c h s a ok = tt
  accepted_from v cfg i prev (p ∷ points) c h s a ok =
      elim (Option-cases (point_violation v prev p)) [
        | inl n ↦ (
          point-IsSafePoint v cfg prev p c h s a n,
          accepted_from v cfg (i + 1) (some p) points c h s a (rw (n, validate_from) at ok),
        )
        | inr (found, e) ↦ absurd (ground (arith, e, ok))
      ]

  module _ (laws : IsOrdered W) where
    open laws use {refl_of_finite, lt-eq-not-le, le_of_lt}

    before_of_not-le : (x y : W) → is_finite x ≡ true → is_finite y ≡ true → le y x ≡ false → x ≺ y
    before_of_not-le x y fx fy h =
        ground (arith, lt-eq-not-le x y (refl_of_finite x fx) (refl_of_finite y fy))

    All-after :
        (x y : W) (points : List (TrajectoryPoint W))
        → x ≺ y
        → All (λ later. y ≺ later.t_s) points
        → All (λ later. x ≺ later.t_s) points
    All-after x y [] h later = tt
    All-after x y (p ∷ points) h (first, rest) =
        (lt_of_le-lt laws x y p.t_s (le_of_lt x y h) first, All-after x y points h rest)

    -- The points that are accepted behind one are timed, and come after it.
    IsTimed-from :
        (v : TrajectoryValidator W) (i : ℕ) (prev : TrajectoryPoint W)
        (points : List (TrajectoryPoint W))
        → is_finite prev.t_s ≡ true
        → (validate_from v i (some prev) points).ok ≡ true
        → IsTimed (prev ∷ points)
    unfolding validate_from
    IsTimed-from v i prev [] finite ok = (tt, tt)
    IsTimed-from v i prev (p ∷ points) finite ok =
        elim (Option-cases (point_violation v (some prev) p)) [
          | inl n ↦
              let (finite', not_before) = point_after v prev p n in
              let h = before_of_not-le prev.t_s p.t_s finite finite' not_before in
              let timed = IsTimed-from v (i + 1) p points finite' (rw (n, validate_from) at ok) in
              ((h, All-after prev.t_s p.t_s points h timed.0), timed)
          | inr (found, e) ↦ absurd (ground (arith, e, ok))
        ]

    -- With a configuration whose largest speed and acceleration are positive and an obstacle ahead, each
    -- point of an accepted trajectory has finite values only, exceeds none of the largest speed,
    -- acceleration and jerk by more than the tolerance, and is at least as far from the obstacle as
    -- the clearance that stopping from its speed takes. Of any two points the earlier one in the list
    -- comes strictly before the later one in time.
    pub accepted-IsSafePoint :
        (v : TrajectoryValidator W) (cfg : SystemConfig W) (points : List (TrajectoryPoint W))
        → v.config ≡ some cfg
        → nought ≼ v.obstacle_distance_m
        → nought ≺ cfg.envelope.max_speed_mps
        → nought ≺ cfg.envelope.max_accel_mps2
        → (validate v (some points)).ok ≡ true
        → All (IsSafePoint v cfg) points × IsTimed points
    unfolding validate validate_from
    accepted-IsSafePoint v cfg [] c h s a ok = (tt, tt)
    accepted-IsSafePoint v cfg (p ∷ points) c h s a ok =
        let safe = accepted_from v cfg 0 none (p ∷ points) c h s a ok in
        elim (Option-cases (point_violation v none p)) [
          | inl n ↦ (safe, IsTimed-from v 1 p points safe.0.0 (rw (n, validate_from) at ok))
          | inr (found, e) ↦ absurd (ground (arith, e, ok))
        ]
