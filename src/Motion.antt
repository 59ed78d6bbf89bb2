-- ===== src/Motion.antt =====
-- include/safety_core/motion/trajectory.hpp, src/motion/trajectory.cpp: the trajectory validator and
-- the generators of stopping profiles. A buffer is the list of its points; a null one is `none`, or
-- false where only its capacity is used.
pub mod Verdict
pub mod Profiles
pub mod Accepted
use safety_autonomy_core.Common.{
  ℕ, zero, suc, ◌+◌, Bool, true, false, not, ◌&&◌, ◌||◌, List, [], ◌∷◌, Option, none, some, ◌==◌,
  if◌then◌else◌,
}
use safety_autonomy_core.Common.Double.{Double, nought, fmax}
use safety_autonomy_core.Config.Types.{SystemConfig}
use safety_autonomy_core.Envelope.{evaluate_in_envelope}

pub record TrajectoryPoint (W : Type 0) : Type 0 where
  pub t_s : W
  pub speed_mps : W
  pub accel_mps2 : W
  pub jerk_mps3 : W
  pub distance_m : W

pub data TrajectoryViolation : Type 0 where
  no_violation null_input empty_trajectory non_monotonic_time speed_out_of_bounds :
      TrajectoryViolation
  accel_out_of_bounds jerk_out_of_bounds non_monotonic_distance : TrajectoryViolation
  envelope_violation : TrajectoryViolation

pub record TrajectoryValidationResult : Type 0 where
  pub ok : Bool
  pub violation : TrajectoryViolation
  pub failing_index : ℕ

-- The points that a generator writes, and whether it succeeds.
abbrev pub Profile : Type 0 → Type 0
Profile W = List (TrajectoryPoint W) × Bool

pub record TrajectoryValidator (W : Type 0) : Type 0 where
  pub config : Option (SystemConfig W)
  pub max_jerk_mps3 : W
  pub obstacle_distance_m : W

module _ {W : Type 0} ⦃d : Double W⦄ where
  open d use {dec, lt, le, is_finite, add, sub, mul, div, neg, abs}

  pub set_max_jerk_mps3 : W → TrajectoryValidator W → TrajectoryValidator W
  set_max_jerk_mps3 limit v = record v { max_jerk_mps3 = if lt limit nought then nought else limit }

  -- `kNumericEpsilon`
  abbrev numeric_epsilon : W
  numeric_epsilon = dec 1 12

  pub is_finite_point : TrajectoryPoint W → Bool
  is_finite_point p =
      is_finite p.t_s
      && is_finite p.speed_mps
      && is_finite p.accel_mps2
      && is_finite p.jerk_mps3
      && is_finite p.distance_m

  -- The checks against the point before.
  pub order_violation : Option (TrajectoryPoint W) → TrajectoryPoint W → Option TrajectoryViolation
  order_violation none p = none
  order_violation (some prev) p =
      if le p.t_s prev.t_s
      then some TrajectoryViolation.non_monotonic_time
      else if lt (add p.distance_m numeric_epsilon) prev.distance_m
      then some TrajectoryViolation.non_monotonic_distance
      else none

  -- A limit of the configuration that is not negative, 0 without a configuration.
  pub limit_of : Option (SystemConfig W) → (SystemConfig W → W) → W
  limit_of none field = nought
  limit_of (some cfg) field = fmax nought (field cfg)

  pub bound_violation : TrajectoryValidator W → TrajectoryPoint W → Option TrajectoryViolation
  unfolding limit_of
  bound_violation v p =
      let max_speed = limit_of v.config (λ cfg. cfg.envelope.max_speed_mps) in
      let max_accel = limit_of v.config (λ cfg. cfg.envelope.max_accel_mps2) in
      if lt nought max_speed && lt (add max_speed numeric_epsilon) (abs p.speed_mps)
      then some TrajectoryViolation.speed_out_of_bounds
      else if lt nought max_accel && lt (add max_accel numeric_epsilon) (abs p.accel_mps2)
      then some TrajectoryViolation.accel_out_of_bounds
      else if lt (add v.max_jerk_mps3 numeric_epsilon) (abs p.jerk_mps3)
      then some TrajectoryViolation.jerk_out_of_bounds
      else none

  -- The check against the safety envelope.
  pub is_outside : TrajectoryValidator W → TrajectoryPoint W → Bool
  is_outside v p = elim v.config [
    | none ↦ false
    | some cfg ↦
        le nought v.obstacle_distance_m
        && not
            (evaluate_in_envelope (sub v.obstacle_distance_m p.distance_m) p.speed_mps
              cfg.envelope).within_envelope
  ]

  -- One round of the loop of `validate`: the violation that it returns, if any.
  unfoldable pub point_violation :
      TrajectoryValidator W
      → Option (TrajectoryPoint W)
      → TrajectoryPoint W
      → Option TrajectoryViolation
  unfolding is_finite_point order_violation bound_violation is_outside
  point_violation v prev p =
      if not (is_finite_point p)
      then some TrajectoryViolation.null_input
      else elim (order_violation prev p) [
        | some found ↦ some found
        | none ↦ elim (bound_violation v p) [
          | some found ↦ some found
          | none ↦ if is_outside v p then some TrajectoryViolation.envelope_violation else none
        ]
      ]

  unfoldable pub validate_from :
      TrajectoryValidator W
      → ℕ
      → Option (TrajectoryPoint W)
      → List (TrajectoryPoint W)
      → TrajectoryValidationResult
  validate_from v i prev [] = record {
    ok = true;
    violation = TrajectoryViolation.no_violation;
    failing_index = 0;
  }
  validate_from v i prev (p ∷ points) =
      let rest = validate_from v (i + 1) (some p) points in
      elim (point_violation v prev p) [
        | some found ↦ record { ok = false; violation = found; failing_index = i }
        | none ↦ rest
      ]

  -- `TrajectoryValidator::validate`
  unfoldable pub validate :
      TrajectoryValidator W → Option (List (TrajectoryPoint W)) → TrajectoryValidationResult
  validate v none = record {
    ok = false;
    violation = TrajectoryViolation.null_input;
    failing_index = 0;
  }
  validate v (some []) = record {
    ok = false;
    violation = TrajectoryViolation.empty_trajectory;
    failing_index = 0;
  }
  validate v (some (p ∷ points)) = validate_from v 0 none (p ∷ points)

  abbrev pub at_rest : W → W → TrajectoryPoint W
  at_rest t x = record {
    t_s = t;
    speed_mps = nought;
    accel_mps2 = nought;
    jerk_mps3 = nought;
    distance_m = x;
  }

  abbrev prepend : TrajectoryPoint W → Profile W → Profile W
  prepend p out = (p ∷ out.0, out.1)

  -- The loop of `generate_emergency_stop_profile` and what follows it; the first argument is the room
  -- left in the buffer.
  unfoldable pub emergency_from : ℕ → W → W → W → W → W → Profile W
  emergency_from zero decel dt t v x = ([], false)
  emergency_from (suc room) decel dt t v x =
      let next_v = fmax nought (sub v (mul decel dt)) in
      let step_d = mul (mul (add v next_v) (dec 5 1)) dt in
      let later = emergency_from room decel dt (add t dt) next_v (add x step_d) in
      if lt nought v
      then prepend
          (record {
            t_s = t;
            speed_mps = v;
            accel_mps2 = div (sub next_v v) dt;
            jerk_mps3 = nought;
            distance_m = x;
          })
          later
      else (at_rest t x ∷ [], true)

  -- `generate_emergency_stop_profile`, as the points written and the success.
  unfoldable pub generate_emergency_stop_profile : W → W → W → Bool → ℕ → Profile W
  generate_emergency_stop_profile initial_speed max_decel dt out_points capacity =
      if not out_points
        || capacity == 0
        || not (is_finite initial_speed)
        || not (is_finite max_decel)
        || not (is_finite dt)
        || le dt nought
        || le max_decel nought
      then ([], false)
      else emergency_from capacity max_decel dt nought (fmax nought initial_speed) nought

  -- The acceleration and the jerk of one round of `generate_jerk_limited_stop_profile`.
  jerk_step : W → W → W → W → W → W × W
  jerk_step max_decel max_jerk dt v a =
      let ramped = add a (mul (neg max_jerk) dt) in
      let eased = add a (mul max_jerk dt) in
      let t_stop = if lt (dec 1 9) (abs a) then div v (abs a) else nought in
      if lt (neg max_decel) a
      then (if lt ramped (neg max_decel) then (neg max_decel, nought) else (ramped, neg max_jerk))
      else if le t_stop (div (abs a) max_jerk)
      then (if lt nought eased then (nought, nought) else (eased, max_jerk))
      else (a, nought)

  -- The loop of `generate_jerk_limited_stop_profile` and what follows it.
  unfoldable pub jerk_limited_from : ℕ → W → W → W → W → W → W → W → Profile W
  unfolding jerk_step
  jerk_limited_from zero max_decel max_jerk dt t v a x = ([], false)
  jerk_limited_from (suc room) max_decel max_jerk dt t v a x =
      let (a', jerk) = jerk_step max_decel max_jerk dt v a in
      let next_v = fmax nought (add v (mul a' dt)) in
      let step_d = mul (mul (add v next_v) (dec 5 1)) dt in
      let later =
        jerk_limited_from room max_decel max_jerk dt (add t dt) next_v a' (add x step_d) in
      if lt nought v
      then prepend
          (record { t_s = t; speed_mps = v; accel_mps2 = a'; jerk_mps3 = jerk; distance_m = x })
          later
      else (at_rest t x ∷ [], true)

  -- `generate_jerk_limited_stop_profile`
  unfoldable pub generate_jerk_limited_stop_profile : W → W → W → W → Bool → ℕ → Profile W
  generate_jerk_limited_stop_profile initial_speed max_decel max_jerk dt out_points capacity =
      if not out_points
        || capacity == 0
        || not (is_finite initial_speed)
        || not (is_finite max_decel)
        || not (is_finite max_jerk)
        || not (is_finite dt)
        || le dt nought
        || le max_decel nought
        || le max_jerk nought
      then ([], false)
      else jerk_limited_from capacity max_decel max_jerk dt nought (fmax nought initial_speed)
          nought nought
