-- ===== src/Motion/Profiles.antt =====
-- The stopping profiles of src/motion/trajectory.cpp: they fit the buffer, and end at rest.
use safety_autonomy_core.Common.{
  ℕ, zero, suc, ◌≤◌, ◌≡◌, ◌⊎◌, inl, inr, refl, Bool, true, false, List, [], ◌∷◌, arith, Bool-cases,
  length, if◌then◌else◌,
}
use safety_autonomy_core.Common.Double.{Double, nought}
use safety_autonomy_core.Common.Double.Laws.{◌≺◌}
use safety_autonomy_core.Motion.{
  TrajectoryPoint, Profile, at_rest, emergency_from, generate_emergency_stop_profile,
  jerk_limited_from, generate_jerk_limited_stop_profile,
}

module _ {W : Type 0} ⦃d : Double W⦄ where
  open d use {lt, le, is_finite, sub, mul}

  -- The points are moving ones and then one at rest.
  abbrev pub EndsAtRest : List (TrajectoryPoint W) → Type 0
  EndsAtRest [] = ⊥
  EndsAtRest (p ∷ []) = p ≡ at_rest p.t_s p.distance_m
  EndsAtRest (p ∷ q ∷ points) = (nought ≺ p.speed_mps) × EndsAtRest (q ∷ points)

  -- All points are moving.
  abbrev pub AllMoving : List (TrajectoryPoint W) → Type 0
  AllMoving [] = Unit
  AllMoving (p ∷ points) = (nought ≺ p.speed_mps) × AllMoving points

  -- In a buffer of the given size: either a stop within it, or the buffer is full and the robot still
  -- moves at each point.
  abbrev pub IsStop : ℕ → Profile W → Type 0
  IsStop room out =
      ((out.1 ≡ true) × (length out.0 ≤ room) × EndsAtRest out.0)
      ⊎ ((out.1 ≡ false) × (length out.0 ≡ room) × AllMoving out.0)

  prepend-IsStop :
      (room : ℕ) (p : TrajectoryPoint W) (points : List (TrajectoryPoint W)) (ok : Bool)
      → nought ≺ p.speed_mps
      → IsStop room (points, ok)
      → IsStop (suc room) (p ∷ points, ok)
  prepend-IsStop room p [] ok h (inl (ok', fits, ends)) = absurd ends
  prepend-IsStop room p (q ∷ points) ok h (inl (ok', fits, ends)) =
      inl (ok', omega arith, (h, ends))
  prepend-IsStop room p points ok h (inr (failed, full, moving)) =
      inr (failed, omega arith, (h, moving))

  emergency_from-IsStop :
      (room : ℕ) (decel dt t v x : W) → IsStop room (emergency_from room decel dt t v x)
  unfolding emergency_from
  emergency_from-IsStop zero decel dt t v x = inr (refl, refl, tt)
  emergency_from-IsStop (suc room) decel dt t v x = elim (Bool-cases (lt nought v)) [
    | inl h ↦ rw h (prepend-IsStop room _ _ _ h (emergency_from-IsStop room decel dt _ _ _))
    | inr h ↦ rw h (inl (refl, omega arith, refl))
  ]

  jerk_limited_from-IsStop :
      (room : ℕ) (decel jerk dt t v a x : W)
      → IsStop room (jerk_limited_from room decel jerk dt t v a x)
  unfolding jerk_limited_from
  jerk_limited_from-IsStop zero decel jerk dt t v a x = inr (refl, refl, tt)
  jerk_limited_from-IsStop (suc room) decel jerk dt t v a x = elim (Bool-cases (lt nought v)) [
    | inl h ↦
        rw h (prepend-IsStop room _ _ _ h (jerk_limited_from-IsStop room decel jerk dt _ _ _ _))
    | inr h ↦ rw h (inl (refl, omega arith, refl))
  ]

  -- The result of a generator: nothing written and no success, or a stop.
  abbrev pub IsRefusedOrStop : ℕ → Profile W → Type 0
  IsRefusedOrStop capacity out = (out ≡ ([], false)) ⊎ IsStop capacity out

  -- Whatever the arguments, both generators of stopping profiles return after at most as many points
  -- as the buffer holds. They refuse and write nothing, or they succeed with a profile whose last point
  -- is at rest and all others move, or they fail with the buffer full of points that all move.
  pub profiles_stop :
      (initial_speed decel jerk dt : W) (out_points : Bool) (capacity : ℕ)
      → IsRefusedOrStop capacity
          (generate_emergency_stop_profile initial_speed decel dt out_points capacity)
        × IsRefusedOrStop capacity
            (generate_jerk_limited_stop_profile initial_speed decel jerk dt out_points capacity)
  unfolding generate_emergency_stop_profile generate_jerk_limited_stop_profile
  profiles_stop initial_speed decel jerk dt out_points capacity = (
    either _ _ (emergency_from-IsStop capacity decel dt _ _ _),
    either _ _ (jerk_limited_from-IsStop capacity decel jerk dt _ _ _ _),
  )
    where
      either :
          (refused : Bool) (out : Profile W)
          → IsStop capacity out
          → IsRefusedOrStop capacity (if refused then ([], false) else out)
      either true out h = inl refl
      either false out h = inr h
