-- ===== src/Motion/Verdict.antt =====
-- What the validator of src/motion/trajectory.cpp decides.
use safety_autonomy_core.Common.{
  ℕ, zero, suc, ◌+◌, ◌<◌, ◌≡◌, ◌≢◌, ◌⊎◌, inl, inr, refl, true, false, List, [], ◌∷◌, Option, none,
  some, arith, Option-cases, get_elem?,
}
use safety_autonomy_core.Common.Double.{Double}
use safety_autonomy_core.Motion.{
  TrajectoryPoint, TrajectoryViolation, TrajectoryValidationResult, TrajectoryValidator,
  point_violation, validate_from, validate,
}

module _ {W : Type 0} ⦃d : Double W⦄ where
  -- The point before the one at an index, where `prev` comes before the list.
  abbrev pub before :
      Option (TrajectoryPoint W) → List (TrajectoryPoint W) → ℕ → Option (TrajectoryPoint W)
  before prev points zero = prev
  before prev points (suc i) = get_elem? points i

  -- The points at the indices below `n` pass the checks.
  abbrev pub Passes :
      TrajectoryValidator W → Option (TrajectoryPoint W) → List (TrajectoryPoint W) → ℕ → Type 0
  Passes v prev points n =
      (i : ℕ) (p : TrajectoryPoint W)
      → i < n
      → get_elem? points i ≡ some p
      → point_violation v (before prev points i) p ≡ none

  -- Every point passes, or the result names the first that does not, with its violation.
  abbrev pub IsVerdict :
      TrajectoryValidator W
      → ℕ
      → Option (TrajectoryPoint W)
      → List (TrajectoryPoint W)
      → TrajectoryValidationResult
      → Type 0
  IsVerdict v offset prev points out =
      ((out.ok ≡ true) × ((n : ℕ) → Passes v prev points n))
      ⊎ ((out.ok ≡ false)
          × ((n : ℕ) × (p : TrajectoryPoint W) × (out.failing_index ≡ offset + n)
              × (get_elem? points n ≡ some p)
              × (point_violation v (before prev points n) p ≡ some out.violation)
              × Passes v prev points n))

  Passes-later :
      (v : TrajectoryValidator W) (prev : Option (TrajectoryPoint W)) (q : TrajectoryPoint W)
      (points : List (TrajectoryPoint W)) (n : ℕ)
      → point_violation v prev q ≡ none
      → Passes v (some q) points n
      → Passes v prev (q ∷ points) (suc n)
  Passes-later v prev q points n h later zero p l e = cc
  Passes-later v prev q points n h later (suc zero) p l e = later zero p (omega arith) e
  Passes-later v prev q points n h later (suc (suc i)) p l e = later (suc i) p (omega arith) e

  validate_from_pass :
      (v : TrajectoryValidator W) (offset : ℕ) (prev : Option (TrajectoryPoint W))
      (q : TrajectoryPoint W) (points : List (TrajectoryPoint W))
      → point_violation v prev q ≡ none
      → validate_from v offset prev (q ∷ points) ≡ validate_from v (offset + 1) (some q) points
  unfolding validate_from
  validate_from_pass v offset prev q points h = rw (h, validate_from) refl

  validate_from_found :
      (v : TrajectoryValidator W) (offset : ℕ) (prev : Option (TrajectoryPoint W))
      (q : TrajectoryPoint W) (points : List (TrajectoryPoint W)) (found : TrajectoryViolation)
      → point_violation v prev q ≡ some found
      → validate_from v offset prev (q ∷ points)
        ≡ record { ok = false; violation = found; failing_index = offset }
  unfolding validate_from
  validate_from_found v offset prev q points found h = rw (h, validate_from) refl

  IsVerdict-later :
      (v : TrajectoryValidator W) (offset : ℕ) (prev : Option (TrajectoryPoint W))
      (q : TrajectoryPoint W) (points : List (TrajectoryPoint W)) (out : TrajectoryValidationResult)
      → point_violation v prev q ≡ none
      → IsVerdict v (offset + 1) (some q) points out
      → IsVerdict v offset prev (q ∷ points) out
  IsVerdict-later v offset prev q points out h (inl (ok, all)) =
      inl (ok, λ n i p l e. Passes-later v prev q points n h (all n) i p (omega arith) e)
  IsVerdict-later v offset prev q points out h (inr (bad, (k, p, at, found, why, all))) =
      inr (
        bad,
        (suc k, p, omega arith, found, later k found why, Passes-later v prev q points k h all),
      )
    where
      later :
          (k : ℕ)
          → get_elem? points k ≡ some p
          → point_violation v (before (some q) points k) p ≡ some out.violation
          → point_violation v (before prev (q ∷ points) (suc k)) p ≡ some out.violation
      later zero found why = why
      later (suc k) found why = why

  validate_from_lem :
      (v : TrajectoryValidator W) (offset : ℕ) (prev : Option (TrajectoryPoint W))
      (points : List (TrajectoryPoint W))
      → IsVerdict v offset prev points (validate_from v offset prev points)
  unfolding validate_from
  validate_from_lem v offset prev [] = inl (refl, λ n i p l e. ground arith)
  validate_from_lem v offset prev (q ∷ points) = elim (Option-cases (point_violation v prev q)) [
    | inl n ↦ rw (validate_from_pass v offset prev q points n) (
        IsVerdict-later v offset prev q points _ n
          (validate_from_lem v (offset + 1) (some q) points))
    | inr (found, s) ↦
        rw (validate_from_found v offset prev q points found s)
          (inr (refl, (0, q, omega arith, refl, s, λ i p l e. absurd (omega arith))))
  ]

  -- `validate` refuses a missing and an empty trajectory; any other one it accepts exactly when every
  -- point passes the checks of its round, against the point before it; and otherwise the result names
  -- the first point that does not pass, with the violation that its round finds.
  pub validate_lem :
      (v : TrajectoryValidator W) (points : List (TrajectoryPoint W))
      → ((validate v none).ok ≡ false)
        × ((points ≡ []) ⊎ IsVerdict v 0 none points (validate v (some points)))
        × ((points ≢ []) ⊎ ((validate v (some points)).ok ≡ false))
  unfolding validate
  validate_lem v [] = (refl, inl refl, inr refl)
  validate_lem v (p ∷ points) =
      (refl, inr (validate_from_lem v 0 none (p ∷ points)), inl (λ e. ground arith))
