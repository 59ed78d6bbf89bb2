-- ===== src/Filters/Ekf/Runs.antt =====
-- src/filters/bounded_ekf_filter.cpp: the filter's initial state, and sequences of calls from it.
use safety_autonomy_core.Common.{◌*◌, ◌^◌, refl, subst, List, [], ◌∷◌, arith}
use safety_autonomy_core.Common.Double.{Double, nought}
use safety_autonomy_core.Common.Double.Laws.{
  ◌≼◌, IsOrdered, fmax_finite, not-lt_of_le, le-fmax_right, nought-le-fmax, literal_shift,
}
use safety_autonomy_core.Time.{Duration}
use safety_autonomy_core.Filters.Ekf.{
  BoundedEkfFilter, min_v, max_v, all_finite, out_of_range, Call, call, run, initial,
  default_params,
}
use safety_autonomy_core.Filters.Ekf.Bounds.{
  IsHeld, IsHeldAround, IsAccepted, IsBounded, call-IsBounded,
}

module _ {W : Type 0} ⦃d : Double W⦄ (laws : IsOrdered W) where
  open d use {dec, neg, is_finite}
  open laws use {refl_of_finite, le_trans, neg_le, literal_finite, literal_mono}

  tiny_nonneg : nought ≼ dec 1 9
  tiny_nonneg =
      subst (λ z. z ≼ dec 1 9) (literal_shift laws 9 0 0)
        (literal_mono 0 1 9 (omega arith) (omega arith))

  tiny-le-one : dec 1 9 ≼ dec 1 0
  tiny-le-one =
      subst (λ z. dec 1 9 ≼ z) (literal_shift laws 9 1 0)
        (literal_mono 1 (1 * 10 ^ 9) 9 (omega arith) (omega arith))

  one-le-million : dec 1 0 ≼ dec 1000000 0
  one-le-million = literal_mono 1 1000000 0 (omega arith) (omega arith)

  default-IsAccepted : IsAccepted {W = W} default_params
  unfolding all_finite out_of_range
  default-IsAccepted = record {
    finite =
        rw
          (
            literal_finite 1 3 (omega arith),
            literal_finite 1 2 (omega arith),
            literal_finite 1000 0 (omega arith),
            literal_finite 100 0 (omega arith),
            literal_finite 1 9 (omega arith),
            literal_finite 1000000 0 (omega arith),
            literal_finite 5 0 (omega arith),
          )
          refl;
    range =
        rw
          (
            not-lt_of_le laws (dec 1 9) nought tiny_nonneg,
            not-lt_of_le laws (dec 1000000 0) (dec 1 9) (le_trans _ _ _ tiny-le-one one-le-million),
            not-lt_of_le laws (dec 1000 0) nought
                (literal_mono 0 1000 0 (omega arith) (omega arith)),
            not-lt_of_le laws (dec 100 0) nought (literal_mono 0 100 0 (omega arith) (omega arith)),
            not-lt_of_le laws (dec 5 0) nought (literal_mono 0 5 0 (omega arith) (omega arith)),
          )
          refl;
  }

  nought-IsHeldAround : (bound : W) → nought ≼ bound → IsHeldAround bound nought
  nought-IsHeldAround bound h = record {
    finite = literal_finite 0 0 (omega arith);
    low = neg_le bound h;
    high = h;
  }

  max_v-high : dec 1 0 ≼ max_v default_params
  unfolding max_v min_v
  max_v-high =
      let tiny = literal_finite 1 9 (omega arith) in
      let zero_finite = literal_finite 0 0 (omega arith) in
      le_trans _ _ _ one-le-million
        (le-fmax_right laws (dec 1000000 0) (min_v default_params)
          (refl_of_finite _ (literal_finite 1000000 0 (omega arith)))
          (refl_of_finite _ (fmax_finite laws (dec 1 9) nought tiny zero_finite))).1

  one-IsHeld : IsHeld (min_v default_params) (max_v default_params) (dec 1 0)
  unfolding min_v
  one-IsHeld = record {
    finite = literal_finite 1 0 (omega arith);
    low = ground (arith, tiny-le-one, literal_mono 0 1 0 (omega arith) (omega arith));
    high = max_v-high;
  }

  initial-IsBounded : IsBounded {W = W} initial
  initial-IsBounded =
      let cross = le_trans _ _ _ (literal_mono 0 1 0 (omega arith) (omega arith)) max_v-high in
      record {
        accepted = default-IsAccepted;
        position = nought-IsHeldAround _ (nought-le-fmax laws (dec 1000 0));
        velocity = nought-IsHeldAround _ (nought-le-fmax laws (dec 100 0));
        p00 = one-IsHeld;
        p11 = one-IsHeld;
        p01 = nought-IsHeldAround _ cross;
        p10 = nought-IsHeldAround _ cross;
      }

  module _ (seconds : Duration → W) where
    run_from-IsBounded :
        (calls : List (Call W)) (f : BoundedEkfFilter W)
        → IsBounded f
        → IsBounded (run seconds calls f)
    unfolding run
    run_from-IsBounded [] f b = b
    run_from-IsBounded (c ∷ calls) f b =
        run_from-IsBounded calls (call seconds c f) (call-IsBounded laws seconds c f b)

    -- Whatever configurations, parameters, resets and updates a new filter is given, measurements and
    -- accelerations that are infinite or not a number included, its parameters stay accepted ones, the
    -- estimate is finite and within the configured bounds, and each entry of the covariance is finite
    -- and between its bounds: the variances between the smallest and the largest, the others at most
    -- the largest in size.
    pub run-IsBounded : (calls : List (Call W)) → IsBounded (run seconds calls initial)
    run-IsBounded calls = run_from-IsBounded calls initial initial-IsBounded
