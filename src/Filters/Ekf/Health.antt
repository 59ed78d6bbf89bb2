-- ===== src/Filters/Ekf/Health.antt =====
-- What src/filters/bounded_ekf_filter.cpp reports as its health, and which updates it leaves out.
use safety_autonomy_core.Common.{
  ℕ, ◌+◌, ◌≡◌, ◌⊎◌, inl, inr, refl, Bool, true, false, ◌&&◌, Bool-cases,
}
use safety_autonomy_core.Common.Words.{u64}
use safety_autonomy_core.Common.Double.{Double}
use safety_autonomy_core.Common.Double.Laws.{IsOrdered}
use safety_autonomy_core.Time.{Duration}
use safety_autonomy_core.Filters.{dt_seconds, stamped_step}
use safety_autonomy_core.Filters.Ekf.{
  BoundedEkfFilter, predict, apply_gain, bad_variance, innovation_gate, innovation_variance,
  correct, update_at,
}
use safety_autonomy_core.Filters.Ekf.Bounds.{
  IsBounded, predict-IsBounded, apply_gain-IsBounded, stamped-IsBounded,
}

module _ {W : Type 0} ⦃d : Double W⦄ where
  open d use {is_finite, lt, mul, sub, dec}

  -- A correction that the variance forbids, one that the gate keeps out, and one that is made and
  -- reported as healthy.
  abbrev pub IsCorrection : W → BoundedEkfFilter W → BoundedEkfFilter W × Bool → Type 0
  IsCorrection measurement f result =
      let s = innovation_variance f in
      let innovation = sub measurement f.x in
      ((bad_variance f ≡ true) × (result ≡ (record f { healthy = false }, false)))
      ⊎ (((innovation_gate f.params innovation s ≡ false)
            × (result ≡ (record f { rejected_count = u64 (f.rejected_count + 1) }, f.healthy)))
          ⊎ (result ≡ (record (apply_gain innovation s f) { healthy = true }, true)))

  module _ (laws : IsOrdered W) where
    correct_cases :
        (measurement : W) (f : BoundedEkfFilter W)
        → IsBounded f
        → IsCorrection measurement f (correct measurement f)
    unfolding correct
    correct_cases measurement f b =
        let s = innovation_variance f in
        let innovation = sub measurement f.x in
        let g = apply_gain-IsBounded laws innovation s f b in
        elim (Bool-cases (bad_variance f)) [
          | inl e ↦ inl (e, rw e refl)
          | inr e ↦ elim (Bool-cases (innovation_gate f.params innovation s)) [
            | inl i ↦ inr (inr (rw (e, i, g.position.finite, g.velocity.finite) refl))
            | inr i ↦ inr (inl (i, rw (e, i) refl))
          ]
        ]

    module _ (seconds : Duration → W) where
      -- For a filter within its bounds, an update with a time stamp
      -- - gives up the health and changes nothing else where the measurement or the acceleration is not
      --   finite,
      -- - and otherwise keeps the time stamp, and skips the update where more than ten periods have
      --   passed since the last one;
      -- - else it predicts, and then either gives up the health for want of a variance, or keeps out an
      --   outlier and counts it, or corrects the estimate. A correction that is made is always reported
      --   as healthy: its health is tested behind the clamps, which replace what is not finite by 0.
      pub update_at_lem :
          (measurement accel : W) (timestamp_ns : ℕ) (f : BoundedEkfFilter W)
          → IsBounded f
          → let result = update_at seconds measurement accel timestamp_ns f in
            let expected = dt_seconds seconds f.config in
            let dt = stamped_step expected f.last_timestamp_ns timestamp_ns in
            let f' = record f { last_timestamp_ns = timestamp_ns } in
            (((is_finite measurement && is_finite accel) ≡ false)
              × (result ≡ (record f { healthy = false }, false)))
            ⊎ (((lt (mul expected (dec 10 0)) dt ≡ true) × (result ≡ (f', f.healthy)))
                ⊎ IsCorrection measurement (predict accel dt f') result)
      unfolding update_at
      update_at_lem measurement accel timestamp_ns f b =
          let expected = dt_seconds seconds f.config in
          let dt = stamped_step expected f.last_timestamp_ns timestamp_ns in
          let f' : BoundedEkfFilter W = record f { last_timestamp_ns = timestamp_ns } in
          let predicted =
            predict-IsBounded laws accel dt f' (stamped-IsBounded laws timestamp_ns f b) in
          elim (Bool-cases (is_finite measurement)) [
            | inr e ↦ inl (rw e (refl, refl))
            | inl e ↦ elim (Bool-cases (is_finite accel)) [
              | inr a ↦ inl (rw (e, a) (refl, refl))
              | inl a ↦ elim (Bool-cases (lt (mul expected (dec 10 0)) dt)) [
                | inl o ↦ inr (inl (o, rw (e, a, o) refl))
                | inr o ↦
                    inr (
                      inr
                        (rw (e, a, o) (correct_cases measurement (predict accel dt f') predicted)))
              ]
            ]
          ]
