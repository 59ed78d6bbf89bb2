-- ===== src/Filters/Ekf/Bounds.antt =====
-- What every call of src/filters/bounded_ekf_filter.cpp keeps: accepted parameters, and an estimate
-- and a covariance that are finite and within their bounds.
use safety_autonomy_core.Common.{
  ℕ, ◌≡◌, inl, inr, Bool, true, false, not, ◌&&◌, ◌||◌, arith, Bool-cases, if◌then◌else◌,
}
use safety_autonomy_core.Common.Double.{Double, nought, fmax, clamp}
use safety_autonomy_core.Common.Double.Laws.{
  ◌≼◌, IsOrdered, clamp_bounds, fmax_finite, le-fmax_right, nought_refl, nought-le-fmax,
}
use safety_autonomy_core.Time.{Duration}
use safety_autonomy_core.Filters.{dt_seconds, stamped_step}
use safety_autonomy_core.Filters.Ekf.{
  BoundedEkfFilter, BoundedEkfParams, clamp_finite, clamp_position, clamp_velocity, min_v, max_v,
  clamp_covariance, clamp_state, all_finite, out_of_range, set_params, reset, predict, apply_gain,
  bad_variance, innovation_gate, innovation_variance, correct, update, update_at, Call, on_config,
  on_params, on_reset, on_update, on_update_at, call, apply_config,
}

module _ {W : Type 0} ⦃d : Double W⦄ where
  open d use {is_finite, neg, sub}

  -- Finite and between two bounds.
  pub record IsHeld (lo hi y : W) : Type 0 where
    pub finite : is_finite y ≡ true
    pub low : lo ≼ y
    pub high : y ≼ hi

  -- The parameters that `set_params` accepts.
  pub record IsAccepted (q : BoundedEkfParams W) : Type 0 where
    pub finite : all_finite q ≡ true
    pub range : out_of_range q ≡ false

  abbrev pub IsHeldAround : W → W → Type 0
  IsHeldAround bound y = IsHeld (neg bound) bound y

  pub record IsBounded (f : BoundedEkfFilter W) : Type 0 where
    pub accepted : IsAccepted f.params
    pub position : IsHeldAround (fmax nought f.params.max_abs_position) f.x
    pub velocity : IsHeldAround (fmax nought f.params.max_abs_velocity) f.v
    pub p00 : IsHeld (min_v f.params) (max_v f.params) f.p.p00
    pub p11 : IsHeld (min_v f.params) (max_v f.params) f.p.p11
    pub p01 : IsHeldAround (max_v f.params) f.p.p01
    pub p10 : IsHeldAround (max_v f.params) f.p.p10

  -- The finite bounds that the accepted parameters give.
  record HasBounds (q : BoundedEkfParams W) : Type 0 where
    position_finite : is_finite q.max_abs_position ≡ true
    velocity_finite : is_finite q.max_abs_velocity ≡ true
    min_finite : is_finite (min_v q) ≡ true
    max_finite : is_finite (max_v q) ≡ true
    min_nonneg : nought ≼ min_v q
    min_le : min_v q ≼ max_v q

  module _ (laws : IsOrdered W) where
    open laws use {refl_of_finite, le_trans, neg_le, neg_finite, literal_finite, literal_mono}

    nought_finite : is_finite nought ≡ true
    nought_finite = literal_finite 0 0 (omega arith)

    accepted-HasBounds : (q : BoundedEkfParams W) → IsAccepted q → HasBounds q
    unfolding min_v max_v all_finite
    accepted-HasBounds q a = record {
      position_finite = ground (arith, a.finite);
      velocity_finite = ground (arith, a.finite);
      min_finite = lo;
      max_finite = fmax_finite laws q.max_variance (min_v q) hi lo;
      min_nonneg =
          (le-fmax_right laws q.min_variance nought (refl_of_finite q.min_variance finite)
            (nought_refl laws)).0;
      min_le =
          (le-fmax_right laws q.max_variance (min_v q) (refl_of_finite q.max_variance hi)
            (refl_of_finite (min_v q) lo)).0;
    }
      where
        finite : is_finite q.min_variance ≡ true
        finite = ground (arith, a.finite)

        hi : is_finite q.max_variance ≡ true
        hi = ground (arith, a.finite)

        lo : is_finite (min_v q) ≡ true
        lo = fmax_finite laws q.min_variance nought finite nought_finite

    clamp-IsHeld :
        (y lo hi : W)
        → is_finite lo ≡ true
        → is_finite hi ≡ true
        → is_finite y ≡ true
        → lo ≼ hi
        → IsHeld lo hi (clamp y lo hi)
    clamp-IsHeld y lo hi l h f o =
        let (low, high) = clamp_bounds laws y lo hi (refl_of_finite y f) o in
        record { finite = ground arith; low = low; high = high }

    -- A bound that is not negative has its negation below it.
    around : (b : W) → nought ≼ b → neg b ≼ b
    around b h = le_trans (neg b) nought b (neg_le b h) h

    clamp_finite-IsHeld :
        (m y : W) → is_finite m ≡ true → IsHeldAround (fmax nought m) (clamp_finite m y)
    unfolding clamp_finite
    clamp_finite-IsHeld m y hm =
        let b = fmax nought m in
        let positive = nought-le-fmax laws m in
        let finite = fmax_finite laws nought m nought_finite hm in
        elim (Bool-cases (is_finite y)) [
          | inl e ↦
              rw e (clamp-IsHeld y (neg b) b (neg_finite b finite) finite e (around b positive))
          | inr e ↦
              rw e (record { finite = nought_finite; low = neg_le b positive; high = positive })
        ]

    -- What `clamp_covariance` makes of an entry, and of the default for one that is not finite.
    or_default-IsHeld :
        (y z lo hi : W)
        → is_finite lo ≡ true
        → is_finite hi ≡ true
        → is_finite z ≡ true
        → lo ≼ hi
        → IsHeld lo hi (clamp (if not (is_finite y) then z else y) lo hi)
    or_default-IsHeld y z lo hi l h f o =
        clamp-IsHeld (if not (is_finite y) then z else y) lo hi l h (ground arith) o

    clamp_state-IsBounded :
        (f : BoundedEkfFilter W) → IsAccepted f.params → IsBounded (clamp_state f)
    unfolding clamp_state clamp_position clamp_velocity clamp_covariance
    clamp_state-IsBounded f a =
        let b = accepted-HasBounds f.params a in
        let lo = min_v f.params in
        let hi = max_v f.params in
        let hi_nonneg = le_trans nought lo hi b.min_nonneg b.min_le in
        record {
          accepted = a;
          position = clamp_finite-IsHeld f.params.max_abs_position f.x b.position_finite;
          velocity = clamp_finite-IsHeld f.params.max_abs_velocity f.v b.velocity_finite;
          p00 = or_default-IsHeld f.p.p00 hi lo hi b.min_finite b.max_finite b.max_finite b.min_le;
          p11 = or_default-IsHeld f.p.p11 hi lo hi b.min_finite b.max_finite b.max_finite b.min_le;
          p01 =
              or_default-IsHeld f.p.p01 nought (neg hi) hi (neg_finite hi b.max_finite) b.max_finite
                nought_finite (around hi hi_nonneg);
          p10 =
              or_default-IsHeld f.p.p10 nought (neg hi) hi (neg_finite hi b.max_finite) b.max_finite
                nought_finite (around hi hi_nonneg);
        }

    -- Only the fields of the estimate and the parameters count.
    same-IsBounded :
        (f : BoundedEkfFilter W) (config : _) (healthy : Bool) (t n : ℕ)
        → IsBounded f
        → IsBounded (record f {
          config = config;
          healthy = healthy;
          last_timestamp_ns = t;
          rejected_count = n;
        })
    same-IsBounded f config healthy t n b = record {
      accepted = b.accepted;
      position = b.position;
      velocity = b.velocity;
      p00 = b.p00;
      p11 = b.p11;
      p01 = b.p01;
      p10 = b.p10;
    }

    pub predict-IsBounded :
        (accel dt : W) (f : BoundedEkfFilter W) → IsBounded f → IsBounded (predict accel dt f)
    unfolding predict
    predict-IsBounded accel dt f b = clamp_state-IsBounded _ b.accepted

    pub apply_gain-IsBounded :
        (innovation s : W) (f : BoundedEkfFilter W)
        → IsBounded f
        → IsBounded (apply_gain innovation s f)
    unfolding apply_gain
    apply_gain-IsBounded innovation s f b = clamp_state-IsBounded _ b.accepted

    pub stamped-IsBounded :
        (t : ℕ) (f : BoundedEkfFilter W)
        → IsBounded f
        → IsBounded (record f { last_timestamp_ns = t })
    stamped-IsBounded t f b = same-IsBounded f f.config f.healthy t f.rejected_count b

    correct-IsBounded :
        (measurement : W) (f : BoundedEkfFilter W)
        → IsBounded f
        → IsBounded (correct measurement f).0
    unfolding correct
    correct-IsBounded measurement f b =
        let s = innovation_variance f in
        let innovation = sub measurement f.x in
        let kept = same-IsBounded f f.config in
        let g = apply_gain innovation s f in
        elim (Bool-cases (bad_variance f)) [
          | inl e ↦ rw e (kept false f.last_timestamp_ns f.rejected_count b)
          | inr e ↦ elim (Bool-cases (innovation_gate f.params innovation s)) [
            | inl i ↦
                rw (e, i)
                  (same-IsBounded g g.config (is_finite g.x && is_finite g.v) g.last_timestamp_ns
                    g.rejected_count (apply_gain-IsBounded innovation s f b))
            | inr i ↦ rw (e, i) (kept f.healthy f.last_timestamp_ns _ b)
          ]
        ]

    module _ (seconds : Duration → W) where
      update-IsBounded :
          (measurement accel : W) (f : BoundedEkfFilter W)
          → IsBounded f
          → IsBounded (update seconds measurement accel f).0
      unfolding update
      update-IsBounded measurement accel f b =
          elim (Bool-cases (not (is_finite measurement) || not (is_finite accel))) [
            | inl e ↦ rw e (same-IsBounded f f.config false f.last_timestamp_ns f.rejected_count b)
            | inr e ↦ rw e (correct-IsBounded measurement _ (predict-IsBounded accel _ f b))
          ]

      update_at-IsBounded :
          (measurement accel : W) (timestamp_ns : ℕ) (f : BoundedEkfFilter W)
          → IsBounded f
          → IsBounded (update_at seconds measurement accel timestamp_ns f).0
      unfolding update_at
      update_at-IsBounded measurement accel timestamp_ns f b =
          let expected = dt_seconds seconds f.config in
          let dt = stamped_step expected f.last_timestamp_ns timestamp_ns in
          let b' = stamped-IsBounded timestamp_ns f b in
          elim (Bool-cases (not (is_finite measurement) || not (is_finite accel))) [
            | inl e ↦ rw e (same-IsBounded f f.config false f.last_timestamp_ns f.rejected_count b)
            | inr e ↦ elim (Bool-cases (d.lt (d.mul expected (d.dec 10 0)) dt)) [
              | inl o ↦ rw (e, o) b'
              | inr o ↦
                  rw (e, o) (correct-IsBounded measurement _ (predict-IsBounded accel dt _ b'))
            ]
          ]

      set_params-IsBounded :
          (q : BoundedEkfParams W) (f : BoundedEkfFilter W)
          → IsBounded f
          → IsBounded (set_params q f)
      unfolding set_params
      set_params-IsBounded q f b = elim (Bool-cases (all_finite q)) [
        | inr e ↦ rw e b
        | inl e ↦ elim (Bool-cases (out_of_range q)) [
          | inl o ↦ rw (e, o) b
          | inr o ↦ rw (e, o) (clamp_state-IsBounded _ (record { finite = e; range = o }))
        ]
      ]

      reset-IsBounded :
          (position velocity : W) (f : BoundedEkfFilter W)
          → IsBounded f
          → IsBounded (reset position velocity f)
      unfolding reset clamp_state
      reset-IsBounded position velocity f b =
          let cleared : BoundedEkfFilter W = record f {
            x = position;
            v = velocity;
            p = record { p00 = d.dec 1 0; p01 = nought; p10 = nought; p11 = d.dec 1 0 };
          } in
          same-IsBounded (clamp_state cleared) f.config true 0 0
            (clamp_state-IsBounded cleared b.accepted)

      pub call-IsBounded :
          (c : Call W) (f : BoundedEkfFilter W) → IsBounded f → IsBounded (call seconds c f)
      unfolding call apply_config
      call-IsBounded (on_config cfg) f b = record {
        accepted = b.accepted;
        position = b.position;
        velocity = b.velocity;
        p00 = b.p00;
        p11 = b.p11;
        p01 = b.p01;
        p10 = b.p10;
      }
      call-IsBounded (on_params q) f b = set_params-IsBounded q f b
      call-IsBounded (on_reset position velocity) f b = reset-IsBounded position velocity f b
      call-IsBounded (on_update measurement accel) f b = update-IsBounded measurement accel f b
      call-IsBounded (on_update_at measurement accel t) f b =
          update_at-IsBounded measurement accel t f b
