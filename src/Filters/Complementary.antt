-- ===== src/Filters/Complementary.antt =====
-- src/filters/complementary_filter.cpp and its header: the complementary filter.
use safety_autonomy_core.Common.{
  ℕ, ◌≡◌, inl, inr, refl, true, not, ◌&&◌, Option, none, some, arith, if◌then◌else◌, Bool-cases,
}
use safety_autonomy_core.Common.Double.{Double, nought, fmax, clamp}
use safety_autonomy_core.Common.Double.Laws.{◌≼◌, IsOrdered, clamp_bounds, nought-le-fmax}
use safety_autonomy_core.Time.{Duration}
use safety_autonomy_core.Config.Types.{SystemConfig}
use safety_autonomy_core.Filters.{dt_seconds, stamped_step}

pub record ComplementaryFilterParams (W : Type 0) : Type 0 where
  pub alpha : W
  pub max_abs_state : W
  pub cutoff_frequency_hz : W

pub record ComplementaryFilter (W : Type 0) : Type 0 where
  pub config : Option (SystemConfig W)
  pub params : ComplementaryFilterParams W
  pub state : W
  pub last_timestamp_ns : ℕ

module _ {W : Type 0} where
  -- `apply_config` and `set_params`
  pub apply_config : SystemConfig W → ComplementaryFilter W → ComplementaryFilter W
  apply_config cfg f = record f { config = some cfg }

  pub set_params : ComplementaryFilterParams W → ComplementaryFilter W → ComplementaryFilter W
  set_params params f = record f { params = params }

module _ {W : Type 0} ⦃d : Double W⦄ where
  open d use {dec, lt, le, is_finite, add, sub, mul, div, neg}

  abbrev pub initial : ComplementaryFilter W
  initial = record {
    config = none;
    params = record { alpha = dec 98 2; max_abs_state = dec 1000 0; cutoff_frequency_hz = nought };
    state = nought;
    last_timestamp_ns = 0;
  }

  -- `clamp_finite`
  unfoldable pub clamp_finite : ComplementaryFilterParams W → W → W
  clamp_finite params value =
      let bound = fmax nought params.max_abs_state in
      if not (is_finite value) then nought else clamp value (neg bound) bound

  -- `compute_alpha`, with `kTwoPi`
  unfoldable pub compute_alpha : ComplementaryFilterParams W → W → W
  compute_alpha params dt =
      let two_pi = dec 6283185307179586 15 in
      let tau = div (dec 1 0) (mul two_pi params.cutoff_frequency_hz) in
      if lt nought params.cutoff_frequency_hz && lt nought dt
      then clamp (div tau (add tau dt)) nought (dec 1 0)
      else clamp params.alpha nought (dec 1 0)

  -- `reset`
  unfoldable pub reset : W → ComplementaryFilter W → ComplementaryFilter W
  unfolding clamp_finite
  reset state f = record f { state = clamp_finite f.params state; last_timestamp_ns = 0 }

  -- The fusion that both overloads of `update` make.
  unfoldable pub fuse : W → W → W → ComplementaryFilter W → ComplementaryFilter W
  unfolding clamp_finite compute_alpha
  fuse rate absolute dt f =
      let predicted = add f.state (mul rate dt) in
      let alpha = compute_alpha f.params dt in
      let complementary = add (mul alpha predicted) (mul (sub (dec 1 0) alpha) absolute) in
      record f { state = clamp_finite f.params complementary }

  module _ (seconds : Duration → W) where
    -- `update(rate_measurement, absolute_measurement)`
    unfoldable pub update : W → W → ComplementaryFilter W → ComplementaryFilter W × W
    unfolding fuse dt_seconds
    update rate absolute f =
        let f' = fuse rate absolute (dt_seconds seconds f.config) f in (f', f'.state)

    -- `update(rate_measurement, absolute_measurement, timestamp_ns)`
    unfoldable pub update_at : W → W → ℕ → ComplementaryFilter W → ComplementaryFilter W × W
    unfolding fuse dt_seconds stamped_step
    update_at rate absolute timestamp_ns f =
        let dt = stamped_step (dt_seconds seconds f.config) f.last_timestamp_ns timestamp_ns in
        let f' = fuse rate absolute dt (record f { last_timestamp_ns = timestamp_ns }) in
        (f', f'.state)

  -- Finite, and within the bound of the parameters.
  abbrev pub IsClamped : ComplementaryFilterParams W → W → Type 0
  IsClamped params y =
      let bound = fmax nought params.max_abs_state in
      (is_finite y ≡ true) × (neg bound ≼ y) × (y ≼ bound)

  module _ (laws : IsOrdered W) where
    open laws use {
      refl_of_finite, le_trans, neg_le, literal_finite, finite_between, refl_of_le, le_of_lt,
    }

    clamp_finite-IsClamped :
        (params : ComplementaryFilterParams W) (y : W) → IsClamped params (clamp_finite params y)
    unfolding clamp_finite
    clamp_finite-IsClamped params y =
        let bound = fmax nought params.max_abs_state in
        let high = nought-le-fmax laws params.max_abs_state in
        let low = neg_le bound high in
        let nought_finite = literal_finite 0 0 (omega arith) in
        elim (Bool-cases (is_finite y)) [
          | inr e ↦ rw e (nought_finite, low, high)
          | inl e ↦
              let (above, below) =
                clamp_bounds laws y (neg bound) bound (refl_of_finite y e)
                  (le_trans _ _ _ low high) in
              rw e (
                ground (
                  arith,
                  le_of_lt y (neg bound),
                  le_of_lt bound y,
                  finite_between y (neg bound) nought,
                  finite_between nought bound y,
                ),
                above,
                below,
              )
        ]

    module _ (seconds : Duration → W) where
      -- Both updates and the reset leave a state that is finite and within the bound of the parameters,
      -- and the updates return it, whatever the measurements and the parameters are: infinite ones and
      -- ones that are not a number included.
      pub operations-IsClamped :
          (rate absolute : W) (timestamp_ns : ℕ) (f : ComplementaryFilter W)
          → let (f', state') = update seconds rate absolute f in
            let (f'', state'') = update_at seconds rate absolute timestamp_ns f in
            (IsClamped f.params f'.state × (state' ≡ f'.state))
            × (IsClamped f.params f''.state × (state'' ≡ f''.state))
            × IsClamped f.params (reset absolute f).state
      unfolding update update_at fuse reset
      operations-IsClamped rate absolute timestamp_ns f = (
        (clamp_finite-IsClamped f.params _, refl),
        (clamp_finite-IsClamped f.params _, refl),
        clamp_finite-IsClamped f.params absolute,
      )
