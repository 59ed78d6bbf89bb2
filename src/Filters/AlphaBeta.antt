-- ===== src/Filters/AlphaBeta.antt =====
-- src/filters/alpha_beta.cpp and its header: the alpha-beta filter.
use safety_autonomy_core.Common.{
  ℕ, ◌≡◌, refl, false, ◌&&◌, Option, none, some, ltb, if◌then◌else◌, Bool-cases, inl, inr,
}
use safety_autonomy_core.Common.Double.{Double, nought}
use safety_autonomy_core.Time.{Duration}
use safety_autonomy_core.Config.Types.{SystemConfig}
use safety_autonomy_core.Filters.{dt_seconds, stamped_step}

pub record AlphaBetaParams (W : Type 0) : Type 0 where
  pub alpha : W
  pub beta : W

pub record AlphaBetaFilter (W : Type 0) : Type 0 where
  pub config : Option (SystemConfig W)
  pub params : AlphaBetaParams W
  pub position : W
  pub velocity : W
  pub last_timestamp_ns : ℕ

module _ {W : Type 0} where
  -- `apply_config`, `set_params` and `reset`
  pub apply_config : SystemConfig W → AlphaBetaFilter W → AlphaBetaFilter W
  apply_config cfg f = record f { config = some cfg }

  pub set_params : AlphaBetaParams W → AlphaBetaFilter W → AlphaBetaFilter W
  set_params params f = record f { params = params }

  pub reset : W → W → AlphaBetaFilter W → AlphaBetaFilter W
  reset position velocity f = record f {
    position = position;
    velocity = velocity;
    last_timestamp_ns = 0;
  }

module _ {W : Type 0} ⦃d : Double W⦄ where
  open d use {dec, le, add, sub, mul, div}

  -- The members' initial values.
  abbrev pub initial : AlphaBetaFilter W
  initial = record {
    config = none;
    params = record { alpha = dec 85 2; beta = dec 5 3 };
    position = nought;
    velocity = nought;
    last_timestamp_ns = 0;
  }

  -- The prediction and the correction that both overloads of `update` make.
  unfoldable pub step : W → W → AlphaBetaFilter W → AlphaBetaFilter W
  step measurement dt f =
      let prediction = add f.position (mul f.velocity dt) in
      let residual = sub measurement prediction in
      record f {
        position = add prediction (mul f.params.alpha residual);
        velocity = add f.velocity (mul (div f.params.beta dt) residual);
      }

  module _ (seconds : Duration → W) where
    -- `update(measurement)`
    unfoldable pub update : W → AlphaBetaFilter W → AlphaBetaFilter W × W
    unfolding step dt_seconds
    update measurement f =
        let f' = step measurement (dt_seconds seconds f.config) f in (f', f'.position)

    -- `update(measurement, timestamp_ns)`
    unfoldable pub update_at : W → ℕ → AlphaBetaFilter W → AlphaBetaFilter W × W
    unfolding step dt_seconds stamped_step
    update_at measurement timestamp_ns f =
        let default_dt = dt_seconds seconds f.config in
        let dt = stamped_step default_dt f.last_timestamp_ns timestamp_ns in
        let f' =
          step measurement (if le dt nought then default_dt else dt)
            (record f { last_timestamp_ns = timestamp_ns }) in
        (f', f'.position)

    -- At the first time stamp, and at one that is not later than the last, the overload with time stamps
    -- does what the one without does.
    pub update_at-update :
        (measurement : W) (timestamp_ns : ℕ) (f : AlphaBetaFilter W)
        → (ltb 0 f.last_timestamp_ns && ltb f.last_timestamp_ns timestamp_ns) ≡ false
        → let (f', position) = update measurement f in
          update_at measurement timestamp_ns f
          ≡ (record f' { last_timestamp_ns = timestamp_ns }, position)
    unfolding update update_at stamped_step step
    update_at-update measurement timestamp_ns f h =
        elim (Bool-cases (le (dt_seconds seconds f.config) nought)) [
          | inl e ↦ rw (h, e) refl
          | inr e ↦ rw (h, e) refl
        ]
