-- ===== src/Filters/Ekf.antt =====
-- src/filters/bounded_ekf_filter.cpp and its header: the bounded position and velocity estimator.
-- The calls of the public interface are `Call`; `run` is a sequence of them.
pub mod Bounds
pub mod Runs
pub mod Health
use safety_autonomy_core.Common.{
  ℕ, ◌+◌, Bool, true, false, not, ◌&&◌, ◌||◌, Option, none, some, List, [], ◌∷◌, ltb, if◌then◌else◌,
}
use safety_autonomy_core.Common.Words.{u64}
use safety_autonomy_core.Common.Double.{Double, nought, fmax, clamp}
use safety_autonomy_core.Time.{Duration}
use safety_autonomy_core.Config.Types.{SystemConfig}
use safety_autonomy_core.Filters.{dt_seconds, stamped_step}

pub record BoundedEkfParams (W : Type 0) : Type 0 where
  pub process_noise_position : W
  pub process_noise_velocity : W
  pub measurement_noise : W
  pub max_abs_position : W
  pub max_abs_velocity : W
  pub min_variance : W
  pub max_variance : W
  pub innovation_gate_sigma : W

pub record Covariance (W : Type 0) : Type 0 where
  pub p00 : W
  pub p01 : W
  pub p10 : W
  pub p11 : W

pub record BoundedEkfFilter (W : Type 0) : Type 0 where
  pub config : Option (SystemConfig W)
  pub params : BoundedEkfParams W
  pub x : W
  pub v : W
  pub p : Covariance W
  pub healthy : Bool
  pub last_timestamp_ns : ℕ
  pub rejected_count : ℕ

-- `apply_config`
pub apply_config : {W : Type 0} → SystemConfig W → BoundedEkfFilter W → BoundedEkfFilter W
apply_config cfg f = record f { config = some cfg }

module _ {W : Type 0} ⦃d : Double W⦄ where
  open d use {dec, lt, le, is_finite, add, sub, mul, div, neg}

  -- The members' initial values.
  abbrev pub default_params : BoundedEkfParams W
  default_params = record {
    process_noise_position = dec 1 3;
    process_noise_velocity = dec 1 2;
    measurement_noise = dec 1 2;
    max_abs_position = dec 1000 0;
    max_abs_velocity = dec 100 0;
    min_variance = dec 1 9;
    max_variance = dec 1000000 0;
    innovation_gate_sigma = dec 5 0;
  }

  abbrev pub initial : BoundedEkfFilter W
  initial = record {
    config = none;
    params = default_params;
    x = nought;
    v = nought;
    p = record { p00 = dec 1 0; p01 = nought; p10 = nought; p11 = dec 1 0 };
    healthy = true;
    last_timestamp_ns = 0;
    rejected_count = 0;
  }

  -- `clamp_position` and `clamp_velocity`, with the parameter that they read.
  unfoldable pub clamp_finite : W → W → W
  clamp_finite max_abs value =
      let bound = fmax nought max_abs in
      if not (is_finite value) then nought else clamp value (neg bound) bound

  unfoldable pub clamp_position : BoundedEkfParams W → W → W
  unfolding clamp_finite
  clamp_position params value = clamp_finite params.max_abs_position value

  unfoldable pub clamp_velocity : BoundedEkfParams W → W → W
  unfolding clamp_finite
  clamp_velocity params value = clamp_finite params.max_abs_velocity value

  unfoldable pub min_v : BoundedEkfParams W → W
  min_v params = fmax params.min_variance nought

  unfoldable pub max_v : BoundedEkfParams W → W
  unfolding min_v
  max_v params = fmax params.max_variance (min_v params)

  -- `clamp_covariance`
  unfoldable pub clamp_covariance : BoundedEkfParams W → Covariance W → Covariance W
  unfolding max_v
  clamp_covariance params p =
      let lo = min_v params in
      let hi = max_v params in
      record {
        p00 = clamp (if not (is_finite p.p00) then hi else p.p00) lo hi;
        p01 = clamp (if not (is_finite p.p01) then nought else p.p01) (neg hi) hi;
        p10 = clamp (if not (is_finite p.p10) then nought else p.p10) (neg hi) hi;
        p11 = clamp (if not (is_finite p.p11) then hi else p.p11) lo hi;
      }

  -- The end of `set_params`, `predict` and the correction: everything is clamped again.
  unfoldable pub clamp_state : BoundedEkfFilter W → BoundedEkfFilter W
  unfolding clamp_position clamp_velocity clamp_covariance
  clamp_state f = record f {
    x = clamp_position f.params f.x;
    v = clamp_velocity f.params f.v;
    p = clamp_covariance f.params f.p;
  }

  -- The two conditions of `set_params`.
  unfoldable pub all_finite : BoundedEkfParams W → Bool
  all_finite q =
      is_finite q.process_noise_position
      && (is_finite q.process_noise_velocity
          && (is_finite q.measurement_noise
              && (is_finite q.max_abs_position
                  && (is_finite q.max_abs_velocity
                      && (is_finite q.min_variance
                          && (is_finite q.max_variance && is_finite q.innovation_gate_sigma))))))

  unfoldable pub out_of_range : BoundedEkfParams W → Bool
  out_of_range q =
      lt q.min_variance nought
      || (lt q.max_variance q.min_variance
          || (lt q.max_abs_position nought
              || (lt q.max_abs_velocity nought || lt q.innovation_gate_sigma nought)))

  -- `set_params`
  unfoldable pub set_params : BoundedEkfParams W → BoundedEkfFilter W → BoundedEkfFilter W
  unfolding clamp_state all_finite out_of_range
  set_params params f =
      if not (all_finite params)
      then f
      else if out_of_range params
      then f
      else clamp_state (record f { params = params })

  -- `reset`
  unfoldable pub reset : W → W → BoundedEkfFilter W → BoundedEkfFilter W
  unfolding clamp_position clamp_velocity clamp_covariance
  reset position velocity f = record f {
    x = clamp_position f.params position;
    v = clamp_velocity f.params velocity;
    p =
        clamp_covariance f.params
          (record { p00 = dec 1 0; p01 = nought; p10 = nought; p11 = dec 1 0 });
    healthy = true;
    last_timestamp_ns = 0;
    rejected_count = 0;
  }

  -- `predict`
  unfoldable pub predict : W → W → BoundedEkfFilter W → BoundedEkfFilter W
  unfolding clamp_state
  predict accel dt f =
      let q_pos = fmax f.params.process_noise_position f.params.min_variance in
      let q_vel = fmax f.params.process_noise_velocity f.params.min_variance in
      clamp_state (record f {
        x = add f.x (add (mul f.v dt) (mul (mul (mul (dec 5 1) accel) dt) dt));
        v = add f.v (mul accel dt);
        p = record {
          p00 =
              add (add (add f.p.p00 (mul dt (add f.p.p10 f.p.p01))) (mul (mul dt dt) f.p.p11))
                q_pos;
          p01 = add f.p.p01 (mul dt f.p.p11);
          p10 = add f.p.p10 (mul dt f.p.p11);
          p11 = add f.p.p11 q_vel;
        };
      })

  -- `innovation_gate`
  unfoldable pub innovation_gate : BoundedEkfParams W → W → W → Bool
  innovation_gate params innovation s =
      let sigma = params.innovation_gate_sigma in
      if le sigma nought then true else le (div (mul innovation innovation) s) (mul sigma sigma)

  -- The variance of the innovation, and the test that gives it up.
  unfoldable pub innovation_variance : BoundedEkfFilter W → W
  innovation_variance f = add f.p.p00 (fmax f.params.measurement_noise f.params.min_variance)

  unfoldable pub bad_variance : BoundedEkfFilter W → Bool
  unfolding innovation_variance
  bad_variance f =
      not (is_finite (innovation_variance f))
      || (not (is_finite f.params.min_variance) || le (innovation_variance f) f.params.min_variance)

  -- The gain applied to the state and its covariance, and the clamps behind it.
  unfoldable pub apply_gain : W → W → BoundedEkfFilter W → BoundedEkfFilter W
  unfolding clamp_state
  apply_gain innovation s f =
      let k0 = div f.p.p00 s in
      let k1 = div f.p.p10 s in
      clamp_state (record f {
        x = add f.x (mul k0 innovation);
        v = add f.v (mul k1 innovation);
        p = record {
          p00 = mul (sub (dec 1 0) k0) f.p.p00;
          p01 = mul (sub (dec 1 0) k0) f.p.p01;
          p10 = sub f.p.p10 (mul k1 f.p.p00);
          p11 = sub f.p.p11 (mul k1 f.p.p01);
        };
      })

  -- What both overloads of `update` do behind `predict`.
  unfoldable pub correct : W → BoundedEkfFilter W → BoundedEkfFilter W × Bool
  unfolding bad_variance innovation_gate apply_gain
  correct measurement f =
      let s = innovation_variance f in
      let innovation = sub measurement f.x in
      let g = apply_gain innovation s f in
      let healthy = is_finite g.x && is_finite g.v in
      if bad_variance f
      then (record f { healthy = false }, false)
      else if not (innovation_gate f.params innovation s)
      then (record f { rejected_count = u64 (f.rejected_count + 1) }, f.healthy)
      else (record g { healthy = healthy }, healthy)

  module _ (seconds : Duration → W) where
    -- `update(position_measurement, assumed_accel_mps2)`
    unfoldable pub update : W → W → BoundedEkfFilter W → BoundedEkfFilter W × Bool
    unfolding correct predict dt_seconds
    update measurement accel f =
        if not (is_finite measurement) || not (is_finite accel)
        then (record f { healthy = false }, false)
        else correct measurement (predict accel (dt_seconds seconds f.config) f)

    -- `update(position_measurement, assumed_accel_mps2, timestamp_ns)`
    unfoldable pub update_at : W → W → ℕ → BoundedEkfFilter W → BoundedEkfFilter W × Bool
    unfolding correct predict dt_seconds stamped_step
    update_at measurement accel timestamp_ns f =
        let expected_dt = dt_seconds seconds f.config in
        let dt = stamped_step expected_dt f.last_timestamp_ns timestamp_ns in
        let f' = record f { last_timestamp_ns = timestamp_ns } in
        if not (is_finite measurement) || not (is_finite accel)
        then (record f { healthy = false }, false)
        else if lt (mul expected_dt (dec 10 0)) dt
        then (f', f.healthy)
        else correct measurement (predict accel dt f')

-- A call of the public interface.
pub data Call (W : Type 0) : Type 0 where
  on_config : SystemConfig W → Call W
  on_params : BoundedEkfParams W → Call W
  on_reset : W → W → Call W
  on_update : W → W → Call W
  on_update_at : W → W → ℕ → Call W

module _ {W : Type 0} ⦃d : Double W⦄ (seconds : Duration → W) where
  unfoldable pub call : Call W → BoundedEkfFilter W → BoundedEkfFilter W
  unfolding set_params reset update update_at
  call (on_config cfg) f = apply_config cfg f
  call (on_params params) f = set_params params f
  call (on_reset position velocity) f = reset position velocity f
  call (on_update measurement accel) f = (update seconds measurement accel f).0
  call (on_update_at measurement accel timestamp_ns) f =
      (update_at seconds measurement accel timestamp_ns f).0

  unfoldable pub run : List (Call W) → BoundedEkfFilter W → BoundedEkfFilter W
  unfolding call
  run [] f = f
  run (c ∷ calls) f = run calls (call c f)
