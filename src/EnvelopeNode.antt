-- ===== src/EnvelopeNode.antt =====
-- ros2/src/safety_core_ros/src/safety_envelope_node.cpp and its header: the evaluation of laser scans. A
-- scan is what the node reads of it, its single-precision fields as doubles; `sin` and `cos` are those
-- of `<cmath>`. The headers of the messages, the markers and the logs are left out.
pub mod Nearest
pub mod Standing
use safety_autonomy_core.Common.{
  ℕ, ◌+◌, Bool, true, false, not, ◌&&◌, ◌||◌, List, [], ◌∷◌, Option, none, some, ◌==◌,
  if◌then◌else◌,
}
use safety_autonomy_core.Common.Int.{pos}
use safety_autonomy_core.Common.Double.{Double, nought, fmax, fmin}
use safety_autonomy_core.Config.Types.{MotionEnvelopeConfig, SystemConfig, current_version}
use safety_autonomy_core.Config.Validation.{ValidationPolicy, validate}
use safety_autonomy_core.Envelope.{
  SafetyZone, RobotFootprint, EnvelopeEvaluation, evaluate_with_footprint,
}
use safety_autonomy_core.Envelope.Zones.{zone_number}

pub record LaserScan (W : Type 0) : Type 0 where
  pub ranges : List W
  pub angle_min : W
  pub angle_increment : W
  pub range_max : W

-- What the parameters of the node set.
pub record Params (W : Type 0) : Type 0 where
  pub envelope : MotionEnvelopeConfig W
  pub dynamic_buffer_enabled : Bool
  pub velocity_factor : W
  pub min_buffer_m : W
  pub footprint : RobotFootprint W
  pub corridor_half_width_m : W
  pub scan_min_valid_range_m : W
  pub scan_ignore_min_range_m : W
  pub startup_grace_period_s : W

pub record SafetyEnvelopeNode (W : Type 0) : Type 0 where
  pub config : SystemConfig W
  pub params : Params W
  pub latest_speed_mps : W

pub record EnvelopeStatus (W : Type 0) : Type 0 where
  pub distance_to_obstacle_m : W
  pub current_speed_mps : W
  pub within_envelope : Bool
  pub zone : ℕ
  pub stopping_distance_m : W
  pub required_clearance_m : W
  pub recommended_speed_limit_mps : W
  pub footprint : RobotFootprint W

-- `on_odom`
pub on_odom : {W : Type 0} → W → SafetyEnvelopeNode W → SafetyEnvelopeNode W
on_odom speed n = record n { latest_speed_mps = speed }

module _ {W : Type 0} ⦃d : Double W⦄ where
  open d use {dec, infinity, lt, le, is_finite, add, mul, abs, neg, of_nat}

  -- `load_config_from_params`: the configuration that it validates, and `none` where it throws.
  unfoldable pub config_of : Params W → SystemConfig W
  config_of p = record {
    timing = record {
      control_period = pos 50000000;
      watchdog_period = pos 100000000;
      localization_timeout = pos 500000000;
    };
    envelope = p.envelope;
    max_tasks = 10;
    config_version = current_version;
  }

  unfoldable pub create : Params W → Option (SafetyEnvelopeNode W)
  unfolding config_of
  create p =
      if not (validate (config_of p) ValidationPolicy.strict).ok
      then none
      else some (record { config = config_of p; params = p; latest_speed_mps = nought })

  -- `is_scan_point_valid`
  unfoldable pub is_scan_point_valid : W → W → W → Bool
  is_scan_point_valid range min_range max_range =
      is_finite range && (le min_range range && le range max_range)

  -- `is_point_in_forward_corridor`
  unfoldable pub is_point_in_forward_corridor : W → W → W → Bool
  is_point_in_forward_corridor x y corridor_sq = lt nought x && le (mul y y) corridor_sq

  module _ (sin cos : W → W) where
    -- The distance ahead of one return, where it is not skipped.
    unfoldable pub point_ahead : Params W → LaserScan W → ℕ → W → Option W
    unfolding is_scan_point_valid is_point_in_forward_corridor
    point_ahead p scan i r =
        let corridor = add (mul p.footprint.width_m (dec 5 1)) p.corridor_half_width_m in
        let angle = add scan.angle_min (mul (of_nat i) scan.angle_increment) in
        let x = mul r (cos angle) in
        let y = mul r (sin angle) in
        if not (is_scan_point_valid r p.scan_min_valid_range_m scan.range_max)
        then none
        else if not (is_point_in_forward_corridor x y (mul corridor corridor))
        then none
        else if lt x p.scan_ignore_min_range_m
        then none
        else some x

    -- The loop of `nearest_obstacle_in_footprint_corridor`.
    unfoldable pub nearest_from : Params W → LaserScan W → ℕ → List W → W → W
    unfolding point_ahead
    nearest_from p scan i [] min_d = min_d
    nearest_from p scan i (r ∷ ranges) min_d =
        nearest_from p scan (i + 1) ranges
          (elim (point_ahead p scan i r) [ none ↦ min_d | some x ↦ fmin x min_d ])

    -- `nearest_obstacle_in_footprint_corridor`
    unfoldable pub nearest_obstacle : Params W → LaserScan W → W
    unfolding nearest_from
    nearest_obstacle p scan = nearest_from p scan 0 scan.ranges infinity

  -- The buffer of `publish_envelope`.
  unfoldable pub dynamic_buffer : SafetyEnvelopeNode W → W → W
  dynamic_buffer n speed_mps =
      let p = n.params in
      let buffer = n.config.envelope.safety_buffer_m in
      if p.dynamic_buffer_enabled
      then fmin (add p.min_buffer_m (mul p.velocity_factor (abs speed_mps))) (mul buffer (dec 2 0))
      else buffer

  -- The speed that the node falls back to: the current one, at most half the maximum.
  unfoldable pub cautious_speed : SafetyEnvelopeNode W → W → W
  cautious_speed n speed_mps = fmin speed_mps (mul n.config.envelope.max_speed_mps (dec 5 1))

  -- The evaluation that `publish_envelope` publishes for a distance, outside and inside the grace period.
  unfoldable pub modified_evaluation : Bool → W → W → SafetyEnvelopeNode W → EnvelopeEvaluation W
  unfolding dynamic_buffer cautious_speed
  modified_evaluation in_grace_period distance_m speed_mps n =
      let eval =
        evaluate_with_footprint distance_m speed_mps
          (record n.config.envelope { safety_buffer_m = dynamic_buffer n speed_mps })
          n.params.footprint in
      if in_grace_period && zone_number eval.zone == 3
      then record eval {
        zone = SafetyZone.warning;
        recommended_speed_limit_mps = cautious_speed n speed_mps;
      }
      else eval

  -- `publish_envelope`, at the seconds since the start: the status that it publishes.
  unfoldable pub publish_envelope : W → W → W → SafetyEnvelopeNode W → EnvelopeStatus W
  unfolding modified_evaluation
  publish_envelope elapsed_s distance_m speed_mps n =
      let in_grace_period = lt elapsed_s n.params.startup_grace_period_s in
      let buffer = dynamic_buffer n speed_mps in
      let eval = modified_evaluation in_grace_period distance_m speed_mps n in
      if not (is_finite distance_m) || lt distance_m nought
      then record {
        distance_to_obstacle_m = neg (dec 1 0);
        current_speed_mps = speed_mps;
        within_envelope = in_grace_period;
        zone =
            if in_grace_period
            then zone_number SafetyZone.clear
            else zone_number SafetyZone.warning;
        stopping_distance_m = buffer;
        required_clearance_m = buffer;
        recommended_speed_limit_mps =
            if in_grace_period then n.config.envelope.max_speed_mps else cautious_speed n speed_mps;
        footprint = n.params.footprint;
      }
      else record {
        distance_to_obstacle_m = if is_finite distance_m then distance_m else neg (dec 1 0);
        current_speed_mps = speed_mps;
        within_envelope = eval.within_envelope;
        zone = zone_number eval.zone;
        stopping_distance_m = eval.stopping_distance;
        required_clearance_m = eval.required_clearance;
        recommended_speed_limit_mps = eval.recommended_speed_limit_mps;
        footprint = n.params.footprint;
      }

  -- `on_scan`
  unfoldable pub on_scan :
      (W → W) → (W → W) → W → LaserScan W → SafetyEnvelopeNode W → EnvelopeStatus W
  on_scan sin cos elapsed_s scan n =
      publish_envelope elapsed_s (nearest_obstacle sin cos n.params scan)
        (fmax nought n.latest_speed_mps) n
