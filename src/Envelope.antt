-- ===== src/Envelope.antt =====
-- include/safety_core/safety/safety_envelope.hpp: the stopping distance and the zones of an obstacle.
pub mod Zones
use safety_autonomy_core.Common.{ℕ, Bool, true, false, not, ◌&&◌, if◌then◌else◌}
use safety_autonomy_core.Common.Double.{Double, nought, fmax}
use safety_autonomy_core.Config.Types.{MotionEnvelopeConfig}

pub data SafetyZone : Type 0 where
  clear warning protective emergency : SafetyZone

pub record RobotFootprint (W : Type 0) : Type 0 where
  pub length_m : W
  pub width_m : W
  pub front_overhang_m : W

pub record EnvelopeEvaluation (W : Type 0) : Type 0 where
  pub within_envelope : Bool
  pub zone : SafetyZone
  pub stopping_distance : W
  pub required_clearance : W
  pub recommended_speed_limit_mps : W

module _ {W : Type 0} ⦃d : Double W⦄ where
  open d use {dec, infinity, lt, le, add, sub, mul, div, sqrt}

  -- The clearance that `evaluate_stop_distance` computes as `required`.
  unfoldable pub required_of : W → W → W → W → W
  required_of current_speed max_decel control_latency buffer =
      let speed = fmax nought current_speed in
      let decel = fmax nought max_decel in
      let latency = fmax nought control_latency in
      let braking =
        if lt nought decel then div (mul speed speed) (mul (dec 2 0) decel) else infinity in
      add (add (mul speed latency) braking) buffer

  -- The zone and the recommended speed, from the required clearance.
  unfoldable pub zone_of : W → W → W → W → W → SafetyZone × W
  zone_of distance required speed decel buffer =
      if lt distance buffer
      then (SafetyZone.emergency, nought)
      else if not (le required distance)
      then (SafetyZone.protective, nought)
      else if lt distance (mul required (dec 15 1))
      then (
        SafetyZone.warning,
        let available = sub distance buffer in
            if lt nought decel && lt nought available
            then sqrt (mul (mul (mul (dec 2 0) decel) available) (dec 7 1))
            else nought,
      )
      else (SafetyZone.clear, speed)

  -- The evaluation, from the required clearance and the limits that are not negative.
  unfoldable pub evaluation_of : W → W → W → W → W → EnvelopeEvaluation W
  evaluation_of distance required speed decel buffer =
      let (zone, limit) = zone_of distance required speed decel buffer in
      record {
        within_envelope = le required distance;
        zone = zone;
        stopping_distance = required;
        required_clearance = required;
        recommended_speed_limit_mps = limit;
      }

  -- `evaluate_stop_distance`
  unfoldable pub evaluate_stop_distance : W → W → W → W → W → EnvelopeEvaluation W
  evaluate_stop_distance distance current_speed max_decel control_latency buffer =
      evaluation_of distance (required_of current_speed max_decel control_latency buffer)
        (fmax nought current_speed) (fmax nought max_decel) buffer

  -- The overload at a configured envelope.
  unfoldable pub evaluate_in_envelope : W → W → MotionEnvelopeConfig W → EnvelopeEvaluation W
  evaluate_in_envelope distance current_speed e =
      evaluate_stop_distance distance current_speed e.max_comfort_decel_mps2 e.control_latency_s
        e.safety_buffer_m

  -- The overload with a footprint.
  unfoldable pub evaluate_with_footprint :
      W → W → MotionEnvelopeConfig W → RobotFootprint W → EnvelopeEvaluation W
  evaluate_with_footprint distance current_speed e footprint =
      evaluate_stop_distance (sub distance footprint.front_overhang_m) current_speed
        e.max_comfort_decel_mps2 e.control_latency_s e.safety_buffer_m
