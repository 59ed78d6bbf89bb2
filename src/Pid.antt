-- ===== src/Pid.antt =====
-- include/safety_core/control/safety_pid.hpp, src/control/safety_pid.cpp: the speed controller. The
-- configuration behind its pointer is an optional one.
pub mod Limits
pub mod Forgotten
use safety_autonomy_core.Common.{
  ℕ, Bool, true, false, not, ◌&&◌, ◌||◌, List, ◌++◌, Option, none, some, if◌then◌else◌,
}
use safety_autonomy_core.Common.Int.{ℤ, pos, ◌-ℤ◌, leb_ℤ, eqb_ℤ}
use safety_autonomy_core.Common.Double.{Double, nought, clamp}
use safety_autonomy_core.Common.Printf.{codes, snprintf}
use safety_autonomy_core.Time.{Duration, TimePoint}
use safety_autonomy_core.Result.{Result, ok_result, fault_result}
use safety_autonomy_core.Ports.{World, Readings, stamp_of, publish_event}
use safety_autonomy_core.Diag.Topics
use safety_autonomy_core.Config.Types.{SystemConfig}

pub record PidGains (W : Type 0) : Type 0 where
  pub kp : W
  pub ki : W
  pub kd : W
  pub max_integral : W

pub record SafetyPidController (W : Type 0) : Type 0 where
  pub clock : Bool
  pub config : Option (SystemConfig W)
  pub diag_transport : Bool
  pub gains : PidGains W
  pub integral : W
  pub prev_error : W
  pub last_output : W
  pub first_update : Bool
  pub last_update : TimePoint
  pub last_localization_update : TimePoint

-- `localization_valid`
unfoldable pub localization_valid : {W : Type 0} → SafetyPidController W → TimePoint → Bool
localization_valid c stamp = elim c.config [
  | none ↦ true
  | some cfg ↦
      eqb_ℤ cfg.timing.localization_timeout (pos 0)
      || leb_ℤ (stamp -ℤ c.last_localization_update) cfg.timing.localization_timeout
]

-- `mark_localization_update`
pub mark_localization_update :
    {W : Type 0} → TimePoint → SafetyPidController W → SafetyPidController W
mark_localization_update stamp c = record c { last_localization_update = stamp }

-- `set_gains`
pub set_gains : {W : Type 0} → PidGains W → SafetyPidController W → SafetyPidController W
set_gains gains c = record c { gains = gains }

module _ {W : Type 0} ⦃d : Double W⦄ where
  open d use {dec, lt, le, is_finite, add, sub, mul, div, neg, abs}

  -- `reset`, at the time that the clock shows.
  unfoldable pub reset : TimePoint → SafetyPidController W → SafetyPidController W
  reset now_tp c = record c {
    integral = nought;
    prev_error = nought;
    last_output = nought;
    first_update = true;
    last_update = now_tp;
  }

  -- `apply_config`
  unfoldable pub apply_config :
      Readings → SystemConfig W → SafetyPidController W → SafetyPidController W × Result
  apply_config r cfg c = (
    reset (stamp_of c.clock r) (record c { config = some cfg }),
    if le cfg.envelope.max_speed_mps nought || le cfg.envelope.max_accel_mps2 nought
        then fault_result "invalid motion envelope config"
        else ok_result,
  )

  -- `clamp_speed`
  unfoldable pub clamp_speed : SafetyPidController W → W → W
  clamp_speed c value = elim c.config [
    | none ↦ value
    | some cfg ↦
        let limit = cfg.envelope.max_speed_mps in
        if le limit nought then value else clamp value (neg limit) limit
  ]

  -- `clamp_accel`
  unfoldable pub clamp_accel : SafetyPidController W → W → W → W
  clamp_accel c desired dt = elim c.config [
    | none ↦ desired
    | some cfg ↦
        let max_delta = mul cfg.envelope.max_accel_mps2 dt in
        let delta = sub desired c.last_output in
        let limited =
          (if lt max_delta delta
            then add c.last_output max_delta
            else if lt delta (neg max_delta)
            then sub c.last_output max_delta
            else desired) in
        if le cfg.envelope.max_accel_mps2 nought || le dt nought
        then desired
        else clamp_speed c limited
  ]

  module _ (seconds : Duration → W) where
    -- The step that the configuration sets, or 0.1 s; `seconds` is the conversion of `<chrono>`.
    unfoldable pub configured_dt : SafetyPidController W → W
    configured_dt c = elim c.config [
      | none ↦ dec 1 1
      | some cfg ↦
          if lt nought (seconds cfg.timing.control_period)
          then seconds cfg.timing.control_period
          else dec 1 1
    ]

    -- The time step of `compute`.
    unfoldable pub time_step : SafetyPidController W → TimePoint → W
    time_step c now_tp =
        let elapsed = seconds (now_tp -ℤ c.last_update) in
        if not c.first_update && lt (dec 1 6) elapsed then elapsed else configured_dt c

    -- The control law of `compute`: the output and the integral behind it.
    unfoldable pub control : SafetyPidController W → W → W → W → W × W
    control c setpoint measurement dt =
        let error = sub setpoint measurement in
        let sum = add c.integral (mul error dt) in
        let max_integral = c.gains.max_integral in
        let integral =
          (if lt nought max_integral then clamp sum (neg max_integral) max_integral else sum) in
        let derivative =
          (if not c.first_update && lt nought dt
            then div (sub error c.prev_error) dt
            else nought) in
        let wanted = clamp_speed c (
          add (add (mul c.gains.kp error) (mul c.gains.ki integral)) (mul c.gains.kd derivative)) in
        let output = clamp_accel c wanted dt in
        let excess = sub wanted output in
        let is_zero = le c.gains.ki nought && le nought c.gains.ki in
        (
          output,
          if lt (dec 1 9) (abs excess) && not is_zero
              then sub integral (div excess c.gains.ki)
              else integral,
        )

    -- `compute(setpoint, measurement)`
    unfoldable pub compute :
        Readings → W → W → SafetyPidController W → World → SafetyPidController W × World × W
    compute r setpoint measurement c w =
        let now_tp = stamp_of c.clock r in
        let dt = time_step c now_tp in
        let (output, integral) = control c setpoint measurement dt in
        if not (localization_valid c now_tp)
        then (
          record (reset now_tp c) { last_localization_update = now_tp },
          publish_event c.diag_transport c.clock r Topics.pid_localization_stale
              (snprintf 96 (codes "setpoint=" ++ d.print setpoint)) w,
          nought,
        )
        else (
          record c {
            integral = integral;
            prev_error = sub setpoint measurement;
            last_output = output;
            last_update = now_tp;
            first_update = false;
          },
          publish_event c.diag_transport c.clock r Topics.pid_output
              (snprintf 160 (
                codes "setpoint="
                ++ (d.print setpoint
                    ++ (codes " measurement="
                        ++ (d.print measurement ++ (codes " output=" ++ d.print output))))))
              w,
          output,
        )

    -- `compute(setpoint, measurement, ff_velocity, ff_acceleration)`
    unfoldable pub compute_forward :
        Readings → W → W → W → W → SafetyPidController W → World → SafetyPidController W × World × W
    compute_forward r setpoint measurement ff_velocity ff_acceleration c w =
        let (c', w', pid_output) = compute r setpoint measurement c w in
        let output =
          clamp_speed c'
            (add (add pid_output ff_velocity) (mul ff_acceleration (configured_dt c'))) in
        if not (is_finite ff_velocity) || not (is_finite ff_acceleration)
        then (c', w', pid_output)
        else (record c' { last_output = output }, w', output)
