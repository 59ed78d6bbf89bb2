-- ===== src/Config/Validation.antt =====
-- include/safety_core/config/validation.hpp, src/config/validation.cpp
use safety_autonomy_core.Common.{
  ℕ, ◌≡◌, ◌⊎◌, ◌↔◌, ◌^◌, ◌≤◌, Bool, true, false, not, ◌&&◌, ◌||◌, String, arith, ◌==◌, ltb,
  if◌then◌else◌,
}
use safety_autonomy_core.Common.Double.{Double, nought}
use safety_autonomy_core.Common.Double.Laws.{◌≼◌, ◌≺◌, IsOrdered, literal_refl}
use safety_autonomy_core.Common.Int.{pos, leb_ℤ, ltb_ℤ, ◌≤ℤ◌}
use safety_autonomy_core.Config.Types.{
  SystemConfig, TimingConfig, MotionEnvelopeConfig, current_version,
}

pub data ValidationPolicy : Type 0 where
  strict allow_warnings : ValidationPolicy

pub record ValidationResult : Type 0 where
  pub ok : Bool
  pub warning : Bool
  pub message : String

abbrev success : ValidationResult
success = record { ok = true; warning = false; message = "" }

abbrev warning_result : String → ValidationResult
warning_result msg = record { ok = true; warning = true; message = msg }

abbrev error : String → ValidationResult
error msg = record { ok = false; warning = false; message = msg }

abbrev is_strict : ValidationPolicy → Bool
is_strict ValidationPolicy.strict = true
is_strict ValidationPolicy.allow_warnings = false

abbrev min_control_period_ns : ℕ
min_control_period_ns = 1000000

pub record IsSafeTiming (t : TimingConfig) : Type 0 where
  pub period : pos min_control_period_ns ≤ℤ t.control_period
  pub watchdog : t.control_period ≤ℤ t.watchdog_period
  pub localization : pos 1 ≤ℤ t.localization_timeout

module _ {W : Type 0} ⦃d : Double W⦄ where
  open d use {dec, lt, le, is_finite}

  -- `a == b` on doubles.
  abbrev pub equals : W → W → Bool
  equals a b = le a b && le b a

  -- The checks of the motion envelope, from the finiteness test on.
  unfoldable pub validate_envelope : MotionEnvelopeConfig W → ValidationPolicy → ValidationResult
  validate_envelope e policy =
      if not (is_finite e.max_speed_mps)
        || not (is_finite e.max_accel_mps2)
        || not (is_finite e.max_comfort_decel_mps2)
        || not (is_finite e.control_latency_s)
        || not (is_finite e.safety_buffer_m)
      then error "motion envelope values must be finite"
      else if le e.max_speed_mps nought
          || le e.max_accel_mps2 nought
          || le e.max_comfort_decel_mps2 nought
      then error "motion envelope values must be positive"
      else if lt (dec 100 0) e.max_speed_mps
      then error "max_speed_mps exceeds safe maximum (100 m/s)"
      else if lt (dec 50 0) e.max_accel_mps2
      then error "max_accel_mps2 exceeds safe maximum (50 m/s²)"
      else if lt e.control_latency_s nought
      then error "control latency cannot be negative"
      else if lt (dec 1 0) e.control_latency_s
      then error "control latency exceeds safe maximum (1.0s)"
      else if lt e.safety_buffer_m nought
      then error "safety buffer cannot be negative"
      else if lt (dec 100 0) e.safety_buffer_m
      then error "safety buffer exceeds safe maximum (100m)"
      else if equals e.safety_buffer_m nought
      then if is_strict policy
        then error "safety buffer must be > 0 in strict mode"
        else warning_result "safety buffer is 0; allowed by warning policy"
      else success

  -- `config::validate`
  unfoldable pub validate : SystemConfig W → ValidationPolicy → ValidationResult
  validate cfg policy =
      if not (cfg.config_version == current_version)
      then error "config_version must match current schema version"
      else if cfg.max_tasks == 0
      then error "max_tasks must be non-zero"
      else if ltb 100 cfg.max_tasks
      then error "max_tasks exceeds safe maximum (100)"
      else if leb_ℤ cfg.timing.control_period (pos 0)
      then error "control_period must be positive"
      else if ltb_ℤ cfg.timing.control_period (pos min_control_period_ns)
      then error "control_period too small (minimum 1ms)"
      else if ltb_ℤ cfg.timing.watchdog_period cfg.timing.control_period
      then error "watchdog_period must be >= control_period"
      else if leb_ℤ cfg.timing.localization_timeout (pos 0)
      then error "localization_timeout must be positive"
      else validate_envelope cfg.envelope policy

  -- What a validated envelope promises.
  pub record IsSafeEnvelope (e : MotionEnvelopeConfig W) : Type 0 where
    pub speed : (nought ≺ e.max_speed_mps) × (e.max_speed_mps ≼ dec 100 0)
    pub accel : (nought ≺ e.max_accel_mps2) × (e.max_accel_mps2 ≼ dec 50 0)
    pub decel : nought ≺ e.max_comfort_decel_mps2
    pub latency : (nought ≼ e.control_latency_s) × (e.control_latency_s ≼ dec 1 0)
    pub buffer : (nought ≼ e.safety_buffer_m) × (e.safety_buffer_m ≼ dec 100 0)

  -- What a validated configuration promises.
  abbrev pub IsSafeConfig : SystemConfig W → Type 0
  IsSafeConfig cfg =
      (cfg.config_version ≡ current_version)
      × (1 ≤ cfg.max_tasks)
      × (cfg.max_tasks ≤ 100)
      × IsSafeTiming cfg.timing
      × IsSafeEnvelope cfg.envelope

  -- The two policies compared.
  abbrev pub ArePolicies : SystemConfig W → Type 0
  ArePolicies cfg =
      let strict = validate cfg ValidationPolicy.strict in
      let lax = validate cfg ValidationPolicy.allow_warnings in
      (strict.warning ≡ false)
      × ((lax.ok ≡ true) ↔ (
          (strict.ok ≡ true)
          ⊎ ((lax.warning ≡ true) × (equals cfg.envelope.safety_buffer_m nought ≡ true))))
      × ((strict.ok ≡ true) ↔ ((lax.ok ≡ true) × (lax.warning ≡ false)))

  module _ (laws : IsOrdered W) where
    open laws use {lt-eq-not-le, refl_of_finite, literal_finite}

    positive : (x : W) → is_finite x ≡ true → le x nought ≡ false → nought ≺ x
    positive x f h =
        ground
          (arith, lt-eq-not-le nought x (literal_refl laws 0 0 (omega arith)) (refl_of_finite x f))

    at_most : (x y : W) → is_finite x ≡ true → y ≼ y → lt y x ≡ false → x ≼ y
    at_most x y f hy h = ground (arith, lt-eq-not-le y x hy (refl_of_finite x f))

    at_least : (x : W) → is_finite x ≡ true → lt x nought ≡ false → nought ≼ x
    at_least x f h =
        ground
          (arith, lt-eq-not-le x nought (refl_of_finite x f) (literal_refl laws 0 0 (omega arith)))

    -- The checks that an accepted envelope has passed.
    envelope_checks :
        (e : MotionEnvelopeConfig W) (policy : ValidationPolicy)
        → (validate_envelope e policy).ok ≡ true
        → ((is_finite e.max_speed_mps ≡ true)
            × (is_finite e.max_accel_mps2 ≡ true)
            × (is_finite e.max_comfort_decel_mps2 ≡ true)
            × (is_finite e.control_latency_s ≡ true)
            × (is_finite e.safety_buffer_m ≡ true))
          × ((le e.max_speed_mps nought ≡ false)
              × (le e.max_accel_mps2 nought ≡ false)
              × (le e.max_comfort_decel_mps2 nought ≡ false))
          × ((lt (dec 100 0) e.max_speed_mps ≡ false) × (lt (dec 50 0) e.max_accel_mps2 ≡ false))
          × ((lt e.control_latency_s nought ≡ false) × (lt (dec 1 0) e.control_latency_s ≡ false))
          × ((lt e.safety_buffer_m nought ≡ false) × (lt (dec 100 0) e.safety_buffer_m ≡ false))
    unfolding validate_envelope
    envelope_checks e policy h = ground arith

    validate_envelope-IsSafeEnvelope :
        (e : MotionEnvelopeConfig W) (policy : ValidationPolicy)
        → (validate_envelope e policy).ok ≡ true
        → IsSafeEnvelope e
    validate_envelope-IsSafeEnvelope e policy h =
        let (f, p, s, l, b) = envelope_checks e policy h in
        let limit = λ (m : ℕ) (small : m ≤ 10 ^ 17). literal_refl laws m 0 small in
        record {
          speed = (positive _ f.0 p.0, at_most _ _ f.0 (limit 100 (omega arith)) s.0);
          accel = (positive _ f.1 p.1, at_most _ _ f.1 (limit 50 (omega arith)) s.1);
          decel = positive _ f.2 p.2;
          latency = (at_least _ f.3 l.0, at_most _ _ f.3 (limit 1 (omega arith)) l.1);
          buffer = (at_least _ f.4 b.0, at_most _ _ f.4 (limit 100 (omega arith)) b.1);
        }

    validate_timing :
        (cfg : SystemConfig W) (policy : ValidationPolicy)
        → (validate cfg policy).ok ≡ true
        → (cfg.config_version ≡ current_version)
          × (1 ≤ cfg.max_tasks)
          × (cfg.max_tasks ≤ 100)
          × IsSafeTiming cfg.timing
          × ((validate_envelope cfg.envelope policy).ok ≡ true)
    unfolding validate
    validate_timing cfg policy h = ground arith

    -- A configuration that validation accepts, under either policy, has the current version, 1 to 100
    -- tasks, a control period of at least 1 ms and no longer than the watchdog period, a positive
    -- localization timeout, positive limits of at most 100 m/s and 50 m/s², a latency of 0 to 1 s and
    -- a buffer of 0 to 100 m.
    pub validate-IsSafe :
        (cfg : SystemConfig W) (policy : ValidationPolicy)
        → (validate cfg policy).ok ≡ true
        → IsSafeConfig cfg
    validate-IsSafe cfg policy h =
        let (v, t, t', timing, e) = validate_timing cfg policy h in
        (v, t, t', timing, validate_envelope-IsSafeEnvelope cfg.envelope policy e)

  -- Strict validation never accepts with a warning, and what it accepts the other policy accepts;
  -- the other policy accepts more exactly where the buffer equals 0, and then it warns.
  pub validate_policies : (cfg : SystemConfig W) → ArePolicies cfg
  unfolding validate validate_envelope
  validate_policies cfg = ground arith
