-- ===== src/Filters.antt =====
-- src/filters/, include/safety_core/filters/: the estimators, and the time step that they share. The
-- configuration behind the pointer is an optional one; `seconds` is the conversion of `<chrono>`.
pub mod Ekf
pub mod AlphaBeta
pub mod Complementary
use safety_autonomy_core.Common.{
  ℕ, ◌-◌, Bool, true, false, ◌&&◌, Option, none, some, ltb, if◌then◌else◌,
}
use safety_autonomy_core.Common.Int.{pos, ltb_ℤ}
use safety_autonomy_core.Common.Double.{Double}
use safety_autonomy_core.Time.{Duration}
use safety_autonomy_core.Config.Types.{SystemConfig}

module _ {W : Type 0} ⦃d : Double W⦄ where
  open d use {dec, mul, of_nat}

  -- `dt_seconds`
  unfoldable pub dt_seconds : (Duration → W) → Option (SystemConfig W) → W
  dt_seconds seconds config = elim config [
    | none ↦ dec 1 1
    | some cfg ↦
        if ltb_ℤ (pos 0) cfg.timing.control_period
        then seconds cfg.timing.control_period
        else dec 1 1
  ]

  -- The step between two time stamps where both are known, else `dt`.
  unfoldable pub stamped_step : W → ℕ → ℕ → W
  stamped_step dt last_timestamp_ns timestamp_ns =
      if ltb 0 last_timestamp_ns && ltb last_timestamp_ns timestamp_ns
      then mul (of_nat (timestamp_ns - last_timestamp_ns)) (dec 1 9)
      else dt
