-- ===== src/Tests/Estimating.antt =====
-- The filters over numbers in millionths.
use safety_autonomy_core.Common.{[], ◌∷◌}
use safety_autonomy_core.Common.Double.Micro.{micros, nan, plus_inf, micro_double, Micro-IsOrdered}
use safety_autonomy_core.Filters.Ekf.{
  run, initial, default_params, on_config, on_params, on_reset, on_update, on_update_at,
}
use safety_autonomy_core.Filters.Ekf.Bounds.{IsBounded}
use safety_autonomy_core.Filters.Ekf.Runs.{run-IsBounded}
use safety_autonomy_core.Tests.Configuration.{config}
use safety_autonomy_core.Tests.Steering.{seconds}

run-IsBounded_example : IsBounded (
    run seconds
      (on_config config
        ∷ on_params (record default_params { max_abs_position = micros 50000000 })
        ∷ on_reset nan (micros 1000000)
        ∷ on_update (micros 80000000) plus_inf
        ∷ on_update (micros 80000000) (micros 500000)
        ∷ on_update_at (micros 2000000) (micros 0) 100000000
        ∷ [])
      initial)
run-IsBounded_example = run-IsBounded Micro-IsOrdered seconds (
    on_config config
    ∷ on_params (record default_params { max_abs_position = micros 50000000 })
    ∷ on_reset nan (micros 1000000)
    ∷ on_update (micros 80000000) plus_inf
    ∷ on_update (micros 80000000) (micros 500000)
    ∷ on_update_at (micros 2000000) (micros 0) 100000000
    ∷ [])
