-- ===== src/Time.antt =====
-- include/safety_core/common/time.hpp: durations and time points in nanoseconds, deadlines and the
-- budget tracker. The steady clock is an argument: the time that `now()` returns.
use safety_autonomy_core.Common.{Bool, if◌then◌else◌}
use safety_autonomy_core.Common.Int.{ℤ, pos, ◌-ℤ◌, leb_ℤ}

abbrev pub Duration : Type 0
Duration = ℤ

abbrev pub TimePoint : Type 0
TimePoint = ℤ

-- `TimePoint::max()`
abbrev pub max_time : TimePoint
max_time = pos 9_223_372_036_854_775_807

pub record Deadline : Type 0 where
  pub due : TimePoint

-- `Deadline::expired`
pub expired : Deadline → TimePoint → Bool
expired d t = leb_ℤ d.due t

pub record BudgetTracker : Type 0 where
  pub budget : Duration
  pub start : TimePoint

-- The constructor and `restart`.
pub start_budget : Duration → TimePoint → BudgetTracker
start_budget budget now = record { budget = budget; start = now }

unfoldable pub elapsed : BudgetTracker → TimePoint → Duration
elapsed b now = now -ℤ b.start

unfoldable pub within_budget : BudgetTracker → TimePoint → Bool
unfolding elapsed
within_budget b now = leb_ℤ (elapsed b now) b.budget

unfoldable pub remaining : BudgetTracker → TimePoint → Duration
unfolding elapsed
remaining b now =
    let used = elapsed b now in if leb_ℤ b.budget used then pos 0 else b.budget -ℤ used
