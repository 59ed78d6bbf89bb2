-- ===== src/Ports.antt =====
-- What the components call behind their pointers: the health monitor, the diagnostic transport and
-- the clocks. The objects are kept as the calls that they received, the latest first; a pointer is
-- kept as whether it is set.
use safety_autonomy_core.Common.{ℕ, String, Bool, List, ◌∷◌, if◌then◌else◌}
use safety_autonomy_core.Time.{TimePoint}
use safety_autonomy_core.Diag.Event.{DiagnosticEvent, make_event}

-- `enum class Mode`
pub data Mode : Type 0 where
  init idle moving degraded avoiding_obstacle localization_lost docking safe_stop : Mode

-- The calls of `diag::HealthMonitor`.
pub data Notice : Type 0 where
  on_mode_transition : Mode → Mode → Notice
  on_fault_latched : ℕ → Notice

pub record World : Type 0 where
  pub notices : List Notice
  pub published : List DiagnosticEvent

-- What the clocks show during an operation.
pub record Readings : Type 0 where
  pub steady : TimePoint  -- `time::now()`
  pub injected : TimePoint  -- `clock_->now()`

-- `(clock_ != nullptr) ? clock_->now() : time::now()`
abbrev pub stamp_of : Bool → Readings → TimePoint
stamp_of clock r = if clock then r.injected else r.steady

-- The `publish_event` helper that each component has: nothing without a transport.
unfoldable pub publish_event : Bool → Bool → Readings → String → List ℕ → World → World
publish_event transport clock r topic payload w =
    if transport
    then record w { published = make_event topic payload (stamp_of clock r) ∷ w.published }
    else w

unfoldable pub notify : Bool → Notice → World → World
notify monitor n w = if monitor then record w { notices = n ∷ w.notices } else w
