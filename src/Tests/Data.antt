-- ===== src/Tests/Data.antt =====
-- Concrete states for the examples.
use safety_autonomy_core.Common.{true, false, []}
use safety_autonomy_core.Common.Int.{pos}
use safety_autonomy_core.Ports.{moving, safe_stop, World, Readings}
use safety_autonomy_core.StateMachine.{ModeStateMachine}

abbrev pub quiet : World
quiet = record { notices = []; published = [] }

abbrev pub at_five : Readings
at_five = record { steady = pos 4; injected = pos 5 }

abbrev pub driving : ModeStateMachine
driving = record {
  mode = moving;
  latched_fault = false;
  fault_code = 0;
  monitor = true;
  diag_transport = true;
  clock = true;
}

abbrev pub stopped : ModeStateMachine
stopped = record driving { mode = safe_stop; latched_fault = true; fault_code = 7 }
