-- ===== src/StateMachine.antt =====
-- include/safety_core/state_machine/state_machine.hpp, src/state_machine/state_machine.cpp: the
-- machine with its operations as one thread runs them. A compare-and-swap may fail spuriously: the
-- number of such failures is an argument. What other threads may do in between is in `Race`.
pub mod Invariant
pub mod Race
use safety_autonomy_core.Common.{
  ℕ, zero, suc, Bool, true, false, not, ◌&&◌, ◌||◌, List, [], ◌∷◌, ◌++◌, ◌==◌, if◌then◌else◌,
}
use safety_autonomy_core.Common.Printf.{codes, print_unsigned, snprintf}
use safety_autonomy_core.Result.{Result, ok_result, fault_result, invalid_state_result}
use safety_autonomy_core.Ports.{
  Mode, init, idle, moving, degraded, avoiding_obstacle, localization_lost, docking, safe_stop,
  Notice, World, Readings, publish_event, notify,
}
use safety_autonomy_core.Diag.Topics

-- The values of `enum class Mode : std::uint8_t`.
abbrev pub mode_number : Mode → ℕ
mode_number init = 0
mode_number idle = 1
mode_number moving = 2
mode_number degraded = 3
mode_number avoiding_obstacle = 4
mode_number localization_lost = 5
mode_number docking = 6
mode_number safe_stop = 7

abbrev pub mode_eq : Mode → Mode → Bool
mode_eq a b = mode_number a == mode_number b

pub record ModeStateMachine : Type 0 where
  pub mode : Mode
  pub latched_fault : Bool
  pub fault_code : ℕ
  pub monitor : Bool
  pub diag_transport : Bool
  pub clock : Bool

-- The constructors and the setters of the three pointers.
abbrev pub new_machine : Bool → Bool → Bool → ModeStateMachine
new_machine monitor transport clock = record {
  mode = init;
  latched_fault = false;
  fault_code = 0;
  monitor = monitor;
  diag_transport = transport;
  clock = clock;
}

-- The `switch` of `allowed`, reached when the target is another mode.
allowed_from : Mode → Mode → Bool
allowed_from init t = mode_eq t idle || mode_eq t safe_stop
allowed_from idle t =
    mode_eq t moving || mode_eq t degraded || mode_eq t safe_stop || mode_eq t docking
allowed_from moving t =
    mode_eq t degraded
    || mode_eq t avoiding_obstacle
    || mode_eq t localization_lost
    || mode_eq t safe_stop
    || mode_eq t docking
allowed_from degraded t =
    mode_eq t moving
    || mode_eq t avoiding_obstacle
    || mode_eq t localization_lost
    || mode_eq t safe_stop
    || mode_eq t docking
allowed_from avoiding_obstacle t = mode_eq t moving || mode_eq t degraded || mode_eq t safe_stop
allowed_from localization_lost t = mode_eq t degraded || mode_eq t idle || mode_eq t safe_stop
allowed_from docking t = mode_eq t idle || mode_eq t safe_stop
allowed_from safe_stop t = mode_eq t safe_stop

-- `ModeStateMachine::allowed`, at the mode that it loads.
unfoldable pub allowed : Mode → Mode → Bool
unfolding allowed_from
allowed current target = if mode_eq current target then true else allowed_from current target

unfoldable pub notify_transition : ModeStateMachine → Readings → Mode → Mode → World → World
notify_transition m r from to w =
    if mode_eq from to
    then w
    else publish_event m.diag_transport m.clock r Topics.mode_transition
        (snprintf 64 (
          codes "from="
          ++ print_unsigned (mode_number from)
          ++ codes " to="
          ++ print_unsigned (mode_number to)))
        (notify m.monitor (Notice.on_mode_transition from to) w)

unfoldable pub notify_fault : ModeStateMachine → Readings → ℕ → World → World
notify_fault m r fault_code w =
    publish_event m.diag_transport m.clock r Topics.fault_latched
      (snprintf 48 (codes "code=" ++ print_unsigned fault_code))
      (notify m.monitor (Notice.on_fault_latched fault_code) w)

abbrev pub Outcome : Type 0
Outcome = ModeStateMachine × World × Result

-- The compare-and-swap loop of `transition_to`, from the mode `prev` that was loaded.
unfoldable pub transition_loop : ℕ → Readings → Mode → Mode → ModeStateMachine → World → Outcome
transition_loop zero r prev target m w =
    (record m { mode = target }, notify_transition m r prev target w, ok_result)
transition_loop (suc failures) r prev target m w =
    let again = transition_loop failures r m.mode target m w in
    if not (allowed m.mode target)
    then (m, w, invalid_state_result "transition not allowed")
    else if mode_eq m.mode target
    then (m, w, ok_result)
    else again

unfoldable pub transition_to : ℕ → Readings → Mode → ModeStateMachine → World → Outcome
unfolding transition_loop
transition_to failures r target m w =
    if m.latched_fault && not (mode_eq target safe_stop)
    then (m, w, invalid_state_result "fault latched; only SafeStop allowed")
    else if not (allowed m.mode target)
    then (m, w, invalid_state_result "transition not allowed")
    else transition_loop failures r m.mode target m w

unfoldable pub latch_fault : Readings → ℕ → ModeStateMachine → World → Outcome
latch_fault r fault_code m w =
    let m' = record m { latched_fault = true; fault_code = fault_code; mode = safe_stop } in
    (m', notify_fault m' r fault_code w, fault_result "fault latched")

-- A failed compare-and-swap is tried again, so the failures change nothing here.
unfoldable pub clear_fault : Readings → ModeStateMachine → World → Outcome
clear_fault r m w =
    if not m.latched_fault
    then (m, w, invalid_state_result "no fault latched")
    else let m' = record m { latched_fault = false; fault_code = 0; mode = idle } in
      (m', notify_transition m' r m.mode idle w, ok_result)

unfoldable pub request_obstacle_hold : ℕ → Readings → ModeStateMachine → World → Outcome
request_obstacle_hold failures r = transition_to failures r avoiding_obstacle

unfoldable pub report_localization_lost : ℕ → Readings → ModeStateMachine → World → Outcome
report_localization_lost failures r = transition_to failures r localization_lost

-- The compare-and-swap of `recover_localization`, with the mode re-read after each failure.
unfoldable pub recover_loop : ℕ → ModeStateMachine → World → Outcome
recover_loop zero m w = (record m { mode = degraded }, w, ok_result)
recover_loop (suc failures) m w =
    let again = recover_loop failures m w in
    if not (mode_eq m.mode localization_lost)
    then (m, w, invalid_state_result "state changed during recovery")
    else again

unfoldable pub recover_localization : ℕ → ModeStateMachine → World → Outcome
unfolding recover_loop
recover_localization failures m w =
    if not (mode_eq m.mode localization_lost)
    then (m, w, invalid_state_result "not in LocalizationLost")
    else recover_loop failures m w

-- The public operations that change the machine.
pub data Command : Type 0 where
  transition : ℕ → Mode → Command
  latch : ℕ → Command
  clear hold lost : Command
  recover : ℕ → Command

unfoldable pub apply : Readings → Command → ModeStateMachine → World → Outcome
apply r (Command.transition failures target) = transition_to failures r target
apply r (Command.latch code) = latch_fault r code
apply r Command.clear = clear_fault r
apply r Command.hold = request_obstacle_hold 0 r
apply r Command.lost = report_localization_lost 0 r
apply r (Command.recover failures) = recover_localization failures

-- A run of operations.
pub run : List (Readings × Command) → ModeStateMachine → World → ModeStateMachine × World
run [] m w = (m, w)
run ((r, c) ∷ cs) m w = let (m', w', res) = apply r c m w in run cs m' w'
