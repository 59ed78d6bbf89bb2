-- ===== src/Tests/Machine.antt =====
-- The mode machine at concrete states and interleavings.
use safety_autonomy_core.Common.{
  ◌≡◌, ◌≢◌, refl, true, false, List, [], ◌∷◌, arith, ◌==◌, if◌then◌else◌,
}
use safety_autonomy_core.Ports.{idle, moving, safe_stop, Readings}
use safety_autonomy_core.StateMachine.{
  ModeStateMachine, Command, run, transition_to, recover_localization, allowed, new_machine,
}
use safety_autonomy_core.StateMachine.Invariant.{
  IsSafe, IsTransition, transition_to_failures, transition_to_lem, run-IsSafe, run-safe_stop,
}
use safety_autonomy_core.StateMachine.Race.{Pc, Threads, interleave}
use safety_autonomy_core.StateMachine.Race.Safety.{
  IsStopped, AllHarmless, interleave-IsStopped, race_leaves_safe_stop, race_schedule, race_start,
}
use safety_autonomy_core.Tests.Data.{quiet, at_five, driving, stopped}

abbrev fresh : ModeStateMachine
fresh = new_machine true true false

-- Drive off, lose a sensor, try to go on, clear, and drive again.
abbrev drive : List (Readings × Command)
drive =
    (at_five, Command.transition 0 idle)
    ∷ (at_five, Command.transition 2 moving)
    ∷ (at_five, Command.latch 42)
    ∷ (at_five, Command.transition 0 moving)
    ∷ (at_five, Command.clear)
    ∷ []

-- The same without the clearing.
abbrev push_on : List (Readings × Command)
push_on =
    (at_five, Command.transition 1 moving)
    ∷ (at_five, Command.recover 3)
    ∷ (at_five, Command.hold)
    ∷ []

fresh-IsSafe : IsSafe fresh
fresh-IsSafe = record { stopped = λ h. ground arith; code_of_fault = λ h. refl }

run-IsSafe_example : IsSafe (run drive fresh quiet).0
run-IsSafe_example = run-IsSafe drive fresh quiet fresh-IsSafe

run-safe_stop_example : (run push_on stopped quiet).0.mode ≡ safe_stop
run-safe_stop_example = run-safe_stop push_on stopped quiet refl (refl, (refl, (refl, tt)))

transition_to_lem_example :
    IsTransition idle driving quiet (transition_to 2 at_five idle driving quiet)
transition_to_lem_example = transition_to_lem 2 at_five idle driving quiet

transition_to_failures_example :
    (transition_to 3 at_five safe_stop driving quiet
      ≡ transition_to 0 at_five safe_stop driving quiet)
    × (recover_localization 3 driving quiet ≡ recover_localization 0 driving quiet)
transition_to_failures_example = transition_to_failures 3 at_five safe_stop driving quiet

-- A stopped machine with a thread at the start of each operation but `clear_fault`.
abbrev three_threads : Threads
three_threads = record {
  shared = record { mode = safe_stop; latched = true };
  pc = λ i.
      if i == 0
      then Pc.load_latched moving
      else if i == 1
      then Pc.store_latched
      else Pc.recover_load;
}

three_threads-AllHarmless : AllHarmless three_threads
three_threads-AllHarmless i = ground arith

interleave-IsStopped_example :
    IsStopped
      (interleave ((0, false) ∷ (2, false) ∷ (1, true) ∷ (1, false) ∷ []) three_threads).shared
interleave-IsStopped_example =
    interleave-IsStopped ((0, false) ∷ (2, false) ∷ (1, true) ∷ (1, false) ∷ []) three_threads
      (refl, refl) three_threads-AllHarmless

idle_allows_moving : allowed idle moving ≡ true
unfolding allowed
idle_allows_moving = refl

race_leaves_safe_stop_example :
    let s = interleave race_schedule (race_start idle moving) in
    (s.shared.latched ≡ true)
    × (s.shared.mode ≡ moving)
    × (s.shared.mode ≢ safe_stop)
    × (s.pc 0 ≡ Pc.done true)
race_leaves_safe_stop_example =
    race_leaves_safe_stop idle moving idle_allows_moving (λ e. ground arith)
