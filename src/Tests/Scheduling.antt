-- ===== src/Tests/Scheduling.antt =====
-- The executor with two slots, whose callbacks count their calls.
use safety_autonomy_core.Common.{
  ℕ, ◌+◌, ◌≡◌, ◌≢◌, refl, inl, inr, true, false, [], ◌∷◌, some, none, All, arith,
}
use safety_autonomy_core.Common.Int.{pos, ◌+ℤ◌, ◌-ℤ◌}
use safety_autonomy_core.Result.{ok_result}
use safety_autonomy_core.Executor.{CatchUpPolicy, TaskSlot, TaskExecutor, Host, add_task}
use safety_autonomy_core.Executor.Due.{
  LoopEnd, run_slots, run_due, run_releases, round, after_call, release_error,
}
use safety_autonomy_core.Executor.Slots.{IsSound, IsAdded, add_task-IsAdded}
use safety_autonomy_core.Executor.Runs.{AllServed, run_due_total, run_due_served}
use safety_autonomy_core.Tests.Data.{quiet, at_five}

abbrev counting : Host ℕ
counting = record { call = λ fn context t n. (n + 1, ok_result); readings = λ n. at_five }

abbrev free : TaskSlot
free = record { used = false; period = pos 0; next_release = pos 0; fn = 0; context = 0 }

abbrev every_two : TaskSlot
every_two = record { used = true; period = pos 2; next_release = pos 3; fn = 1; context = 9 }

abbrev executor : TaskExecutor
executor = record {
  tasks = every_two ∷ free ∷ [];
  clock = true;
  config = true;
  diag_transport = true;
  max_tasks = 2;
  default_period = pos 2;
  watchdog_period = pos 50;
  catch_up_policy = CatchUpPolicy.bounded_catch_up;
  catch_up_limit = 4;
}

tasks-IsSound : All IsSound executor.tasks
tasks-IsSound = (inr (omega arith, omega arith), (inl refl, tt))

add_task-IsAdded_example :
    let out = add_task executor at_five (some 3) 0 (pos 7) quiet in
    IsAdded executor.tasks (out.0.tasks, out.1, out.2)
unfolding ◌+ℤ◌
add_task-IsAdded_example =
    add_task-IsAdded executor at_five 3 0 (pos 7) quiet (omega arith) (omega arith) (omega arith)

run_due_total_example : (run_due counting executor (pos 5) 0 quiet).3 ≢ none
run_due_total_example = run_due_total counting executor (pos 5) 0 quiet (omega arith)

slots_finish : (run_slots counting executor (pos 5) executor.tasks 0 quiet).end ≡ LoopEnd.finished
unfolding run_slots run_releases round after_call release_error ◌+ℤ◌ ◌-ℤ◌
slots_finish = refl

run_due_served_example :
    let (x', e', w', res) = run_due counting executor (pos 5) 0 quiet in
    AllServed counting executor (pos 5) executor.tasks 0 x'.tasks e' × (res ≡ some ok_result)
run_due_served_example = run_due_served counting executor (pos 5) 0 quiet (omega arith) slots_finish
