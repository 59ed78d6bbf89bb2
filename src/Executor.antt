-- ===== src/Executor.antt =====
-- include/safety_core/exec/task_executor.hpp: the task executor. The callbacks and the clock belong to
-- a `Host`, whose state each callback may change; a callback does not touch the executor itself. The
-- slots are a list whose length is `MaxTasks`.
pub mod Slots
pub mod Due
pub mod Runs
use safety_autonomy_core.Common.{
  ℕ, zero, suc, ◌+◌, Bool, true, false, not, ◌&&◌, ◌||◌, String, List, [], ◌∷◌, ◌++◌, Option, none,
  some, ◌==◌, ltb, leb, if◌then◌else◌, length,
}
use safety_autonomy_core.Common.Int.{ℤ, pos, ◌+ℤ◌, ◌-ℤ◌, leb_ℤ, ltb_ℤ, eqb_ℤ}
use safety_autonomy_core.Common.Printf.{codes, print_signed, print_unsigned, snprintf}
use safety_autonomy_core.Time.{Duration, TimePoint, max_time}
use safety_autonomy_core.Result.{
  Result, StatusCode, is_ok, ok_result, fault_result, invalid_state_result, deadline_miss_result,
}
use safety_autonomy_core.Ports.{World, Readings, stamp_of, publish_event}
use safety_autonomy_core.Diag.Topics
use safety_autonomy_core.Config.Types.{SystemConfig}

pub data CatchUpPolicy : Type 0 where
  single_step bounded_catch_up : CatchUpPolicy

abbrev pub is_single_step : CatchUpPolicy → Bool
is_single_step CatchUpPolicy.single_step = true
is_single_step CatchUpPolicy.bounded_catch_up = false

pub record TaskSlot : Type 0 where
  pub used : Bool
  pub period : Duration
  pub next_release : TimePoint
  pub fn : ℕ
  pub context : ℕ

pub record TaskExecutor : Type 0 where
  pub tasks : List TaskSlot
  pub clock : Bool
  pub config : Bool
  pub diag_transport : Bool
  pub max_tasks : ℕ
  pub default_period : Duration
  pub watchdog_period : Duration
  pub catch_up_policy : CatchUpPolicy
  pub catch_up_limit : ℕ

-- The world of the callbacks: what a callback at an address does with its context, and what the
-- clocks show in a state.
pub record Host (E : Type 0) : Type 0 where
  pub call : ℕ → ℕ → TimePoint → E → E × Result
  pub readings : E → Readings

-- `set_catch_up_policy`
pub set_catch_up_policy : CatchUpPolicy → ℕ → TaskExecutor → TaskExecutor
set_catch_up_policy policy max_runs x = record x {
  catch_up_policy = policy;
  catch_up_limit = if max_runs == 0 then 1 else max_runs;
}

-- `apply_config`, at the configuration's number of tasks and two of its periods.
unfoldable pub apply_config : {W : Type 0} → SystemConfig W → TaskExecutor → TaskExecutor × Result
apply_config cfg x =
    let configured = record x { config = true } in
    if ltb (length x.tasks) cfg.max_tasks
    then (configured, fault_result "configured max tasks exceeds executor capacity")
    else (
      record configured {
        max_tasks = if ltb (length x.tasks) cfg.max_tasks then length x.tasks else cfg.max_tasks;
        default_period = cfg.timing.control_period;
        watchdog_period = cfg.timing.watchdog_period;
      },
      ok_result,
    )

abbrev pub publish : TaskExecutor → Readings → String → List ℕ → World → World
publish x r = publish_event x.diag_transport x.clock r

-- The loop of `add_task` over the slots, from the number of used ones before.
unfoldable pub add_loop :
    TaskExecutor
    → Readings
    → ℕ
    → ℕ
    → Duration
    → ℕ
    → List TaskSlot
    → World
    → List TaskSlot × World × Result
add_loop x r fn context period used_count [] w = (
  [],
  w,
  if leb x.max_tasks used_count
      then fault_result "task capacity exceeded"
      else fault_result "no task slots available",
)
add_loop x r fn context period used_count (slot ∷ slots) w =
    let (slots', w', res) = add_loop x r fn context period (used_count + 1) slots w in
    let now_tp = stamp_of x.clock r in
    if slot.used
    then (slot ∷ slots', w', res)
    else if leb_ℤ period (pos 0)
    then (
      slot ∷ slots,
      publish x r Topics.executor_task_error (codes "reason=invalid_period") w,
      fault_result "task period must be positive",
    )
    else if ltb_ℤ (max_time -ℤ period) now_tp
    then (
      slot ∷ slots,
      publish x r Topics.executor_task_error (codes "reason=release_time_overflow") w,
      fault_result "task release time overflow",
    )
    else (
      record {
        used = true;
        period = period;
        next_release = now_tp +ℤ period;
        fn = fn;
        context = context;
      }
          ∷ slots,
      publish x r Topics.executor_task_added
          (snprintf 80 (codes "period_ns=" ++ print_signed period)) w,
      ok_result,
    )

-- `add_task`; a null callback is `none`.
unfoldable pub add_task :
    TaskExecutor → Readings → Option ℕ → ℕ → Duration → World → TaskExecutor × World × Result
add_task x r none context period w = (x, w, invalid_state_result "task callback must be non-null")
add_task x r (some fn) context period w =
    let use_period = (if eqb_ℤ period (pos 0) then x.default_period else period) in
    let (slots, w', res) = add_loop x r fn context use_period 0 x.tasks w in
    if eqb_ℤ use_period (pos 0)
    then (x, w, invalid_state_result "task period must be non-zero")
    else if ltb (length x.tasks) x.max_tasks
    then (x, w, fault_result "internal error: max_tasks exceeds capacity")
    else (record x { tasks = slots }, w', res)
