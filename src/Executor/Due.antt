-- ===== src/Executor/Due.antt =====
-- include/safety_core/exec/task_executor.hpp: `run_due`, with the loops over the slots and their releases.
use safety_autonomy_core.Common.{
  ℕ, zero, suc, ◌+◌, Bool, not, ◌&&◌, ◌||◌, String, List, [], ◌∷◌, ◌++◌, Option, none, some, leb,
  if◌then◌else◌,
}
use safety_autonomy_core.Common.Int.{pos, ◌+ℤ◌, ◌-ℤ◌, leb_ℤ, ltb_ℤ}
use safety_autonomy_core.Common.Printf.{codes, print_signed, print_unsigned, snprintf}
use safety_autonomy_core.Time.{TimePoint, max_time}
use safety_autonomy_core.Result.{
  Result, StatusCode, is_ok, ok_result, fault_result, deadline_miss_result,
}
use safety_autonomy_core.Ports.{World, stamp_of}
use safety_autonomy_core.Diag.Topics
use safety_autonomy_core.Executor.{is_single_step, TaskSlot, TaskExecutor, Host, publish}

-- How the loop over the releases of one slot ends.
pub data LoopEnd : Type 0 where
  returned : Result → LoopEnd
  finished : LoopEnd
  out_of_fuel : LoopEnd

-- The checks before a release is run: the early return, with its event, if one fails.
unfoldable pub release_error :
    TaskExecutor → TimePoint → TaskSlot → Option (String × List ℕ × Result)
release_error x now_tp slot =
    if leb_ℤ slot.period (pos 0)
    then some (
      Topics.executor_task_error,
      codes "reason=invalid_period_runtime",
      fault_result "task period must be positive",
    )
    else if ltb_ℤ (max_time -ℤ slot.period) slot.next_release
    then some (
      Topics.executor_task_error,
      codes "reason=deadline_overflow",
      fault_result "task deadline overflow",
    )
    else if ltb_ℤ (pos 0) x.watchdog_period && ltb_ℤ x.watchdog_period (now_tp -ℤ slot.next_release)
    then some (
      Topics.executor_watchdog_exceeded,
      snprintf 64 (codes "lag_ns=" ++ print_signed (now_tp -ℤ slot.next_release)),
      deadline_miss_result "watchdog window exceeded",
    )
    else none

abbrev pub is_due : TimePoint → TaskSlot → Bool
is_due now_tp slot = slot.used && leb_ℤ slot.next_release now_tp

-- `static_cast<int>` of a status code.
abbrev code_number : StatusCode → ℕ
code_number StatusCode.ok = 0
code_number StatusCode.invalid_state = 1
code_number StatusCode.deadline_miss = 2
code_number StatusCode.fault = 3

module _ {E : Type 0} (h : Host E) where
  abbrev pub Round : Type 0
  Round = record { slot : TaskSlot; env : E; world : World; end : Option LoopEnd }

  abbrev advance : TaskSlot → TaskSlot
  advance slot = record slot { next_release = slot.next_release +ℤ slot.period }

  -- What follows the call of the task, from the state `e` and the result that it returned, as the
  -- run of the given count.
  unfoldable pub after_call : TaskExecutor → TimePoint → ℕ → TaskSlot → E → Result → World → Round
  after_call x now_tp run_count slot e res w =
      let r = h.readings e in
      let deadline = slot.next_release +ℤ slot.period in
      let slot' = advance slot in
      let limited =
        (if not (is_single_step x.catch_up_policy) && leb_ℤ slot'.next_release now_tp
          then publish x r Topics.executor_catch_up_limited
              (snprintf 88
                (codes "remaining_lag_ns=" ++ print_signed (now_tp -ℤ slot'.next_release)))
              w
          else w) in
      if ltb_ℤ (max_time -ℤ slot.period) slot.next_release
      then record {
        slot = slot;
        env = e;
        world = publish x r Topics.executor_task_error (codes "reason=next_release_overflow") w;
        end = some (LoopEnd.returned (fault_result "task release progression overflow"));
      }
      else if not (is_ok res)
      then record {
        slot = slot';
        env = e;
        world =
            publish x r Topics.executor_task_error
              (snprintf 40 (codes "code=" ++ print_unsigned (code_number res.code))) w;
        end = some (LoopEnd.returned res);
      }
      else if ltb_ℤ deadline (stamp_of x.clock r)
      then record {
        slot = slot';
        env = e;
        world =
            publish x r Topics.executor_deadline_miss
              (snprintf 80 (codes "deadline_ns=" ++ print_signed deadline)) w;
        end = some (LoopEnd.returned (deadline_miss_result "task overran deadline"));
      }
      else if is_single_step x.catch_up_policy || leb x.catch_up_limit run_count
      then record { slot = slot'; env = e; world = limited; end = some LoopEnd.finished }
      else record { slot = slot'; env = e; world = w; end = none }

  -- One round of the `while` loop, after `run_count` runs; `none` for the end is another round.
  unfoldable pub round : TaskExecutor → TimePoint → ℕ → TaskSlot → E → World → Round
  round x now_tp run_count slot e w =
      let (e', res) = h.call slot.fn slot.context slot.next_release e in
      let called = after_call x now_tp (run_count + 1) slot e' res w in
      if ltb_ℤ now_tp slot.next_release
      then record { slot = slot; env = e; world = w; end = some LoopEnd.finished }
      else elim (release_error x now_tp slot) [
        | none ↦ called
        | some (topic, payload, failed) ↦ record {
          slot = slot;
          env = e;
          world = publish x (h.readings e) topic payload w;
          end = some (LoopEnd.returned failed);
        }
      ]

  abbrev pub Ran : Type 0
  Ran = record { slot : TaskSlot; env : E; world : World; end : LoopEnd }

  -- The `while` loop of one slot.
  unfoldable pub run_releases : ℕ → TaskExecutor → TimePoint → ℕ → TaskSlot → E → World → Ran
  run_releases zero x now_tp run_count slot e w = record {
    slot = slot;
    env = e;
    world = w;
    end = LoopEnd.out_of_fuel;
  }
  run_releases (suc fuel) x now_tp run_count slot e w =
      let one = round x now_tp run_count slot e w in
      elim one.end [
        | none ↦ run_releases fuel x now_tp (run_count + 1) one.slot one.env one.world
        | some end ↦ record { slot = one.slot; env = one.env; world = one.world; end = end }
      ]

  -- The event after the loop of a slot.
  unfoldable pub publish_run : TaskExecutor → TaskSlot → E → World → World
  publish_run x slot e w =
      publish x (h.readings e) Topics.executor_task_run
        (snprintf 88 (codes "next_release_ns=" ++ print_signed slot.next_release)) w

  abbrev pub RanAll : Type 0
  RanAll = record { slots : List TaskSlot; env : E; world : World; end : LoopEnd }

  abbrev pub keep : TaskSlot → RanAll → RanAll
  keep slot r = record { slots = slot ∷ r.slots; env = r.env; world = r.world; end = r.end }

  -- The loop of `run_due` over the slots; the rounds of one slot are at most the catch-up limit.
  unfoldable pub run_slots : TaskExecutor → TimePoint → List TaskSlot → E → World → RanAll
  run_slots x now_tp [] e w = record { slots = []; env = e; world = w; end = LoopEnd.finished }
  run_slots x now_tp (slot ∷ slots) e w =
      let skipped = keep slot (run_slots x now_tp slots e w) in
      let ran = run_releases x.catch_up_limit x now_tp 0 slot e w in
      let stopped : RanAll = record {
        slots = ran.slot ∷ slots;
        env = ran.env;
        world = ran.world;
        end = ran.end;
      } in
      let next =
        keep ran.slot
          (run_slots x now_tp slots ran.env (publish_run x ran.slot ran.env ran.world)) in
      if is_due now_tp slot
      then (elim ran.end [ LoopEnd.finished ↦ next | _ ↦ stopped ])
      else skipped

  abbrev result_of : LoopEnd → Option Result
  result_of (LoopEnd.returned r) = some r
  result_of LoopEnd.finished = some ok_result
  result_of LoopEnd.out_of_fuel = none

  -- `run_due`; the result is `none` if the rounds did not suffice.
  unfoldable pub run_due :
      TaskExecutor → TimePoint → E → World → TaskExecutor × E × World × Option Result
  run_due x now_tp e w =
      let all = run_slots x now_tp x.tasks e w in
      (record x { tasks = all.slots }, all.env, all.world, result_of all.end)
