-- ===== src/Executor/Slots.antt =====
-- The slots of include/safety_core/exec/task_executor.hpp: what `add_task` needs and keeps.
use safety_autonomy_core.Common.{
  ℕ, ◌+◌, ◌≤◌, ◌<◌, ◌≡◌, ◌⊎◌, true, false, List, [], ◌∷◌, Option, some, none, arith, All, ltb,
  if◌then◌else◌, length,
}
use safety_autonomy_core.Common.Int.{
  pos, ◌+ℤ◌, ◌≤ℤ◌, ◌<ℤ◌, int_laws, -ℤ_parts, +ℤ_parts, eqb_ℤ, leb_ℤ, ltb_ℤ, ◌-ℤ◌,
}
use safety_autonomy_core.Time.{Duration, TimePoint, max_time}
use safety_autonomy_core.Result.{Result, is_ok}
use safety_autonomy_core.Ports.{World, Readings, stamp_of}
use safety_autonomy_core.Executor.{TaskSlot, TaskExecutor, add_loop, add_task}

-- A used slot has a positive period and a release time in range.
abbrev pub IsSound : TaskSlot → Type 0
IsSound slot = (slot.used ≡ false) ⊎ ((pos 0 <ℤ slot.period) × (slot.next_release ≤ℤ max_time))

-- A release that passes the overflow check stays in range after one more period.
pub release_fits :
    (period : Duration) (t : TimePoint)
    → ltb_ℤ (max_time -ℤ period) t ≡ false
    → t +ℤ period ≤ℤ max_time
release_fits period t h = omega int_laws

release_check :
    (period : Duration) (t : TimePoint)
    → t +ℤ period ≤ℤ max_time
    → ltb_ℤ (max_time -ℤ period) t ≡ false
release_check period t h = ground (arith, -ℤ_parts max_time period, +ℤ_parts t period)

add_loop-IsSound :
    (x : TaskExecutor) (r : Readings) (fn context : ℕ) (period : Duration) (k : ℕ)
    (slots : List TaskSlot) (w : World)
    → All IsSound slots
    → All IsSound (add_loop x r fn context period k slots w).0
unfolding add_loop
add_loop-IsSound x r fn context period k [] w s = tt
add_loop-IsSound x r fn context period k (slot ∷ slots) w (s, ss) = ground (
  arith,
  add_loop-IsSound x r fn context period (k + 1) slots w ss,
  release_fits period (stamp_of x.clock r),
)

-- Where every used slot has a positive period and a release time in range, that is still so after
-- `add_task`, whether it succeeds or not.
pub add_task-IsSound :
    (x : TaskExecutor) (r : Readings) (fn : Option ℕ) (context : ℕ) (period : Duration) (w : World)
    → All IsSound x.tasks
    → All IsSound (add_task x r fn context period w).0.tasks
unfolding add_task
add_task-IsSound x r none context period w s = s
add_task-IsSound x r (some fn) context period w s =
    let use_period = (if eqb_ℤ period (pos 0) then x.default_period else period) in
    ground (arith, add_loop-IsSound x r fn context use_period 0 x.tasks w s)

abbrev pub used_count : List TaskSlot → ℕ
used_count [] = 0
used_count (slot ∷ slots) = (if slot.used then 1 else 0) + used_count slots

-- A slot was free and is now used, or all slots were used and none changed.
abbrev pub IsAdded : List TaskSlot → List TaskSlot × World × Result → Type 0
IsAdded slots out =
    ((is_ok out.2 ≡ true)
      × (used_count slots < length slots)
      × (used_count out.0 ≡ used_count slots + 1)
      × (length out.0 ≡ length slots))
    ⊎ ((is_ok out.2 ≡ false) × (used_count slots ≡ length slots) × (out.0 ≡ slots))

used_count-le-length : (slots : List TaskSlot) → used_count slots ≤ length slots
used_count-le-length [] = omega arith
used_count-le-length (slot ∷ slots) = ground (arith, used_count-le-length slots)

add_loop-IsAdded :
    (x : TaskExecutor) (r : Readings) (fn context : ℕ) (period : Duration) (k : ℕ)
    (slots : List TaskSlot) (w : World)
    → leb_ℤ period (pos 0) ≡ false
    → ltb_ℤ (max_time -ℤ period) (stamp_of x.clock r) ≡ false
    → IsAdded slots (add_loop x r fn context period k slots w)
unfolding add_loop
add_loop-IsAdded x r fn context period k [] w p f = ground arith
add_loop-IsAdded x r fn context period k (slot ∷ slots) w p f =
    ground (
      arith,
      add_loop-IsAdded x r fn context period (k + 1) slots w p f,
      used_count-le-length slots,
    )

-- With a callback, a positive period, a release time in range and no more tasks configured than there
-- are slots, `add_task` succeeds exactly when some slot of the executor's capacity is free, and uses one more slot; if all are used it fails and
-- changes no slot. The configured number of tasks itself makes no difference.
pub add_task-IsAdded :
    (x : TaskExecutor) (r : Readings) (fn context : ℕ) (period : Duration) (w : World)
    → pos 0 <ℤ period
    → stamp_of x.clock r +ℤ period ≤ℤ max_time
    → x.max_tasks ≤ length x.tasks
    → let out = add_task x r (some fn) context period w in
      IsAdded x.tasks (out.0.tasks, out.1, out.2)
unfolding add_task
add_task-IsAdded x r fn context period w p f m =
    let nonzero : eqb_ℤ period (pos 0) ≡ false = ground arith in
    let fits : ltb (length x.tasks) x.max_tasks ≡ false = ground arith in
    simp (nonzero, fits)
      (add_loop-IsAdded x r fn context period 0 x.tasks w (ground arith) (release_check period _ f))
