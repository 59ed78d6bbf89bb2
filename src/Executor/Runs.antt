-- ===== src/Executor/Runs.antt =====
-- The runs of include/safety_core/exec/task_executor.hpp: how often `run_due` calls a task, and what
-- becomes of its slot.
use safety_autonomy_core.Common.{
  ℕ, zero, suc, ◌+◌, ◌≤◌, ◌<◌, ◌≡◌, ◌≢◌, ◌⊎◌, ◌∙◌, ap, ap₂, inl, inr, true, false, List, [], ◌∷◌,
  some, none, arith, refl, sym, Option-cases, if_cases, if◌then◌else◌,
}
use safety_autonomy_core.Common.Int.{◌+ℤ◌, ltb_ℤ}
use safety_autonomy_core.Time.{TimePoint}
use safety_autonomy_core.Result.{ok_result}
use safety_autonomy_core.Ports.{World}
use safety_autonomy_core.Executor.{TaskSlot, TaskExecutor, Host, is_single_step}
use safety_autonomy_core.Executor.Due.{
  LoopEnd, Ran, RanAll, keep, after_call, round, release_error, run_releases, run_slots,
  publish_run, run_due, is_due,
}

-- The slot after `n` runs.
abbrev pub advanced : ℕ → TaskSlot → TaskSlot
advanced zero slot = slot
advanced (suc n) slot = advanced n (record slot { next_release = slot.next_release +ℤ slot.period })

-- How often a due slot may run in one call of `run_due`.
abbrev pub run_limit : TaskExecutor → ℕ
run_limit x = if is_single_step x.catch_up_policy then 1 else x.catch_up_limit

module _ {E : Type 0} (h : Host E) where
  -- The state after `n` calls of a slot's task, each for the release that is then next.
  abbrev pub called : ℕ → TaskSlot → E → E
  called zero slot e = e
  called (suc n) slot e =
      called n (advanced 1 slot) (h.call slot.fn slot.context slot.next_release e).0

  -- From `k` runs on, the task was called for each release until the slot was no longer due, or as often
  -- as it may.
  abbrev pub RunsFrom : TaskExecutor → TimePoint → ℕ → TaskSlot → E → TaskSlot → E → Type 0
  RunsFrom x now_tp k slot e slot' e' =
      (n : ℕ) × (slot' ≡ advanced n slot)
      × (e' ≡ called n slot e)
      × (k + n ≤ run_limit x)
      × ((ltb_ℤ now_tp slot'.next_release ≡ true) ⊎ (k + n ≡ run_limit x))

  abbrev pub IsServed : TaskExecutor → TimePoint → TaskSlot → E → TaskSlot → E → Type 0
  IsServed x now_tp slot e slot' e' = RunsFrom x now_tp 0 slot e slot' e'

  -- One slot after the other: if it is used and due it is served, from the state that the earlier ones
  -- left; if not, neither it nor the state changes.
  abbrev pub AllServed : TaskExecutor → TimePoint → List TaskSlot → E → List TaskSlot → E → Type 0
  AllServed x now_tp [] e [] e' = e' ≡ e
  AllServed x now_tp (a ∷ rest) e (b ∷ later) e' =
      (e₁ : E) × (((is_due now_tp a ≡ true) × IsServed x now_tp a e b e₁)
        ⊎ ((is_due now_tp a ≡ false) × (b ≡ a) × (e₁ ≡ e)))
      × AllServed x now_tp rest e₁ later e'
  AllServed x now_tp _ e _ e' = ⊥

  -- Another round follows only below the catch-up limit, and not in single steps.
  round_again :
      (x : TaskExecutor) (now_tp : TimePoint) (k : ℕ) (slot : TaskSlot) (e : E) (w : World)
      → (round h x now_tp k slot e w).end ≡ none
      → (k + 1 < x.catch_up_limit) × (is_single_step x.catch_up_policy ≡ false)
  unfolding round after_call
  round_again x now_tp k slot e w n = ground arith

  -- A round never ends for want of fuel.
  round_end :
      (x : TaskExecutor) (now_tp : TimePoint) (k : ℕ) (slot : TaskSlot) (e : E) (w : World)
      → (round h x now_tp k slot e w).end ≢ some LoopEnd.out_of_fuel
  unfolding round after_call release_error
  round_end x now_tp k slot e w = ground arith

  run_releases_again :
      (fuel : ℕ) (x : TaskExecutor) (now_tp : TimePoint) (k : ℕ) (slot : TaskSlot) (e : E)
      (w : World)
      → let one = round h x now_tp k slot e w in
        one.end ≡ none
        → run_releases h (suc fuel) x now_tp k slot e w
          ≡ run_releases h fuel x now_tp (k + 1) one.slot one.env one.world
  unfolding run_releases
  run_releases_again fuel x now_tp k slot e w n = rw (n, run_releases) refl

  run_releases_stop :
      (fuel : ℕ) (x : TaskExecutor) (now_tp : TimePoint) (k : ℕ) (slot : TaskSlot) (e : E)
      (w : World) (end : LoopEnd)
      → let one = round h x now_tp k slot e w in
        one.end ≡ some end
        → run_releases h (suc fuel) x now_tp k slot e w
          ≡ record { slot = one.slot; env = one.env; world = one.world; end = end }
  unfolding run_releases
  run_releases_stop fuel x now_tp k slot e w end s = rw (s, run_releases) refl

  run_releases_total :
      (fuel : ℕ) (x : TaskExecutor) (now_tp : TimePoint) (k : ℕ) (slot : TaskSlot) (e : E)
      (w : World)
      → x.catch_up_limit ≤ k + fuel
      → 1 ≤ fuel
      → (run_releases h fuel x now_tp k slot e w).end ≢ LoopEnd.out_of_fuel
  run_releases_total zero x now_tp k slot e w l f = elim f [ ]
  run_releases_total (suc fuel) x now_tp k slot e w l f =
      let one = round h x now_tp k slot e w in
      elim (Option-cases one.end) [
        | inl n ↦
            let (below, _) = round_again x now_tp k slot e w n in
            rw (run_releases_again fuel x now_tp k slot e w n) (
              run_releases_total fuel x now_tp (k + 1) one.slot one.env one.world (omega arith)
                (omega arith))
        | inr (end, s) ↦
            rw (run_releases_stop fuel x now_tp k slot e w end s)
              (λ z. round_end x now_tp k slot e w (s ∙ ap some z))
      ]

  run_slots_total :
      (x : TaskExecutor) (now_tp : TimePoint) (slots : List TaskSlot) (e : E) (w : World)
      → 1 ≤ x.catch_up_limit
      → (run_slots h x now_tp slots e w).end ≢ LoopEnd.out_of_fuel
  unfolding run_slots
  run_slots_total x now_tp [] e w l = ground arith
  run_slots_total x now_tp (slot ∷ slots) e w l =
      let ran = run_releases h x.catch_up_limit x now_tp 0 slot e w in
      ground (
        arith,
        run_releases_total x.catch_up_limit x now_tp 0 slot e w (omega arith) l,
        run_slots_total x now_tp slots e w l,
        run_slots_total x now_tp slots ran.env (publish_run h x ran.slot ran.env ran.world) l,
      )

  -- With the catch-up limit that every executor has, at least 1, the rounds that `run_due` allows each
  -- slot suffice: it always ends with a result.
  pub run_due_total :
      (x : TaskExecutor) (now_tp : TimePoint) (e : E) (w : World)
      → 1 ≤ x.catch_up_limit
      → (run_due h x now_tp e w).3 ≢ none
  unfolding run_due
  run_due_total x now_tp e w l = ground (arith, run_slots_total x now_tp x.tasks e w l)

  round_slot :
      (x : TaskExecutor) (now_tp : TimePoint) (k : ℕ) (slot : TaskSlot) (e : E) (w : World)
      → let one = round h x now_tp k slot e w in
        one.end ≡ none
        → (one.slot ≡ advanced 1 slot) × (one.env ≡ called 1 slot e) × (k + 1 < run_limit x)
  unfolding round after_call
  round_slot x now_tp k slot e w n = ground arith

  round_finished :
      (x : TaskExecutor) (now_tp : TimePoint) (k : ℕ) (slot : TaskSlot) (e : E) (w : World)
      → let one = round h x now_tp k slot e w in
        one.end ≡ some LoopEnd.finished
        → ((one.slot ≡ slot) × (one.env ≡ e) × (ltb_ℤ now_tp slot.next_release ≡ true))
          ⊎ ((one.slot ≡ advanced 1 slot) × (one.env ≡ called 1 slot e) × (run_limit x ≤ k + 1))
  unfolding round after_call release_error
  round_finished x now_tp k slot e w n = ground arith

  run_releases_starved :
      (x : TaskExecutor) (now_tp : TimePoint) (k : ℕ) (slot : TaskSlot) (e : E) (w : World)
      → (run_releases h zero x now_tp k slot e w).end ≢ LoopEnd.finished
  unfolding run_releases
  run_releases_starved x now_tp k slot e w = ground arith

  runs_stop :
      (x : TaskExecutor) (now_tp : TimePoint) (k : ℕ) (slot : TaskSlot) (e : E) (slot' : TaskSlot)
      (e' : E)
      → k < run_limit x
      → ((slot' ≡ slot) × (e' ≡ e) × (ltb_ℤ now_tp slot.next_release ≡ true))
        ⊎ ((slot' ≡ advanced 1 slot) × (e' ≡ called 1 slot e) × (run_limit x ≤ k + 1))
      → RunsFrom x now_tp k slot e slot' e'
  runs_stop x now_tp k slot e slot' e' l (inl (same, kept, early)) =
      (0, same, kept, omega arith, inl (rw same early))
  runs_stop x now_tp k slot e slot' e' l (inr (once, ran, full)) =
      (1, once, ran, omega arith, inr (omega arith))

  runs_more :
      (x : TaskExecutor) (now_tp : TimePoint) (k : ℕ) (slot : TaskSlot) (e : E) (slot₁ : TaskSlot)
      (e₁ : E) (slot' : TaskSlot) (e' : E)
      → slot₁ ≡ advanced 1 slot
      → e₁ ≡ called 1 slot e
      → RunsFrom x now_tp (k + 1) slot₁ e₁ slot' e'
      → RunsFrom x now_tp k slot e slot' e'
  runs_more x now_tp k slot e slot₁ e₁ slot' e' p q (n, s, c, b, inl early) =
      (suc n, s ∙ ap (advanced n) p, c ∙ ap₂ (called n) p q, omega arith, inl early)
  runs_more x now_tp k slot e slot₁ e₁ slot' e' p q (n, s, c, b, inr full) =
      (suc n, s ∙ ap (advanced n) p, c ∙ ap₂ (called n) p q, omega arith, inr (omega arith))

  -- The loop over the releases of a slot, from `k` runs on.
  run_releases_served :
      (fuel : ℕ) (x : TaskExecutor) (now_tp : TimePoint) (k : ℕ) (slot : TaskSlot) (e : E)
      (w : World)
      → k < run_limit x
      → (run_releases h fuel x now_tp k slot e w).end ≡ LoopEnd.finished
      → let ran = run_releases h fuel x now_tp k slot e w in
        RunsFrom x now_tp k slot e ran.slot ran.env
  run_releases_served zero x now_tp k slot e w l f =
      absurd (run_releases_starved x now_tp k slot e w f)
  run_releases_served (suc fuel) x now_tp k slot e w l f =
      let one = round h x now_tp k slot e w in
      elim (Option-cases one.end) [
        | inl n ↦
            let (once, ran, below) = round_slot x now_tp k slot e w n in
            let again = run_releases_again fuel x now_tp k slot e w n in
            rw again (
              runs_more x now_tp k slot e one.slot one.env _ _ once ran (
                run_releases_served fuel x now_tp (k + 1) one.slot one.env one.world below
                  (rw again at f)))
        | inr (end, s) ↦
            let stop = run_releases_stop fuel x now_tp k slot e w end s in
            rw stop (
              runs_stop x now_tp k slot e one.slot one.env l
                (round_finished x now_tp k slot e w (s ∙ ap some (rw stop at f))))
      ]

  -- A slot that is due, once its loop has ended: the later slots are served only behind a finished one.
  slot_served :
      (x : TaskExecutor) (now_tp : TimePoint) (slot : TaskSlot) (slots : List TaskSlot) (e : E)
      (ran : Ran h) (next : RanAll h) (end : LoopEnd)
      → is_due now_tp slot ≡ true
      → ran.end ≡ end
      → (end ≡ LoopEnd.finished → IsServed x now_tp slot e ran.slot ran.env)
      → (next.end ≡ LoopEnd.finished → AllServed x now_tp slots ran.env next.slots next.env)
      → let stopped : RanAll h = record {
        slots = ran.slot ∷ slots;
        env = ran.env;
        world = ran.world;
        end = ran.end;
      } in
        let all : RanAll h = elim end [ LoopEnd.finished ↦ keep h ran.slot next | _ ↦ stopped ] in
        all.end ≡ LoopEnd.finished → AllServed x now_tp (slot ∷ slots) e all.slots all.env
  slot_served x now_tp slot slots e ran next LoopEnd.finished d same served later f =
      (ran.env, inl (d, served refl), later f)
  slot_served x now_tp slot slots e ran next (LoopEnd.returned r) d same served later f =
      absurd (ground (arith, sym same ∙ f))
  slot_served x now_tp slot slots e ran next LoopEnd.out_of_fuel d same served later f =
      absurd (ground (arith, sym same ∙ f))

  run_slots_served :
      (x : TaskExecutor) (now_tp : TimePoint) (slots : List TaskSlot) (e : E) (w : World)
      → 1 ≤ x.catch_up_limit
      → (run_slots h x now_tp slots e w).end ≡ LoopEnd.finished
      → let all = run_slots h x now_tp slots e w in AllServed x now_tp slots e all.slots all.env
  unfolding run_slots
  run_slots_served x now_tp [] e w l f = refl
  run_slots_served x now_tp (slot ∷ slots) e w l f =
      let ran = run_releases h x.catch_up_limit x now_tp 0 slot e w in
      let later = publish_run h x ran.slot ran.env ran.world in
      let P : RanAll h → Type 0 =
        λ all. all.end ≡ LoopEnd.finished → AllServed x now_tp (slot ∷ slots) e all.slots all.env in
      if_cases P (is_due now_tp slot)
        (λ d.
          slot_served x now_tp slot slots e ran (run_slots h x now_tp slots ran.env later) ran.end d
            refl (run_releases_served x.catch_up_limit x now_tp 0 slot e w (some_run x l))
            (run_slots_served x now_tp slots ran.env later l))
        (λ d g. (e, inr (d, refl, refl), run_slots_served x now_tp slots e w l g)) f
    where
      some_run : (y : TaskExecutor) → 1 ≤ y.catch_up_limit → 0 < run_limit y
      some_run y m = ground arith

  -- With a catch-up limit of at least 1, when no release of any slot returns early, `run_due` succeeds. It
  -- then has called the task of every used slot that was due, in the order of the slots, once for each
  -- release until the slot was no longer due or as often as it may (once in single steps, else the
  -- catch-up limit), and the next release has moved on by one period for each call; every other slot is
  -- as before, and no other task has been called.
  pub run_due_served :
      (x : TaskExecutor) (now_tp : TimePoint) (e : E) (w : World)
      → 1 ≤ x.catch_up_limit
      → (run_slots h x now_tp x.tasks e w).end ≡ LoopEnd.finished
      → let (x', e', w', res) = run_due h x now_tp e w in
        AllServed x now_tp x.tasks e x'.tasks e' × (res ≡ some ok_result)
  unfolding run_due
  run_due_served x now_tp e w l f = (run_slots_served x now_tp x.tasks e w l f, rw f refl)
