-- ===== src/StateMachine/Race/Safety.antt =====
-- What the interleavings of src/state_machine/state_machine.cpp keep, and what they do not.
use safety_autonomy_core.Common.{
  ℕ, ◌≡◌, ◌≢◌, ◌⊎◌, inl, inr, Bool, true, false, List, [], ◌∷◌, arith, refl, ◌==◌, if◌then◌else◌,
  Bool-cases,
}
use safety_autonomy_core.Ports.{Mode, safe_stop, degraded, localization_lost}
use safety_autonomy_core.StateMachine.{allowed}
use safety_autonomy_core.StateMachine.Invariant.{allowed_from_safe_stop}
use safety_autonomy_core.StateMachine.Race.{Shared, Pc, Threads, step, turn, interleave, update}

-- The places from which a thread can no longer move a latched machine out of SafeStop.
abbrev pub IsHarmless : Pc → Type 0
IsHarmless (Pc.load_latched t) = Unit
IsHarmless (Pc.check_allowed t) = Unit
IsHarmless (Pc.load_prev t) = t ≡ safe_stop
IsHarmless (Pc.exchange t prev) = t ≡ safe_stop
IsHarmless (Pc.recheck t prev) = t ≡ safe_stop
IsHarmless Pc.clear_load = ⊥
IsHarmless Pc.clear_store = ⊥
IsHarmless Pc.clear_prev = ⊥
IsHarmless (Pc.clear_exchange prev) = ⊥
IsHarmless (Pc.recover_exchange prev) = prev ≡ localization_lost
IsHarmless _ = Unit

abbrev pub IsStopped : Shared → Type 0
IsStopped s = (s.latched ≡ true) × (s.mode ≡ safe_stop)

step-IsStopped :
    (spurious : Bool) (s : Shared) (p : Pc)
    → IsStopped s
    → IsHarmless p
    → IsStopped (step spurious s p).0 × IsHarmless (step spurious s p).1
unfolding step
step-IsStopped spurious s (Pc.load_latched t) h p = ground arith
step-IsStopped spurious s (Pc.check_allowed t) h p = ground (arith, allowed_from_safe_stop t)
step-IsStopped spurious s (Pc.load_prev t) h p = ground arith
step-IsStopped spurious s (Pc.exchange t prev) h p = ground arith
step-IsStopped spurious s (Pc.recheck t prev) h p = ground (arith, allowed_from_safe_stop t)
step-IsStopped spurious s Pc.clear_load h p = elim p [ ]
step-IsStopped spurious s Pc.clear_store h p = elim p [ ]
step-IsStopped spurious s Pc.clear_prev h p = elim p [ ]
step-IsStopped spurious s (Pc.clear_exchange prev) h p = elim p [ ]
step-IsStopped spurious s Pc.recover_load h p = ground arith
step-IsStopped spurious s (Pc.recover_exchange prev) h p = ground arith
step-IsStopped spurious s (Pc.done ok) h p = (h, tt)
step-IsStopped spurious s Pc.store_latched h p = ground arith
step-IsStopped spurious s Pc.store_safe_stop h p = ground arith

abbrev pub AllHarmless : Threads → Type 0
AllHarmless s = (i : ℕ) → IsHarmless (s.pc i)

update-IsHarmless :
    (f : ℕ → Pc) (i j : ℕ) (p : Pc) → IsHarmless p → IsHarmless (f j) → IsHarmless (update f i p j)
update-IsHarmless f i j p hp hj = elim (Bool-cases (i == j)) [ inl e ↦ rw e hp | inr e ↦ rw e hj ]

turn-IsStopped :
    (t : ℕ × Bool) (s : Threads)
    → IsStopped s.shared
    → AllHarmless s
    → IsStopped (turn t s).shared × AllHarmless (turn t s)
unfolding turn
turn-IsStopped (i, spurious) s h p =
    let (stopped, harmless) = step-IsStopped spurious s.shared (s.pc i) h (p i) in
    (stopped, λ j. update-IsHarmless s.pc i j (step spurious s.shared (s.pc i)).1 harmless (p j))

-- Once the fault is latched and the machine is in SafeStop, and no thread is inside `clear_fault` or
-- past the checks of a `transition_to` to another mode, no interleaving of any number of threads,
-- with any spurious failures, leaves SafeStop or unlatches the fault.
pub interleave-IsStopped :
    (ts : List (ℕ × Bool)) (s : Threads)
    → IsStopped s.shared
    → AllHarmless s
    → IsStopped (interleave ts s).shared
unfolding interleave
interleave-IsStopped [] s h p = h
interleave-IsStopped (t ∷ ts) s h p =
    let (stopped, harmless) = turn-IsStopped t s h p in
    interleave-IsStopped ts (turn t s) stopped harmless

-- A step inside `recover_localization` moves the machine only from LocalizationLost to Degraded.
pub recover_step :
    (spurious : Bool) (s : Shared) (prev : Mode)
    → prev ≡ localization_lost
    → ((step spurious s (Pc.recover_exchange prev)).0 ≡ s)
      ⊎ ((s.mode ≡ localization_lost)
          × ((step spurious s (Pc.recover_exchange prev)).0 ≡ record s { mode = degraded }))
unfolding step
recover_step spurious s prev h = ground arith

-- Thread 0 runs `transition_to(target)` and thread 1 `latch_fault`: the fault is latched between the
-- test of the table and the load of the mode that is exchanged.
abbrev pub race_schedule : List (ℕ × Bool)
race_schedule = (0, false) ∷ (0, false) ∷ (1, false) ∷ (1, false) ∷ (0, false) ∷ (0, false) ∷ []

abbrev pub race_start : Mode → Mode → Threads
race_start mode target = record {
  shared = record { mode = mode; latched = false };
  pc = λ i. if i == 0 then Pc.load_latched target else Pc.store_latched;
}

-- Whenever the table allows a transition to a target other than SafeStop, there is an interleaving
-- with one `latch_fault` after which the fault is latched, `transition_to` has succeeded, and the
-- machine is not in SafeStop but in the target mode.
pub race_leaves_safe_stop :
    (mode target : Mode)
    → allowed mode target ≡ true
    → target ≢ safe_stop
    → let s = interleave race_schedule (race_start mode target) in
      (s.shared.latched ≡ true)
      × (s.shared.mode ≡ target)
      × (s.shared.mode ≢ safe_stop)
      × (s.pc 0 ≡ Pc.done true)
unfolding interleave step
race_leaves_safe_stop mode target h n = rw h (refl, refl, n, refl)
