-- ===== src/StateMachine/Invariant.antt =====
-- What every operation of the machine keeps, and what a run of operations shows.
use safety_autonomy_core.Common.{
  ℕ, zero, suc, ◌≡◌, ◌≢◌, ◌⊎◌, Bool, true, false, List, [], ◌∷◌, arith, refl, Bool-cases, inl, inr,
  All,
}
use safety_autonomy_core.Ports.{Mode, idle, safe_stop, localization_lost, World, Readings}
use safety_autonomy_core.Result.{is_ok}
use safety_autonomy_core.Common.Int.{pos}
use safety_autonomy_core.StateMachine.{
  ModeStateMachine, mode_eq, allowed, transition_loop, transition_to, latch_fault, clear_fault,
  recover_loop, recover_localization, request_obstacle_hold, report_localization_lost, Command,
  apply, run, Outcome, notify_transition,
}

-- A latched fault means SafeStop, and a code is kept only with a latched fault.
pub record IsSafe (m : ModeStateMachine) : Type 0 where
  pub stopped : m.latched_fault ≡ true → m.mode ≡ safe_stop
  pub code_of_fault : m.latched_fault ≡ false → m.fault_code ≡ 0

mode_eq→eq : (a b : Mode) → mode_eq a b ≡ true → a ≡ b
mode_eq→eq a b h = ground arith

-- A transition to the same mode is not notified.
notify_transition_self :
    (m : ModeStateMachine) (r : Readings) (from to : Mode) (w : World)
    → mode_eq from to ≡ true
    → notify_transition m r from to w ≡ w
unfolding notify_transition
notify_transition_self m r from to w e = rw e

pub allowed_from_safe_stop : (t : Mode) → allowed safe_stop t ≡ true → t ≡ safe_stop
unfolding allowed
allowed_from_safe_stop t h = ground arith

-- Without other threads, spurious failures of the compare-and-swap make no difference.
transition_loop_failures :
    (failures : ℕ) (r : Readings) (target : Mode) (m : ModeStateMachine) (w : World)
    → allowed m.mode target ≡ true
    → transition_loop failures r m.mode target m w ≡ transition_loop 0 r m.mode target m w
unfolding transition_loop
transition_loop_failures zero r target m w h = refl
transition_loop_failures (suc k) r target m w h = elim (Bool-cases (mode_eq m.mode target)) [
  | inl e ↦
      rw (h, e, notify_transition_self m r m.mode target w e) (cc (mode_eq→eq m.mode target e))
  | inr e ↦ rw (h, e) (transition_loop_failures k r target m w h)
]

recover_loop_failures :
    (failures : ℕ) (m : ModeStateMachine) (w : World)
    → m.mode ≡ localization_lost
    → recover_loop failures m w ≡ recover_loop 0 m w
unfolding recover_loop
recover_loop_failures zero m w h = refl
recover_loop_failures (suc k) m w h = ground (arith, recover_loop_failures k m w h)

-- With no other thread at work, how often the compare-and-swap fails spuriously changes nothing in
-- what an operation does: the machine, the notifications and the result are those of a run without
-- failures.
pub transition_to_failures :
    (failures : ℕ) (r : Readings) (target : Mode) (m : ModeStateMachine) (w : World)
    → (transition_to failures r target m w ≡ transition_to 0 r target m w)
      × (recover_localization failures m w ≡ recover_localization 0 m w)
unfolding transition_to recover_localization
transition_to_failures failures r target m w =
    (transition_failures, ground (arith, recover_loop_failures failures m w))
  where
    transition_failures : transition_to failures r target m w ≡ transition_to 0 r target m w
    transition_failures = elim (Bool-cases (allowed m.mode target)) [
      | inl e ↦ rw (e, transition_loop_failures failures r target m w e) refl
      | inr e ↦ rw e refl
    ]

-- Either a success, with no fault latched or SafeStop for target and the target in the table, where
-- only the mode changes; or a refusal, because of a latched fault or of the table, where nothing does.
abbrev pub IsTransition : Mode → ModeStateMachine → World → Outcome → Type 0
IsTransition target m w out =
    ((is_ok out.2 ≡ true)
      × ((m.latched_fault ≡ false) ⊎ (target ≡ safe_stop))
      × (allowed m.mode target ≡ true)
      × (out.0 ≡ record m { mode = target }))
    ⊎ ((is_ok out.2 ≡ false)
        × (((m.latched_fault ≡ true) × (target ≢ safe_stop)) ⊎ (allowed m.mode target ≡ false))
        × (out.0 ≡ m)
        × (out.1 ≡ w))

transition_to-IsTransition :
    (r : Readings) (target : Mode) (m : ModeStateMachine) (w : World)
    → IsTransition target m w (transition_to 0 r target m w)
unfolding transition_to
transition_to-IsTransition r target m w = ground arith

-- `transition_to` either succeeds, with no fault latched or SafeStop for target and the target in the
-- table, and only the mode changes, to the target; or it is refused, because a fault is latched and
-- the target is not SafeStop or because the table has no such transition, and then neither the
-- machine nor what it notified changes.
pub transition_to_lem :
    (failures : ℕ) (r : Readings) (target : Mode) (m : ModeStateMachine) (w : World)
    → IsTransition target m w (transition_to failures r target m w)
transition_to_lem failures r target m w =
    rw (transition_to_failures failures r target m w).0 (transition_to-IsTransition r target m w)

pub transition_to-IsSafe :
    (failures : ℕ) (r : Readings) (target : Mode) (m : ModeStateMachine) (w : World)
    → IsSafe m
    → IsSafe (transition_to failures r target m w).0
transition_to-IsSafe failures r target m w s =
    ground (arith, transition_to_lem failures r target m w)

recover_localization-IsSafe :
    (failures : ℕ) (m : ModeStateMachine) (w : World)
    → IsSafe m
    → IsSafe (recover_localization failures m w).0
recover_localization-IsSafe failures m w s =
    rw (transition_to_failures failures (record { steady = pos 0; injected = pos 0 }) idle m w).1
      (unfold recover_localization in ground arith)

-- Every operation of the machine, refused or not, keeps it safe: a latched fault means SafeStop, and
-- without one no fault code is kept.
pub apply-IsSafe :
    (r : Readings) (c : Command) (m : ModeStateMachine) (w : World)
    → IsSafe m
    → IsSafe (apply r c m w).0
unfolding apply latch_fault clear_fault request_obstacle_hold report_localization_lost
apply-IsSafe r (Command.transition failures target) m w s =
    transition_to-IsSafe failures r target m w s
apply-IsSafe r (Command.latch code) m w s = ground arith
apply-IsSafe r Command.clear m w s = ground arith
apply-IsSafe r Command.hold m w s = transition_to-IsSafe 0 r _ m w s
apply-IsSafe r Command.lost m w s = transition_to-IsSafe 0 r _ m w s
apply-IsSafe r (Command.recover failures) m w s = recover_localization-IsSafe failures m w s

-- Where a latched fault means SafeStop and no fault code is kept without one, as on a new machine,
-- that is still so after whatever operations one thread runs.
pub run-IsSafe :
    (cs : List (Readings × Command)) (m : ModeStateMachine) (w : World)
    → IsSafe m
    → IsSafe (run cs m w).0
unfolding run
run-IsSafe [] m w s = s
run-IsSafe ((r, c) ∷ cs) m w s =
    let (m', w', res) = apply r c m w in run-IsSafe cs m' w' (apply-IsSafe r c m w s)

-- The operations other than `clear_fault`.
abbrev pub keeps_fault : Command → Bool
keeps_fault Command.clear = false
keeps_fault _ = true

transition_from_safe_stop :
    (failures : ℕ) (r : Readings) (target : Mode) (m : ModeStateMachine) (w : World)
    → m.mode ≡ safe_stop
    → (transition_to failures r target m w).0.mode ≡ safe_stop
transition_from_safe_stop failures r target m w h =
    ground (arith, transition_to_lem failures r target m w, allowed_from_safe_stop target)

recover_from_safe_stop :
    (failures : ℕ) (m : ModeStateMachine) (w : World)
    → m.mode ≡ safe_stop
    → (recover_localization failures m w).0.mode ≡ safe_stop
unfolding recover_localization
recover_from_safe_stop failures m w h = rw h

apply_in_safe_stop :
    (r : Readings) (c : Command) (m : ModeStateMachine) (w : World)
    → m.mode ≡ safe_stop
    → keeps_fault c ≡ true
    → (apply r c m w).0.mode ≡ safe_stop
unfolding apply latch_fault request_obstacle_hold report_localization_lost
apply_in_safe_stop r (Command.transition failures target) m w h k =
    transition_from_safe_stop failures r target m w h
apply_in_safe_stop r (Command.latch code) m w h k = refl
apply_in_safe_stop r Command.clear m w h k = cc
apply_in_safe_stop r Command.hold m w h k = transition_from_safe_stop 0 r _ m w h
apply_in_safe_stop r Command.lost m w h k = transition_from_safe_stop 0 r _ m w h
apply_in_safe_stop r (Command.recover failures) m w h k = recover_from_safe_stop failures m w h

-- A machine in SafeStop stays there through every run of operations without `clear_fault`.
pub run-safe_stop :
    (cs : List (Readings × Command)) (m : ModeStateMachine) (w : World)
    → m.mode ≡ safe_stop
    → All (λ c. keeps_fault c.1 ≡ true) cs
    → (run cs m w).0.mode ≡ safe_stop
unfolding run
run-safe_stop [] m w h k = h
run-safe_stop ((r, c) ∷ cs) m w h (k, ks) =
    let (m', w', res) = apply r c m w in run-safe_stop cs m' w' (apply_in_safe_stop r c m w h k) ks
