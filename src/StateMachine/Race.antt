-- ===== src/StateMachine/Race.antt =====
-- The machine of src/state_machine/state_machine.cpp under several threads: the two atomics are
-- shared, and each load, store and compare-and-swap is one step. A thread's place in its operation is
-- a `Pc`; the callbacks, which do not touch the atomics, are left out. Loads and stores are taken in
-- one total order.
pub mod Safety
use safety_autonomy_core.Common.{
  ℕ, Bool, true, false, not, ◌&&◌, ◌||◌, List, [], ◌∷◌, ◌==◌, if◌then◌else◌,
}
use safety_autonomy_core.Ports.{Mode, safe_stop, idle, degraded, localization_lost}
use safety_autonomy_core.StateMachine.{allowed, mode_eq}

pub record Shared : Type 0 where
  pub mode : Mode  -- `mode_`
  pub latched : Bool  -- `latched_fault_`

pub data Pc : Type 0 where
  -- `transition_to(target)`
  load_latched : (target : Mode) → Pc
  check_allowed : (target : Mode) → Pc
  load_prev : (target : Mode) → Pc
  exchange : (target prev : Mode) → Pc
  recheck : (target prev : Mode) → Pc
  -- `latch_fault(code)`
  store_latched : Pc
  store_safe_stop : Pc
  -- `clear_fault()`
  clear_load : Pc
  clear_store : Pc
  clear_prev : Pc
  clear_exchange : (prev : Mode) → Pc
  -- `recover_localization()`
  recover_load : Pc
  recover_exchange : (prev : Mode) → Pc
  -- the operation has returned, with or without success
  done : (ok : Bool) → Pc

-- A step of one thread; a compare-and-swap may fail also where the mode is the expected one.
unfoldable pub step : Bool → Shared → Pc → Shared × Pc
step spurious s (Pc.load_latched t) =
    (s, if s.latched && not (mode_eq t safe_stop) then Pc.done false else Pc.check_allowed t)
step spurious s (Pc.check_allowed t) =
    (s, if allowed s.mode t then Pc.load_prev t else Pc.done false)
step spurious s (Pc.load_prev t) = (s, Pc.exchange t s.mode)
step spurious s (Pc.exchange t prev) =
    if mode_eq s.mode prev && not spurious
    then (record s { mode = t }, Pc.done true)
    else (s, Pc.recheck t s.mode)
step spurious s (Pc.recheck t prev) = (
  s,
  if not (allowed s.mode t)
      then Pc.done false
      else if mode_eq prev t
      then Pc.done true
      else Pc.exchange t prev,
)
step spurious s Pc.store_latched = (record s { latched = true }, Pc.store_safe_stop)
step spurious s Pc.store_safe_stop = (record s { mode = safe_stop }, Pc.done false)
step spurious s Pc.clear_load = (s, if not s.latched then Pc.done false else Pc.clear_store)
step spurious s Pc.clear_store = (record s { latched = false }, Pc.clear_prev)
step spurious s Pc.clear_prev = (s, Pc.clear_exchange s.mode)
step spurious s (Pc.clear_exchange prev) =
    if mode_eq s.mode prev && not spurious
    then (record s { mode = idle }, Pc.done true)
    else (s, Pc.clear_exchange s.mode)
step spurious s Pc.recover_load = (
  s,
  if not (mode_eq s.mode localization_lost) then Pc.done false else Pc.recover_exchange s.mode,
)
step spurious s (Pc.recover_exchange prev) =
    if mode_eq s.mode prev && not spurious then (record s { mode = degraded }, Pc.done true) else (
      s,
      if not (mode_eq s.mode localization_lost) then Pc.done false else Pc.recover_exchange s.mode,
    )
step spurious s (Pc.done ok) = (s, Pc.done ok)

-- The atomics and the place of each thread.
pub record Threads : Type 0 where
  pub shared : Shared
  pub pc : ℕ → Pc

abbrev pub update : (ℕ → Pc) → ℕ → Pc → ℕ → Pc
update f i p j = if i == j then p else f j

-- One thread makes a step; the Boolean says whether its compare-and-swap fails spuriously.
unfoldable pub turn : ℕ × Bool → Threads → Threads
turn (i, spurious) s =
    let (shared, p) = step spurious s.shared (s.pc i) in
    record { shared = shared; pc = update s.pc i p }

-- Any interleaving: whose turn it is, one step after another.
unfoldable pub interleave : List (ℕ × Bool) → Threads → Threads
unfolding turn
interleave [] s = s
interleave (t ∷ ts) s = interleave ts (turn t s)
