-- ===== src/SensorMonitor/Windows.antt =====
-- ros2/src/safety_core_ros/src/sensor_monitor_node.cpp: the queue of message times of a tracker, against
-- the record of all messages.
use safety_autonomy_core.Common.{
  ℕ, ◌≤◌, ◌≡◌, refl, sym, ap, ◌∙◌, List, [], ◌∷◌, ◌++◌, ltb, arith, Bool-cases, inl, inr,
  if◌then◌else◌,
}
use mathlib.Core.List.{append_assoc, append-nil}
use safety_autonomy_core.Common.Double.{Double}
use safety_autonomy_core.SensorMonitor.{
  SensorTracker, pop_older, cutoff_of, record_message, prune_window, seconds_to_nanoseconds,
}

-- What happens to a tracker, with the time that the clock shows.
pub data Call : Type 0 where
  message prune : ℕ → Call

module _ {W : Type 0} ⦃d : Double W⦄ (window_s : W) where
  unfoldable pub run : List Call → SensorTracker W → SensorTracker W
  run [] t = t
  run (message now_ns ∷ calls) t = run calls (record_message now_ns t)
  run (prune now_ns ∷ calls) t = run calls (prune_window now_ns window_s t)

-- The clock does not run backwards.
abbrev pub IsForward : ℕ → List Call → Type 0
IsForward now_ns [] = Unit
IsForward now_ns (message t ∷ calls) = (now_ns ≤ t) × IsForward t calls
IsForward now_ns (prune t ∷ calls) = (now_ns ≤ t) × IsForward t calls

-- All messages, and the time of the last pruning.
abbrev pub messages : List Call → List ℕ
messages [] = []
messages (message t ∷ calls) = t ∷ messages calls
messages (prune t ∷ calls) = messages calls

abbrev pub last_prune : ℕ → List Call → ℕ
last_prune t0 [] = t0
last_prune t0 (message t ∷ calls) = last_prune t0 calls
last_prune t0 (prune t ∷ calls) = last_prune t calls

-- The times that are not before a cutoff.
abbrev pub keep : ℕ → List ℕ → List ℕ
keep cutoff_ns [] = []
keep cutoff_ns (t ∷ times) =
    if ltb t cutoff_ns then keep cutoff_ns times else t ∷ keep cutoff_ns times

-- Times in their order, from a first bound to a last one.
abbrev IsChain : ℕ → List ℕ → ℕ → Type 0
IsChain low [] high = low ≤ high
IsChain low (t ∷ times) high = (low ≤ t) × IsChain t times high

IsChain-later :
    (low : ℕ) (times : List ℕ) (high later : ℕ)
    → IsChain low times high
    → high ≤ later
    → IsChain low times later
IsChain-later low [] high later c h = omega arith
IsChain-later low (t ∷ times) high later (l, c) h = (l, IsChain-later t times high later c h)

IsChain-append :
    (low : ℕ) (times : List ℕ) (high t : ℕ)
    → IsChain low times high
    → high ≤ t
    → IsChain low (times ++ (t ∷ [])) t
IsChain-append low [] high t c h = (omega arith, omega arith)
IsChain-append low (x ∷ times) high t (l, c) h = (l, IsChain-append x times high t c h)

keep-chain :
    (cutoff low : ℕ) (times : List ℕ) (high : ℕ)
    → IsChain low times high
    → cutoff ≤ low
    → keep cutoff times ≡ times
keep-chain cutoff low [] high c h = refl
keep-chain cutoff low (t ∷ times) high (l, c) h = ground (arith, keep-chain cutoff t times high c)

keep-append :
    (cutoff t : ℕ) (times : List ℕ)
    → cutoff ≤ t
    → keep cutoff (times ++ (t ∷ [])) ≡ keep cutoff times ++ (t ∷ [])
keep-append cutoff t [] h = ground arith
keep-append cutoff t (x ∷ times) h = elim (Bool-cases (ltb x cutoff)) [
  | inl e ↦ rw e (keep-append cutoff t times h)
  | inr e ↦ rw e (ap (◌∷◌ x) (keep-append cutoff t times h))
]

-- Dropping old times from the front leaves what a later cutoff keeps of the whole record.
pop_older-keep :
    (first cutoff low : ℕ) (times : List ℕ) (high : ℕ)
    → first ≤ cutoff
    → IsChain low times high
    → pop_older cutoff (keep first times) ≡ keep cutoff times
unfolding pop_older
pop_older-keep first cutoff low [] high h c = refl
pop_older-keep first cutoff low (t ∷ times) high h (l, c) =
    let later = pop_older-keep first cutoff t times high h c in
    elim (Bool-cases (ltb t first)) [
      | inl e ↦ ground (arith, later)
      | inr e ↦ elim (Bool-cases (ltb t cutoff)) [
        | inl o ↦ rw (e, o) later
        | inr o ↦
            rw (e, o)
              (ap (◌∷◌ t) (
                keep-chain first t times high c (ground arith)
                ∙ sym (keep-chain cutoff t times high c (ground arith))))
      ]
    ]

cutoff_le : (now window : ℕ) → cutoff_of now window ≤ now
unfolding cutoff_of
cutoff_le now window = ground arith

cutoff_mono : (t0 t window : ℕ) → t0 ≤ t → cutoff_of t0 window ≤ cutoff_of t window
unfolding cutoff_of
cutoff_mono t0 t window h = ground arith

module _ {W : Type 0} ⦃d : Double W⦄ (window_s : W) where
  abbrev pub window_ns : ℕ
  window_ns = seconds_to_nanoseconds window_s

  run_from :
      (calls : List Call) (t : SensorTracker W) (log : List ℕ) (t0 now_ns : ℕ)
      → IsForward now_ns calls
      → IsChain 0 log now_ns
      → t0 ≤ now_ns
      → t.msg_times ≡ keep (cutoff_of t0 window_ns) log
      → (run window_s calls t).msg_times
        ≡ keep (cutoff_of (last_prune t0 calls) window_ns) (log ++ messages calls)
  unfolding run record_message prune_window
  run_from [] t log t0 now_ns f c h e =
      e ∙ ap (keep (cutoff_of t0 window_ns)) (sym (append-nil log))
  run_from (message x ∷ calls) t log t0 now_ns (h', f) c h e =
      run_from calls (record_message x t) (log ++ (x ∷ [])) t0 x f
        (IsChain-append 0 log now_ns x c h') (omega arith)
        (ap (λ times. times ++ (x ∷ [])) e
          ∙ sym
              (keep-append (cutoff_of t0 window_ns) x log (omega (arith, cutoff_le t0 window_ns))))
      ∙ ap (keep (cutoff_of (last_prune t0 calls) window_ns))
          (append_assoc log (x ∷ []) (messages calls))
  run_from (prune x ∷ calls) t log t0 now_ns (h', f) c h e =
      run_from calls (prune_window x window_s t) log x x f (IsChain-later 0 log now_ns x c h')
        (omega arith)
        (ap (pop_older (cutoff_of x window_ns)) e
          ∙ pop_older-keep (cutoff_of t0 window_ns) (cutoff_of x window_ns) 0 log now_ns
              (cutoff_mono t0 x window_ns (omega arith)) c)

  -- While the clock does not run backwards, the queue of a new tracker holds, after any messages and
  -- prunings, exactly the messages that are not older than the window at the last pruning: those
  -- of the whole record, in their order.
  pub run_refines :
      (calls : List Call) (t : SensorTracker W)
      → t.msg_times ≡ []
      → IsForward 0 calls
      → (run window_s calls t).msg_times
        ≡ keep (cutoff_of (last_prune 0 calls) window_ns) (messages calls)
  run_refines calls t e f = run_from calls t [] 0 0 f (omega arith) (omega arith) e
