-- ===== src/Supervisor/Escalation.antt =====
-- What the escalations of src/safety/safety_supervisor.cpp do to the mode machine.
use safety_autonomy_core.Common.{
  ℕ, ◌≤◌, ◌<◌, ◌^◌, ◌≡◌, ◌↔◌, ◌⊎◌, inl, inr, true, false, List, [], ◌∷◌, arith, refl, Bool-cases,
  ltb, ltb→lt,
}
use safety_autonomy_core.Ports.{degraded, safe_stop, World, Readings}
use safety_autonomy_core.Result.{is_ok}
use safety_autonomy_core.StateMachine.{ModeStateMachine, Outcome, latch_fault}
use safety_autonomy_core.StateMachine.Invariant.{IsSafe, transition_to_lem, transition_to-IsSafe}
use safety_autonomy_core.Diag.Topics
use safety_autonomy_core.Supervisor.{
  publish_monitor_event, SafetySupervisor, MonitorSeverity, MonitorEvent, severity_number, escalate,
  escalate_warning, escalate_degraded, escalate_critical, process_monitor_event,
  observe_clock_sample, localization_severity, fault_code_clock_regression,
}

-- What an event of each severity does to the machine.
abbrev pub IsEscalated : MonitorSeverity → ℕ → ModeStateMachine → Outcome → Type 0
IsEscalated MonitorSeverity.no_severity code m out = (out.0 ≡ m) × (is_ok out.2 ≡ true)
IsEscalated MonitorSeverity.warning code m out = (out.0 ≡ m) × (is_ok out.2 ≡ true)
IsEscalated MonitorSeverity.degrading code m out =
    ((out.0 ≡ m) ⊎ (out.0 ≡ record m { mode = degraded }))
    × ((is_ok out.2 ≡ true) ↔ ((out.0.mode ≡ degraded) ⊎ (out.0.mode ≡ safe_stop)))
IsEscalated MonitorSeverity.critical code m out =
    (out.0 ≡ record m { mode = safe_stop; latched_fault = true; fault_code = code })
    × (is_ok out.2 ≡ false)

escalate_lem :
    (v : MonitorSeverity) (s : SafetySupervisor) (failures : ℕ) (r : Readings) (e : MonitorEvent)
    (m : ModeStateMachine) (w : World)
    → s.machine ≡ true
    → IsEscalated v e.code m (escalate v s failures r e m w)
unfolding escalate escalate_warning escalate_degraded escalate_critical latch_fault
escalate_lem MonitorSeverity.no_severity s failures r e m w h = (refl, refl)
escalate_lem MonitorSeverity.warning s failures r e m w h = (refl, refl)
escalate_lem MonitorSeverity.degrading s failures r e m w h =
    let w' = publish_monitor_event s r Topics.safety_degraded_request e w in
    ground (arith, transition_to_lem failures r degraded m w')
escalate_lem MonitorSeverity.critical s failures r e m w h = rw h (refl, refl)

-- With a machine set, an event without severity and a warning leave the machine alone and succeed; a
-- degraded event leaves it as it was or in Degraded, never latches a fault, and succeeds exactly when
-- the machine is then in Degraded or SafeStop; a critical event latches the event's code, puts the
-- machine into SafeStop and returns a fault.
pub process_monitor_event_lem :
    (s : SafetySupervisor) (failures : ℕ) (r : Readings) (e : MonitorEvent) (m : ModeStateMachine)
    (w : World)
    → s.machine ≡ true
    → IsEscalated e.severity e.code m (process_monitor_event s failures r e m w)
unfolding process_monitor_event
process_monitor_event_lem s failures r e m w h = escalate_lem e.severity s failures r e m w h

latch_fault-IsSafe :
    (r : Readings) (code : ℕ) (m : ModeStateMachine) (w : World) → IsSafe (latch_fault r code m w).0
unfolding latch_fault
latch_fault-IsSafe r code m w = ground arith

escalate-IsSafe :
    (v : MonitorSeverity) (s : SafetySupervisor) (failures : ℕ) (r : Readings) (e : MonitorEvent)
    (m : ModeStateMachine) (w : World)
    → IsSafe m
    → IsSafe (escalate v s failures r e m w).0
unfolding escalate escalate_warning escalate_degraded escalate_critical
escalate-IsSafe MonitorSeverity.no_severity s failures r e m w h = h
escalate-IsSafe MonitorSeverity.warning s failures r e m w h = h
escalate-IsSafe MonitorSeverity.degrading s failures r e m w h =
    let w' = publish_monitor_event s r Topics.safety_degraded_request e w in
    ground (arith, transition_to-IsSafe failures r degraded m w' h)
escalate-IsSafe MonitorSeverity.critical s failures r e m w h =
    let w' = publish_monitor_event s r Topics.safety_safe_stop_forced e w in
    ground (arith, latch_fault-IsSafe r e.code m w')

-- Where a latched fault means SafeStop and no fault code is kept without one, that is still so after
-- any monitor event, with a machine set or not.
pub process_monitor_event-IsSafe :
    (s : SafetySupervisor) (failures : ℕ) (r : Readings) (e : MonitorEvent) (m : ModeStateMachine)
    (w : World)
    → IsSafe m
    → IsSafe (process_monitor_event s failures r e m w).0
unfolding process_monitor_event
process_monitor_event-IsSafe s failures r e m w h = escalate-IsSafe e.severity s failures r e m w h

-- With a timeout below 2^63 ns, an older localization never has a lower severity.
pub localization_severity_mono :
    (age age' timeout : ℕ)
    → timeout < 2 ^ 63
    → age ≤ age'
    → severity_number (localization_severity age timeout)
      ≤ severity_number (localization_severity age' timeout)
unfolding localization_severity
localization_severity_mono age age' timeout small h = ground arith

-- The machine after a critical event of the clock monitor.
abbrev pub stopped_by_clock : ModeStateMachine → ModeStateMachine
stopped_by_clock m = record m {
  mode = safe_stop;
  latched_fault = true;
  fault_code = fault_code_clock_regression;
}

-- One sample: a fall latches, anything else only remembers the sample.
abbrev sampled : SafetySupervisor → ℕ → SafetySupervisor
sampled s t = record s { has_clock_sample = true; last_clock_ns = t }

observe_back :
    (s : SafetySupervisor) (t : ℕ) (r : Readings) (m : ModeStateMachine) (w : World)
    → s.machine ≡ true
    → s.has_clock_sample ≡ true
    → ltb t s.last_clock_ns ≡ true
    → let out = observe_clock_sample s t r m w in
      (out.0 ≡ sampled s t) × (out.1.0 ≡ stopped_by_clock m)
unfolding observe_clock_sample process_monitor_event escalate escalate_critical latch_fault
observe_back s t r m w a h back = rw (h, back, a) (refl, refl)

observe_forth :
    (s : SafetySupervisor) (t : ℕ) (r : Readings) (m : ModeStateMachine) (w : World)
    → s.has_clock_sample ≡ true
    → ltb t s.last_clock_ns ≡ false
    → let out = observe_clock_sample s t r m w in (out.0 ≡ sampled s t) × (out.1.0 ≡ m)
unfolding observe_clock_sample
observe_forth s t r m w h forth = rw (h, forth) (refl, refl)

-- The samples of a run of the clock monitor, one `observe_clock_sample` after another.
pub observe_samples :
    SafetySupervisor → Readings → List ℕ → ModeStateMachine → World → ModeStateMachine
observe_samples s r [] m w = m
observe_samples s r (t ∷ ts) m w =
    let (s', out) = observe_clock_sample s t r m w in observe_samples s' r ts out.0 out.1

-- The samples never fall, from `last` on.
abbrev pub IsMonotone : ℕ → List ℕ → Type 0
IsMonotone last [] = Unit
IsMonotone last (t ∷ ts) = (last ≤ t) × IsMonotone t ts

-- The samples from `s` on leave the machine alone if they are monotone, and stop it if not.
abbrev pub IsWatched : SafetySupervisor → Readings → List ℕ → ModeStateMachine → World → Type 0
IsWatched s r ts m w =
    (IsMonotone s.last_clock_ns ts × (observe_samples s r ts m w ≡ m))
    ⊎ ((¬ IsMonotone s.last_clock_ns ts) × (observe_samples s r ts m w ≡ stopped_by_clock m))

observe_samples_back :
    (s : SafetySupervisor) (r : Readings) (t : ℕ) (ts : List ℕ) (m : ModeStateMachine) (w : World)
    → s.machine ≡ true
    → s.has_clock_sample ≡ true
    → ltb t s.last_clock_ns ≡ true
    → IsWatched (sampled s t) r ts (stopped_by_clock m) (observe_clock_sample s t r m w).1.1
    → IsWatched s r (t ∷ ts) m w
unfolding observe_samples
observe_samples_back s r t ts m w a h back ih =
    let (e, f) = observe_back s t r m w a h back in
    inr (
      λ mono. omega (arith, ltb→lt t s.last_clock_ns back),
      rw (e, f) (elim ih [ inl p ↦ p.1 | inr p ↦ p.1 ]),
    )

observe_samples_forth :
    (s : SafetySupervisor) (r : Readings) (t : ℕ) (ts : List ℕ) (m : ModeStateMachine) (w : World)
    → s.has_clock_sample ≡ true
    → ltb t s.last_clock_ns ≡ false
    → IsWatched (sampled s t) r ts m (observe_clock_sample s t r m w).1.1
    → IsWatched s r (t ∷ ts) m w
unfolding observe_samples
observe_samples_forth s r t ts m w h forth ih =
    let (e, f) = observe_forth s t r m w h forth in
    elim ih [
      | inl (mono, q) ↦ inl ((ground arith, mono), rw (e, f) q)
      | inr (n, q) ↦ inr (λ mono. n mono.1, rw (e, f) q)
    ]

-- With a machine set and after the first sample, the clock monitor leaves the machine as it was
-- exactly when no sample is below the one before it; otherwise, whatever follows, the machine is in
-- SafeStop with the fault of the clock regression latched.
pub observe_samples_lem :
    (s : SafetySupervisor) (r : Readings) (ts : List ℕ) (m : ModeStateMachine) (w : World)
    → s.machine ≡ true
    → s.has_clock_sample ≡ true
    → IsWatched s r ts m w
unfolding observe_samples
observe_samples_lem s r [] m w a h = inl (tt, refl)
observe_samples_lem s r (t ∷ ts) m w a h =
    let w' = (observe_clock_sample s t r m w).1.1 in
    let bad = observe_samples_lem (sampled s t) r ts (stopped_by_clock m) w' a refl in
    let good = observe_samples_lem (sampled s t) r ts m w' a refl in
    elim (Bool-cases (ltb t s.last_clock_ns)) [
      | inl back ↦ observe_samples_back s r t ts m w a h back bad
      | inr forth ↦ observe_samples_forth s r t ts m w h forth good
    ]
