-- ===== src/Recovery/Forgotten.antt =====
-- What becomes of a sensor that sensor_recovery_manager.hpp once gave up.
use safety_autonomy_core.Common.{
  ℕ, ◌≡◌, ◌≢◌, ◌⊎◌, ◌∙◌, ap, sym, inl, inr, refl, true, false, List, [], ◌∷◌, some, arith,
  Bool-cases,
}
use safety_autonomy_core.Recovery.{
  Name, Sensors, SensorRecoveryInfo, SensorRecoveryManager, HealthTransition, Operation, same_name,
  find, next_info, process_sensors, process_health_msg, is_overdue, time_out_first, check_timeouts,
  update_summary, set_degraded_mode, operate, operate_all, degraded_status,
}

-- The sensor has timed out at some time.
abbrev pub HasTimedOut : Name → Sensors → Type 0
HasTimedOut name sensors =
    (info : SensorRecoveryInfo) × (find name sensors ≡ some info) × (info.timed_out ≡ true)

find_nothing : (name : Name) (info : SensorRecoveryInfo) → find name [] ≢ some info
unfolding find
find_nothing name info e = ground (arith, e)

find_here :
    (name key : Name) (info : SensorRecoveryInfo) (rest : Sensors)
    → same_name name key ≡ true
    → find name ((key, info) ∷ rest) ≡ some info
unfolding find
find_here name key info rest h = rw h refl

find_later :
    (name key : Name) (info : SensorRecoveryInfo) (rest : Sensors)
    → same_name name key ≡ false
    → find name ((key, info) ∷ rest) ≡ find name rest
unfolding find
find_later name key info rest h = rw h refl

next_info_timed_out :
    (info : SensorRecoveryInfo) (status now_ns : ℕ)
    → (next_info info status now_ns).0.timed_out ≡ info.timed_out
unfolding next_info
next_info_timed_out info status now_ns = ground arith

ignored_info :
    (info : SensorRecoveryInfo) (now_ns : ℕ)
    → info.timed_out ≡ true
    → next_info info degraded_status now_ns ≡ (info, HealthTransition.no_transition)
unfolding next_info
ignored_info info now_ns h = rw h refl

process_here :
    (name key : Name) (status now_ns : ℕ) (info : SensorRecoveryInfo) (rest : Sensors)
    → same_name name key ≡ true
    → process_sensors name status now_ns ((key, info) ∷ rest)
      ≡ ((key, (next_info info status now_ns).0) ∷ rest, (next_info info status now_ns).1)
unfolding process_sensors
process_here name key status now_ns info rest h = rw h refl

process_later :
    (name key : Name) (status now_ns : ℕ) (info : SensorRecoveryInfo) (rest : Sensors)
    → same_name name key ≡ false
    → process_sensors name status now_ns ((key, info) ∷ rest) ≡ (
      (key, info) ∷ (process_sensors name status now_ns rest).0,
      (process_sensors name status now_ns rest).1,
    )
unfolding process_sensors
process_later name key status now_ns info rest h = rw h refl

-- A sensor at the head, or one behind it.
timed_out_here :
    (name key : Name) (info : SensorRecoveryInfo) (rest : Sensors)
    → same_name name key ≡ true
    → info.timed_out ≡ true
    → HasTimedOut name ((key, info) ∷ rest)
timed_out_here name key info rest h t = (info, find_here name key info rest h, t)

timed_out_later :
    (name key : Name) (info : SensorRecoveryInfo) (rest : Sensors)
    → same_name name key ≡ false
    → HasTimedOut name rest
    → HasTimedOut name ((key, info) ∷ rest)
timed_out_later name key info rest h (i, f, t) = (i, find_later name key info rest h ∙ f, t)

-- The converse.
timed_out_cases :
    (name key : Name) (info : SensorRecoveryInfo) (rest : Sensors)
    → HasTimedOut name ((key, info) ∷ rest)
    → ((same_name name key ≡ true) × (info.timed_out ≡ true))
      ⊎ ((same_name name key ≡ false) × HasTimedOut name rest)
timed_out_cases name key info rest (i, f, t) = elim (Bool-cases (same_name name key)) [
  | inl h ↦ inl (h, ground (arith, find_here name key info rest h, f, t))
  | inr h ↦ inr (h, (i, sym (find_later name key info rest h) ∙ f, t))
]

process_sensors-HasTimedOut :
    (name q : Name) (status now_ns : ℕ) (sensors : Sensors)
    → HasTimedOut name sensors
    → HasTimedOut name (process_sensors q status now_ns sensors).0
unfolding process_sensors
process_sensors-HasTimedOut name q status now_ns [] (i, f, t) = absurd (find_nothing name i f)
process_sensors-HasTimedOut name q status now_ns ((key, info) ∷ rest) h =
    let same = next_info_timed_out info status now_ns in
    elim (timed_out_cases name key info rest h) [
      | inl (here, t) ↦ elim (Bool-cases (same_name q key)) [
        | inl e ↦
            rw (process_here q key status now_ns info rest e)
              (timed_out_here name key _ rest here (same ∙ t))
        | inr e ↦
            rw (process_later q key status now_ns info rest e)
              (timed_out_here name key info _ here t)
      ]
      | inr (later, k) ↦ elim (Bool-cases (same_name q key)) [
        | inl e ↦
            rw (process_here q key status now_ns info rest e)
              (timed_out_later name key _ rest later k)
        | inr e ↦ rw (process_later q key status now_ns info rest e) (
            timed_out_later name key info _ later
              (process_sensors-HasTimedOut name q status now_ns rest k))
      ]
    ]

time_out_first-HasTimedOut :
    (name : Name) (now_ns timeout_ns : ℕ) (sensors : Sensors)
    → HasTimedOut name sensors
    → HasTimedOut name (time_out_first now_ns timeout_ns sensors).0
unfolding time_out_first
time_out_first-HasTimedOut name now_ns timeout_ns [] h = h
time_out_first-HasTimedOut name now_ns timeout_ns ((key, info) ∷ rest) h =
    elim (timed_out_cases name key info rest h) [
      | inl (here, t) ↦ elim (Bool-cases (is_overdue now_ns timeout_ns info)) [
        | inl e ↦ rw e (timed_out_here name key _ rest here refl)
        | inr e ↦ rw e (timed_out_here name key info _ here t)
      ]
      | inr (later, k) ↦ elim (Bool-cases (is_overdue now_ns timeout_ns info)) [
        | inl e ↦ rw e (timed_out_later name key _ rest later k)
        | inr e ↦ rw e (
            timed_out_later name key info _ later
              (time_out_first-HasTimedOut name now_ns timeout_ns rest k))
      ]
    ]

operate-HasTimedOut :
    (name : Name) (o : Operation) (m : SensorRecoveryManager)
    → HasTimedOut name m.sensor_states
    → HasTimedOut name (operate o m).sensor_states
unfolding operate process_health_msg check_timeouts update_summary set_degraded_mode
operate-HasTimedOut name (Operation.health q status now_ns) m h =
    process_sensors-HasTimedOut name q status now_ns m.sensor_states h
operate-HasTimedOut name (Operation.check now_ns timeout_ns) m h =
    time_out_first-HasTimedOut name now_ns timeout_ns m.sensor_states h
operate-HasTimedOut name (Operation.summary status now_ns) m h = h
operate-HasTimedOut name (Operation.set_mode val) m h = h

operate_all-HasTimedOut :
    (name : Name) (os : List Operation) (m : SensorRecoveryManager)
    → HasTimedOut name m.sensor_states
    → HasTimedOut name (operate_all os m).sensor_states
unfolding operate_all
operate_all-HasTimedOut name [] m h = h
operate_all-HasTimedOut name (o ∷ os) m h =
    operate_all-HasTimedOut name os (operate o m) (operate-HasTimedOut name o m h)

ignored_report :
    (name : Name) (now_ns : ℕ) (sensors : Sensors)
    → HasTimedOut name sensors
    → process_sensors name degraded_status now_ns sensors
      ≡ (sensors, HealthTransition.no_transition)
ignored_report name now_ns [] (i, f, t) = absurd (find_nothing name i f)
ignored_report name now_ns ((key, info) ∷ rest) h = elim (timed_out_cases name key info rest h) [
  | inl (here, t) ↦
      let same = ignored_info info now_ns t in
      process_here name key degraded_status now_ns info rest here
      ∙ ap (λ x. ((key, x.0) ∷ rest, x.1)) same
  | inr (later, k) ↦
      process_later name key degraded_status now_ns info rest later
      ∙ ap (λ x. ((key, info) ∷ x.0, x.1)) (ignored_report name now_ns rest k)
]

-- Once a sensor has timed out, no sequence of operations, reports that it is healthy again among them,
-- undoes that: after any such sequence a report that the sensor is degraded still changes nothing and
-- announces nothing.
pub timed_out_forever :
    (name : Name) (os : List Operation) (now_ns : ℕ) (m : SensorRecoveryManager)
    → HasTimedOut name m.sensor_states
    → let m' = operate_all os m in
      HasTimedOut name m'.sensor_states
      × (process_health_msg name degraded_status now_ns m' ≡ (m', HealthTransition.no_transition))
unfolding process_health_msg
timed_out_forever name os now_ns m h =
    let still = operate_all-HasTimedOut name os m h in
    let m' = operate_all os m in
    (
      still,
      ap (λ x. (record m' { sensor_states = x.0 }, x.1))
          (ignored_report name now_ns m'.sensor_states still),
    )
