-- ===== src/Recovery/Timeouts.antt =====
-- Which sensor `check_timeouts` of sensor_recovery_manager.hpp gives up.
use safety_autonomy_core.Common.{
  ℕ, ◌≡◌, ◌⊎◌, inl, inr, refl, ap, subst⁻¹, true, false, [], ◌∷◌, ◌++◌, All, Bool-cases,
}
use safety_autonomy_core.Recovery.{
  Name, Sensors, SensorRecoveryInfo, SensorRecoveryManager, is_overdue, timed_out_info,
  time_out_first, check_timeouts,
}

-- No sensor of the list is overdue.
abbrev pub NoneOverdue : ℕ → ℕ → Sensors → Type 0
NoneOverdue now_ns timeout_ns = All (λ s. is_overdue now_ns timeout_ns s.1 ≡ false)

-- No sensor is overdue and nothing changes; or the first that is overdue is given up, and named.
abbrev pub IsChecked : ℕ → ℕ → Sensors → Sensors × Name → Type 0
IsChecked now_ns timeout_ns sensors out =
    (NoneOverdue now_ns timeout_ns sensors × (out ≡ (sensors, [])))
    ⊎ ((earlier : Sensors) × (key : Name) × (info : SensorRecoveryInfo) × (later : Sensors)
        × (sensors ≡ earlier ++ ((key, info) ∷ later))
        × NoneOverdue now_ns timeout_ns earlier
        × (is_overdue now_ns timeout_ns info ≡ true)
        × (out ≡ (earlier ++ ((key, timed_out_info info) ∷ later), key)))

IsChecked-later :
    (now_ns timeout_ns : ℕ) (key : Name) (info : SensorRecoveryInfo) (rest : Sensors)
    (out : Sensors × Name)
    → is_overdue now_ns timeout_ns info ≡ false
    → IsChecked now_ns timeout_ns rest out
    → IsChecked now_ns timeout_ns ((key, info) ∷ rest) ((key, info) ∷ out.0, out.1)
IsChecked-later now_ns timeout_ns key info rest out h (inl (fine, same)) =
    inl ((h, fine), ap (λ x. ((key, info) ∷ x.0, x.1)) same)
IsChecked-later now_ns timeout_ns key info rest out h
      (inr (pre, k, i, post, split, fine, over, same)) =
    inr (
      (key, info) ∷ pre,
      k,
      i,
      post,
      ap (◌∷◌ (key, info)) split,
      (h, fine),
      over,
      ap (λ x. ((key, info) ∷ x.0, x.1)) same,
    )

time_out_here :
    (now_ns timeout_ns : ℕ) (key : Name) (info : SensorRecoveryInfo) (rest : Sensors)
    → is_overdue now_ns timeout_ns info ≡ true
    → time_out_first now_ns timeout_ns ((key, info) ∷ rest)
      ≡ ((key, timed_out_info info) ∷ rest, key)
unfolding time_out_first
time_out_here now_ns timeout_ns key info rest h = rw h refl

time_out_later :
    (now_ns timeout_ns : ℕ) (key : Name) (info : SensorRecoveryInfo) (rest : Sensors)
    → is_overdue now_ns timeout_ns info ≡ false
    → time_out_first now_ns timeout_ns ((key, info) ∷ rest) ≡ (
      (key, info) ∷ (time_out_first now_ns timeout_ns rest).0,
      (time_out_first now_ns timeout_ns rest).1,
    )
unfolding time_out_first
time_out_later now_ns timeout_ns key info rest h = rw h refl

time_out_first-IsChecked :
    (now_ns timeout_ns : ℕ) (sensors : Sensors)
    → IsChecked now_ns timeout_ns sensors (time_out_first now_ns timeout_ns sensors)
unfolding time_out_first
time_out_first-IsChecked now_ns timeout_ns [] = inl (tt, refl)
time_out_first-IsChecked now_ns timeout_ns ((key, info) ∷ rest) =
    elim (Bool-cases (is_overdue now_ns timeout_ns info)) [
      | inl h ↦
          inr ([], key, info, rest, refl, tt, h, time_out_here now_ns timeout_ns key info rest h)
      | inr h ↦
          subst⁻¹ (IsChecked now_ns timeout_ns ((key, info) ∷ rest))
            (time_out_later now_ns timeout_ns key info rest h)
            (IsChecked-later now_ns timeout_ns key info rest _ h
              (time_out_first-IsChecked now_ns timeout_ns rest))
    ]

-- `check_timeouts` gives up exactly one sensor if any is overdue, the first in the order of the walk,
-- and returns its name; if none is overdue it returns the empty name and no sensor changes. The rest of
-- the manager, the summary and the degraded mode, is in either case as before.
pub check_timeouts_lem :
    (now_ns timeout_ns : ℕ) (m : SensorRecoveryManager)
    → let (m', name) = check_timeouts now_ns timeout_ns m in
      IsChecked now_ns timeout_ns m.sensor_states (m'.sensor_states, name)
      × (m' ≡ record m { sensor_states = m'.sensor_states })
unfolding check_timeouts
check_timeouts_lem now_ns timeout_ns m =
    (time_out_first-IsChecked now_ns timeout_ns m.sensor_states, refl)
