-- ===== src/DriveBridge/Resuming.antt =====
-- ros2/src/safety_core_ros/src/safety_drive_bridge_node.cpp: a fault latched and cleared in the middle
-- of a safe stop.
use safety_autonomy_core.Common.{
  ℕ, ◌≡◌, refl, ap, ◌∙◌, true, false, List, [], ◌∷◌, ◌++◌, map, length, replicate, if_cases, arith,
}
use safety_autonomy_core.Common.Double.{Double}
use safety_autonomy_core.DriveBridge.{
  SafetyDriveBridgeNode, Twist, state, tick, on_state, zero_twist, publish, control_tick, handle,
  run,
}
use safety_autonomy_core.DriveBridge.Stopping.{remaining, run_follows, follow}

module _ {W : Type 0} ⦃d : Double W⦄ where
  control_tick-faulted :
      (now_ns : ℕ) (n : SafetyDriveBridgeNode W)
      → n.fault_latched ≡ true
      → control_tick now_ns n ≡ publish zero_twist n
  unfolding control_tick
  control_tick-faulted now_ns n f =
      if_cases (λ out. out ≡ publish zero_twist n) n.fault_latched (λ g. refl)
        (λ g. absurd (ground arith))

  resume_from :
      (times : List ℕ) (now_ns : ℕ) (n : SafetyDriveBridgeNode W) (cmd : Twist W)
      (queue : List (Twist W))
      → n.fault_latched ≡ true
      → n.safe_stop_active ≡ true
      → remaining n ≡ cmd ∷ queue
      → (run (map tick times ++ (state false ∷ tick now_ns ∷ [])) n).1
        ≡ replicate (length times) zero_twist ++ (cmd ∷ [])
  unfolding run handle on_state publish
  resume_from [] now_ns n cmd queue f a h =
      run_follows (tick now_ns ∷ []) (on_state false n) a refl (tt, tt) ∙ ap (follow 1) h
  resume_from (t ∷ times) now_ns n cmd queue f a h =
      ap (λ out. out.1 ∷ (run (map tick times ++ (state false ∷ tick now_ns ∷ [])) out.0).1)
        (control_tick-faulted t n f)
      ∙ ap (◌∷◌ zero_twist) (resume_from times now_ns (publish zero_twist n).0 cmd queue f a h)

  -- A safe stop is active and its profile still has speeds left. Through a fault, however many ticks
  -- it lasts, the node publishes standstill, and at the first tick behind it the profile goes on with the
  -- speed at which it was interrupted.
  pub fault_resumes :
      (times : List ℕ) (now_ns : ℕ) (n : SafetyDriveBridgeNode W) (cmd : Twist W)
      (queue : List (Twist W))
      → n.safe_stop_active ≡ true
      → remaining n ≡ cmd ∷ queue
      → (run (state true ∷ (map tick times ++ (state false ∷ tick now_ns ∷ []))) n).1
        ≡ replicate (length times) zero_twist ++ (cmd ∷ [])
  unfolding run handle on_state
  fault_resumes times now_ns n cmd queue a h =
      resume_from times now_ns (on_state true n) cmd queue refl a h
