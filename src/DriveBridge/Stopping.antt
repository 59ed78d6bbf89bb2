-- ===== src/DriveBridge/Stopping.antt =====
-- ros2/src/safety_core_ros/src/safety_drive_bridge_node.cpp: a safe stop as a queue of commands that the
-- ticks take from, one after the other, and standstill behind its end.
use safety_autonomy_core.Common.{
  ℕ, zero, suc, ◌+◌, ◌≡◌, ◌⊎◌, inl, inr, refl, sym, ap, ◌∙◌, subst⁻¹, Bool, true, false, List, [],
  ◌∷◌, ◌++◌, map, none, some, get_elem?, drop, drop-get_elem?, drop-eq-nil, All, arith, Bool-cases,
  Option-cases, if_cases, option_cases, if◌then◌else◌,
}
use safety_autonomy_core.Common.Double.{Double, nought}
use safety_autonomy_core.Motion.{TrajectoryPoint}
use safety_autonomy_core.DriveBridge.{
  SafetyDriveBridgeNode, Twist, Event, cmd_vel_nav, envelope, safe_stop, state, odom,
  recovery_speed_limit, tick, on_cmd_vel_nav, on_envelope, on_safe_stop, on_state, on_odom,
  on_recovery_speed_limit, zero_twist, publish, next_of_profile, execute_stop_profile, control_tick,
  handle, run,
}

-- Callbacks that neither end the safe stop nor latch a fault.
abbrev pub IsQuiet : {W : Type 0} → Event W → Type 0
IsQuiet (safe_stop requested) = requested ≡ true
IsQuiet (state fault_latched) = fault_latched ≡ false
IsQuiet _ = Unit

abbrev pub ticks : {W : Type 0} → List (Event W) → ℕ
ticks [] = 0
ticks (tick now_ns ∷ events) = suc (ticks events)
ticks (_ ∷ events) = ticks events

module _ {W : Type 0} ⦃d : Double W⦄ where
  abbrev twist_of : TrajectoryPoint W → Twist W
  twist_of p = record { linear_x = p.speed_mps; angular_z = nought }

  -- The commands of the profile that are still to come.
  abbrev pub remaining : SafetyDriveBridgeNode W → List (Twist W)
  remaining n =
      if n.stop_profile_active then map twist_of (drop n.stop_profile_index n.stop_profile) else []

  -- The commands that a number of ticks takes from a queue.
  abbrev pub follow : ℕ → List (Twist W) → List (Twist W)
  follow zero queue = []
  follow (suc k) [] = zero_twist ∷ follow k []
  follow (suc k) (cmd ∷ queue) = cmd ∷ follow k queue

  record IsStopping (n : SafetyDriveBridgeNode W) : Type 0 where
    active : n.safe_stop_active ≡ true
    unlatched : n.fault_latched ≡ false

  -- A tick takes the first command of the queue, if there is one.
  abbrev IsTaken : List (Twist W) → SafetyDriveBridgeNode W × Twist W → Type 0
  IsTaken queue (n, cmd) =
      IsStopping n
      × (((queue ≡ []) × (remaining n ≡ []) × (cmd ≡ zero_twist)) ⊎ (queue ≡ cmd ∷ remaining n))

  remaining-none : (n : SafetyDriveBridgeNode W) → execute_stop_profile n ≡ none → remaining n ≡ []
  unfolding execute_stop_profile next_of_profile
  remaining-none n h = elim (Bool-cases n.stop_profile_active) [
    | inr a ↦ ground arith
    | inl a ↦ elim (Option-cases (get_elem? n.stop_profile n.stop_profile_index)) [
      | inl e ↦ ground (arith, drop-eq-nil n.stop_profile n.stop_profile_index e)
      | inr (p, e) ↦ absurd (ground arith)
    ]
  ]

  abbrev stepped : TrajectoryPoint W → SafetyDriveBridgeNode W → SafetyDriveBridgeNode W
  stepped p n = record n {
    stop_profile_index = n.stop_profile_index + 1;
    last_published_linear = p.speed_mps;
  }

  remaining-stepped :
      (n : SafetyDriveBridgeNode W) (p : TrajectoryPoint W)
      → n.stop_profile_active ≡ true
      → get_elem? n.stop_profile n.stop_profile_index ≡ some p
      → remaining n ≡ twist_of p ∷ remaining (stepped p n)
  remaining-stepped n p a e = rw a (
      ap (map twist_of) (drop-get_elem? n.stop_profile n.stop_profile_index p e)
      ∙ ap (λ i. twist_of p ∷ map twist_of (drop i n.stop_profile)) later)
    where
      later : suc n.stop_profile_index ≡ n.stop_profile_index + 1
      later = omega arith

  executed :
      (n : SafetyDriveBridgeNode W) (out : SafetyDriveBridgeNode W × Twist W)
      → execute_stop_profile n ≡ some out
      → IsStopping n
      → IsStopping out.0 × (remaining n ≡ out.1 ∷ remaining out.0)
  unfolding execute_stop_profile next_of_profile publish
  executed n out h s = elim (Bool-cases n.stop_profile_active) [
    | inr a ↦ absurd (ground arith)
    | inl a ↦ elim (Option-cases (get_elem? n.stop_profile n.stop_profile_index)) [
      | inl e ↦ absurd (ground arith)
      | inr (p, e) ↦
          let eq : out ≡ (stepped p n, twist_of p) = ground arith in
          subst⁻¹ (λ o. IsStopping o.0 × (remaining n ≡ o.1 ∷ remaining o.0)) eq
            (record { active = s.active; unlatched = s.unlatched }, remaining-stepped n p a e)
    ]
  ]

  publish-IsStopping :
      (cmd : Twist W) (n : SafetyDriveBridgeNode W) → IsStopping n → IsStopping (publish cmd n).0
  unfolding publish
  publish-IsStopping cmd n s = record { active = s.active; unlatched = s.unlatched }

  remaining-publish :
      (cmd : Twist W) (n : SafetyDriveBridgeNode W) → remaining (publish cmd n).0 ≡ remaining n
  unfolding publish
  remaining-publish cmd n = refl

  publish_command : (cmd : Twist W) (n : SafetyDriveBridgeNode W) → (publish cmd n).1 ≡ cmd
  unfolding publish
  publish_command cmd n = refl

  control_tick-IsTaken :
      (now_ns : ℕ) (n : SafetyDriveBridgeNode W)
      → IsStopping n
      → IsTaken (remaining n) (control_tick now_ns n)
  unfolding control_tick
  control_tick-IsTaken now_ns n s =
      let P : SafetyDriveBridgeNode W × Twist W → Type 0 = IsTaken (remaining n) in
      if_cases P n.fault_latched (λ f. absurd (ground (arith, s.unlatched)))
        (λ f.
          if_cases P n.safe_stop_active
            (λ a.
              option_cases P (execute_stop_profile n)
                (λ e. (
                  publish-IsStopping zero_twist n s,
                  inl (
                    remaining-none n e,
                    remaining-publish zero_twist n ∙ remaining-none n e,
                    publish_command zero_twist n,
                  ),
                ))
                (λ out e. let (s', h) = executed n out e s in (s', inr h)))
            (λ a. absurd (ground (arith, s.active))))

  -- A request to stop changes nothing while the stop is active.
  on_safe_stop_again :
      (requested : Bool) (n : SafetyDriveBridgeNode W)
      → requested ≡ true
      → IsStopping n
      → IsStopping (on_safe_stop requested n) × (remaining (on_safe_stop requested n) ≡ remaining n)
  unfolding on_safe_stop
  on_safe_stop_again requested n e s = (
    record { active = ground (arith, s.active); unlatched = ground (arith, s.active, s.unlatched) },
    ground (arith, s.active),
  )

  handle-IsStopping :
      (e : Event W) (n : SafetyDriveBridgeNode W)
      → IsQuiet e
      → IsStopping n
      → IsStopping (handle e n).0
  unfolding handle on_cmd_vel_nav on_envelope on_state on_odom on_recovery_speed_limit
  handle-IsStopping (safe_stop requested) n q s = (on_safe_stop_again requested n q s).0
  handle-IsStopping (tick now_ns) n q s = (control_tick-IsTaken now_ns n s).0
  handle-IsStopping (state fault_latched) n q s = record { active = s.active; unlatched = q }
  handle-IsStopping (cmd_vel_nav cmd now_ns) n q s = record {
    active = s.active;
    unlatched = s.unlatched;
  }
  handle-IsStopping (envelope zone limit) n q s = record {
    active = s.active;
    unlatched = s.unlatched;
  }
  handle-IsStopping (odom speed) n q s = record { active = s.active; unlatched = s.unlatched }
  handle-IsStopping (recovery_speed_limit limit) n q s = record {
    active = s.active;
    unlatched = s.unlatched;
  }

  follow_taken :
      (k : ℕ) (queue : List (Twist W)) (n : SafetyDriveBridgeNode W) (cmd : Twist W)
      → IsTaken queue (n, cmd)
      → cmd ∷ follow k (remaining n) ≡ follow (suc k) queue
  follow_taken k queue n cmd (_, inl (empty, empty', zero_cmd)) =
      rw (empty, zero_cmd) (ap (λ q. zero_twist ∷ follow k q) empty')
  follow_taken k queue n cmd (_, inr e) = sym (ap (follow (suc k)) e)

  handle_follows :
      (e : Event W) (events : List (Event W)) (n : SafetyDriveBridgeNode W)
      → IsQuiet e
      → IsStopping n
      → (handle e n).1 ++ follow (ticks events) (remaining (handle e n).0)
        ≡ follow (ticks (e ∷ events)) (remaining n)
  unfolding handle on_cmd_vel_nav on_envelope on_state on_odom on_recovery_speed_limit
  handle_follows (safe_stop requested) events n q s =
      ap (follow (ticks events)) (on_safe_stop_again requested n q s).1
  handle_follows (tick now_ns) events n q s =
      follow_taken (ticks events) (remaining n) _ _ (control_tick-IsTaken now_ns n s)
  handle_follows (state fault_latched) events n q s = refl
  handle_follows (cmd_vel_nav cmd now_ns) events n q s = refl
  handle_follows (envelope zone limit) events n q s = refl
  handle_follows (odom speed) events n q s = refl
  handle_follows (recovery_speed_limit limit) events n q s = refl

  follow_from :
      (events : List (Event W)) (n : SafetyDriveBridgeNode W)
      → All IsQuiet events
      → IsStopping n
      → (run events n).1 ≡ follow (ticks events) (remaining n)
  unfolding run
  follow_from [] n q s = refl
  follow_from (e ∷ events) n (quiet, q) s =
      ap (λ outs. (handle e n).1 ++ outs)
        (follow_from events (handle e n).0 q (handle-IsStopping e n quiet s))
      ∙ handle_follows e events n quiet s

  -- During a safe stop, with no fault latched, and whatever commands, limits, speeds and further
  -- requests to stop arrive, the commands that the node publishes are those that its ticks take from
  -- the queue of the stop profile's remaining speeds, in their order, and standstill behind its end.
  pub run_follows :
      (events : List (Event W)) (n : SafetyDriveBridgeNode W)
      → n.safe_stop_active ≡ true
      → n.fault_latched ≡ false
      → All IsQuiet events
      → (run events n).1 ≡ follow (ticks events) (remaining n)
  run_follows events n a f q = follow_from events n q (record { active = a; unlatched = f })
