-- ===== src/Teleop/Commands.antt =====
-- ros2/src/safety_core_ros/src/teleop_node.cpp: the commands that the keys lead to.
use safety_autonomy_core.Common.{
  ◌≡◌, ◌⊎◌, inl, inr, refl, Bool, true, false, ◌||◌, List, [], ◌∷◌, Option, none, some, All, arith,
  if_cases,
}
use safety_autonomy_core.Common.Double.{Double, nought}
use safety_autonomy_core.Common.Double.Laws.{IsOrdered, nought_refl}
use safety_autonomy_core.DriveBridge.{Twist}
use safety_autonomy_core.Teleop.{TeleopNode, Key, on_key, is_nonzero, command, round, keyboard_loop}

-- A round that presses no key for a direction.
abbrev pub is_idle : Option Key → Bool
is_idle none = true
is_idle (some Key.stop) = true
is_idle (some Key.other) = true
is_idle _ = false

module _ {W : Type 0} ⦃double : Double W⦄ where
  open double use {neg}

  -- A speed that is at rest or the given one in either direction.
  abbrev pub IsSpeed : W → W → Type 0
  IsSpeed limit x = (x ≡ nought) ⊎ ((x ≡ limit) ⊎ (x ≡ neg limit))

  abbrev pub IsPaced : W → W → Option (Twist W) → Type 0
  IsPaced linear_speed angular_speed none = Unit
  IsPaced linear_speed angular_speed (some cmd) =
      IsSpeed linear_speed cmd.linear_x × IsSpeed angular_speed cmd.angular_z

  abbrev pub IsHolding : W → W → TeleopNode W → Type 0
  IsHolding linear_speed angular_speed n =
      (n.linear_speed ≡ linear_speed)
      × (n.angular_speed ≡ angular_speed)
      × IsSpeed linear_speed n.linear
      × IsSpeed angular_speed n.angular

  on_key-IsHolding :
      (u v : W) (key : Key) (n : TeleopNode W) → IsHolding u v n → IsHolding u v (on_key key n)
  unfolding on_key
  on_key-IsHolding u v Key.forward n (p, q, l, r) = (p, q, inr (inl p), r)
  on_key-IsHolding u v Key.backward n (p, q, l, r) = (p, q, inr (inr (rw p refl)), r)
  on_key-IsHolding u v Key.left n (p, q, l, r) = (p, q, l, inr (inl q))
  on_key-IsHolding u v Key.right n (p, q, l, r) = (p, q, l, inr (inr (rw q refl)))
  on_key-IsHolding u v Key.stop n (p, q, l, r) = (p, q, inl refl, inl refl)
  on_key-IsHolding u v Key.quit n h = h
  on_key-IsHolding u v Key.other n h = h

  command-IsPaced : (u v : W) (n : TeleopNode W) → IsHolding u v n → IsPaced u v (command n)
  unfolding command
  command-IsPaced u v n (p, q, l, r) =
      if_cases (IsPaced u v) (is_nonzero n.linear || is_nonzero n.angular) (λ e. (l, r)) (λ e. tt)

  round-IsHolding :
      (u v : W) (key : Option Key) (n : TeleopNode W)
      → IsHolding u v n
      → IsHolding u v (round key n).0 × IsPaced u v (round key n).1
  unfolding round
  round-IsHolding u v none n h = (h, command-IsPaced u v n h)
  round-IsHolding u v (some key) n h =
      let h' = on_key-IsHolding u v key n h in (h', command-IsPaced u v (on_key key n) h')

  -- Whatever keys are pressed, every command that the loop publishes has the configured linear speed in one
  -- of its directions or none, and likewise for the angular speed.
  keyboard_loop-IsPaced :
      (u v : W) (keys : List (Option Key)) (n : TeleopNode W)
      → IsHolding u v n
      → All (IsPaced u v) (keyboard_loop keys n)
  unfolding keyboard_loop
  keyboard_loop-IsPaced u v [] n h = tt
  keyboard_loop-IsPaced u v (key ∷ keys) n h =
      let (n', published) = round key n in
      let (h', paced) = round-IsHolding u v key n h in
      let rest = keyboard_loop-IsPaced u v keys n' h' in
      if_cases (All (IsPaced u v)) n.running (λ e. (paced, rest)) (λ e. tt)

  abbrev pub IsResting : TeleopNode W → Type 0
  IsResting n = (n.linear ≡ nought) × (n.angular ≡ nought)

  module _ (laws : IsOrdered W) where
    command_resting : (n : TeleopNode W) → IsResting n → command n ≡ none
    unfolding command
    command_resting n (l, a) = rw (l, a, nought_refl laws) refl

    round-IsResting :
        (key : Option Key) (n : TeleopNode W)
        → is_idle key ≡ true
        → IsResting n
        → IsResting (round key n).0 × ((round key n).1 ≡ none)
    unfolding round on_key
    round-IsResting none n i h = (h, command_resting n h)
    round-IsResting (some Key.stop) n i h = ((refl, refl), command_resting _ (refl, refl))
    round-IsResting (some Key.other) n i h = (h, command_resting n h)
    round-IsResting (some Key.forward) n i h = absurd (ground arith)
    round-IsResting (some Key.backward) n i h = absurd (ground arith)
    round-IsResting (some Key.left) n i h = absurd (ground arith)
    round-IsResting (some Key.right) n i h = absurd (ground arith)
    round-IsResting (some Key.quit) n i h = absurd (ground arith)

    loop_resting :
        (keys : List (Option Key)) (n : TeleopNode W)
        → All (λ key. is_idle key ≡ true) keys
        → IsResting n
        → All (λ published. published ≡ none) (keyboard_loop keys n)
    unfolding keyboard_loop
    loop_resting [] n i h = tt
    loop_resting (key ∷ keys) n (i, is) h =
        let (n', published) = round key n in
        let (h', quiet) = round-IsResting key n i h in
        let rest = loop_resting keys n' is h' in
        if_cases (All (λ p. p ≡ none)) n.running (λ e. (quiet, rest)) (λ e. tt)

    -- Whatever keys are pressed, every command that the loop publishes has the configured linear speed in
    -- one of its directions or none, and likewise for the angular speed. From the space on, until a key
    -- for a direction or q is pressed, the loop publishes nothing: no command for standstill either.
    pub keyboard_loop_lem :
        (u v : W) (keys idle : List (Option Key)) (n stopped : TeleopNode W)
        → IsHolding u v n
        → All (λ key. is_idle key ≡ true) idle
        → All (IsPaced u v) (keyboard_loop keys n)
          × All (λ published. published ≡ none) (keyboard_loop (some Key.stop ∷ idle) stopped)
    unfolding keyboard_loop round on_key
    keyboard_loop_lem u v keys idle n stopped h i =
        let n' = on_key Key.stop stopped in
        (
          keyboard_loop-IsPaced u v keys n h,
          if_cases (All (λ p. p ≡ none)) stopped.running
              (λ e. (command_resting n' (refl, refl), loop_resting idle n' i (refl, refl)))
              (λ e. tt),
        )
