-- ===== src/Tests/Teleoperating.antt =====
-- The loop of the teleoperation over numbers in millionths.
use safety_autonomy_core.Common.{◌≡◌, inl, refl, true, List, [], ◌∷◌, Option, none, some, All}
use safety_autonomy_core.Common.Double.Micro.{Micro, micros, micro_double, Micro-IsOrdered}
use safety_autonomy_core.Teleop.{TeleopNode, Key, keyboard_loop}
use safety_autonomy_core.Teleop.Commands.{IsPaced, keyboard_loop_lem}

abbrev node : TeleopNode Micro
node = record {
  running = true;
  linear_speed = micros 500000;
  angular_speed = micros 500000;
  linear = micros 0;
  angular = micros 0;
}

abbrev moving : TeleopNode Micro
moving = record node { linear = micros 500000 }

abbrev keys : List (Option Key)
keys = none ∷ some Key.forward ∷ some Key.left ∷ none ∷ some Key.quit ∷ []

abbrev idle : List (Option Key)
idle = none ∷ some Key.other ∷ some Key.stop ∷ none ∷ []

keyboard_loop_lem_example :
    All (IsPaced (micros 500000) (micros 500000)) (keyboard_loop keys node)
    × All (λ published. published ≡ none) (keyboard_loop (some Key.stop ∷ idle) moving)
unfolding micro_double
keyboard_loop_lem_example =
    keyboard_loop_lem Micro-IsOrdered (micros 500000) (micros 500000) keys idle node moving
      (refl, refl, inl refl, inl refl) (refl, (refl, (refl, (refl, tt))))
