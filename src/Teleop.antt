-- ===== src/Teleop.antt =====
-- ros2/src/safety_core_ros/src/teleop_node.cpp: the node that turns keys into commands. One round of its loop
-- takes the key that it reads, if any, and returns the command that it publishes, if any. The terminal's
-- settings, the texts of the status and the pause between two rounds are left out.
pub mod Commands
use safety_autonomy_core.Common.{
  Bool, true, false, not, ◌&&◌, ◌||◌, List, [], ◌∷◌, Option, none, some, if◌then◌else◌,
}
use safety_autonomy_core.Common.Double.{Double, nought}
use safety_autonomy_core.DriveBridge.{Twist}

pub record TeleopNode (W : Type 0) : Type 0 where
  pub running : Bool
  pub linear_speed : W
  pub angular_speed : W
  pub linear : W
  pub angular : W

-- The keys that the loop tells apart: w, s, a, d, the space, q and the rest.
pub data Key : Type 0 where
  forward backward left right stop quit other : Key

module _ {W : Type 0} ⦃double : Double W⦄ where
  open double use {lt, le, neg, dec}

  -- The constructor with the values of the parameters; it throws where there is none.
  unfoldable pub create : W → W → Option (TeleopNode W)
  create linear_speed angular_speed =
      if lt linear_speed nought || lt (dec 10 0) linear_speed
      then none
      else if lt angular_speed nought || lt (dec 5 0) angular_speed
      then none
      else some (record {
        running = true;
        linear_speed = linear_speed;
        angular_speed = angular_speed;
        linear = nought;
        angular = nought;
      })

  -- What `keyboardLoop` does with a key.
  unfoldable pub on_key : Key → TeleopNode W → TeleopNode W
  on_key Key.forward n = record n { linear = n.linear_speed }
  on_key Key.backward n = record n { linear = neg n.linear_speed }
  on_key Key.left n = record n { angular = n.angular_speed }
  on_key Key.right n = record n { angular = neg n.angular_speed }
  on_key Key.stop n = record n { linear = nought; angular = nought }
  on_key Key.quit n = record n { running = false }
  on_key Key.other n = n

  -- `x != 0.0`, true of NaN.
  abbrev pub is_nonzero : W → Bool
  is_nonzero x = not (le x nought && le nought x)

  -- The command that a round publishes.
  unfoldable pub command : TeleopNode W → Option (Twist W)
  command n =
      if is_nonzero n.linear || is_nonzero n.angular
      then some (record { linear_x = n.linear; angular_z = n.angular })
      else none

  -- A round of `keyboardLoop`.
  unfoldable pub round : Option Key → TeleopNode W → TeleopNode W × Option (Twist W)
  round none n = (n, command n)
  round (some key) n = let n' = on_key key n in (n', command n')

  -- `keyboardLoop` with the keys that its rounds read, and what it publishes.
  unfoldable pub keyboard_loop : List (Option Key) → TeleopNode W → List (Option (Twist W))
  keyboard_loop [] n = []
  keyboard_loop (key ∷ keys) n =
      let (n', published) = round key n in
      let rest = keyboard_loop keys n' in if n.running then published ∷ rest else []
