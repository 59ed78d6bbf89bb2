-- ===== src/Recovery/SpeedLimit.antt =====
-- ros2/src/safety_core_ros/include/safety_core_ros/speed_limit_controller.hpp: the speed limit during
-- degradation and recovery.
use safety_autonomy_core.Common.{
  ℕ, ◌≤◌, ◌≡◌, ◌⊎◌, inr, refl, Bool, true, false, List, [], ◌∷◌, Option, none, some, arith, leb,
  All, if◌then◌else◌,
}
use safety_autonomy_core.Common.Words.{sub64}
use safety_autonomy_core.Common.Double.{Double, nought}

pub record SpeedLimitController (W : Type 0) : Type 0 where
  pub max_speed_mps : W
  pub current_limit_mps : W
  pub target_limit_mps : W
  pub ramp_ns : ℕ
  pub ramp_start_ns : Option ℕ

-- The constructor.
unfoldable pub new_limit : {W : Type 0} → W → ℕ → SpeedLimitController W
new_limit max_speed ramp_ns = record {
  max_speed_mps = max_speed;
  current_limit_mps = max_speed;
  target_limit_mps = max_speed;
  ramp_ns = ramp_ns;
  ramp_start_ns = none;
}

-- `on_recovered`
unfoldable pub on_recovered : {W : Type 0} → ℕ → SpeedLimitController W → SpeedLimitController W
on_recovered now_ns c = record c { target_limit_mps = c.max_speed_mps; ramp_start_ns = some now_ns }

-- No tick sees SafeStop.
abbrev pub IsMoving : List (ℕ × Bool) → Type 0
IsMoving = All (λ t. t.1 ≡ false)

module _ {W : Type 0} ⦃d : Double W⦄ where
  open d use {dec, add, sub, mul, div, of_nat}

  -- `update`
  unfoldable pub update : ℕ → Bool → SpeedLimitController W → SpeedLimitController W × W
  update now_ns safe_stop_active c =
      let arrived = record c { current_limit_mps = c.target_limit_mps; ramp_start_ns = none } in
      let degraded_limit = mul c.max_speed_mps (dec 5 1) in
      if safe_stop_active
      then (
        record c { current_limit_mps = nought; target_limit_mps = nought; ramp_start_ns = none },
        nought,
      )
      else elim c.ramp_start_ns [
        | none ↦ (record c { current_limit_mps = c.target_limit_mps }, c.target_limit_mps)
        | some start ↦
            let elapsed_ns = sub64 now_ns start in
            let fraction = div (of_nat elapsed_ns) (of_nat c.ramp_ns) in
            let limit = add degraded_limit (mul (sub c.target_limit_mps degraded_limit) fraction) in
            if leb c.ramp_ns elapsed_ns
            then (arrived, c.target_limit_mps)
            else (record c { current_limit_mps = limit }, limit)
      ]

  -- `on_degraded`
  unfoldable pub on_degraded : SpeedLimitController W → SpeedLimitController W
  on_degraded c = record c {
    target_limit_mps = mul c.max_speed_mps (dec 5 1);
    ramp_start_ns = none;
    current_limit_mps = mul c.max_speed_mps (dec 5 1);
  }

  -- The ticks of a timer, one `update` after another.
  unfoldable pub tick_all : List (ℕ × Bool) → SpeedLimitController W → SpeedLimitController W
  tick_all [] c = c
  tick_all ((now_ns, stop) ∷ ticks) c = tick_all ticks (update now_ns stop c).0

  -- The limit has the target and keeps it, without a ramp.
  abbrev pub IsSettled : W → SpeedLimitController W → Type 0
  IsSettled target c = (c.target_limit_mps ≡ target) × (c.ramp_start_ns ≡ none)

  -- The ramp to the target goes on, or it has ended.
  abbrev pub IsRamping : W → ℕ → ℕ → SpeedLimitController W → Type 0
  IsRamping target ramp start c =
      (c.target_limit_mps ≡ target)
      × (c.ramp_ns ≡ ramp)
      × ((c.ramp_start_ns ≡ none) ⊎ (c.ramp_start_ns ≡ some start))

  update-IsSettled :
      (target : W) (now_ns : ℕ) (c : SpeedLimitController W)
      → IsSettled target c
      → IsSettled target (update now_ns false c).0 × ((update now_ns false c).1 ≡ target)
  unfolding update
  update-IsSettled target now_ns c h = ground arith

  update-IsSettled_stopped :
      (now_ns : ℕ) (stop : Bool) (c : SpeedLimitController W)
      → IsSettled nought c
      → IsSettled nought (update now_ns stop c).0 × ((update now_ns stop c).1 ≡ nought)
  unfolding update
  update-IsSettled_stopped now_ns stop c h = ground arith

  update-IsRamping :
      (target : W) (ramp start now_ns : ℕ) (c : SpeedLimitController W)
      → IsRamping target ramp start c
      → IsRamping target ramp start (update now_ns false c).0
  unfolding update
  update-IsRamping target ramp start now_ns c h = ground arith

  update-arrives :
      (target : W) (ramp start now_ns : ℕ) (c : SpeedLimitController W)
      → IsRamping target ramp start c
      → ramp ≤ sub64 now_ns start
      → (update now_ns false c).1 ≡ target
  unfolding update
  update-arrives target ramp start now_ns c h k = ground arith

  tick_all-IsRamping :
      (target : W) (ramp start : ℕ) (ticks : List (ℕ × Bool)) (c : SpeedLimitController W)
      → IsMoving ticks
      → IsRamping target ramp start c
      → IsRamping target ramp start (tick_all ticks c)
  unfolding tick_all
  tick_all-IsRamping target ramp start [] c k h = h
  tick_all-IsRamping target ramp start ((now_ns, stop) ∷ ticks) c (s, k) h =
      tick_all-IsRamping target ramp start ticks _ k
        (rw s (update-IsRamping target ramp start now_ns c h))

  tick_all-IsSettled :
      (ticks : List (ℕ × Bool)) (c : SpeedLimitController W)
      → IsSettled nought c
      → IsSettled nought (tick_all ticks c)
  unfolding tick_all
  tick_all-IsSettled [] c h = h
  tick_all-IsSettled ((now_ns, stop) ∷ ticks) c h =
      tick_all-IsSettled ticks _ (update-IsSettled_stopped now_ns stop c h).0

  -- After `on_recovered`, whatever ticks without SafeStop come in between, a tick at least the ramp's
  -- duration later gives the full speed.
  pub on_recovered_arrives :
      (start now_ns : ℕ) (ticks : List (ℕ × Bool)) (c : SpeedLimitController W)
      → IsMoving ticks
      → c.ramp_ns ≤ sub64 now_ns start
      → (update now_ns false (tick_all ticks (on_recovered start c))).1 ≡ c.max_speed_mps
  unfolding on_recovered
  on_recovered_arrives start now_ns ticks c k h =
      update-arrives c.max_speed_mps c.ramp_ns start now_ns _
        (tick_all-IsRamping c.max_speed_mps c.ramp_ns start ticks _ k (refl, refl, inr refl)) h

  -- A tick in SafeStop sets the limit to 0, and every later tick, in SafeStop or not, leaves it at 0:
  -- only `on_degraded` and `on_recovered` raise it again.
  pub safe_stop_holds :
      (now_ns later_ns : ℕ) (stop : Bool) (ticks : List (ℕ × Bool)) (c : SpeedLimitController W)
      → let stopped = (update now_ns true c).0 in
        ((update now_ns true c).1 ≡ nought)
        × ((update later_ns stop (tick_all ticks stopped)).1 ≡ nought)
  unfolding update
  safe_stop_holds now_ns later_ns stop ticks c =
      let stopped = (update now_ns true c).0 in
      (
        refl,
        (update-IsSettled_stopped later_ns stop (tick_all ticks stopped)
            (tick_all-IsSettled ticks stopped (refl, refl))).1,
      )
