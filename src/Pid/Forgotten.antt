-- ===== src/Pid/Forgotten.antt =====
-- src/control/safety_pid.cpp: what a controller remembers when its localization has become stale.
use safety_autonomy_core.Common.{◌≡◌, refl, ap, Bool, false, List, [], ◌∷◌, Option, none, some}
use safety_autonomy_core.Common.Double.{Double}
use safety_autonomy_core.Time.{Duration, TimePoint}
use safety_autonomy_core.Ports.{World, Readings, stamp_of}
use safety_autonomy_core.Pid.{
  PidGains, SafetyPidController, localization_valid, mark_localization_update, set_gains, reset,
  compute, compute_forward,
}

-- The calls of a controller: the two overloads of `compute` and the updates between them.
pub data Call (W : Type 0) : Type 0 where
  plain : Readings → W → W → Call W
  feed_forward : Readings → W → W → W → W → Call W
  localized : TimePoint → Call W
  regulated : PidGains W → Call W

-- What a controller keeps of its past.
pub record Past (W : Type 0) : Type 0 where
  pub integral : W
  pub prev_error : W
  pub last_output : W
  pub first_update : Bool
  pub last_update : TimePoint
  pub last_localization_update : TimePoint

-- A controller with another past.
abbrev pub with_past : {W : Type 0} → Past W → SafetyPidController W → SafetyPidController W
with_past past c = record c {
  integral = past.integral;
  prev_error = past.prev_error;
  last_output = past.last_output;
  first_update = past.first_update;
  last_update = past.last_update;
  last_localization_update = past.last_localization_update;
}

module _ {W : Type 0} ⦃d : Double W⦄ (seconds : Duration → W) where
  unfoldable pub call :
      Call W → SafetyPidController W → World → SafetyPidController W × World × Option W
  call (plain r setpoint measurement) c w =
      let (c', w', output) = compute seconds r setpoint measurement c w in (c', w', some output)
  call (feed_forward r setpoint measurement velocity acceleration) c w =
      let (c', w', output) =
        compute_forward seconds r setpoint measurement velocity acceleration c w in
      (c', w', some output)
  call (localized stamp) c w = (mark_localization_update stamp c, w, none)
  call (regulated gains) c w = (set_gains gains c, w, none)

  -- A sequence of calls, with their outputs in order.
  unfoldable pub run :
      List (Call W)
      → SafetyPidController W
      → World
      → SafetyPidController W × World × List (Option W)
  run [] c w = (c, w, [])
  run (k ∷ calls) c w =
      let (c', w', output) = call k c w in
      let (c'', w'', outputs) = run calls c' w' in (c'', w'', output ∷ outputs)

  compute_forgets :
      (r : Readings) (setpoint measurement : W) (c : SafetyPidController W) (past : Past W)
      (w : World)
      → localization_valid c (stamp_of c.clock r) ≡ false
      → localization_valid (with_past past c) (stamp_of c.clock r) ≡ false
      → compute seconds r setpoint measurement c w
        ≡ compute seconds r setpoint measurement (with_past past c) w
  unfolding compute reset
  compute_forgets r setpoint measurement c past w stale stale' = rw (stale, stale') refl

  forward_forgets :
      (r : Readings) (setpoint measurement velocity acceleration : W) (c : SafetyPidController W)
      (past : Past W) (w : World)
      → localization_valid c (stamp_of c.clock r) ≡ false
      → localization_valid (with_past past c) (stamp_of c.clock r) ≡ false
      → compute_forward seconds r setpoint measurement velocity acceleration c w
        ≡ compute_forward seconds r setpoint measurement velocity acceleration (with_past past c) w
  unfolding compute_forward
  forward_forgets r setpoint measurement velocity acceleration c past w stale stale' =
      rw (compute_forgets r setpoint measurement c past w stale stale') refl

  -- Of two controllers with the same settings and any pasts, for both of which the localization has become
  -- stale, the next call of either overload of `compute`, and whatever calls follow it, have the same
  -- outputs and events and leave the same controller: no error, integral, output or time from before
  -- shows any more.
  pub stale_forgets :
      (r : Readings) (setpoint measurement velocity acceleration : W) (calls : List (Call W))
      (c : SafetyPidController W) (past : Past W) (w : World)
      → localization_valid c (stamp_of c.clock r) ≡ false
      → localization_valid (with_past past c) (stamp_of c.clock r) ≡ false
      → (run (plain r setpoint measurement ∷ calls) c w
          ≡ run (plain r setpoint measurement ∷ calls) (with_past past c) w)
        × (run (feed_forward r setpoint measurement velocity acceleration ∷ calls) c w
            ≡ run
                (feed_forward r setpoint measurement velocity acceleration ∷ calls)
                (with_past past c)
                w)
  unfolding run call
  stale_forgets r setpoint measurement velocity acceleration calls c past w stale stale' = (
    ap after (compute_forgets r setpoint measurement c past w stale stale'),
    ap after (forward_forgets r setpoint measurement velocity acceleration c past w stale stale'),
  )
    where
      after : SafetyPidController W × World × W → SafetyPidController W × World × List (Option W)
      after (c', w', output) =
          let (c'', w'', outputs) = run calls c' w' in (c'', w'', some output ∷ outputs)
