-- ===== src/Platform.antt =====
-- include/safety_core/platform/: the manual clock, the watchdog, the freshness of sensors and the drive
-- actuator, as one thread uses them.
pub mod Seqlock
use safety_autonomy_core.Common.{
  ℕ, ◌+◌, ◌-◌, ◌≤◌, ◌≡◌, ◌↔◌, Bool, true, false, not, ◌&&◌, ◌||◌, List, [], ◌∷◌, ◌++◌, arith, ltb,
  leb, ◌==◌, if◌then◌else◌,
}
use safety_autonomy_core.Common.Int.{ℤ, pos, ◌+ℤ◌, ◌-ℤ◌, ltb_ℤ, leb_ℤ}
use safety_autonomy_core.Common.Words.{u64, u64_of_i64}
use safety_autonomy_core.Common.Printf.{codes, snprintf, print_unsigned}
use safety_autonomy_core.Time.{Duration, TimePoint}
use safety_autonomy_core.Ports.{Mode}
use safety_autonomy_core.Diag.Topics
use safety_autonomy_core.Diag.Event.{DiagnosticEvent}

pub record ManualClock : Type 0 where
  pub now : TimePoint

-- `ManualClock::set` and `advance`
pub set : TimePoint → ManualClock → ManualClock
set tp c = record c { now = tp }

pub advance : Duration → ManualClock → ManualClock
advance delta c = record c { now = c.now +ℤ delta }

pub record ManualWatchdog : Type 0 where
  pub expired : Bool
  pub kicked : Bool

-- `ManualWatchdog::kick` and `expire`
pub kick : ManualWatchdog → ManualWatchdog
kick w = record w { expired = false; kicked = true }

pub expire : ManualWatchdog → ManualWatchdog
expire w = record w { expired = true }

-- The test that the sensors and the actuator share: `ImuSensor::is_fresh`, `OdometrySensor::is_fresh` and
-- `DriveActuator::is_command_fresh`, on the time stamp that they read.
unfoldable pub is_fresh : ℕ → ℕ → ℕ → Bool
is_fresh timestamp_ns now_ns max_age_ns =
    if timestamp_ns == 0
    then false
    else if ltb now_ns timestamp_ns
    then false
    else leb (now_ns - timestamp_ns) max_age_ns

-- A time stamp is fresh exactly if it is set, not in the future and not older than the limit.
pub is_fresh_iff :
    (timestamp_ns now_ns max_age_ns : ℕ)
    → (is_fresh timestamp_ns now_ns max_age_ns ≡ true)
      ↔ ((1 ≤ timestamp_ns) × (timestamp_ns ≤ now_ns) × (now_ns ≤ timestamp_ns + max_age_ns))
unfolding is_fresh
is_fresh_iff timestamp_ns now_ns max_age_ns = ground arith

pub record DriveCommand (W : Type 0) : Type 0 where
  pub velocity_mps : W
  pub steering_rad : W
  pub timestamp_ns : ℕ

pub record BufferedDriveActuator (W : Type 0) : Type 0 where
  pub last : DriveCommand W
  pub command_count : ℕ

-- `BufferedDriveActuator::command`
pub command : {W : Type 0} → DriveCommand W → BufferedDriveActuator W → BufferedDriveActuator W
command cmd a = record a { last = cmd; command_count = u64 (a.command_count + 1) }

pub record OdometryIncrement (W : Type 0) : Type 0 where
  pub delta_x_m : W
  pub delta_y_m : W
  pub delta_yaw_rad : W
  pub linear_velocity_mps : W
  pub angular_velocity_radps : W
  pub timestamp_ns : ℕ
