-- ===== src/Diag/Beacon.antt =====
-- include/safety_core/diag/health_beacon_publisher.hpp: the periodic beacon.
use safety_autonomy_core.Common.{
  ℕ, Bool, true, false, not, ◌&&◌, ◌||◌, List, ◌∷◌, ◌++◌, if◌then◌else◌,
}
use safety_autonomy_core.Common.Int.{pos, ◌-ℤ◌, ltb_ℤ, leb_ℤ}
use safety_autonomy_core.Common.Printf.{codes, snprintf, print_unsigned}
use safety_autonomy_core.Time.{Duration, TimePoint}
use safety_autonomy_core.Ports.{Mode, World}
use safety_autonomy_core.Diag.Topics
use safety_autonomy_core.Diag.Event.{make_event}
use safety_autonomy_core.StateMachine.{mode_number}

pub record HealthBeaconPublisher : Type 0 where
  pub transport : Bool
  pub period : Duration
  pub last_publish : TimePoint
  pub has_published : Bool

pub set_transport : Bool → HealthBeaconPublisher → HealthBeaconPublisher
set_transport transport b = record b { transport = transport }

pub set_period : Duration → HealthBeaconPublisher → HealthBeaconPublisher
set_period period b = record b { period = if leb_ℤ period (pos 0) then pos 0 else period }

-- The text of the beacon.
beacon_payload : Mode → Bool → ℕ → ℕ → ℕ → List ℕ
beacon_payload mode fault_latched watchdog_lag_ns topic_truncations payload_truncations =
    snprintf 160 (
      codes "mode="
      ++ (print_unsigned (mode_number mode)
          ++ (codes " fault="
              ++ (print_unsigned (if fault_latched then 1 else 0)
                  ++ (codes " watchdog_lag_ns="
                      ++ (print_unsigned watchdog_lag_ns
                          ++ (codes " topic_trunc="
                              ++ (print_unsigned topic_truncations
                                  ++ (codes " payload_trunc="
                                      ++ print_unsigned payload_truncations)))))))))

-- `publish_if_due`
unfoldable pub publish_if_due :
    TimePoint
    → Mode
    → Bool
    → ℕ
    → ℕ
    → ℕ
    → HealthBeaconPublisher
    → World
    → HealthBeaconPublisher × World × Bool
unfolding beacon_payload
publish_if_due now_tp mode fault_latched watchdog_lag_ns topic_truncations payload_truncations b w =
    let payload =
      beacon_payload mode fault_latched watchdog_lag_ns topic_truncations payload_truncations in
    if not b.transport || leb_ℤ b.period (pos 0)
    then (b, w, false)
    else if b.has_published && ltb_ℤ (now_tp -ℤ b.last_publish) b.period
    then (b, w, false)
    else (
      record b { last_publish = now_tp; has_published = true },
      record w { published = make_event Topics.health_beacon payload now_tp ∷ w.published },
      true,
    )
