-- ===== src/SensorMonitor/Metrics.antt =====
-- ros2/src/safety_core_ros/src/sensor_monitor_node.cpp: the metrics over the history of the statuses.
-- `to_float` is the conversion to `float`.
use safety_autonomy_core.Common.{
  ℕ, ◌+◌, ◌-◌, ◌*◌, ◌/◌, ◌%◌, ◌^◌, Bool, false, not, List, [], ◌∷◌, Option, none, some, length, ltb,
  ◌==◌, if◌then◌else◌,
}
use safety_autonomy_core.Common.Int.{ℤ, pos, negsuc}
use safety_autonomy_core.Common.Words.{sub64}
use safety_autonomy_core.Common.Double.{Double, nought}
use safety_autonomy_core.Recovery.{Name}
use safety_autonomy_core.SensorMonitor.{
  StatusSample, SensorTracker, SensorMonitorNode, Params, healthy, degraded, fault,
  seconds_to_nanoseconds, nanoseconds_to_seconds, prune_status_history,
}

pub record SensorHealthMetrics (W : Type 0) : Type 0 where
  pub sensor_name : Name
  pub avg_update_rate_hz : W
  pub min_update_rate_hz : W
  pub healthy_percentage : W
  pub degraded_percentage : W
  pub fault_percentage : W
  pub transition_count : ℕ
  pub window_sec : ℤ
  pub window_nanosec : ℕ

-- The seconds per status, and the changes of status.
pub record Times (W : Type 0) : Type 0 where
  pub healthy_time_s : W
  pub degraded_time_s : W
  pub fault_time_s : W
  pub transitions : ℕ

-- `static_cast<std::int32_t>`
abbrev pub i32 : ℕ → ℤ
i32 n = let w = n % 2 ^ 32 in if ltb w (2 ^ 31) then pos w else negsuc (2 ^ 32 - w - 1)

-- The time of a sample: until the next one, or until now.
unfoldable pub sample_duration : {W : Type 0} → ℕ → StatusSample W → List (StatusSample W) → ℕ
sample_duration now_ns s [] = sub64 now_ns s.timestamp_ns
sample_duration now_ns s (next ∷ samples) = sub64 next.timestamp_ns s.timestamp_ns

-- A change of status against the sample before, if there is one.
abbrev is_transition : {W : Type 0} → Option (StatusSample W) → StatusSample W → Bool
is_transition none s = false
is_transition (some prev) s = not (s.status == prev.status)

module _ {W : Type 0} ⦃d : Double W⦄ where
  open d use {dec, lt, add, mul, div, of_nat}

  -- The loop over the rates: their sum and the smallest.
  unfoldable pub sum_rates : List (StatusSample W) → W → W → W × W
  sum_rates [] total_rate min_rate = (total_rate, min_rate)
  sum_rates (s ∷ samples) total_rate min_rate =
      sum_rates samples (add total_rate s.update_rate_hz)
        (if lt s.update_rate_hz min_rate then s.update_rate_hz else min_rate)

  -- One round of the loop over the times.
  unfoldable pub add_sample :
      ℕ → Option (StatusSample W) → StatusSample W → List (StatusSample W) → Times W → Times W
  unfolding sample_duration
  add_sample now_ns prev s samples t =
      let duration_s = nanoseconds_to_seconds (sample_duration now_ns s samples) in
      record {
        healthy_time_s =
            if s.status == healthy then add t.healthy_time_s duration_s else t.healthy_time_s;
        degraded_time_s =
            if s.status == degraded then add t.degraded_time_s duration_s else t.degraded_time_s;
        fault_time_s = if s.status == fault then add t.fault_time_s duration_s else t.fault_time_s;
        transitions = if is_transition prev s then (t.transitions + 1) % 2 ^ 32 else t.transitions;
      }

  unfoldable pub sum_times : ℕ → Option (StatusSample W) → List (StatusSample W) → Times W → Times W
  unfolding add_sample
  sum_times now_ns prev [] t = t
  sum_times now_ns prev (s ∷ samples) t =
      sum_times now_ns (some s) samples (add_sample now_ns prev s samples t)

  module _ (to_float : W → W) where
    -- The share of the window, or all of it for the status of the first sample.
    unfoldable pub percentage : W → W → ℕ → ℕ → W
    percentage time_s total_window_s status first_status =
        if lt nought total_window_s
        then to_float (mul (div time_s total_window_s) (dec 100 0))
        else if first_status == status
        then dec 100 0
        else nought

    -- `build_metrics_msg`
    unfoldable pub build_metrics_msg : Params W → ℕ → SensorTracker W → SensorHealthMetrics W
    unfolding sum_rates sum_times percentage
    build_metrics_msg p now_ns t = elim t.status_history [
      | [] ↦ record {
        sensor_name = t.sensor_name;
        avg_update_rate_hz = nought;
        min_update_rate_hz = nought;
        healthy_percentage = nought;
        degraded_percentage = nought;
        fault_percentage = nought;
        transition_count = 0;
        window_sec = pos 0;
        window_nanosec = 0;
      }
      | first ∷ later ↦
          let (total_rate, min_rate) =
            sum_rates (first ∷ later) nought (dec (17976931348623157 * 10 ^ 292) 0) in
          let times = sum_times now_ns none (first ∷ later) (record {
            healthy_time_s = nought;
            degraded_time_s = nought;
            fault_time_s = nought;
            transitions = 0;
          }) in
          let total_window_ns = sub64 now_ns first.timestamp_ns in
          let total_window_s = nanoseconds_to_seconds total_window_ns in
          let window_ns = seconds_to_nanoseconds p.metrics_window_s in
          let actual_window_ns =
            if ltb window_ns total_window_ns then window_ns else total_window_ns in
          record {
            sensor_name = t.sensor_name;
            avg_update_rate_hz = to_float (div total_rate (of_nat (length (first ∷ later))));
            min_update_rate_hz = to_float min_rate;
            healthy_percentage =
                percentage times.healthy_time_s total_window_s healthy first.status;
            degraded_percentage =
                percentage times.degraded_time_s total_window_s degraded first.status;
            fault_percentage = percentage times.fault_time_s total_window_s fault first.status;
            transition_count = times.transitions;
            window_sec = i32 (actual_window_ns / 1000000000);
            window_nanosec = actual_window_ns % 1000000000;
          }
    ]

    -- `publish_metrics`
    unfoldable pub publish_metrics :
        ℕ → SensorMonitorNode W → SensorMonitorNode W × List (SensorHealthMetrics W)
    publish_metrics now_ns n =
        let p = n.params in
        let lidar = prune_status_history p now_ns n.lidar_tracker in
        let imu = prune_status_history p now_ns n.imu_tracker in
        let gps = prune_status_history p now_ns n.gps_tracker in
        let odom = prune_status_history p now_ns n.odom_tracker in
        (
          record n {
            lidar_tracker = lidar;
            imu_tracker = imu;
            gps_tracker = gps;
            odom_tracker = odom;
          },
          build_metrics_msg p now_ns lidar
              ∷ build_metrics_msg p now_ns imu
              ∷ build_metrics_msg p now_ns gps
              ∷ build_metrics_msg p now_ns odom
              ∷ [],
        )
