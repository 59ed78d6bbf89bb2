-- ===== src/SensorMonitor.antt =====
-- ros2/src/safety_core_ros/src/sensor_monitor_node.cpp and its header: the monitor of the sensor streams.
-- A node is its parameters and four trackers; a callback takes the times that it reads from the clock
-- and returns what it publishes. The headers of the messages and the logs are left out.
pub mod Metrics
pub mod Windows
pub mod Summary
use safety_autonomy_core.Common.{
  ℕ, ◌+◌, ◌-◌, Bool, true, false, not, ◌&&◌, ◌||◌, List, [], ◌∷◌, ◌++◌, Option, none, some, length,
  ltb, leb, ◌==◌, if◌then◌else◌,
}
use safety_autonomy_core.Common.Words.{sub64}
use safety_autonomy_core.Common.Double.{Double, nought, fmax, fmin, clamp}
use safety_autonomy_core.Common.Printf.{codes}
use safety_autonomy_core.Recovery.{Name}

-- `TimeUtils::seconds_to_nanoseconds` and `nanoseconds_to_seconds`
unfoldable pub seconds_to_nanoseconds : {W : Type 0} ⦃d : Double W⦄ → W → ℕ
seconds_to_nanoseconds ⦃d⦄ seconds = d.to_nat (d.mul seconds (d.dec 1000000000 0))

unfoldable pub nanoseconds_to_seconds : {W : Type 0} ⦃d : Double W⦄ → ℕ → W
nanoseconds_to_seconds ⦃d⦄ nanoseconds = d.mul (d.of_nat nanoseconds) (d.dec 1 9)

-- The constants of `SensorHealth`.
abbrev pub unknown : ℕ
unknown = 0

abbrev pub healthy : ℕ
healthy = 1

abbrev pub degraded : ℕ
degraded = 2

abbrev pub fault : ℕ
fault = 3

pub record StatusSample (W : Type 0) : Type 0 where
  pub timestamp_ns : ℕ
  pub status : ℕ
  pub update_rate_hz : W

pub record SensorTracker (W : Type 0) : Type 0 where
  pub sensor_name : Name
  pub expected_rate_hz : W
  pub last_msg_time_ns : ℕ
  pub msg_times : List ℕ
  pub status_history : List (StatusSample W)

pub record Params (W : Type 0) : Type 0 where
  pub lidar_expected_rate : W
  pub imu_expected_rate : W
  pub gps_expected_rate : W
  pub odometry_expected_rate : W
  pub publish_period_s : W
  pub healthy_threshold : W
  pub degraded_threshold : W
  pub metrics_window_s : W

pub record SensorMonitorNode (W : Type 0) : Type 0 where
  pub params : Params W
  pub lidar_tracker : SensorTracker W
  pub imu_tracker : SensorTracker W
  pub gps_tracker : SensorTracker W
  pub odom_tracker : SensorTracker W

pub record SensorHealth (W : Type 0) : Type 0 where
  pub sensor_name : Name
  pub status : ℕ
  pub update_rate_hz : W
  pub expected_rate_hz : W
  pub data_age_s : W
  pub error_rate : W
  pub detail : List ℕ

-- The loops that drop from the front what is older than a cutoff.
unfoldable pub pop_older : ℕ → List ℕ → List ℕ
pop_older cutoff_ns [] = []
pop_older cutoff_ns (t ∷ times) =
    let rest = pop_older cutoff_ns times in if ltb t cutoff_ns then rest else t ∷ times

unfoldable pub pop_samples : {W : Type 0} → ℕ → List (StatusSample W) → List (StatusSample W)
pop_samples cutoff_ns [] = []
pop_samples cutoff_ns (s ∷ samples) =
    let rest = pop_samples cutoff_ns samples in
    if ltb s.timestamp_ns cutoff_ns then rest else s ∷ samples

-- The start of a window that ends now.
unfoldable pub cutoff_of : ℕ → ℕ → ℕ
cutoff_of now_ns window_ns = if leb window_ns now_ns then now_ns - window_ns else 0

module _ {W : Type 0} where
  -- `record_message`
  unfoldable pub record_message : ℕ → SensorTracker W → SensorTracker W
  record_message now_ns t = record t {
    last_msg_time_ns = now_ns;
    msg_times = t.msg_times ++ (now_ns ∷ []);
  }

  -- The callbacks of the sensors, at the time that the clock shows.
  unfoldable pub on_scan : ℕ → SensorMonitorNode W → SensorMonitorNode W
  on_scan now_ns n = record n { lidar_tracker = record_message now_ns n.lidar_tracker }

  unfoldable pub on_imu : ℕ → SensorMonitorNode W → SensorMonitorNode W
  on_imu now_ns n = record n { imu_tracker = record_message now_ns n.imu_tracker }

  unfoldable pub on_gps : ℕ → SensorMonitorNode W → SensorMonitorNode W
  on_gps now_ns n = record n { gps_tracker = record_message now_ns n.gps_tracker }

  unfoldable pub on_odom : ℕ → SensorMonitorNode W → SensorMonitorNode W
  on_odom now_ns n = record n { odom_tracker = record_message now_ns n.odom_tracker }

  unfoldable pub record_status_sample : ℕ → ℕ → W → SensorTracker W → SensorTracker W
  record_status_sample now_ns status rate t = record t {
    status_history =
        t.status_history
        ++ (record { timestamp_ns = now_ns; status = status; update_rate_hz = rate } ∷ []);
  }

module _ {W : Type 0} ⦃d : Double W⦄ where
  open d use {dec, lt, le, sub, mul, div, of_nat}

  -- `prune_window` and `prune_status_history`
  unfoldable pub prune_window : ℕ → W → SensorTracker W → SensorTracker W
  unfolding pop_older cutoff_of seconds_to_nanoseconds
  prune_window now_ns window_s t = record t {
    msg_times = pop_older (cutoff_of now_ns (seconds_to_nanoseconds window_s)) t.msg_times;
  }

  unfoldable pub prune_status_history : Params W → ℕ → SensorTracker W → SensorTracker W
  unfolding pop_samples cutoff_of seconds_to_nanoseconds
  prune_status_history p now_ns t = record t {
    status_history =
        pop_samples (cutoff_of now_ns (seconds_to_nanoseconds p.metrics_window_s)) t.status_history;
  }

  abbrev new_tracker : Name → W → SensorTracker W
  new_tracker name rate = record {
    sensor_name = name;
    expected_rate_hz = rate;
    last_msg_time_ns = 0;
    msg_times = [];
    status_history = [];
  }

  -- A threshold that the constructor clamps to [0, 1].
  abbrev unit_threshold : W → W
  unit_threshold x = if lt x nought || lt (dec 1 0) x then clamp x nought (dec 1 0) else x

  -- The constructor: `none` where it throws.
  unfoldable pub create : Params W → Option (SensorMonitorNode W)
  create p =
      if le p.publish_period_s nought || le p.metrics_window_s nought
      then none
      else some (record {
        params = record p {
          healthy_threshold = unit_threshold p.healthy_threshold;
          degraded_threshold = unit_threshold p.degraded_threshold;
        };
        lidar_tracker = new_tracker (codes "lidar") p.lidar_expected_rate;
        imu_tracker = new_tracker (codes "imu") p.imu_expected_rate;
        gps_tracker = new_tracker (codes "gps") p.gps_expected_rate;
        odom_tracker = new_tracker (codes "odometry") p.odometry_expected_rate;
      })

  -- The rate in the window, as `build_sensor_msg` measures it.
  unfoldable pub update_rate : Params W → SensorTracker W → W
  update_rate p t =
      if not (length t.msg_times == 0) && lt nought p.publish_period_s
      then div (of_nat (length t.msg_times)) p.publish_period_s
      else nought

  -- The share of the expected messages that is missing.
  unfoldable pub error_rate_of : Params W → SensorTracker W → W → W
  error_rate_of p t rate =
      let expected_msgs = mul t.expected_rate_hz p.publish_period_s in
      let actual_msgs = mul rate p.publish_period_s in
      let error_rate =
        (if lt nought expected_msgs
          then fmax nought (div (sub expected_msgs actual_msgs) expected_msgs)
          else nought) in
      fmin error_rate (dec 1 0)

  -- The status and its detail, from the rate and the age of the last message.
  unfoldable pub status_of : Params W → SensorTracker W → W → W → ℕ × List ℕ
  status_of p t rate data_age_s =
      let has_rate = lt nought t.expected_rate_hz in
      let rate_ratio = if has_rate then div rate t.expected_rate_hz else nought in
      let expected_period_s = if has_rate then div (dec 1 0) t.expected_rate_hz else nought in
      if le p.healthy_threshold rate_ratio && lt data_age_s (mul (dec 2 0) expected_period_s)
      then (healthy, codes "Sensor operating normally")
      else if le p.degraded_threshold rate_ratio && lt data_age_s (mul (dec 5 0) expected_period_s)
      then (degraded, codes "Sensor performance degraded")
      else if lt rate_ratio p.degraded_threshold
      then (fault, codes "Update rate below threshold")
      else (fault, codes "Data age exceeds threshold")

  -- `build_sensor_msg`
  unfoldable pub build_sensor_msg : Params W → ℕ → SensorTracker W → SensorHealth W
  build_sensor_msg p now_ns t =
      let data_age_s = nanoseconds_to_seconds (sub64 now_ns t.last_msg_time_ns) in
      let rate = update_rate p t in
      let (status, detail) = status_of p t rate data_age_s in
      if t.last_msg_time_ns == 0
      then record {
        sensor_name = t.sensor_name;
        status = unknown;
        update_rate_hz = nought;
        expected_rate_hz = t.expected_rate_hz;
        data_age_s = nought;
        error_rate = dec 1 0;
        detail = codes "No messages received";
      }
      else record {
        sensor_name = t.sensor_name;
        status = status;
        update_rate_hz = rate;
        expected_rate_hz = t.expected_rate_hz;
        data_age_s = data_age_s;
        error_rate = error_rate_of p t rate;
        detail = detail;
      }

  -- `publish_sensor_health`
  unfoldable pub publish_sensor_health :
      Params W → ℕ → SensorTracker W → SensorTracker W × SensorHealth W
  publish_sensor_health p now_ns t =
      let msg = build_sensor_msg p now_ns t in
      (record_status_sample now_ns msg.status msg.update_rate_hz t, msg)

  -- `evaluate_tracker`: the worst status so far with its detail.
  unfoldable pub evaluate_tracker : Params W → ℕ → SensorTracker W → ℕ × List ℕ → ℕ × List ℕ
  evaluate_tracker p now_ns t worst =
      let msg = build_sensor_msg p now_ns t in
      if ltb worst.0 msg.status
      then (msg.status, t.sensor_name ++ (codes ": " ++ msg.detail))
      else worst

  -- The prunings of `timer_tick` for one tracker.
  unfoldable pub prune : Params W → ℕ → SensorTracker W → SensorTracker W
  prune p now_ns t = prune_status_history p now_ns (prune_window now_ns p.publish_period_s t)

  -- The summary of the four trackers at the end of `timer_tick`.
  unfoldable pub summary_of : ℕ → SensorMonitorNode W → SensorHealth W
  summary_of now_ns n =
      let p = n.params in
      let after_lidar = evaluate_tracker p now_ns n.lidar_tracker (unknown, []) in
      let after_imu = evaluate_tracker p now_ns n.imu_tracker after_lidar in
      let after_gps = evaluate_tracker p now_ns n.gps_tracker after_imu in
      let (worst_status, detail) = evaluate_tracker p now_ns n.odom_tracker after_gps in
      record {
        sensor_name = codes "all";
        status = worst_status;
        update_rate_hz = nought;
        expected_rate_hz = nought;
        data_age_s = nought;
        error_rate = nought;
        detail = if length detail == 0 then codes "All sensors unknown" else detail;
      }

  -- `timer_tick`, at the seconds since the start and the time that the clock shows: the node, and what
  -- it publishes.
  unfoldable pub timer_tick :
      W → ℕ → SensorMonitorNode W → SensorMonitorNode W × List (SensorHealth W)
  timer_tick elapsed_s now_ns n =
      let p = n.params in
      let (lidar, lidar_msg) = publish_sensor_health p now_ns (prune p now_ns n.lidar_tracker) in
      let (imu, imu_msg) = publish_sensor_health p now_ns (prune p now_ns n.imu_tracker) in
      let (gps, gps_msg) = publish_sensor_health p now_ns (prune p now_ns n.gps_tracker) in
      let (odom, odom_msg) = publish_sensor_health p now_ns (prune p now_ns n.odom_tracker) in
      let n' = record n {
        lidar_tracker = lidar;
        imu_tracker = imu;
        gps_tracker = gps;
        odom_tracker = odom;
      } in
      if lt elapsed_s (dec 2 0)
      then (n, [])
      else (n', lidar_msg ∷ imu_msg ∷ gps_msg ∷ odom_msg ∷ summary_of now_ns n' ∷ [])
