-- ===== src/Tests/Watching.antt =====
-- The sensor monitor over numbers in millionths.
use safety_autonomy_core.Common.{ℕ, ◌≡◌, ◌⊎◌, refl, true, false, List, [], ◌∷◌, arith}
use safety_autonomy_core.Common.Printf.{codes}
use safety_autonomy_core.Common.Double.Micro.{Micro, micros, micro_double}
use safety_autonomy_core.SensorMonitor.{
  SensorTracker, SensorMonitorNode, cutoff_of, seconds_to_nanoseconds, timer_tick,
}
use safety_autonomy_core.SensorMonitor.Summary.{IsReport, timer_tick_lem}
use safety_autonomy_core.SensorMonitor.Windows.{
  Call, message, prune, run, keep, messages, last_prune, run_refines,
}
use safety_autonomy_core.Platform.Seqlock
use safety_autonomy_core.Platform.Seqlock.{writes, reads, returned}
use safety_autonomy_core.Platform.Seqlock.Whole.{IsAnyOf, IsTorn, fresh, run-IsAnyOf}

abbrev tracker : List ℕ → SensorTracker Micro
tracker name = record {
  sensor_name = name;
  expected_rate_hz = micros 10000000;
  last_msg_time_ns = 0;
  msg_times = [];
  status_history = [];
}

abbrev calls : List Call
calls = message 100 ∷ message 900000000 ∷ prune 1500000000 ∷ message 1600000000 ∷ []

run_refines_example :
    (run (micros 1000000) calls (tracker (codes "lidar"))).msg_times
    ≡ keep
        (cutoff_of (last_prune 0 calls) (seconds_to_nanoseconds (micros 1000000)))
        (messages calls)
run_refines_example =
    run_refines (micros 1000000) calls (tracker (codes "lidar")) refl
      (omega arith, (omega arith, (omega arith, (omega arith, tt))))

abbrev node : SensorMonitorNode Micro
node = record {
  params = record {
    lidar_expected_rate = micros 10000000;
    imu_expected_rate = micros 10000000;
    gps_expected_rate = micros 10000000;
    odometry_expected_rate = micros 10000000;
    publish_period_s = micros 1000000;
    healthy_threshold = micros 800000;
    degraded_threshold = micros 500000;
    metrics_window_s = micros 60000000;
  };
  lidar_tracker = record (tracker (codes "lidar")) {
    last_msg_time_ns = 2000000000;
    msg_times = 2000000000 ∷ [];
  };
  imu_tracker = tracker (codes "imu");
  gps_tracker = tracker (codes "gps");
  odom_tracker = tracker (codes "odometry");
}

timer_tick_lem_example :
    let elapsed_s = micros 3000000 in
    ((micro_double.lt elapsed_s (micros 2000000) ≡ true)
      × (timer_tick elapsed_s 2500000000 node ≡ (node, [])))
    ⊎ ((micro_double.lt elapsed_s (micros 2000000) ≡ false)
        × IsReport 2500000000 node (timer_tick elapsed_s 2500000000 node).1)
unfolding micro_double
timer_tick_lem_example = timer_tick_lem (micros 3000000) 2500000000 node

-- A reader that starts in the middle of a write, and one write behind it.
run-IsAnyOf_example :
    IsAnyOf {A = ℕ}
      ((1 ∷ 2 ∷ []) ∷ (3 ∷ 4 ∷ []) ∷ [])
      (Seqlock.run {A = ℕ}
        (writes ∷ reads ∷ writes ∷ reads ∷ writes ∷ writes ∷ reads ∷ reads ∷ reads ∷ reads ∷ [])
        (fresh (1 ∷ 2 ∷ []) ((3 ∷ 4 ∷ []) ∷ []))).reader
    × ((Seqlock.run {A = ℕ}
          (reads ∷ reads ∷ reads ∷ reads ∷ reads ∷ [])
          (fresh (1 ∷ 2 ∷ []) ((3 ∷ 4 ∷ []) ∷ []))).reader
        ≡ returned (1 ∷ 2 ∷ []))
    × IsTorn {A = ℕ} (1 ∷ 2 ∷ []) ((3 ∷ 4 ∷ []) ∷ [])
run-IsAnyOf_example =
    run-IsAnyOf
      (writes ∷ reads ∷ writes ∷ reads ∷ writes ∷ writes ∷ reads ∷ reads ∷ reads ∷ reads ∷ [])
      (1 ∷ 2 ∷ []) ((3 ∷ 4 ∷ []) ∷ []) (refl, tt)
      (refl, (refl, (refl, (refl, (refl, (refl, (refl, (refl, (refl, (refl, tt))))))))))
      (omega arith)
