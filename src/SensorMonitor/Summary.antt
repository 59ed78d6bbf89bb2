-- ===== src/SensorMonitor/Summary.antt =====
-- ros2/src/safety_core_ros/src/sensor_monitor_node.cpp: what the messages of a tick say.
use safety_autonomy_core.Common.{
  ℕ, ◌≤◌, ◌≡◌, ◌==◌, ◌⊎◌, inl, inr, refl, ap, ◌∙◌, true, false, List, [], ◌∷◌, ltb, arith,
  Bool-cases, if_cases, if◌then◌else◌,
}
use safety_autonomy_core.Common.Double.{Double}
use safety_autonomy_core.SensorMonitor.{
  SensorTracker, SensorMonitorNode, SensorHealth, Params, status_of, error_rate_of,
  build_sensor_msg, evaluate_tracker, publish_sensor_health, record_status_sample, prune,
  summary_of, timer_tick, update_rate, unknown, fault, prune_window, prune_status_history,
}

-- The largest of some statuses, 0 of none.
abbrev pub worst : List ℕ → ℕ
worst [] = 0
worst (s ∷ statuses) = if ltb s (worst statuses) then worst statuses else s

worst_of_four :
    (a b c e : ℕ)
    → (let x = if ltb 0 a then a else 0 in
        let y = if ltb x b then b else x in
        let z = if ltb y c then c else y in if ltb z e then e else z)
      ≡ worst (a ∷ b ∷ c ∷ e ∷ [])
worst_of_four a b c e = ground arith

same_worst :
    {a a' b b' c c' e e' : ℕ}
    → a ≡ a'
    → b ≡ b'
    → c ≡ c'
    → e ≡ e'
    → worst (a ∷ b ∷ c ∷ e ∷ []) ≡ worst (a' ∷ b' ∷ c' ∷ e' ∷ [])
same_worst p q r s = rw (p, q, r, s) refl

module _ {W : Type 0} ⦃d : Double W⦄ where
  open d use {lt, dec}

  evaluate_status :
      (p : Params W) (now_ns : ℕ) (t : SensorTracker W) (found : ℕ × List ℕ)
      → (evaluate_tracker p now_ns t found).0 ≡ (
          if ltb found.0 (build_sensor_msg p now_ns t).status
          then (build_sensor_msg p now_ns t).status
          else found.0)
  unfolding evaluate_tracker
  evaluate_status p now_ns t found =
      elim (Bool-cases (ltb found.0 (build_sensor_msg p now_ns t).status)) [
        | inl e ↦ rw e refl
        | inr e ↦ rw e refl
      ]

  -- The sample that a tracker records does not show in a message built at the same time.
  build_recorded :
      (p : Params W) (now_ns at status : ℕ) (rate : W) (t : SensorTracker W)
      → build_sensor_msg p now_ns (record_status_sample at status rate t)
        ≡ build_sensor_msg p now_ns t
  unfolding build_sensor_msg record_status_sample update_rate error_rate_of status_of
  build_recorded p now_ns at status rate t = refl

  -- The message of a tracker: it bears the sensor's name, and its status is unknown exactly if no message
  -- of the sensor has come so far.
  abbrev pub IsHealthOf : SensorTracker W → SensorHealth W → Type 0
  IsHealthOf t msg =
      (msg.sensor_name ≡ t.sensor_name)
      × (((t.last_msg_time_ns ≡ 0) × (msg.status ≡ unknown))
          ⊎ ((1 ≤ t.last_msg_time_ns) × (1 ≤ msg.status) × (msg.status ≤ fault)))

  -- The message of a tracker at the end of a tick.
  abbrev pub message_of : ℕ → SensorMonitorNode W → SensorTracker W → SensorHealth W
  message_of now_ns n t = build_sensor_msg n.params now_ns (prune n.params now_ns t)

  -- The messages of the four sensors, each from its own tracker, and the summary.
  abbrev pub IsReport : ℕ → SensorMonitorNode W → List (SensorHealth W) → Type 0
  IsReport now_ns n msgs =
      let a = message_of now_ns n n.lidar_tracker in
      let b = message_of now_ns n n.imu_tracker in
      let c = message_of now_ns n n.gps_tracker in
      let e = message_of now_ns n n.odom_tracker in
      (all : SensorHealth W) × (msgs ≡ a ∷ b ∷ c ∷ e ∷ all ∷ [])
      × IsHealthOf n.lidar_tracker a
      × IsHealthOf n.imu_tracker b
      × IsHealthOf n.gps_tracker c
      × IsHealthOf n.odom_tracker e
      × (all.status ≡ worst (a.status ∷ b.status ∷ c.status ∷ e.status ∷ []))

  status_of-IsKnown :
      (p : Params W) (t : SensorTracker W) (rate age : W)
      → (1 ≤ (status_of p t rate age).0) × ((status_of p t rate age).0 ≤ fault)
  unfolding status_of
  status_of-IsKnown p t rate age = ground arith

  message_of-IsHealthOf :
      (now_ns : ℕ) (n : SensorMonitorNode W) (t : SensorTracker W)
      → IsHealthOf t (message_of now_ns n t)
  unfolding build_sensor_msg prune prune_status_history prune_window
  message_of-IsHealthOf now_ns n t =
      if_cases (IsHealthOf t) (t.last_msg_time_ns == 0) (λ e. (refl, inl (ground arith, refl)))
        (λ e.
          let (known, bounded) = status_of-IsKnown n.params (prune n.params now_ns t) _ _ in
          (refl, inr (ground arith, known, bounded)))

  summary_status :
      (now_ns : ℕ) (n : SensorMonitorNode W)
      → (summary_of now_ns n).status
        ≡ worst (
            (build_sensor_msg n.params now_ns n.lidar_tracker).status
            ∷ (build_sensor_msg n.params now_ns n.imu_tracker).status
            ∷ (build_sensor_msg n.params now_ns n.gps_tracker).status
            ∷ (build_sensor_msg n.params now_ns n.odom_tracker).status
            ∷ [])
  unfolding summary_of
  summary_status now_ns n =
      let p = n.params in
      let status : SensorTracker W → ℕ = λ t. (build_sensor_msg p now_ns t).status in
      rw
        (
          evaluate_status p now_ns n.odom_tracker _,
          evaluate_status p now_ns n.gps_tracker _,
          evaluate_status p now_ns n.imu_tracker _,
          evaluate_status p now_ns n.lidar_tracker _,
        )
        (worst_of_four (status n.lidar_tracker) (status n.imu_tracker) (status n.gps_tracker)
          (status n.odom_tracker))

  -- The tracker and the message of `publish_sensor_health`.
  build_published :
      (p : Params W) (now_ns : ℕ) (t : SensorTracker W)
      → build_sensor_msg p now_ns (publish_sensor_health p now_ns t).0
        ≡ (publish_sensor_health p now_ns t).1
  unfolding publish_sensor_health
  build_published p now_ns t = build_recorded p now_ns now_ns _ _ t

  published_msg :
      (now_ns : ℕ) (n : SensorMonitorNode W) (t : SensorTracker W)
      → (publish_sensor_health n.params now_ns (prune n.params now_ns t)).1 ≡ message_of now_ns n t
  unfolding publish_sensor_health
  published_msg now_ns n t = refl

  report :
      (now_ns : ℕ) (n : SensorMonitorNode W)
      → let send : SensorTracker W → SensorTracker W × SensorHealth W =
          λ t. publish_sensor_health n.params now_ns (prune n.params now_ns t) in
        let lidar = send n.lidar_tracker in
        let imu = send n.imu_tracker in
        let gps = send n.gps_tracker in
        let odom = send n.odom_tracker in
        let n' = record n {
          lidar_tracker = lidar.0;
          imu_tracker = imu.0;
          gps_tracker = gps.0;
          odom_tracker = odom.0;
        } in
        IsReport now_ns n (lidar.1 ∷ imu.1 ∷ gps.1 ∷ odom.1 ∷ summary_of now_ns n' ∷ [])
  unfolding publish_sensor_health
  report now_ns n = (
    _,
    refl,
    message_of-IsHealthOf now_ns n n.lidar_tracker,
    message_of-IsHealthOf now_ns n n.imu_tracker,
    message_of-IsHealthOf now_ns n n.gps_tracker,
    message_of-IsHealthOf now_ns n n.odom_tracker,
    summary_status now_ns _
        ∙ same_worst (published n.lidar_tracker) (published n.imu_tracker) (published n.gps_tracker)
            (published n.odom_tracker),
  )
    where
      published :
          (t : SensorTracker W)
          → (build_sensor_msg n.params now_ns
              (publish_sensor_health n.params now_ns (prune n.params now_ns t)).0).status
            ≡ (message_of now_ns n t).status
      published t =
          ap (λ msg. msg.status)
            (build_published n.params now_ns (prune n.params now_ns t) ∙ published_msg now_ns n t)

  -- In the first two seconds a tick changes and publishes nothing. Later it publishes the message of each
  -- of the four trackers, pruned, in the order lidar, IMU, GPS, odometry, and a summary, whose status is
  -- the largest of their statuses. Each message bears the name of its sensor, and its status is unknown,
  -- the smallest, exactly if no message of the sensor has come so far.
  pub timer_tick_lem :
      (elapsed_s : W) (now_ns : ℕ) (n : SensorMonitorNode W)
      → ((lt elapsed_s (dec 2 0) ≡ true) × (timer_tick elapsed_s now_ns n ≡ (n, [])))
        ⊎ ((lt elapsed_s (dec 2 0) ≡ false) × IsReport now_ns n (timer_tick elapsed_s now_ns n).1)
  unfolding timer_tick
  timer_tick_lem elapsed_s now_ns n =
      let P : SensorMonitorNode W × List (SensorHealth W) → Type 0 = λ out.
        ((lt elapsed_s (dec 2 0) ≡ true) × (out ≡ (n, [])))
        ⊎ ((lt elapsed_s (dec 2 0) ≡ false) × IsReport now_ns n out.1) in
      if_cases P (lt elapsed_s (dec 2 0)) (λ e. inl (e, refl)) (λ e. inr (e, report now_ns n))
