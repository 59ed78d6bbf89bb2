-- ===== src/SlipDetector.antt =====
-- ros2/src/safety_core_ros/src/slip_detector_node.cpp and its header: the detector of wheel slip. A message
-- is what the handlers read of it, and its callbacks run one at a time. `std::exp`, the conversions to
-- float and from `int32`, and the time between two stamps in `rclcpp::Time` are parameters; the headers of
-- the messages and the logs are left out.
pub mod Verdict
use safety_autonomy_core.Common.{
  ℕ, Bool, true, false, not, ◌&&◌, ◌||◌, List, [], ◌∷◌, ◌++◌, Option, none, some, if◌then◌else◌,
}
use safety_autonomy_core.Common.Int.{ℤ}
use safety_autonomy_core.Common.Double.{Double, nought, fmax}
use safety_autonomy_core.Common.Printf.{codes}
use safety_autonomy_core.SensorMonitor.{SensorHealth, healthy, degraded}

-- `builtin_interfaces::msg::Time`
pub record Stamp : Type 0 where
  pub sec : ℤ
  pub nanosec : ℕ

pub record Odometry (W : Type 0) : Type 0 where
  pub stamp : Stamp
  pub linear_x : W
  pub angular_z : W

pub record Imu (W : Type 0) : Type 0 where
  pub stamp : Stamp
  pub linear_acceleration_x : W
  pub angular_velocity_z : W

pub record Params (W : Type 0) : Type 0 where
  pub slip_threshold_mps : W
  pub angular_slip_threshold_radps : W
  pub imu_vel_decay_time_s : W
  pub publish_period_s : W
  pub max_imu_age_s : W
  pub stationary_threshold_mps : W

pub record SlipDetectorNode (W : Type 0) : Type 0 where
  pub params : Params W
  pub latest_odom : Option (Odometry W)
  pub latest_imu : Option (Imu W)
  pub imu_vel_x : W
  pub last_imu_time : Option Stamp  -- `last_imu_time_`, and `have_imu_time_` where it is set
  pub is_slipping : Bool
  pub last_slip_magnitude : W
  pub last_slip_ratio : W
  pub last_detail : List ℕ

pub record SlipDetected (W : Type 0) : Type 0 where
  pub is_slipping : Bool
  pub slip_magnitude : W
  pub slip_ratio : W
  pub detail : List ℕ

module _ {W : Type 0} ⦃d : Double W⦄ where
  open d use {lt, le, add, sub, mul, div, neg, abs, dec, of_nat, print}

  -- The constructor with the values of the parameters; it throws where there is none.
  unfoldable pub create : Params W → Option (SlipDetectorNode W)
  create p =
      if le p.imu_vel_decay_time_s nought
      then none
      else if le p.publish_period_s nought
      then none
      else some (record {
        params = record p {
          slip_threshold_mps =
              if lt p.slip_threshold_mps nought then nought else p.slip_threshold_mps;
          angular_slip_threshold_radps =
              if lt p.angular_slip_threshold_radps nought
              then nought
              else p.angular_slip_threshold_radps;
        };
        latest_odom = none;
        latest_imu = none;
        imu_vel_x = nought;
        last_imu_time = none;
        is_slipping = false;
        last_slip_magnitude = nought;
        last_slip_ratio = nought;
        last_detail = [];
      })

  -- `on_odom`
  unfoldable pub on_odom : Odometry W → SlipDetectorNode W → SlipDetectorNode W
  on_odom msg n = record n { latest_odom = some msg }

  -- `build_health_msg`
  unfoldable pub build_health_msg : Bool → List ℕ → SensorHealth W
  build_health_msg is_slipping detail = record {
    sensor_name = codes "wheel_odometry";
    status = if is_slipping then degraded else healthy;
    update_rate_hz = nought;
    expected_rate_hz = nought;
    data_age_s = nought;
    error_rate = if is_slipping then dec 1 0 else nought;
    detail =
        if is_slipping
        then elim detail [ [] ↦ codes "Wheel slip detected" | c ∷ cs ↦ c ∷ cs ]
        else codes "Wheel odometry consistent with IMU";
  }

  -- The text of the health message and the log, from the two differences.
  unfoldable pub detail_of : Bool → Bool → W → W → List ℕ
  detail_of linear_slip angular_slip linear_diff angular_diff =
      if linear_slip && angular_slip
      then codes "combined slip (linear: "
        ++ (print linear_diff
            ++ (codes " m/s, angular: " ++ (print angular_diff ++ codes " rad/s)")))
      else if linear_slip
      then codes "linear slip (diff: " ++ (print linear_diff ++ codes " m/s)")
      else if angular_slip
      then codes "angular slip (diff: " ++ (print angular_diff ++ codes " rad/s)")
      else []

  -- What a slip is reported as: the difference that dominates.
  unfoldable pub magnitude : Bool → Bool → W → W → W × List ℕ
  magnitude linear_slip angular_slip linear_diff angular_diff =
      if linear_slip && angular_slip
      then (fmax linear_diff angular_diff, codes "combined slip")
      else if linear_slip
      then (linear_diff, codes "linear slip")
      else (angular_diff, codes "angular slip")

  -- The speed that the odometry gives, 0.0 before the first of its messages.
  abbrev pub expected_speed : SlipDetectorNode W → W
  expected_speed n = elim n.latest_odom [ none ↦ nought | some odom ↦ abs odom.linear_x ]

  module _ (exp to_float : W → W) (of_int : ℤ → W) (elapsed_s : Stamp → Stamp → W) where
    -- `update_imu_velocity_estimate`
    unfoldable pub update_imu_velocity_estimate :
        Imu W → W → SlipDetectorNode W → SlipDetectorNode W
    update_imu_velocity_estimate msg dt n =
        if le dt nought || lt (dec 5 1) dt then n else record n {
          imu_vel_x =
              mul (add n.imu_vel_x (mul msg.linear_acceleration_x dt))
                (exp (div (neg dt) n.params.imu_vel_decay_time_s));
        }

    -- `on_imu`
    unfoldable pub on_imu : Imu W → SlipDetectorNode W → SlipDetectorNode W
    on_imu msg n =
        let received = record n { latest_imu = some msg } in
        let estimated : SlipDetectorNode W = elim n.last_imu_time [
          | none ↦ received
          | some last ↦ update_imu_velocity_estimate msg (elapsed_s msg.stamp last) received
        ] in
        record estimated { last_imu_time = some msg.stamp }

    -- `build_slip_msg`
    unfoldable pub build_slip_msg : W → W → Bool → SlipDetectorNode W → SlipDetected W
    build_slip_msg linear_diff angular_diff is_slipping n =
        let (slip_magnitude, detail) =
          magnitude (lt n.params.slip_threshold_mps linear_diff)
            (lt n.params.angular_slip_threshold_radps angular_diff) linear_diff angular_diff in
        let expected = expected_speed n in
        if is_slipping
        then record {
          is_slipping = is_slipping;
          slip_magnitude = to_float slip_magnitude;
          slip_ratio = to_float (
              if lt n.params.stationary_threshold_mps expected
              then mul (div slip_magnitude expected) (dec 100 0)
              else dec 100 0);
          detail = detail;
        }
        else record {
          is_slipping = is_slipping;
          slip_magnitude = to_float nought;
          slip_ratio = to_float nought;
          detail = codes "no slip";
        }

    -- `imu_age` of `timer_tick`
    unfoldable pub imu_age : Odometry W → Imu W → W
    imu_age odom imu =
        let seconds : Stamp → W = λ s. add (of_int s.sec) (mul (of_nat s.nanosec) (dec 1 9)) in
        abs (sub (seconds odom.stamp) (seconds imu.stamp))

    -- `timer_tick` behind its guards.
    unfoldable pub report :
        Odometry W
        → Imu W
        → SlipDetectorNode W
        → SlipDetectorNode W × Option (SlipDetected W × SensorHealth W)
    report odom imu n =
        let linear_diff = abs (sub odom.linear_x n.imu_vel_x) in
        let angular_diff = abs (sub odom.angular_z imu.angular_velocity_z) in
        let linear_slip = lt n.params.slip_threshold_mps linear_diff in
        let angular_slip = lt n.params.angular_slip_threshold_radps angular_diff in
        let is_slipping = linear_slip || angular_slip in
        let slip_msg = build_slip_msg linear_diff angular_diff is_slipping n in
        let detail = detail_of linear_slip angular_slip linear_diff angular_diff in
        (
          record n {
            is_slipping = is_slipping;
            last_slip_magnitude = slip_msg.slip_magnitude;
            last_slip_ratio = slip_msg.slip_ratio;
            last_detail = detail;
          },
          some (slip_msg, build_health_msg is_slipping detail),
        )

    -- `timer_tick`, with the two messages where it publishes any.
    unfoldable pub timer_tick :
        SlipDetectorNode W → SlipDetectorNode W × Option (SlipDetected W × SensorHealth W)
    timer_tick n = elim n.latest_odom [
      | none ↦ (n, none)
      | some odom ↦ elim n.latest_imu [
        | none ↦ (n, none)
        | some imu ↦
            if lt n.params.max_imu_age_s (imu_age odom imu) then (n, none) else report odom imu n
      ]
    ]
