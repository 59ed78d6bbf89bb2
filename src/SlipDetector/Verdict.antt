-- ===== src/SlipDetector/Verdict.antt =====
-- ros2/src/safety_core_ros/src/slip_detector_node.cpp: what a tick of the slip detector says.
use safety_autonomy_core.Common.{
  ℕ, ◌≡◌, ◌⊎◌, inl, inr, refl, sym, ap, ap₂, subst⁻¹, Bool, true, false, ◌||◌, List, Option, none,
  some, arith, Bool-cases, if_cases, option_cases,
}
use safety_autonomy_core.Common.Int.{ℤ}
use safety_autonomy_core.Common.Double.{Double, nought}
use safety_autonomy_core.SensorMonitor.{SensorHealth, healthy, degraded}
use safety_autonomy_core.SlipDetector.{
  SlipDetectorNode, SlipDetected, Stamp, Odometry, Imu, Params, magnitude, build_slip_msg,
  build_health_msg, imu_age, report, timer_tick,
}

module _ {W : Type 0} ⦃d : Double W⦄ (exp to_float : W → W) (of_int : ℤ → W)
    (elapsed_s : Stamp → Stamp → W) where
  open d use {lt, abs, sub}

  -- A difference is above its threshold.
  abbrev pub IsExceeded : Params W → W → W → Type 0
  IsExceeded p linear_diff angular_diff =
      (lt p.slip_threshold_mps linear_diff ≡ true)
      ⊎ (lt p.angular_slip_threshold_radps angular_diff ≡ true)

  -- Two messages that agree on whether the wheels slip: without a slip both differences are within
  -- their thresholds, with one the magnitude is a difference above its threshold.
  abbrev pub IsVerdict : Params W → W → W → SlipDetected W → SensorHealth W → Type 0
  IsVerdict p linear_diff angular_diff slip health =
      ((slip.is_slipping ≡ false)
        × (lt p.slip_threshold_mps linear_diff ≡ false)
        × (lt p.angular_slip_threshold_radps angular_diff ≡ false)
        × (slip.slip_magnitude ≡ to_float nought)
        × (slip.slip_ratio ≡ to_float nought)
        × (health.status ≡ healthy))
      ⊎ ((slip.is_slipping ≡ true)
          × ((m : W) × (slip.slip_magnitude ≡ to_float m)
              × (((m ≡ linear_diff) × (lt p.slip_threshold_mps m ≡ true))
                  ⊎ ((m ≡ angular_diff) × (lt p.angular_slip_threshold_radps m ≡ true))))
          × (health.status ≡ degraded))

  magnitude_lem :
      (p : Params W) (linear_diff angular_diff : W)
      → IsExceeded p linear_diff angular_diff
      → let m =
          (magnitude
            (lt p.slip_threshold_mps linear_diff)
            (lt p.angular_slip_threshold_radps angular_diff)
            linear_diff
            angular_diff).0 in
        ((m ≡ linear_diff) × (lt p.slip_threshold_mps m ≡ true))
        ⊎ ((m ≡ angular_diff) × (lt p.angular_slip_threshold_radps m ≡ true))
  unfolding magnitude
  magnitude_lem p linear_diff angular_diff h = ground arith

  -- A tick that has nothing to compare: a message is missing, or the two are too far apart in time.
  abbrev pub IsSilent : SlipDetectorNode W → Type 0
  IsSilent n =
      (n.latest_odom ≡ none)
      ⊎ ((n.latest_imu ≡ none)
          ⊎ ((odom : Odometry W) × (imu : Imu W) × (n.latest_odom ≡ some odom)
              × (n.latest_imu ≡ some imu)
              × (lt n.params.max_imu_age_s (imu_age exp to_float of_int elapsed_s odom imu)
                  ≡ true)))

  -- The result of a tick that compares the latest messages: two messages that agree, whose verdict the
  -- node keeps.
  abbrev pub IsReported :
      SlipDetectorNode W → SlipDetectorNode W × Option (SlipDetected W × SensorHealth W) → Type 0
  IsReported n out =
      (odom : Odometry W) × (imu : Imu W) × (slip : SlipDetected W) × (health : SensorHealth W)
      × (n.latest_odom ≡ some odom)
      × (n.latest_imu ≡ some imu)
      × (lt n.params.max_imu_age_s (imu_age exp to_float of_int elapsed_s odom imu) ≡ false)
      × (out.1 ≡ some (slip, health))
      × (out.0.is_slipping ≡ slip.is_slipping)
      × (out.0.last_slip_magnitude ≡ slip.slip_magnitude)
      × IsVerdict n.params (abs (sub odom.linear_x n.imu_vel_x))
          (abs (sub odom.angular_z imu.angular_velocity_z)) slip health

  slip-IsVerdict :
      (linear_diff angular_diff : W) (detail : List ℕ) (n : SlipDetectorNode W)
      → IsExceeded n.params linear_diff angular_diff
      → IsVerdict n.params linear_diff angular_diff
          (build_slip_msg exp to_float of_int elapsed_s linear_diff angular_diff true n)
          (build_health_msg true detail)
  unfolding build_slip_msg build_health_msg
  slip-IsVerdict linear_diff angular_diff detail n h =
      inr (refl, (_, refl, magnitude_lem n.params linear_diff angular_diff h), refl)

  quiet-IsVerdict :
      (linear_diff angular_diff : W) (detail : List ℕ) (n : SlipDetectorNode W)
      → lt n.params.slip_threshold_mps linear_diff ≡ false
      → lt n.params.angular_slip_threshold_radps angular_diff ≡ false
      → IsVerdict n.params linear_diff angular_diff
          (build_slip_msg exp to_float of_int elapsed_s linear_diff angular_diff false n)
          (build_health_msg false detail)
  unfolding build_slip_msg build_health_msg
  quiet-IsVerdict linear_diff angular_diff detail n e f = inl (refl, e, f, refl, refl, refl)

  verdict_lem :
      (linear_diff angular_diff : W) (detail : List ℕ) (n : SlipDetectorNode W)
      → let slipping =
          lt n.params.slip_threshold_mps linear_diff
          || lt n.params.angular_slip_threshold_radps angular_diff in
        IsVerdict n.params linear_diff angular_diff
          (build_slip_msg exp to_float of_int elapsed_s linear_diff angular_diff slipping n)
          (build_health_msg slipping detail)
  verdict_lem linear_diff angular_diff detail n =
      let a = lt n.params.slip_threshold_mps linear_diff in
      let b = lt n.params.angular_slip_threshold_radps angular_diff in
      let P : Bool → Type 0 = λ slipping.
        IsVerdict n.params linear_diff angular_diff
          (build_slip_msg exp to_float of_int elapsed_s linear_diff angular_diff slipping n)
          (build_health_msg slipping detail) in
      elim (Bool-cases a) [
        | inl e ↦
            subst⁻¹ P (ap (λ c. c || b) e)
              (slip-IsVerdict linear_diff angular_diff detail n (inl e))
        | inr e ↦ elim (Bool-cases b) [
          | inl f ↦
              subst⁻¹ P (ap₂ (λ x y. x || y) e f)
                (slip-IsVerdict linear_diff angular_diff detail n (inr f))
          | inr f ↦
              subst⁻¹ P (ap₂ (λ x y. x || y) e f)
                (quiet-IsVerdict linear_diff angular_diff detail n e f)
        ]
      ]

  build_slip_msg-is_slipping :
      (linear_diff angular_diff : W) (slipping : Bool) (n : SlipDetectorNode W)
      → (build_slip_msg exp to_float of_int elapsed_s linear_diff angular_diff slipping
          n).is_slipping
        ≡ slipping
  unfolding build_slip_msg
  build_slip_msg-is_slipping linear_diff angular_diff true n = refl
  build_slip_msg-is_slipping linear_diff angular_diff false n = refl

  report_lem :
      (odom : Odometry W) (imu : Imu W) (n : SlipDetectorNode W)
      → n.latest_odom ≡ some odom
      → n.latest_imu ≡ some imu
      → lt n.params.max_imu_age_s (imu_age exp to_float of_int elapsed_s odom imu) ≡ false
      → IsReported n (report exp to_float of_int elapsed_s odom imu n)
  unfolding report
  report_lem odom imu n some_odom some_imu near = (
    odom,
    imu,
    _,
    _,
    some_odom,
    some_imu,
    near,
    refl,
    sym (build_slip_msg-is_slipping _ _ _ n),
    refl,
    verdict_lem (abs (sub odom.linear_x n.imu_vel_x))
        (abs (sub odom.angular_z imu.angular_velocity_z)) _ n,
  )

  -- A tick of the detector publishes nothing and changes nothing if a message is missing or the latest
  -- two are farther apart in time than allowed. Otherwise it publishes two messages that agree: if
  -- both differences are within their thresholds, no slip, of magnitude 0, and a healthy odometry; if
  -- not, a slip whose magnitude is one of the differences, above its threshold, and a degraded
  -- odometry. The node keeps what it published.
  pub slip_tick_lem :
      (n : SlipDetectorNode W)
      → ((timer_tick exp to_float of_int elapsed_s n ≡ (n, none)) × IsSilent n)
        ⊎ IsReported n (timer_tick exp to_float of_int elapsed_s n)
  unfolding timer_tick
  slip_tick_lem n =
      option_cases P n.latest_odom (λ none_odom. inl (refl, inl none_odom))
        (λ odom some_odom.
          option_cases P n.latest_imu (λ none_imu. inl (refl, inr (inl none_imu)))
            (λ imu some_imu.
              if_cases P
                (lt n.params.max_imu_age_s (imu_age exp to_float of_int elapsed_s odom imu))
                (λ old. inl (refl, inr (inr (odom, imu, some_odom, some_imu, old))))
                (λ near. inr (report_lem odom imu n some_odom some_imu near))))
    where
      P : SlipDetectorNode W × Option (SlipDetected W × SensorHealth W) → Type 0
      P out = ((out ≡ (n, none)) × IsSilent n) ⊎ IsReported n out
