-- ===== src/GpsAdapter.antt =====
-- ros2/src/safety_core_ros/src/gps_covariance_adapter.cpp: the node that scales the covariance of a position.
-- A message is its status, its covariance and the covariance's type; its other fields pass unchanged.
-- The constants of the messages are parameters, the log is left out.
use safety_autonomy_core.Common.{ℕ, ◌≡◌, refl, true, ◌==◌, arith, if◌then◌else◌}
use safety_autonomy_core.Common.Int.{ℤ, eqb_ℤ}
use safety_autonomy_core.Common.Double.{Double, nought}

-- The parameters that the node reads behind its constructor.
pub record Params (W : Type 0) : Type 0 where
  pub multiplier_excellent : W
  pub multiplier_good : W
  pub multiplier_fair : W
  pub multiplier_poor : W

-- The nine entries of `position_covariance`, by rows.
pub record Covariance (W : Type 0) : Type 0 where
  pub xx : W
  pub xy : W
  pub xz : W
  pub yx : W
  pub yy : W
  pub yz : W
  pub zx : W
  pub zy : W
  pub zz : W

pub record NavSatFix (W : Type 0) : Type 0 where
  pub status : ℤ
  pub position_covariance : Covariance W
  pub position_covariance_type : ℕ

-- The constants of `sensor_msgs`.
pub record Constants : Type 0 where
  pub gbas_fix : ℤ
  pub sbas_fix : ℤ
  pub fix : ℤ
  pub covariance_type_unknown : ℕ
  pub covariance_type_known : ℕ

module _ {W : Type 0} ⦃d : Double W⦄ (constants : Constants) where
  open d use {mul, dec}

  -- `get_multiplier_for_status`; no fix and any other status give the same multiplier.
  unfoldable pub get_multiplier_for_status : Params W → ℤ → W
  get_multiplier_for_status p status =
      if eqb_ℤ status constants.gbas_fix
      then p.multiplier_excellent
      else if eqb_ℤ status constants.sbas_fix
      then p.multiplier_good
      else if eqb_ℤ status constants.fix
      then p.multiplier_fair
      else p.multiplier_poor

  -- The covariance that stands for an unknown one.
  abbrev pub base_covariance : Covariance W
  base_covariance = record {
    xx = dec 25 0;
    xy = nought;
    xz = nought;
    yx = nought;
    yy = dec 25 0;
    yz = nought;
    zx = nought;
    zy = nought;
    zz = dec 100 0;
  }

  -- `on_gps`, with the message that it publishes.
  unfoldable pub on_gps : Params W → NavSatFix W → NavSatFix W
  on_gps p msg =
      let multiplier = get_multiplier_for_status p msg.status in
      let c : Covariance W =
        (if msg.position_covariance_type == constants.covariance_type_unknown
          then base_covariance
          else msg.position_covariance) in
      record msg {
        position_covariance = record c {
          xx = mul c.xx multiplier;
          yy = mul c.yy multiplier;
          zz = mul c.zz multiplier;
        };
        position_covariance_type = constants.covariance_type_known;
      }

  -- A message whose covariance is unknown is published with the base covariance scaled, whatever
  -- covariance it carries.
  on_gps_unknown :
      (p : Params W) (msg : NavSatFix W) (c : Covariance W)
      → msg.position_covariance_type ≡ constants.covariance_type_unknown
      → (on_gps p msg).position_covariance
        ≡ (on_gps p (record msg { position_covariance = c })).position_covariance
  unfolding on_gps
  on_gps_unknown p msg c h = rw (same _ _ h) refl
    where
      same : (a b : ℕ) → a ≡ b → (a == b) ≡ true
      same a b e = ground arith
