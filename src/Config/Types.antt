-- ===== src/Config/Types.antt =====
-- include/safety_core/config/system_config.hpp, migration.hpp and src/config/migration.cpp
use safety_autonomy_core.Common.{
  ℕ, ◌≡◌, ◌⊎◌, ◌↔◌, ◌≤◌, ◌<◌, Bool, true, false, String, arith, ◌==◌, if◌then◌else◌,
}
use safety_autonomy_core.Time.{Duration}

abbrev pub legacy_version : ℕ
legacy_version = 1

abbrev pub current_version : ℕ
current_version = 2

pub record TimingConfig : Type 0 where
  pub control_period : Duration
  pub watchdog_period : Duration
  pub localization_timeout : Duration

pub record MotionEnvelopeConfig (W : Type 0) : Type 0 where
  pub max_speed_mps : W
  pub max_accel_mps2 : W
  pub max_comfort_decel_mps2 : W
  pub control_latency_s : W
  pub safety_buffer_m : W

pub record SystemConfig (W : Type 0) : Type 0 where
  pub timing : TimingConfig
  pub envelope : MotionEnvelopeConfig W
  pub max_tasks : ℕ  -- std::uint8_t
  pub config_version : ℕ  -- std::uint16_t

pub record MigrationResult (W : Type 0) : Type 0 where
  pub ok : Bool
  pub migrated : Bool
  pub config : SystemConfig W
  pub from_version : ℕ
  pub to_version : ℕ
  pub message : String

module _ {W : Type 0} where
  abbrev migration_success : SystemConfig W → Bool → String → ℕ → ℕ → MigrationResult W
  migration_success cfg did_migrate msg from to = record {
    ok = true;
    migrated = did_migrate;
    config = cfg;
    from_version = from;
    to_version = to;
    message = msg;
  }

  abbrev migration_error : String → SystemConfig W → ℕ → ℕ → MigrationResult W
  migration_error msg cfg from to = record {
    ok = false;
    migrated = false;
    config = cfg;
    from_version = from;
    to_version = to;
    message = msg;
  }

  unfoldable pub migrate_to_current : SystemConfig W → MigrationResult W
  migrate_to_current input =
      if input.config_version == current_version
      then migration_success input false "" input.config_version input.config_version
      else if input.config_version == legacy_version
      then migration_success (record input { config_version = current_version }) true
          "migrated config v1 to v2" input.config_version current_version
      else if input.config_version == 0
      then migration_success (record input { config_version = current_version }) true
          "migrated unversioned config to v2" input.config_version current_version
      else migration_error "unsupported future config version" input input.config_version
          current_version

  -- Accepted and brought to the current version, or refused and unchanged.
  abbrev pub IsMigrated : SystemConfig W → Type 0
  IsMigrated c =
      let out = migrate_to_current c in
      let again = migrate_to_current out.config in
      ((out.ok ≡ true)
        × (c.config_version ≤ current_version)
        × (out.config ≡ record c { config_version = current_version })
        × ((out.migrated ≡ false) ↔ (c.config_version ≡ current_version))
        × (again.config ≡ out.config)
        × (again.migrated ≡ false))
      ⊎ ((out.ok ≡ false) × (current_version < c.config_version) × (out.config ≡ c))

  -- Migration accepts exactly the versions up to the current one, brings the configuration to the
  -- current version with every other field kept, and reports a migration exactly when the version
  -- changed; a refused configuration comes back as it was. A second migration changes nothing.
  pub migrate_to_current_lem : (c : SystemConfig W) → IsMigrated c
  unfolding migrate_to_current
  migrate_to_current_lem c = ground arith
