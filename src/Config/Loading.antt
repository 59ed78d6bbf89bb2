-- ===== src/Config/Loading.antt =====
-- include/safety_core/system, src/system/context_factory.cpp: the context is built from the loaded,
-- migrated and validated configuration. Pointers are kept as whether they are set.
use safety_autonomy_core.Common.{
  ℕ, ◌≡◌, ◌⊎◌, Bool, true, false, not, String, List, ◌++◌, arith, if◌then◌else◌,
}
use safety_autonomy_core.Common.Double.{Double}
use safety_autonomy_core.Common.Printf.{codes, print_unsigned, snprintf}
use safety_autonomy_core.Result.{Result, is_ok, ok_result, fault_result}
use safety_autonomy_core.Ports.{World, Readings, publish_event}
use safety_autonomy_core.Diag.Topics
use safety_autonomy_core.Config.Types.{SystemConfig, migrate_to_current}
use safety_autonomy_core.Config.Validation.{ValidationPolicy, validate}
use safety_autonomy_core.Config.Env.{Environment, load_from_env}

pub record SystemContext : Type 0 where
  pub config : Bool
  pub clock : Bool
  pub health_monitor : Bool
  pub diagnostic_transport : Bool
  pub safety_supervisor : Bool

pub record ContextFactoryOptions (W : Type 0) : Type 0 where
  pub defaults : SystemConfig W
  pub validation_policy : ValidationPolicy
  pub clock : Bool
  pub health_monitor : Bool
  pub diagnostic_transport : Bool
  pub safety_supervisor : Bool

pub record ContextWithConfig (W : Type 0) : Type 0 where
  pub config : SystemConfig W
  pub context : SystemContext

pub migration_payload : String → ℕ → ℕ → List ℕ
migration_payload message from to = snprintf 96 (
    codes message
    ++ (codes " from=" ++ (print_unsigned from ++ (codes " to=" ++ print_unsigned to))))

module _ {W : Type 0} ⦃d : Double W⦄ where
  unfoldable pub build_context :
      Environment
      → Readings
      → ContextFactoryOptions W
      → ContextWithConfig W
      → World
      → ContextWithConfig W × World × Result
  build_context env r options out w =
      let migrated = migrate_to_current (load_from_env env options.defaults) in
      let w' =
        (if migrated.migrated
          then publish_event options.diagnostic_transport options.clock r Topics.config_migration
              (migration_payload migrated.message migrated.from_version migrated.to_version) w
          else w) in
      let validation = validate migrated.config options.validation_policy in
      let w'' =
        (if validation.warning
          then publish_event options.diagnostic_transport options.clock r
              Topics.config_validation_warning (codes validation.message) w'
          else w') in
      if not migrated.ok
      then (out, w, fault_result migrated.message)
      else if not validation.ok
      then (out, w', fault_result validation.message)
      else (
        record {
          config = migrated.config;
          context = record {
            config = true;
            clock = true;
            health_monitor = options.health_monitor;
            diagnostic_transport = options.diagnostic_transport;
            safety_supervisor = options.safety_supervisor;
          };
        },
        w'',
        ok_result,
      )

  -- The context holds the migrated and accepted configuration, or is as it was.
  abbrev pub IsBuilt :
      Environment → Readings → ContextFactoryOptions W → ContextWithConfig W → World → Type 0
  IsBuilt env r options out w =
      let migrated = migrate_to_current (load_from_env env options.defaults) in
      let validation = validate migrated.config options.validation_policy in
      let done = build_context env r options out w in
      ((is_ok done.2 ≡ true)
        × (migrated.ok ≡ true)
        × (validation.ok ≡ true)
        × (done.0.config ≡ migrated.config)
        × (done.0.context.config ≡ true)
        × (done.0.context.clock ≡ true))
      ⊎ ((is_ok done.2 ≡ false)
          × ((migrated.ok ≡ false) ⊎ (validation.ok ≡ false))
          × (done.0 ≡ out))

  -- `build_context` succeeds exactly when the loaded configuration can be migrated and the migrated
  -- one is accepted; then the context holds that configuration and has a configuration and a clock.
  -- Otherwise it returns a fault and the caller's context is as it was.
  pub build_context_lem :
      (env : Environment) (r : Readings) (options : ContextFactoryOptions W)
      (out : ContextWithConfig W) (w : World)
      → IsBuilt env r options out w
  unfolding build_context
  build_context_lem env r options out w =
      let migrated = migrate_to_current (load_from_env env options.defaults) in
      let validation = validate migrated.config options.validation_policy in ground arith
