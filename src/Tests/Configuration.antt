-- ===== src/Tests/Configuration.antt =====
-- The configuration over numbers in millionths.
use safety_autonomy_core.Common.{◌≡◌, refl, true, false, [], ◌∷◌, none, some, arith}
use safety_autonomy_core.Common.Int.{pos}
use safety_autonomy_core.Common.Double.Micro.{Micro, micros, micro_double, Micro-IsOrdered}
use safety_autonomy_core.Config.Types.{SystemConfig}
use safety_autonomy_core.Config.Validation.{
  ValidationPolicy, validate, validate_envelope, validate-IsSafe, IsSafeConfig,
}
use safety_autonomy_core.Config.Env.{IsInRange, Environment, load_from_env}
use safety_autonomy_core.Config.Env.Loaded.{IsLoaded, load_from_env_lem}
use safety_autonomy_core.Config.Loading.{
  ContextFactoryOptions, ContextWithConfig, build_context_lem, IsBuilt,
}
use safety_autonomy_core.Config.Env.Printed.{load_from_env_printed, IsReadAs}
use safety_autonomy_core.Common.Printf.{codes, print_unsigned, digits_before}
use safety_autonomy_core.Tests.Data.{quiet, at_five}

abbrev pub config : SystemConfig Micro
config = record {
  timing = record {
    control_period = pos 10000000;
    watchdog_period = pos 50000000;
    localization_timeout = pos 200000000;
  };
  envelope = record {
    max_speed_mps = micros 1500000;
    max_accel_mps2 = micros 800000;
    max_comfort_decel_mps2 = micros 1000000;
    control_latency_s = micros 100000;
    safety_buffer_m = micros 200000;
  };
  max_tasks = 8;
  config_version = 2;
}

abbrev legacy : SystemConfig Micro
legacy = record config { config_version = 1 }

-- No variable is set.
abbrev unset : Environment
unset name = none

-- Every variable is set to "12".
abbrev twelve : Environment
twelve name = some (49 ∷ 50 ∷ [])

abbrev options : ContextFactoryOptions Micro
options = record {
  defaults = legacy;
  validation_policy = ValidationPolicy.strict;
  clock = true;
  health_monitor = true;
  diagnostic_transport = true;
  safety_supervisor = false;
}

abbrev blank_context : ContextWithConfig Micro
blank_context = record {
  config = config;
  context = record {
    config = false;
    clock = false;
    health_monitor = false;
    diagnostic_transport = false;
    safety_supervisor = false;
  };
}

config_accepted : (validate config ValidationPolicy.strict).ok ≡ true
unfolding validate validate_envelope micro_double
config_accepted = refl

validate-IsSafe_example : IsSafeConfig config
validate-IsSafe_example =
    validate-IsSafe Micro-IsOrdered config ValidationPolicy.strict config_accepted

config-IsInRange : IsInRange config
config-IsInRange = record {
  version = omega arith;
  tasks = omega arith;
  control = record { upper = omega arith; lower = omega arith };
  watchdog = record { upper = omega arith; lower = omega arith };
  localization = record { upper = omega arith; lower = omega arith };
}

load_from_env_lem_example : IsLoaded twelve config (load_from_env twelve config)
load_from_env_lem_example = load_from_env_lem twelve config config-IsInRange

build_context_lem_example : IsBuilt unset at_five options blank_context quiet
build_context_lem_example = build_context_lem unset at_five options blank_context quiet

-- Each variable holds the text of the number 2.
abbrev twos : Environment
twos name = some (codes "2")

abbrev two : Micro
two = micros 2000000

abbrev two_config : SystemConfig Micro
two_config = record {
  timing = record { control_period = pos 2; watchdog_period = pos 2; localization_timeout = pos 2 };
  envelope = record {
    max_speed_mps = two;
    max_accel_mps2 = two;
    max_comfort_decel_mps2 = two;
    control_latency_s = two;
    safety_buffer_m = two;
  };
  max_tasks = 2;
  config_version = 2;
}

two_config-IsInRange : IsInRange two_config
two_config-IsInRange = record {
  version = omega arith;
  tasks = omega arith;
  control = record { upper = omega arith; lower = omega arith };
  watchdog = record { upper = omega arith; lower = omega arith };
  localization = record { upper = omega arith; lower = omega arith };
}

two-IsReadAs : IsReadAs twos "SAFETY_CORE_MAX_SPEED_MPS" two
unfolding micro_double
two-IsReadAs = (codes "2", refl, refl, refl)

load_from_env_printed_example : load_from_env twos config ≡ two_config
unfolding print_unsigned digits_before
load_from_env_printed_example = load_from_env_printed twos two_config config two_config-IsInRange (
  refl, refl, refl, refl, refl, two-IsReadAs, two-IsReadAs, two-IsReadAs, two-IsReadAs,
  two-IsReadAs,
)
