-- ===== src/Diag/Topics.antt =====
-- include/safety_core/diag/topics.hpp
use safety_autonomy_core.Common.{String}

abbrev pub mode_transition : String
mode_transition = "mode_transition"

abbrev pub fault_latched : String
fault_latched = "fault_latched"

abbrev pub pid_localization_stale : String
pid_localization_stale = "pid.localization_stale"

abbrev pub pid_output : String
pid_output = "pid.output"

abbrev pub executor_task_added : String
executor_task_added = "executor.task_added"

abbrev pub executor_task_run : String
executor_task_run = "executor.task_run"

abbrev pub executor_task_error : String
executor_task_error = "executor.task_error"

abbrev pub executor_deadline_miss : String
executor_deadline_miss = "executor.deadline_miss"

abbrev pub executor_watchdog_exceeded : String
executor_watchdog_exceeded = "executor.watchdog_exceeded"

abbrev pub executor_catch_up_limited : String
executor_catch_up_limited = "executor.catch_up_limited"

abbrev pub config_migration : String
config_migration = "config.migration"

abbrev pub config_validation_warning : String
config_validation_warning = "config.validation_warning"

abbrev pub health_beacon : String
health_beacon = "health.beacon"

abbrev pub safety_monitor_warning : String
safety_monitor_warning = "safety.monitor_warning"

abbrev pub safety_degraded_request : String
safety_degraded_request = "safety.degraded_request"

abbrev pub safety_safe_stop_forced : String
safety_safe_stop_forced = "safety.safestop_forced"
