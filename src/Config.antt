-- ===== src/Config.antt =====
-- include/safety_core/config, src/config: the configuration, its migration, its validation and the
-- loader from the environment.
pub mod Types
pub mod Validation
pub mod Env
pub mod Loading
