-- ===== src/Config.antt =====
-- internal/config/config.go: the configuration, its defaults, the environment and the validation.
pub mod Types
pub mod Defaults
pub mod Loading
pub mod Requirements
pub mod Validity
pub mod Overrides
pub mod Environment
