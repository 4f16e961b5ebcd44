-- ===== src/Config.antt =====
-- internal/runtime/config.go: the configuration of the server and the agent.
pub mod Settings
pub mod Environment
pub mod Checks
pub mod Load
pub mod Sound
pub mod Defaults
