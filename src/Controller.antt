-- ===== src/Controller.antt =====
-- internal/runtime/policy.go: the routes that the lists call for, and how they are brought to the
-- engine when a policy changes, expires or is reconciled.
pub mod Interface
pub mod Routes
pub mod Delta
pub mod Safety
pub mod Apply
pub mod Written
pub mod Removal
pub mod Expired
pub mod Exported
pub mod InStep
pub mod Kept
pub mod Service
pub mod Batch
