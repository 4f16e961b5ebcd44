-- ===== src/Tests.antt =====
-- The theorems at concrete inputs.
pub mod Samples
mod Routes
mod Stores
mod Sync
mod Edges
mod Setup
mod Tables
mod Serving
mod Exports
mod Running
mod Connections
mod Command
