-- ===== src/Server.antt =====
-- Server of internal/runtime/server.go: its creation, and the sending of policies to the agent.
pub mod Sync
pub mod Drained
pub mod Create
pub mod Accepted
pub mod Schedule
pub mod Exchange
pub mod Engine
pub mod Run
pub mod Connections
