-- ===== src/Agent.antt =====
-- The agent of internal/runtime/agent.go and its cursor file.
pub mod Cursor
pub mod Consume
pub mod Replica
pub mod Termination
pub mod Run
pub mod Delivered
