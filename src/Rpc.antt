-- ===== src/Rpc.antt =====
-- internal/agentrpc/session.go: the policy-sync transport between server and agent.
pub mod Message
pub mod Session
pub mod Bounds
pub mod Receipt
