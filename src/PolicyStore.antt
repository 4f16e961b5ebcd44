-- ===== src/PolicyStore.antt =====
-- internal/policystore/store.go: the CIDR lists with expiries and an audit log, and their file.
pub mod State
pub mod Disk
pub mod Mutate
pub mod Load
pub mod Invariant
pub mod Effects
pub mod Replay
pub mod Recovery
pub mod Accepted
