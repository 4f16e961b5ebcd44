-- ===== src/Sql.antt =====
-- SQLStore of internal/sqlstore/store.go: its tables, its statements, and its transactions.
pub mod Tables
pub mod Sync
pub mod Synced
pub mod Atomic
pub mod Apart
pub mod Feeds
pub mod Policies
pub mod Store
pub mod Open
