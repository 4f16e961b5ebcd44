-- ===== src/Backend.antt =====
-- dashboardBackend of internal/runtime/backend.go, behind the requests of the dashboard.
pub mod Listing
pub mod Pages
pub mod Feeds
pub mod Synced
pub mod View
pub mod Imports
pub mod Managed
pub mod Direct
