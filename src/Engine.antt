-- ===== src/Engine.antt =====
-- internal/bgpengine/engine.go: the configuration check, the admission of peers, the routes handed to
-- GoBGP, and the engine's start and stop.
pub mod Route
pub mod Export
pub mod Exported
pub mod Peers
pub mod Settings
pub mod Lifecycle
pub mod Running
pub mod Sound
