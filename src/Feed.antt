-- ===== src/Feed.antt =====
-- internal/feed: the parsing of feeds (feed.go), and their management (manager.go).
pub mod Parse
pub mod Expand
pub mod Unique
pub mod Public
pub mod Manager
pub mod Diff
pub mod Open
pub mod Fetch
pub mod Fetched
pub mod Rounds
