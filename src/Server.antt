-- ===== src/Server.antt =====
-- server/: what a node keeps, and how the log entries change it.
pub mod Machine
pub mod Stores
pub mod Commands
pub mod Handlers
pub mod Sessions
pub mod Reads
pub mod Frames
pub mod View
pub mod Isolation
pub mod Tests
pub mod Snapshots
