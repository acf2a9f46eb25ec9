-- ===== src/Apps.antt =====
-- apps/: what a node keeps in its database.
pub mod Objects
pub mod RaftStorage
pub mod Service
mod Tests
