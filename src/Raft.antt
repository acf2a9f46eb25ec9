-- ===== src/Raft.antt =====
-- raft/: the consensus engine, its data types, its messages and its storage.
pub mod Types
pub mod Log
pub mod Storage
pub mod Rpc
pub mod Engine
pub mod Steps
pub mod Rules
mod Tests
