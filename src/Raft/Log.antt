-- ===== src/Raft/Log.antt =====
-- Laws of the log of a node (raft/types.py), for logs whose entries are numbered one after another.
pub mod Ascending
pub mod Runs
pub mod Lookup
pub mod News
pub mod Merge
