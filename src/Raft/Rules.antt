-- ===== src/Raft/Rules.antt =====
-- What the decisions of raft/node.py rest on: majorities, the commit index, votes and the replies
-- to AppendEntries.
pub mod Quorums
pub mod Commits
pub mod Grants
pub mod Backing
pub mod Merging
pub mod Answers
pub mod Compaction
pub mod Proposals
pub mod Chunks
