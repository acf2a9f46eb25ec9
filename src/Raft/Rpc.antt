-- ===== src/Raft/Rpc.antt =====
-- raft/rpc.py: the messages of the Raft engine, as the values that the handlers get and return.
-- `prev_log_term` is what `term_at` of the sender returned, which can be None.
use distributed_key_value_ca.Prelude.{ℕ, String, Bool, Option, List}
use distributed_key_value_ca.Raft.Types.{LogEntry, Member}

pub record RequestVoteRequest : Type 0 where
  pub term : ℕ
  pub candidate_id : String
  pub last_log_index : ℕ
  pub last_log_term : ℕ
  pub pre_vote : Bool
  pub transfer : Bool

pub record RequestVoteResponse : Type 0 where
  pub term : ℕ
  pub vote_granted : Bool

pub record AppendEntriesRequest : Type 0 where
  pub term : ℕ
  pub leader_id : String
  pub prev_log_index : ℕ
  pub prev_log_term : Option ℕ
  pub entries : List LogEntry
  pub leader_commit : ℕ
  pub leader_address : String

pub record AppendEntriesResponse : Type 0 where
  pub term : ℕ
  pub success : Bool
  pub match_index : ℕ
  pub conflict_index : ℕ

pub record TimeoutNowRequest : Type 0 where
  pub term : ℕ
  pub leader_id : String

pub record TimeoutNowResponse : Type 0 where
  pub term : ℕ

-- `data` is the chunk with the base64 taken off, and `config` the members that its dicts stand for.
pub record InstallSnapshotRequest : Type 0 where
  pub term : ℕ
  pub leader_id : String
  pub last_included_index : ℕ
  pub last_included_term : ℕ
  pub offset : ℕ
  pub chunk : List ℕ
  pub done : Bool
  pub config : List Member
  pub leader_address : String

pub record InstallSnapshotResponse : Type 0 where
  pub term : ℕ
  pub success : Bool
