-- ===== src/Raft/Tests.antt =====
-- Engines of raft/node.py over `MemoryRaftStorage`, and what they do.
mod Histories
mod Decisions
use distributed_key_value_ca.Prelude.{ℕ, String, false, Option, List, [], ◌∷◌}
use distributed_key_value_ca.Raft.Types.{Loads, LogEntry, Member}
use distributed_key_value_ca.Raft.Storage.Memory
use distributed_key_value_ca.Raft.Storage.Memory.{MemoryRaftStorage, memory}
use distributed_key_value_ca.Raft.Rpc.{RequestVoteRequest, AppendEntriesRequest}
use distributed_key_value_ca.Raft.Engine.{Engine, Clock}
use distributed_key_value_ca.Raft.Engine.Lifecycle.{Settings, init, fresh_node}
use distributed_key_value_ca.Raft.Engine.Votes.{handle_request_vote}
use distributed_key_value_ca.Raft.Types.{RaftState, last_log_index}

abbrev pub no_config : Loads
no_config command = []

abbrev pub clock : Clock
clock = record { monotonic = 5000; wall = 1000 }

abbrev pub member : String → Member
member name = record { node_id = name; raft_address = name; client_address = name }

abbrev pub settings : Settings
settings = record {
  node_id = "a";
  raft_address = "a";
  election_timeout_min = 150;
  election_timeout_max = 300;
  snapshot_threshold = 100;
  bootstrap = member "a" ∷ member "b" ∷ member "c" ∷ [];
}

abbrev pub engine : Engine MemoryRaftStorage ℕ
engine = init memory no_config settings clock Memory.init

abbrev pub request : RequestVoteRequest
request = record {
  term = 3;
  candidate_id = "b";
  last_log_index = 0;
  last_log_term = 0;
  pre_vote = false;
  transfer = false;
}

abbrev pub voter : Engine MemoryRaftStorage ℕ
voter = (handle_request_vote memory clock request engine).1

abbrev pub restarted : Engine MemoryRaftStorage ℕ
restarted = init memory no_config settings clock voter.storage

abbrev pub entry : ℕ → ℕ → LogEntry
entry term index = record {
  term = term;
  index = index;
  command = "SET k v";
  username = "u";
  request_id = "r";
}

abbrev pub entries : List LogEntry
entries = entry 1 1 ∷ entry 3 2 ∷ entry 3 3 ∷ []

-- a leader with three entries, the last two of them of its term, that "b" has up to the second
abbrev pub leading : Engine MemoryRaftStorage ℕ
leading = record engine {
  node = record (fresh_node "a" 0) {
    state = RaftState.leader;
    current_term = 3;
    log = entries;
    match_index = ("b", 2) ∷ ("c", 0) ∷ [];
  };
}

-- a follower with a conflicting entry at index 2
abbrev pub behind : Engine MemoryRaftStorage ℕ
behind = record engine {
  node = record (fresh_node "a" 0) { current_term = 2; log = entry 1 1 ∷ entry 2 2 ∷ [] };
}

abbrev pub append : Option ℕ → AppendEntriesRequest
append prev_term = record {
  term = 3;
  leader_id = "b";
  prev_log_index = 1;
  prev_log_term = prev_term;
  entries = entry 3 2 ∷ entry 3 3 ∷ [];
  leader_commit = 2;
  leader_address = "b";
}
