-- ===== src/Raft/Steps.antt =====
-- raft/node.py as a whole: what can happen to an engine, one critical section at a time, and a crash
-- with a new start from the storage. The sections of ReadIndex and Forward, of the membership commands,
-- of the transfer on the sending side, of sending a snapshot and of the end of a replicator are not among
-- them.
pub mod Durable
pub mod Ballots
use distributed_key_value_ca.Prelude.{ℕ, String, Option, List}
use distributed_key_value_ca.Raft.Types.{Loads, LogEntry, Member}
use distributed_key_value_ca.Raft.Storage.{RaftStorage}
use distributed_key_value_ca.Raft.Rpc.{
  RequestVoteRequest, RequestVoteResponse, AppendEntriesRequest, AppendEntriesResponse,
  InstallSnapshotRequest, TimeoutNowRequest,
}
use distributed_key_value_ca.Raft.Log.Runs.{Runs}
use distributed_key_value_ca.Raft.Engine.{Engine, Clock}
use distributed_key_value_ca.Raft.Engine.Votes.{
  handle_request_vote, start_election, on_pre_vote_response, on_vote_response, handle_timeout_now,
}
use distributed_key_value_ca.Raft.Engine.Replication.{handle_append_entries, on_append_response}
use distributed_key_value_ca.Raft.Engine.Applying.{
  propose_start, propose_end, after_apply, check_quorum,
}
use distributed_key_value_ca.Raft.Engine.Installing.{receive_chunk, install_snapshot}
use distributed_key_value_ca.Raft.Engine.Lifecycle.{Settings, init, start, stop}

module _ {S R : Type 0} (st : RaftStorage S) (loads : Loads) where
  -- The entries of an AppendEntries follow its `prev_log_index`, as a leader sends them. What the
  -- apply loop and the snapshot transfer have read before they take the lock is arbitrary.
  pub data Step (e : Engine S R) : Engine S R → Type 0 where
    votes : (now : Clock) (req : RequestVoteRequest) → Step e (handle_request_vote st now req e).1
    elects :
        (now : Clock) (generation : Option ℕ) → Step e (start_election st loads now generation e)
    pre_voted :
        (now : Clock) (peer : Member) (round : ℕ) (response : RequestVoteResponse)
        (grants : List String)
        → Step e (on_pre_vote_response st loads now peer round response grants e).1
    voted :
        (now : Clock) (peer : Member) (request : RequestVoteRequest)
        (response : RequestVoteResponse) (ballots : List String)
        → Step e (on_vote_response st loads now peer request response ballots e).1
    transfers :
        (now : Clock) (req : TimeoutNowRequest) → Step e (handle_timeout_now st loads now req e).1
    appends :
        (now : Clock) (req : AppendEntriesRequest)
        → Runs req.prev_log_index req.entries
        → Step e (handle_append_entries st loads now req e).1
    appended :
        (now : Clock) (peer : Member) (term seq : ℕ) (request : AppendEntriesRequest)
        (response : AppendEntriesResponse)
        → Step e (on_append_response st now peer term seq request response e)
    proposes :
        (now : Clock) (command username request_id : String)
        → Step e (propose_start st loads now command username request_id e).1
    proposed : (index : ℕ) → Step e (propose_end index e)
    applies : (entry : LogEntry) (result : R) → Step e (after_apply st loads entry result e)
    checks : (now : Clock) (term : ℕ) → Step e (check_quorum st now term e)
    receives : (now : Clock) (req : InstallSnapshotRequest) → Step e (receive_chunk st now req e).1
    installs :
        (now : Clock) (req : InstallSnapshotRequest)
        → Step e (install_snapshot st loads now req e).1
    starts : (now : Clock) → Step e (start st loads now e)
    stops : Step e (stop e)
    restarts : (c : Settings) (now : Clock) → Step e (init st loads c now e.storage)

  pub data Steps (e : Engine S R) : Engine S R → Type 0 where
    done : Steps e e
    next : {f g : Engine S R} → Steps e f → Step f g → Steps e g
