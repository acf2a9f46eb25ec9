-- ===== src/Raft/Engine/Voting/Rest.antt =====
-- Applying, proposing, installing a snapshot, starting and stopping keep the order of terms and
-- votes too, and a new engine starts with the term and the vote that were saved.
use distributed_key_value_ca.Prelude.{
  ℕ, nat_eq, refl, true, none, [], ◌∷◌, arith, String, string_eq,
}
use distributed_key_value_ca.Prelude.Dict
use distributed_key_value_ca.Raft.Types.{Loads, LogEntry, compact_through}
use distributed_key_value_ca.Raft.Storage.{RaftStorage}
use distributed_key_value_ca.Raft.Rpc.{InstallSnapshotRequest}
use distributed_key_value_ca.Raft.Engine.{
  Engine, Clock, Task, spawn, Receiving, pending, wake_replicators,
}
use distributed_key_value_ca.Raft.Engine.Frame.{
  reset_election_timer-Keeps, refresh_config-Keeps, wake_replicators-Keeps,
}
use distributed_key_value_ca.Raft.Engine.Members.{append_local}
use distributed_key_value_ca.Raft.Engine.Roles.{accept_leader, advance_commit_index}
use distributed_key_value_ca.Raft.Engine.Applying.{
  proposal, propose_start, propose_end, note_applied, leave, check_quorum, compact, maybe_snapshot,
  after_apply,
}
use distributed_key_value_ca.Raft.Engine.Installing.{
  store_chunk, receive_chunk, adopt_snapshot, install_snapshot,
}
use distributed_key_value_ca.Raft.Engine.Lifecycle.{start, stop}
use distributed_key_value_ca.Raft.Engine.Voting.{
  VoteOrder, SameVote, SameVote-refl, SameVote-trans, SameVote-VoteOrder, Keeps-SameVote,
  VoteOrder-trans, advance_commit_index-SameVote, become_follower-VoteOrder,
  accept_leader-VoteOrder, append_local-SameVote,
}
use distributed_key_value_ca.Raft.Engine.Voting.Handlers.{start_election-VoteOrder}

module _ {S R : Type 0} where
  pub propose_end-VoteOrder : (index : ℕ) (e : Engine S R) → VoteOrder e (propose_end index e)
  unfolding propose_end
  propose_end-VoteOrder index e = SameVote-VoteOrder (ground arith)

  pub stop-VoteOrder : (e : Engine S R) → VoteOrder e (stop e)
  unfolding stop
  stop-VoteOrder e =
      SameVote-VoteOrder (unfold wake_replicators in record { term = refl; vote = refl })

  note_applied-SameVote :
      (entry : LogEntry) (result : R) (e : Engine S R) → SameVote e (note_applied entry result e)
  unfolding note_applied
  note_applied-SameVote entry result e = ground arith

  module _ (st : RaftStorage S) where
    leave-VoteOrder :
        (loads : Loads) (entry : LogEntry) (e : Engine S R) → VoteOrder e (leave st loads entry e)
    unfolding leave
    leave-VoteOrder loads entry e = ground (
      arith,
      SameVote-VoteOrder (SameVote-refl e),
      become_follower-VoteOrder st e.node.current_term e,
    )

    pub check_quorum-VoteOrder :
        (now : Clock) (term : ℕ) (e : Engine S R) → VoteOrder e (check_quorum st now term e)
    unfolding check_quorum
    check_quorum-VoteOrder now term e = ground (
      arith,
      SameVote-VoteOrder (SameVote-refl e),
      become_follower-VoteOrder st e.node.current_term e,
    )

    pub propose_start-VoteOrder :
        (loads : Loads) (now : Clock) (command username request_id : String) (e : Engine S R)
        → VoteOrder e (propose_start st loads now command username request_id e).1
    unfolding propose_start
    propose_start-VoteOrder loads now command username request_id e =
        ground (arith, SameVote-VoteOrder (SameVote-refl e), SameVote-VoteOrder proposed)
      where
        entry : LogEntry
        entry = proposal command username request_id e

        waiter : Engine S R
        waiter = record (append_local st loads now (entry ∷ []) e) {
          waiters = Dict.put entry.index pending (append_local st loads now (entry ∷ []) e).waiters;
        }

        proposed : SameVote e (wake_replicators (advance_commit_index waiter))
        proposed = SameVote-trans (append_local-SameVote st loads now (entry ∷ []) e) (
            SameVote-trans {f = waiter} (record { term = refl; vote = refl })
              (SameVote-trans (advance_commit_index-SameVote waiter)
                (Keeps-SameVote (wake_replicators-Keeps _))))

    maybe_snapshot-SameVote :
        (loads : Loads) (e : Engine S R) → SameVote e (maybe_snapshot st loads e)
    unfolding maybe_snapshot compact compact_through
    maybe_snapshot-SameVote loads e = ground arith

    pub after_apply-VoteOrder :
        (loads : Loads) (entry : LogEntry) (result : R) (e : Engine S R)
        → VoteOrder e (after_apply st loads entry result e)
    unfolding after_apply
    after_apply-VoteOrder loads entry result e =
        VoteOrder-trans (SameVote-VoteOrder (note_applied-SameVote entry result e)) (
          VoteOrder-trans (leave-VoteOrder loads entry (note_applied entry result e))
            (SameVote-VoteOrder (maybe_snapshot-SameVote loads _)))

    store_chunk-SameVote :
        (req : InstallSnapshotRequest) (r : Receiving) (e : Engine S R)
        → SameVote e (store_chunk st req r e).1
    unfolding store_chunk
    store_chunk-SameVote req r e = ground arith

    pub receive_chunk-VoteOrder :
        (now : Clock) (req : InstallSnapshotRequest) (e : Engine S R)
        → VoteOrder e (receive_chunk st now req e).1
    unfolding receive_chunk
    receive_chunk-VoteOrder now req e = ground (
      arith,
      SameVote-VoteOrder (SameVote-refl e),
      accept_leader-VoteOrder st now req.term req.leader_id req.leader_address e,
      stored,
    )
      where
        heard : Engine S R
        heard = accept_leader st now req.term req.leader_id req.leader_address e

        stored : (r : Receiving) → VoteOrder e (store_chunk st req r heard).1
        stored r =
            VoteOrder-trans
              (accept_leader-VoteOrder st now req.term req.leader_id req.leader_address e)
              (SameVote-VoteOrder (store_chunk-SameVote req r heard))

    pub install_snapshot-VoteOrder :
        (loads : Loads) (now : Clock) (req : InstallSnapshotRequest) (e : Engine S R)
        → VoteOrder e (install_snapshot st loads now req e).1
    unfolding install_snapshot
    install_snapshot-VoteOrder loads now req e = ground (
      arith,
      SameVote-VoteOrder (SameVote-refl e),
      SameVote-VoteOrder
          (SameVote-trans adopted (Keeps-SameVote (refresh_config-Keeps loads now _))),
    )
      where
        adopted : SameVote e (adopt_snapshot st loads req e)
        adopted =
            unfold adopt_snapshot in unfold compact_through in record { term = refl; vote = refl }

    pub start-VoteOrder :
        (loads : Loads) (now : Clock) (e : Engine S R) → VoteOrder e (start st loads now e)
    unfolding start
    start-VoteOrder loads now e = VoteOrder-trans (SameVote-VoteOrder ran) (
        ground (
          arith,
          start_election-VoteOrder st now loads none running,
          SameVote-VoteOrder (Keeps-SameVote (reset_election_timer-Keeps running)),
        ))
      where
        running : Engine S R
        running = spawn Task.apply_loop (record e { running = true })

        ran : SameVote e running
        ran = unfold spawn in record { term = refl; vote = refl }
