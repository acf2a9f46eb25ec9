-- ===== src/Raft/Tests/Histories.antt =====
-- Votes, a crash and a restart of an engine of raft/node.py.
use distributed_key_value_ca.Prelude.{ℕ, ◌≡◌, ◌≤◌, refl, true, []}
use distributed_key_value_ca.Raft.Storage.Memory
use distributed_key_value_ca.Raft.Storage.Memory.{MemoryRaftStorage, memory, Sound}
use distributed_key_value_ca.Raft.Storage.Memory.Laws.{memory-laws}
use distributed_key_value_ca.Raft.Engine.Lifecycle.{init}
use distributed_key_value_ca.Raft.Engine.Votes.{handle_request_vote}
use distributed_key_value_ca.Raft.Engine.Saved.{Saved}
use distributed_key_value_ca.Raft.Engine.Saved.Lifecycle.{init-Saved}
use distributed_key_value_ca.Prelude.Dict
use distributed_key_value_ca.Raft.Types.{latest_config, newest_config}
use distributed_key_value_ca.Raft.Engine.{in_leader_lease}
use distributed_key_value_ca.Raft.Engine.Members.{by_id}
use distributed_key_value_ca.Raft.Engine.Votes.{log_ok}
use distributed_key_value_ca.Raft.Steps.{Steps, done, next, restarts, votes}
use distributed_key_value_ca.Raft.Steps.Durable.{Steps-Saved, restart-recovers}
use distributed_key_value_ca.Raft.Steps.Ballots.{one_vote_per_term, term_monotone}
use distributed_key_value_ca.Prelude.{nat_eq}
use distributed_key_value_ca.Raft.Tests.{
  no_config, clock, settings, engine, request, voter, restarted,
}

engine-Saved : Saved memory Sound engine
engine-Saved =
    init-Saved memory-laws no_config settings clock Memory.init ([], refl, tt)
      (unfold Memory.load in tt)

voted_then_restarted : Steps memory no_config voter restarted
voted_then_restarted = next done (restarts settings clock)

granted : (handle_request_vote memory clock request engine).0.vote_granted ≡ true
unfolding handle_request_vote init by_id latest_config newest_config Memory.load Dict.put
    in_leader_lease log_ok
granted = refl

granted_again : (handle_request_vote memory clock request restarted).0.vote_granted ≡ true
unfolding handle_request_vote init by_id latest_config newest_config Memory.load Dict.put
    in_leader_lease log_ok Memory.save_term_and_vote Memory.save_snapshot
granted_again = refl

same_answer :
    (handle_request_vote memory clock request restarted).0.term
    ≡ (handle_request_vote memory clock request engine).0.term
unfolding handle_request_vote init by_id latest_config newest_config Memory.load Dict.put
    in_leader_lease log_ok Memory.save_term_and_vote Memory.save_snapshot
same_answer = refl

Steps-Saved_example : Saved memory Sound restarted
Steps-Saved_example =
    Steps-Saved memory-laws (next (next done (votes clock request)) (restarts settings clock))
      engine-Saved

restart-recovers_example :
    ((init {R = ℕ} memory no_config settings clock voter.storage).node.current_term
      ≡ voter.node.current_term)
    × ((init {R = ℕ} memory no_config settings clock voter.storage).node.voted_for
        ≡ voter.node.voted_for)
    × ((init {R = ℕ} memory no_config settings clock voter.storage).node.log ≡ voter.node.log)
restart-recovers_example =
    restart-recovers memory-laws {loads = no_config} settings clock engine-Saved
      (next done (votes clock request))

term_monotone_example : engine.node.current_term ≤ restarted.node.current_term
term_monotone_example =
    term_monotone memory-laws engine-Saved
      (next (next done (votes clock request)) (restarts settings clock))

one_vote_per_term_example : request.candidate_id ≡ request.candidate_id
one_vote_per_term_example =
    one_vote_per_term memory-laws clock clock request request engine-Saved refl refl granted
      voted_then_restarted granted_again same_answer
