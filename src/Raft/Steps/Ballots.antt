-- ===== src/Raft/Steps/Ballots.antt =====
-- One vote for each term, whatever happens to the engine of raft/node.py in between.
use distributed_key_value_ca.Prelude.{◌≡◌, ◌≤◌, ◌∙◌, sym, true, false, some, String, arith}
use mathlib.Core.Option.{some-injective}
use distributed_key_value_ca.Raft.Types.{Loads}
use distributed_key_value_ca.Raft.Storage.{RaftStorage, RaftStorageLaws}
use distributed_key_value_ca.Raft.Rpc.{RequestVoteRequest}
use distributed_key_value_ca.Raft.Engine.{
  Engine, Clock, persist_term_and_vote, reset_election_timer,
}
use distributed_key_value_ca.Raft.Engine.Votes.{handle_request_vote, decide_vote, grant}
use distributed_key_value_ca.Raft.Engine.Saved.{Saved}
use distributed_key_value_ca.Raft.Engine.Saved.Votes.{handle_request_vote-Saved}
use distributed_key_value_ca.Raft.Engine.Saved.Lifecycle.{init-term, init-vote}
use distributed_key_value_ca.Raft.Engine.Voting.{
  VoteOrder, rises, stays, SameVote-refl, SameVote-VoteOrder, VoteOrder-trans,
}
use distributed_key_value_ca.Raft.Engine.Voting.Handlers.{
  handle_request_vote-VoteOrder, start_election-VoteOrder, on_pre_vote_response-VoteOrder,
  on_vote_response-VoteOrder, handle_timeout_now-VoteOrder, handle_append_entries-VoteOrder,
  on_append_response-VoteOrder,
}
use distributed_key_value_ca.Raft.Engine.Voting.Rest.{
  propose_start-VoteOrder, propose_end-VoteOrder, after_apply-VoteOrder, check_quorum-VoteOrder,
  receive_chunk-VoteOrder, install_snapshot-VoteOrder, start-VoteOrder, stop-VoteOrder,
}
use distributed_key_value_ca.Raft.Steps.{
  Step, Steps, done, next, votes, elects, pre_voted, voted, transfers, appends, appended, proposes,
  proposed, applies, checks, receives, installs, starts, stops, restarts,
}
use distributed_key_value_ca.Raft.Steps.Durable.{Steps-Saved}

module _ {S R : Type 0} where
  term_order : {e f : Engine S R} → VoteOrder e f → e.node.current_term ≤ f.node.current_term
  term_order (rises up) = omega arith
  term_order (stays same k) = omega arith

  kept_vote :
      {e f : Engine S R} (c : String)
      → VoteOrder e f
      → f.node.current_term ≡ e.node.current_term
      → e.node.voted_for ≡ some c
      → f.node.voted_for ≡ some c
  kept_vote c (rises up) same v = absurd (omega arith)
  kept_vote c (stays _ k) same v = k c v

  -- A vote that was granted is the vote of the term that the answer names.
  granted_vote :
      (st : RaftStorage S) (now : Clock) (req : RequestVoteRequest) (e : Engine S R)
      → req.pre_vote ≡ false
      → (handle_request_vote st now req e).0.vote_granted ≡ true
      → ((handle_request_vote st now req e).1.node.voted_for ≡ some req.candidate_id)
        × ((handle_request_vote st now req e).1.node.current_term
            ≡ (handle_request_vote st now req e).0.term)
  unfolding handle_request_vote decide_vote grant persist_term_and_vote reset_election_timer
  granted_vote st now req e real granted = ground arith

module _ {S R : Type 0} {st : RaftStorage S} {Sound : S → Type 0} {loads : Loads} where
  Step-VoteOrder : {e f : Engine S R} → Step st loads e f → Saved st Sound e → VoteOrder e f
  Step-VoteOrder {e = e} (votes now req) s = handle_request_vote-VoteOrder st now req e
  Step-VoteOrder {e = e} (elects now generation) s =
      start_election-VoteOrder st now loads generation e
  Step-VoteOrder {e = e} (pre_voted now peer round response grants) s =
      on_pre_vote_response-VoteOrder st now loads peer round response grants e
  Step-VoteOrder {e = e} (voted now peer request response ballots) s =
      on_vote_response-VoteOrder st now loads peer request response ballots e
  Step-VoteOrder {e = e} (transfers now req) s = handle_timeout_now-VoteOrder st now loads req e
  Step-VoteOrder {e = e} (appends now req consecutive) s =
      handle_append_entries-VoteOrder st now loads req e
  Step-VoteOrder {e = e} (appended now peer term seq request response) s =
      on_append_response-VoteOrder st now peer term seq request response e
  Step-VoteOrder {e = e} (proposes now command username request_id) s =
      propose_start-VoteOrder st loads now command username request_id e
  Step-VoteOrder {e = e} (proposed index) s = propose_end-VoteOrder index e
  Step-VoteOrder {e = e} (applies entry result) s = after_apply-VoteOrder st loads entry result e
  Step-VoteOrder {e = e} (checks now term) s = check_quorum-VoteOrder st now term e
  Step-VoteOrder {e = e} (receives now req) s = receive_chunk-VoteOrder st now req e
  Step-VoteOrder {e = e} (installs now req) s = install_snapshot-VoteOrder st loads now req e
  Step-VoteOrder {e = e} (starts now) s = start-VoteOrder st loads now e
  Step-VoteOrder {e = e} stops s = stop-VoteOrder e
  Step-VoteOrder {e = e} (restarts c now) s = SameVote-VoteOrder (record {
    term = init-term R st loads c now e.storage ∙ s.term;
    vote = init-vote R st loads c now e.storage ∙ s.vote;
  })

  Steps-VoteOrder :
      (laws : RaftStorageLaws st Sound) {e f : Engine S R}
      → Steps st loads e f
      → Saved st Sound e
      → VoteOrder e f
  Steps-VoteOrder laws {e = e} done s = SameVote-VoteOrder (SameVote-refl e)
  Steps-VoteOrder laws (next steps step) s =
      VoteOrder-trans (Steps-VoteOrder laws steps s)
        (Step-VoteOrder step (Steps-Saved laws steps s))

  -- The term never falls, over any steps, crashes and restarts among them, if everything was saved
  -- before them.
  pub term_monotone :
      (laws : RaftStorageLaws st Sound) {e f : Engine S R}
      → Saved st Sound e
      → Steps st loads e f
      → e.node.current_term ≤ f.node.current_term
  term_monotone laws s steps = term_order (Steps-VoteOrder laws steps s)

  -- A node grants its vote to one candidate for each term. If a request gets a vote, any steps
  -- follow, crashes and restarts among them, and then a request gets a vote for the same term, the
  -- two name the same candidate. Neither is a pre-vote, and everything was saved before the first.
  pub one_vote_per_term :
      (laws : RaftStorageLaws st Sound) (now later : Clock) (first second : RequestVoteRequest)
      {e f : Engine S R}
      → Saved st Sound e
      → first.pre_vote ≡ false
      → second.pre_vote ≡ false
      → (handle_request_vote st now first e).0.vote_granted ≡ true
      → Steps st loads (handle_request_vote st now first e).1 f
      → (handle_request_vote st later second f).0.vote_granted ≡ true
      → (handle_request_vote st later second f).0.term ≡ (handle_request_vote st now first e).0.term
      → first.candidate_id ≡ second.candidate_id
  one_vote_per_term laws now later first second {e = e} {f = f} s real real' granted steps granted'
        same =
      let before = granted_vote st now first e real granted in
      let after = granted_vote st later second f real' granted' in
      let saved = handle_request_vote-Saved laws now first e s in
      let order =
        VoteOrder-trans (Steps-VoteOrder laws steps saved)
          (handle_request_vote-VoteOrder st later second f) in
      some-injective first.candidate_id second.candidate_id (
        sym (kept_vote first.candidate_id order (after.1 ∙ same ∙ sym before.1) before.0) ∙ after.0)
