-- ===== src/Raft/Steps/Durable.antt =====
-- Whatever happens to an engine of raft/node.py, its storage holds what a restart needs.
use distributed_key_value_ca.Prelude.{◌≡◌, ◌∙◌, sym, subst₂}
use distributed_key_value_ca.Raft.Types.{Loads}
use distributed_key_value_ca.Raft.Storage.{RaftStorage, RaftStorageLaws}
use distributed_key_value_ca.Raft.Log.Runs.{Runs}
use distributed_key_value_ca.Raft.Engine.{Engine, Clock}
use distributed_key_value_ca.Raft.Engine.Lifecycle.{Settings, init}
use distributed_key_value_ca.Raft.Engine.Saved.{Saved}
use distributed_key_value_ca.Raft.Engine.Saved.Votes.{
  handle_request_vote-Saved, start_election-Saved, on_pre_vote_response-Saved,
  on_vote_response-Saved, handle_timeout_now-Saved,
}
use distributed_key_value_ca.Raft.Engine.Saved.Replication.{
  handle_append_entries-Saved, on_append_response-Saved,
}
use distributed_key_value_ca.Raft.Engine.Saved.Applying.{
  propose_start-Saved, propose_end-Saved, after_apply-Saved, check_quorum-Saved,
}
use distributed_key_value_ca.Raft.Engine.Saved.Installing.{
  receive_chunk-Saved, install_snapshot-Saved,
}
use distributed_key_value_ca.Raft.Engine.Saved.Lifecycle.{
  init-Saved, init-term, init-vote, init-log, start-Saved, stop-Saved,
}
use distributed_key_value_ca.Raft.Steps.{
  Step, Steps, done, next, votes, elects, pre_voted, voted, transfers, appends, appended, proposes,
  proposed, applies, checks, receives, installs, starts, stops, restarts,
}

module _ {S R : Type 0} {st : RaftStorage S} {Sound : S → Type 0} (laws : RaftStorageLaws st Sound)
    {loads : Loads} where
  Step-Saved : {e f : Engine S R} → Step st loads e f → Saved st Sound e → Saved st Sound f
  Step-Saved {e = e} (votes now req) s = handle_request_vote-Saved laws now req e s
  Step-Saved {e = e} (elects now generation) s = start_election-Saved laws now loads generation e s
  Step-Saved {e = e} (pre_voted now peer round response grants) s =
      on_pre_vote_response-Saved laws now loads peer round response grants e s
  Step-Saved {e = e} (voted now peer request response ballots) s =
      on_vote_response-Saved laws now loads peer request response ballots e s
  Step-Saved {e = e} (transfers now req) s = handle_timeout_now-Saved laws now loads req e s
  Step-Saved {e = e} (appends now req consecutive) s =
      handle_append_entries-Saved laws loads now req e consecutive s
  Step-Saved {e = e} (appended now peer term seq request response) s =
      on_append_response-Saved laws loads now peer term seq request response e s
  Step-Saved {e = e} (proposes now command username request_id) s =
      propose_start-Saved laws loads now command username request_id e s
  Step-Saved {e = e} (proposed index) s = propose_end-Saved laws index e s
  Step-Saved {e = e} (applies entry result) s = after_apply-Saved laws loads entry result e s
  Step-Saved {e = e} (checks now term) s = check_quorum-Saved laws now term e s
  Step-Saved {e = e} (receives now req) s = receive_chunk-Saved laws now req e s
  Step-Saved {e = e} (installs now req) s = install_snapshot-Saved laws loads now req e s
  Step-Saved {e = e} (starts now) s = start-Saved laws loads now e s
  Step-Saved {e = e} stops s = stop-Saved laws e s
  Step-Saved {e = e} (restarts c now) s =
      init-Saved laws loads c now e.storage s.sound
        (subst₂ Runs (sym s.snapshot_index) (sym s.log) s.runs)

  -- After any steps, crashes and restarts among them, the storage is sound and holds the term, the
  -- vote, the log and the snapshot boundary of the node, and the log has the indices that follow
  -- the boundary, if this was so before them.
  pub Steps-Saved : {e f : Engine S R} → Steps st loads e f → Saved st Sound e → Saved st Sound f
  Steps-Saved done s = s
  Steps-Saved (next steps step) s = Step-Saved step (Steps-Saved steps s)

  -- An engine that crashes after any steps and is started again on its storage has the term, the
  -- vote and the log that it had, if everything was saved before the steps.
  pub restart-recovers :
      {e f : Engine S R} (c : Settings) (now : Clock)
      → Saved st Sound e
      → Steps st loads e f
      → ((init {R = R} st loads c now f.storage).node.current_term ≡ f.node.current_term)
        × ((init {R = R} st loads c now f.storage).node.voted_for ≡ f.node.voted_for)
        × ((init {R = R} st loads c now f.storage).node.log ≡ f.node.log)
  restart-recovers {f = f} c now s steps =
      let g = Steps-Saved steps s in
      (
        init-term R st loads c now f.storage ∙ g.term,
        init-vote R st loads c now f.storage ∙ g.vote,
        init-log R st loads c now f.storage ∙ g.log,
      )
