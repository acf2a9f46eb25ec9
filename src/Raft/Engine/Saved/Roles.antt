-- ===== src/Raft/Engine/Saved/Roles.antt =====
-- The transitions between roles save what they change.
use distributed_key_value_ca.Prelude.{
  ℕ, String, Bool, true, false, not, ◌||◌, inl, inr, Bool-cases, [], ◌∷◌, arith, ltb, leb,
  if◌then◌else◌, string_eq,
}
use distributed_key_value_ca.Raft.Types.{Loads, follower, is_follower, last_log_index}
use distributed_key_value_ca.Raft.Storage.{RaftStorage, RaftStorageLaws}
use distributed_key_value_ca.Raft.Engine.{Engine, Clock, majority}
use distributed_key_value_ca.Raft.Engine.Frame.{
  reset_election_timer-Keeps, spawn-Keeps, start_all-Keeps, ask_votes-Keeps,
}
use distributed_key_value_ca.Raft.Engine.Roles.{
  adopt_term, drop_leadership, become_follower, hear, accept_leader, advance_commit_index, lead,
  no_op, become_leader, become_candidate, stand, counted,
}
use distributed_key_value_ca.Raft.Log.Runs.{Runs}
use distributed_key_value_ca.Raft.Engine.Members.{append_local}
use distributed_key_value_ca.Raft.Engine.Saved.{
  Saved, Keeps-Saved, persist_term_and_vote-Saved, append_local-Saved,
}

module _ {S R : Type 0} {st : RaftStorage S} {Sound : S → Type 0} where
  pub Saved-if :
      (b : Bool) (e f : Engine S R)
      → Saved st Sound e
      → Saved st Sound f
      → Saved st Sound (if b then e else f)
  Saved-if true e f se sf = se
  Saved-if false e f se sf = sf

module _ {S R : Type 0} {st : RaftStorage S} {Sound : S → Type 0}
    (laws : RaftStorageLaws st Sound) where
  adopt_term-Saved :
      (term : ℕ) (e : Engine S R) → Saved st Sound e → Saved st Sound (adopt_term st term e)
  unfolding adopt_term
  adopt_term-Saved term e s = elim (Bool-cases (ltb e.node.current_term term)) [
    | inl h ↦ rw h (persist_term_and_vote-Saved laws _ (ground arith))
    | inr h ↦ rw h s
  ]

  drop_leadership-Saved :
      (e : Engine S R) → Saved st Sound e → Saved st Sound (drop_leadership st e)
  unfolding drop_leadership
  drop_leadership-Saved e s = ground arith

  pub become_follower-Saved :
      (term : ℕ) (e : Engine S R) → Saved st Sound e → Saved st Sound (become_follower st term e)
  unfolding become_follower
  become_follower-Saved term e s =
      Keeps-Saved (reset_election_timer-Keeps _)
        (stand_down _ (drop_leadership-Saved _ (adopt_term-Saved term e s)))
    where
      stand_down :
          (f : Engine S R)
          → Saved st Sound f
          → Saved st Sound (record f { node = record f.node { state = follower } })
      stand_down f g = ground arith

  hear-Saved : (term : ℕ) (e : Engine S R) → Saved st Sound e → Saved st Sound (hear st term e)
  unfolding hear
  hear-Saved term e s =
      Saved-if (ltb e.node.current_term term || not (is_follower e.node.state)) _ _
        (become_follower-Saved term e s) (Keeps-Saved (reset_election_timer-Keeps e) s)

  pub accept_leader-Saved :
      (now : Clock) (term : ℕ) (leader_id leader_address : String) (e : Engine S R)
      → Saved st Sound e
      → Saved st Sound (accept_leader st now term leader_id leader_address e)
  unfolding accept_leader
  accept_leader-Saved now term leader_id leader_address e s = note (hear-Saved term e s)
    where
      note :
          Saved st Sound (hear st term e)
          → Saved st Sound (accept_leader st now term leader_id leader_address e)
      note g = ground arith

  pub advance_commit_index-Saved :
      (e : Engine S R) → Saved st Sound e → Saved st Sound (advance_commit_index e)
  unfolding advance_commit_index
  advance_commit_index-Saved e s = ground arith

  lead-Saved :
      (loads : Loads) (now : Clock) (e : Engine S R)
      → Saved st Sound e
      → Saved st Sound (lead st loads now e)
  unfolding lead
  lead-Saved loads now e s = ground arith

  no_op-Runs :
      (loads : Loads) (e : Engine S R) → Runs (last_log_index e.node) (no_op st loads e ∷ [])
  unfolding no_op
  no_op-Runs loads e = (omega arith, tt)

  pub become_leader-Saved :
      (loads : Loads) (now : Clock) (e : Engine S R)
      → Saved st Sound e
      → Saved st Sound (become_leader st loads now e)
  unfolding become_leader
  become_leader-Saved loads now e s =
      let leading = lead st loads now e in
      let appended = append_local st loads now (no_op st loads leading ∷ []) leading in
      Keeps-Saved (spawn-Keeps _ _) (
        Keeps-Saved (start_all-Keeps now _) (
          fresh (advance_commit_index appended) (
            advance_commit_index-Saved appended (
              append_local-Saved laws loads now _ leading (no_op-Runs loads leading)
                (lead-Saved loads now e s)))))
    where
      fresh : (f : Engine S R) → Saved st Sound f → Saved st Sound (record f { replicators = [] })
      fresh f g = ground arith

  stand-Saved : (e : Engine S R) → Saved st Sound e → Saved st Sound (stand st e)
  unfolding stand
  stand-Saved e s = persist_term_and_vote-Saved laws _ (ground arith)

  pub become_candidate-Saved :
      (loads : Loads) (now : Clock) (transfer : Bool) (e : Engine S R)
      → Saved st Sound e
      → Saved st Sound (become_candidate st loads now transfer e)
  unfolding become_candidate
  become_candidate-Saved loads now transfer e s =
      let standing = stand st e in
      let stood = stand-Saved e s in
      Saved-if (leb (majority standing) (counted (e.node_id ∷ []) standing)) _ _
        (become_leader-Saved loads now standing stood)
        (Keeps-Saved (ask_votes-Keeps transfer _)
          (Keeps-Saved (reset_election_timer-Keeps standing) stood))
