-- ===== src/Raft/Engine/Applying.antt =====
-- raft/node.py: proposing a command, applying committed entries, and compacting the log.
use distributed_key_value_ca.Prelude.{
  ℕ, ◌+◌, ◌-◌, String, not, ◌||◌, ◌&&◌, Option, none, some, [], ◌∷◌, nat_eq, string_eq, ◌==◌,
  if◌then◌else◌, ltb, leb, is_some, max,
}
use distributed_key_value_ca.Prelude.Dict
use distributed_key_value_ca.Raft.Types.{
  Loads, LogEntry, is_leader, last_log_index, term_at, entry_at, config_at, compact_through,
  parse_config,
}
use distributed_key_value_ca.Raft.Storage.{RaftStorage}
use distributed_key_value_ca.Raft.Engine.{
  Engine, Clock, pending, applied, has_quorum_contact, wake_replicators,
}
use distributed_key_value_ca.Raft.Engine.Members.{append_local}
use distributed_key_value_ca.Raft.Engine.Roles.{become_follower, advance_commit_index}

-- How `propose` begins: it raises NotLeaderError, or waits for the entry at an index.
pub data Proposed : Type 0 where
  not_leader : Option String → Proposed
  waiting : ℕ → ℕ → Proposed

-- How a round of its wait ends: with the result, an error, or another wait.
pub data Poll (R : Type 0) : Type 0 where
  returns : R → Poll R
  raises_replaced : Poll R
  raises_not_leader : Option String → Poll R
  raises_timeout : Poll R
  waits : Poll R

module _ {S R : Type 0} where
  -- the entry that `propose` appends
  unfoldable pub proposal : String → String → String → Engine S R → LogEntry
  unfolding last_log_index
  proposal command username request_id e = record {
    term = e.node.current_term;
    index = last_log_index e.node + 1;
    command = command;
    username = username;
    request_id = request_id;
  }

  -- the loop of `propose`, once; `remaining` is the time to the deadline
  unfoldable pub propose_poll : ℕ → ℕ → ℕ → Engine S R → Poll R
  propose_poll index term remaining e =
      let lost : Poll R =
        if not (is_leader e.node.state) || not (e.node.current_term == term)
        then raises_not_leader e.node.leader_id
        else if remaining == 0 || not e.running
        then raises_timeout
        else waits in
      elim (Dict.get index e.waiters) [
        | none ↦ lost
        | some outcome ↦ elim outcome [
          | pending ↦ lost
          | applied applied_term result ↦
              if applied_term == term then returns result else raises_replaced
        ]
      ]

  -- its `finally`
  unfoldable pub propose_end : ℕ → Engine S R → Engine S R
  propose_end index e = record e { waiters = Dict.remove index e.waiters }

  -- the entry that `_apply_loop` applies next
  unfoldable pub next_to_apply : Engine S R → Option LogEntry
  unfolding entry_at
  next_to_apply e =
      let index = e.node.last_applied + 1 in
      if ltb e.node.commit_index index then none else entry_at e.node index

  abbrev pub answered : ℕ → ℕ → R → Engine S R → Engine S R
  answered index term result e =
      if is_some (Dict.get index e.waiters)
      then record e { waiters = Dict.put index (applied term result) e.waiters }
      else e

  -- `last_applied`, and the result for a waiting `propose`
  unfoldable pub note_applied : LogEntry → R → Engine S R → Engine S R
  note_applied entry result e =
      let index = e.node.last_applied + 1 in
      answered index entry.term result
        (record e { node = record e.node { last_applied = max e.node.last_applied index } })

  module _ (st : RaftStorage S) where
    -- a leader that is no longer a member, once that change is applied
    unfoldable pub leave : Loads → LogEntry → Engine S R → Engine S R
    unfolding become_follower
    leave loads entry e =
        if is_some (parse_config loads entry.command)
          && is_leader e.node.state
          && not (is_some (Dict.get e.node_id e.members))
          && leb e.config_index e.node.last_applied
        then become_follower st e.node.current_term e
        else e

    unfoldable pub check_quorum : Clock → ℕ → Engine S R → Engine S R
    unfolding become_follower has_quorum_contact
    check_quorum now term e =
        if not e.running || not (is_leader e.node.state) || not (e.node.current_term == term)
        then e
        else if has_quorum_contact now e.election_timeout_max e
        then e
        else become_follower st e.node.current_term e

    module _ (loads : Loads) where
      unfoldable pub propose_start :
          Clock → String → String → String → Engine S R → Proposed × Engine S R
      unfolding proposal append_local advance_commit_index wake_replicators
      propose_start now command username request_id e =
          if not e.running || e.transferring
          then (not_leader none, e)
          else if not (is_leader e.node.state)
          then (not_leader e.node.leader_id, e)
          else (let entry = proposal command username request_id e in
              let appended = append_local st loads now (entry ∷ []) e in
              let waiter = record appended {
                waiters = Dict.put entry.index pending appended.waiters;
              } in
              (waiting entry.index entry.term, wake_replicators (advance_commit_index waiter)))

      -- `_maybe_snapshot` past its two tests; `term_at` finds every applied entry that is not yet
      -- in the snapshot
      unfoldable pub compact : ℕ → Engine S R → Engine S R
      unfolding compact_through config_at
      compact term e =
          let index = e.node.last_applied in
          let config = config_at loads e.node index in
          record e {
            node = compact_through loads e.node index term config;
            storage = st.save_snapshot index term index config e.storage;
          }

      unfoldable pub maybe_snapshot : Engine S R → Engine S R
      unfolding compact term_at
      maybe_snapshot e =
          if e.snapshot_threshold == 0
            || ltb (e.node.last_applied - e.node.snapshot_index) e.snapshot_threshold
          then e
          else elim (term_at e.node e.node.last_applied) [ none ↦ e | some term ↦ compact term e ]

      -- `_apply_loop` after `apply_fn` has returned
      unfoldable pub after_apply : LogEntry → R → Engine S R → Engine S R
      unfolding note_applied leave maybe_snapshot
      after_apply entry result e = maybe_snapshot (leave loads entry (note_applied entry result e))
