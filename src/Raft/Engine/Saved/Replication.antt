-- ===== src/Raft/Engine/Saved/Replication.antt =====
-- AppendEntries saves the log before it answers.
use distributed_key_value_ca.Prelude.{
  ℕ, ◌+◌, ◌-◌, ◌≡◌, ◌<◌, ◌≤◌, ◌∙◌, sym, subst, Option, none, some, List, [], ◌∷◌, arith, ltb,
  ltb→le, length, drop, max, nat_eq, inl, inr, Bool-cases,
}
use distributed_key_value_ca.Raft.Types.{Loads, LogEntry, Member, last_log_index}
use distributed_key_value_ca.Raft.Log.Runs.{Runs, Runs-drop}
use distributed_key_value_ca.Raft.Log.Lookup.{last_log_index-truncate_from}
use distributed_key_value_ca.Raft.Log.News.{Fits, new_entries-Fits}
use distributed_key_value_ca.Raft.Storage.{RaftStorage, RaftStorageLaws}
use distributed_key_value_ca.Raft.Rpc.{AppendEntriesRequest, AppendEntriesResponse}
use distributed_key_value_ca.Raft.Engine.{Engine, Clock}
use distributed_key_value_ca.Raft.Engine.Frame.{refresh_config-Keeps, last_log_index-Keeps}
use distributed_key_value_ca.Raft.Engine.Members.{truncate_local, drop_entries}
use distributed_key_value_ca.Raft.Engine.Roles.{accept_leader}
use distributed_key_value_ca.Raft.Engine.Replication.{
  cut, extend, merge_entries, learn_commit, check_and_append, handle_append_entries, note_contact,
  note_match, back_up, on_append_response,
}
use distributed_key_value_ca.Raft.Engine.Saved.{Saved, append_local-Saved, truncate_local-Saved}
use distributed_key_value_ca.Raft.Engine.Saved.Roles.{
  become_follower-Saved, accept_leader-Saved, advance_commit_index-Saved,
}

module _ {S R : Type 0} (st : RaftStorage S) (loads : Loads) (now : Clock) where
  -- A cut inside the log leaves it ending just before.
  pub last_log_index-truncate_local :
      (i : ℕ) (e : Engine S R)
      → e.node.snapshot_index < i
      → i ≤ last_log_index e.node
      → last_log_index (truncate_local st loads now i e).node ≡ i - 1
  unfolding truncate_local drop_entries
  last_log_index-truncate_local i e low high =
      last_log_index-Keeps (refresh_config-Keeps loads now (drop_entries st i e))
      ∙ last_log_index-truncate_from e.node i low high

module _ {S R : Type 0} {st : RaftStorage S} {Sound : S → Type 0} (laws : RaftStorageLaws st Sound)
    (loads : Loads) (now : Clock) where
  extend-Saved :
      (news : List LogEntry) (e : Engine S R)
      → Runs (last_log_index e.node) news
      → Saved st Sound e
      → Saved st Sound (extend st loads now news e)
  unfolding extend
  extend-Saved [] e run s = s
  extend-Saved (f ∷ news) e run s = append_local-Saved laws loads now (f ∷ news) e run s

  cut-extend-Saved :
      (conflict : Option ℕ) (news : List LogEntry) (e : Engine S R)
      → Fits e.node (conflict, news)
      → Saved st Sound e
      → Saved st Sound (extend st loads now news (cut st loads now conflict e))
  unfolding cut
  cut-extend-Saved none news e run s = extend-Saved news e run s
  cut-extend-Saved (some i) news e (low, high, run) s =
      extend-Saved news (truncate_local st loads now i e)
        (subst (λ k. Runs k news) (sym (last_log_index-truncate_local st loads now i e low high))
          run)
        (truncate_local-Saved laws loads now i e low s)

  pub merge_entries-Saved :
      (p : ℕ) (entries : List LogEntry) (e : Engine S R)
      → e.node.snapshot_index ≤ p
      → p ≤ last_log_index e.node
      → Runs p entries
      → Saved st Sound e
      → Saved st Sound (merge_entries st loads now entries e)
  unfolding merge_entries
  merge_entries-Saved p entries e low high run s =
      cut-extend-Saved _ _ e (new_entries-Fits e.node p entries low high run) s

  learn_commit-Saved :
      (leader_commit last_new : ℕ) (e : Engine S R)
      → Saved st Sound e
      → Saved st Sound (learn_commit leader_commit last_new e)
  unfolding learn_commit
  learn_commit-Saved leader_commit last_new e s = ground arith

  check_and_append-Saved :
      (prev_index : ℕ) (prev_term : Option ℕ) (entries : List LogEntry) (leader_commit : ℕ)
      (e : Engine S R)
      → e.node.snapshot_index ≤ prev_index
      → Runs prev_index entries
      → Saved st Sound e
      → Saved st Sound
          (check_and_append st loads now prev_index prev_term entries leader_commit e).1
  unfolding check_and_append
  check_and_append-Saved prev_index prev_term entries leader_commit e low run s =
      elim (Bool-cases (ltb (last_log_index e.node) prev_index)) [
        | inl past ↦ rw past s
        | inr inside ↦ ground (
          arith,
          s,
          learn_commit-Saved leader_commit (prev_index + length entries)
              (merge_entries st loads now entries e)
              (merge_entries-Saved prev_index entries e low (ltb→le _ _ inside) run s),
        )
      ]

  pub handle_append_entries-Saved :
      (req : AppendEntriesRequest) (e : Engine S R)
      → Runs req.prev_log_index req.entries
      → Saved st Sound e
      → Saved st Sound (handle_append_entries st loads now req e).1
  unfolding handle_append_entries
  handle_append_entries-Saved req e run s = ground (arith, s, told, whole, suffix)
    where
      open req use {prev_log_index as prev}

      heard : Engine S R
      heard = accept_leader st now req.term req.leader_id req.leader_address e

      snapshot : ℕ
      snapshot = heard.node.snapshot_index

      told : Saved st Sound heard
      told = accept_leader-Saved laws now req.term req.leader_id req.leader_address e s

      whole :
          snapshot ≤ prev
          → Saved st Sound
              (check_and_append st loads now prev req.prev_log_term req.entries req.leader_commit
                heard).1
      whole le =
          check_and_append-Saved prev req.prev_log_term req.entries req.leader_commit heard le run
            told

      suffix :
          prev < snapshot
          → Saved st Sound
              (check_and_append st loads now snapshot
                (some heard.node.snapshot_term)
                (drop (snapshot - prev) req.entries)
                req.leader_commit
                heard).1
      suffix lt =
          check_and_append-Saved snapshot (some heard.node.snapshot_term)
            (drop (snapshot - prev) req.entries) req.leader_commit heard (omega arith)
            (subst (λ k. Runs k (drop (snapshot - prev) req.entries)) (omega arith)
              (Runs-drop prev (snapshot - prev) req.entries run))
            told

  pub on_append_response-Saved :
      (peer : Member) (term seq : ℕ) (request : AppendEntriesRequest)
      (response : AppendEntriesResponse) (e : Engine S R)
      → Saved st Sound e
      → Saved st Sound (on_append_response st now peer term seq request response e)
  unfolding on_append_response
  on_append_response-Saved peer term seq request response e s = ground (
    arith,
    become_follower-Saved laws response.term e s,
    advance_commit_index-Saved laws
        (note_match peer.node_id
          (max (request.prev_log_index + length request.entries) response.match_index) noted)
        (matched noted (contact s)),
    backed noted (contact s),
  )
    where
      noted : Engine S R
      noted = note_contact now peer.node_id seq e

      contact : Saved st Sound e → Saved st Sound noted
      contact g = unfold note_contact in ground arith

      matched :
          (f : Engine S R)
          → Saved st Sound f
          → Saved st Sound (
              note_match peer.node_id
                (max (request.prev_log_index + length request.entries) response.match_index)
                f)
      matched f g = unfold note_match in ground arith

      backed :
          (f : Engine S R)
          → Saved st Sound f
          → Saved st Sound (back_up peer.node_id response.conflict_index request.prev_log_index f)
      backed f g = unfold back_up in ground arith
