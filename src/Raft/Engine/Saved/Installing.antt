-- ===== src/Raft/Engine/Saved/Installing.antt =====
-- A snapshot is saved before the answer, and a new engine starts from what was saved.
use distributed_key_value_ca.Prelude.{
  suc, ◌+◌, ◌-◌, ◌≡◌, refl, ◌∙◌, ap, sym, subst, subst₂, Bool, true, false, some, [], arith, nat_eq,
  inl, inr, Bool-cases, Option-cases, take, max,
}
use distributed_key_value_ca.Raft.Types.{Loads, RaftNode, term_at, compact_through, has_term}
use distributed_key_value_ca.Raft.Log.Runs.{Runs, Runs-drop, after-drop, before-truncate}
use distributed_key_value_ca.Raft.Log.Lookup.{has_term-le}
use distributed_key_value_ca.Raft.Storage.{RaftStorage, RaftStorageLaws, after, before, kept_config}
use distributed_key_value_ca.Raft.Rpc.{InstallSnapshotRequest}
use distributed_key_value_ca.Raft.Engine.{Engine, Clock, Receiving}
use distributed_key_value_ca.Raft.Engine.Frame.{refresh_config-Keeps}
use distributed_key_value_ca.Raft.Engine.Roles.{accept_leader}
use distributed_key_value_ca.Raft.Engine.Installing.{
  receiving, store_chunk, receive_chunk, settled, adopt_snapshot, install_snapshot,
}
use distributed_key_value_ca.Raft.Engine.Saved.{Saved, Keeps-Saved}
use distributed_key_value_ca.Raft.Engine.Saved.Roles.{accept_leader-Saved}
use distributed_key_value_ca.Raft.Engine.Saved.Applying.{
  log-compact_through, log-compact_through_ne,
}

module _ {S R : Type 0} {st : RaftStorage S} {Sound : S → Type 0}
    (laws : RaftStorageLaws st Sound) where
  store_chunk-Saved :
      (req : InstallSnapshotRequest) (r : Receiving) (e : Engine S R)
      → Saved st Sound e
      → Saved st Sound (store_chunk st req r e).1
  unfolding store_chunk
  store_chunk-Saved req r e s = ground arith

  pub receive_chunk-Saved :
      (now : Clock) (req : InstallSnapshotRequest) (e : Engine S R)
      → Saved st Sound e
      → Saved st Sound (receive_chunk st now req e).1
  unfolding receive_chunk
  receive_chunk-Saved now req e s = elim (Option-cases (receiving req heard.snapshot_rx)) [
    | inl missing ↦ ground (arith, s, told)
    | inr (r, found) ↦ ground (arith, s, told, store_chunk-Saved req r heard told)
  ]
    where
      heard : Engine S R
      heard = accept_leader st now req.term req.leader_id req.leader_address e

      told : Saved st Sound heard
      told = accept_leader-Saved laws now req.term req.leader_id req.leader_address e s

  -- The storage after the two writes of an installation.
  module _ (loads : Loads) (req : InstallSnapshotRequest) (e : Engine S R)
      (s : Saved st Sound e) where
    open req use {last_included_index as index, last_included_term as term}

    agrees : Bool
    agrees = has_term (term_at e.node index) term

    settled_cases :
        (P : S → Type 0)
        → (agrees ≡ true → P e.storage)
        → (agrees ≡ false → P (st.truncate_from (e.node.snapshot_index + 1) e.storage))
        → P (settled st req e)
    unfolding settled agrees
    settled_cases P same other = elim (Bool-cases agrees) [
      | inl t ↦ rw t (same t)
      | inr f ↦ rw f (other f)
    ]

    settled-Sound : Sound (settled st req e)
    settled-Sound =
        settled_cases Sound (λ t. s.sound) (λ f. laws.truncate_from-Sound e.storage _ s.sound)

    settled-term : (st.load (settled st req e)).current_term ≡ e.node.current_term
    settled-term =
        settled_cases (λ x. (st.load x).current_term ≡ e.node.current_term) (λ t. s.term)
          (λ f. ap (λ p. p.current_term) (laws.load-truncate_from e.storage _ s.sound) ∙ s.term)

    settled-vote : (st.load (settled st req e)).voted_for ≡ e.node.voted_for
    settled-vote =
        settled_cases (λ x. (st.load x).voted_for ≡ e.node.voted_for) (λ t. s.vote)
          (λ f. ap (λ p. p.voted_for) (laws.load-truncate_from e.storage _ s.sound) ∙ s.vote)

    compacted : RaftNode
    compacted = compact_through loads e.node index term (some req.config)

    split : agrees ≡ true → e.node.snapshot_index + (index - e.node.snapshot_index) ≡ index
    unfolding agrees
    split t = omega (arith, has_term-le e.node index term t)

    nothing_left : after index (before (e.node.snapshot_index + 1) e.node.log) ≡ []
    unfolding after
    nothing_left = ap (after index) (
        before-truncate e.node.snapshot_index _ e.node.log (omega arith) s.runs
        ∙ ap (λ k. take k e.node.log) none_left)
      where
        none_left : e.node.snapshot_index + 1 - suc e.node.snapshot_index ≡ 0
        none_left = omega arith

    settled-log : after index (st.load (settled st req e)).log ≡ compacted.log
    unfolding compacted agrees
    settled-log =
        settled_cases (λ x. after index (st.load x).log ≡ compacted.log)
          (λ t.
            ap (after index) s.log
            ∙ ap (λ i. after i e.node.log) (sym (split t))
            ∙ after-drop e.node.snapshot_index (index - e.node.snapshot_index) e.node.log s.runs
            ∙ sym (log-compact_through loads e.node index term (some req.config) t))
          (λ f.
            ap (λ p. after index p.log) (laws.load-truncate_from e.storage _ s.sound)
            ∙ ap (λ l. after index (before (e.node.snapshot_index + 1) l)) s.log
            ∙ nothing_left
            ∙ sym (log-compact_through_ne loads e.node index term (some req.config) f))

    compacted-Runs : Runs index compacted.log
    unfolding compacted agrees
    compacted-Runs = elim (Bool-cases agrees) [
      | inl t ↦
          subst₂ Runs (split t)
            (sym (log-compact_through loads e.node index term (some req.config) t))
            (Runs-drop e.node.snapshot_index (index - e.node.snapshot_index) e.node.log s.runs)
      | inr f ↦
          subst (Runs index)
            (sym (log-compact_through_ne loads e.node index term (some req.config) f)) tt
    ]

    adopt_snapshot-Saved : Saved st Sound (adopt_snapshot st loads req e)
    unfolding adopt_snapshot compact_through compacted
    adopt_snapshot-Saved =
        let applied = max e.node.last_applied index in
        let saved =
          laws.load-save_snapshot (settled st req e) index term applied (some req.config)
            settled-Sound in
        record {
          logs = record {
            sound = laws.save_snapshot-Sound _ index term applied (some req.config) settled-Sound;
            runs = compacted-Runs;
            log = ap (λ p. p.log) saved ∙ settled-log;
            snapshot_index = ap (λ p. p.snapshot_index) saved;
            snapshot_term = ap (λ p. p.snapshot_term) saved;
            snapshot_config = ap (λ p. p.snapshot_config) saved ∙ (unfold kept_config in refl);
          };
          term = ap (λ p. p.current_term) saved ∙ settled-term;
          vote = ap (λ p. p.voted_for) saved ∙ settled-vote;
        }

  pub install_snapshot-Saved :
      (loads : Loads) (now : Clock) (req : InstallSnapshotRequest) (e : Engine S R)
      → Saved st Sound e
      → Saved st Sound (install_snapshot st loads now req e).1
  unfolding install_snapshot
  install_snapshot-Saved loads now req e s = ground (
    arith,
    s,
    Keeps-Saved (refresh_config-Keeps loads now (adopt_snapshot st loads req e))
        (adopt_snapshot-Saved loads req e s),
  )
