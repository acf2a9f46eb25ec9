-- ===== src/Raft/Engine/Saved/Applying.antt =====
-- Proposing, applying and compacting save what they change.
use distributed_key_value_ca.Prelude.{
  ℕ, ◌+◌, ◌-◌, ◌≡◌, refl, ◌∙◌, ap, sym, true, false, Option, none, some, List, [], ◌∷◌, arith,
  String, drop, nat_eq, inl, inr, Option-cases, subst₂, beq_refl,
}
use distributed_key_value_ca.Raft.Types.{
  Loads, LogEntry, Member, RaftNode, last_log_index, term_at, config_at, compact_through, has_term,
  given_or,
}
use distributed_key_value_ca.Prelude.Dict
use distributed_key_value_ca.Prelude.Dict.{Dict}
use distributed_key_value_ca.Raft.Types.Position.{position-sub}
use distributed_key_value_ca.Raft.Log.Runs.{Runs, Runs-drop, after-drop}
use distributed_key_value_ca.Raft.Log.Lookup.{has_term-le}
use distributed_key_value_ca.Raft.Storage.{RaftStorage, RaftStorageLaws, after, kept_config}
use distributed_key_value_ca.Raft.Engine.{Engine, Clock, Outcome, pending, wake_replicators}
use distributed_key_value_ca.Raft.Engine.Frame.{wake_replicators-Keeps}
use distributed_key_value_ca.Raft.Engine.Members.{append_local}
use distributed_key_value_ca.Raft.Engine.Roles.{advance_commit_index}
use distributed_key_value_ca.Raft.Engine.Applying.{
  proposal, propose_start, propose_end, note_applied, leave, check_quorum, compact, maybe_snapshot,
  after_apply,
}
use distributed_key_value_ca.Raft.Engine.Saved.{Saved, Keeps-Saved, append_local-Saved}
use distributed_key_value_ca.Raft.Engine.Saved.Roles.{
  become_follower-Saved, advance_commit_index-Saved,
}

-- A membership that nobody recorded is not recorded in the snapshot either.
config_at-none :
    (loads : Loads) (n : RaftNode) (i : ℕ) → config_at loads n i ≡ none → n.snapshot_config ≡ none
unfolding config_at
config_at-none loads n i h = ground arith

module _ (loads : Loads) (n : RaftNode) (index term : ℕ) (config : Option (List Member)) where
  -- Where the log agrees with the snapshot, what follows stays; elsewhere nothing does.
  pub log-compact_through :
      has_term (term_at n index) term ≡ true
      → (compact_through loads n index term config).log ≡ drop (index - n.snapshot_index) n.log
  unfolding compact_through
  log-compact_through same = rw same (
      ap (λ k. drop k n.log)
        (position-sub _ index n.snapshot_index (has_term-le n index term same)))

  pub log-compact_through_ne :
      has_term (term_at n index) term ≡ false → (compact_through loads n index term config).log ≡ []
  unfolding compact_through
  log-compact_through_ne other = rw other

module _ {S R : Type 0} {st : RaftStorage S} {Sound : S → Type 0}
    (laws : RaftStorageLaws st Sound) where
  pub propose_start-Saved :
      (loads : Loads) (now : Clock) (command username request_id : String) (e : Engine S R)
      → Saved st Sound e
      → Saved st Sound (propose_start st loads now command username request_id e).1
  unfolding propose_start
  propose_start-Saved loads now command username request_id e s =
      ground (arith, s, proposed waiters)
    where
      entry : LogEntry
      entry = proposal command username request_id e

      next : Runs (last_log_index e.node) (entry ∷ [])
      next = unfold proposal in (omega arith, tt)

      waiters : Dict ℕ (Outcome R)
      waiters = Dict.put entry.index pending (append_local st loads now (entry ∷ []) e).waiters

      waiting_too :
          (f : Engine S R) (w : Dict ℕ (Outcome R))
          → Saved st Sound f
          → Saved st Sound (record f { waiters = w })
      waiting_too f w g = ground arith

      proposed :
          (w : Dict ℕ (Outcome R))
          → Saved st Sound (
              wake_replicators (
                advance_commit_index
                  (record (append_local st loads now (entry ∷ []) e) { waiters = w })))
      proposed w = Keeps-Saved (wake_replicators-Keeps _) (
          advance_commit_index-Saved laws _
            (waiting_too _ w (append_local-Saved laws loads now (entry ∷ []) e next s)))

  pub propose_end-Saved :
      (index : ℕ) (e : Engine S R) → Saved st Sound e → Saved st Sound (propose_end index e)
  unfolding propose_end
  propose_end-Saved index e s = ground arith

  note_applied-Saved :
      (entry : LogEntry) (result : R) (e : Engine S R)
      → Saved st Sound e
      → Saved st Sound (note_applied entry result e)
  unfolding note_applied
  note_applied-Saved entry result e s = ground arith

  leave-Saved :
      (loads : Loads) (entry : LogEntry) (e : Engine S R)
      → Saved st Sound e
      → Saved st Sound (leave st loads entry e)
  unfolding leave
  leave-Saved loads entry e s = ground (arith, become_follower-Saved laws e.node.current_term e s)

  pub check_quorum-Saved :
      (now : Clock) (term : ℕ) (e : Engine S R)
      → Saved st Sound e
      → Saved st Sound (check_quorum st now term e)
  unfolding check_quorum
  check_quorum-Saved now term e s =
      ground (arith, become_follower-Saved laws e.node.current_term e s)

  -- Compacting through an index of the log: the storage drops the same entries.
  compact-Saved :
      (loads : Loads) (term : ℕ) (e : Engine S R)
      → has_term (term_at e.node e.node.last_applied) term ≡ true
      → Saved st Sound e
      → Saved st Sound (compact st loads term e)
  unfolding compact
  compact-Saved loads term e same s =
      let n = e.node in
      let index = n.last_applied in
      let config = config_at loads n index in
      let low = has_term-le n index term same in
      let rest = index - n.snapshot_index in
      let kept = log-compact_through loads n index term config same in
      let saved = laws.load-save_snapshot e.storage index term index config s.sound in
      let split : n.snapshot_index + rest ≡ index = omega arith in
      unfold compact_through in
      record {
        logs = record {
          sound = laws.save_snapshot-Sound e.storage index term index config s.sound;
          runs =
              subst₂ Runs split (sym (unfold compact_through in kept))
                (Runs-drop n.snapshot_index rest n.log s.runs);
          log =
              ap (λ p. p.log) saved
              ∙ ap (after index) s.log
              ∙ ap (λ i. after i n.log) (sym split)
              ∙ after-drop n.snapshot_index rest n.log s.runs
              ∙ sym kept;
          snapshot_index = ap (λ p. p.snapshot_index) saved;
          snapshot_term = ap (λ p. p.snapshot_term) saved;
          snapshot_config =
              ap (λ p. p.snapshot_config) saved
              ∙ recorded config (config_at-none loads n index) s.snapshot_config;
        };
        term = ap (λ p. p.current_term) saved ∙ s.term;
        vote = ap (λ p. p.voted_for) saved ∙ s.vote;
      }
    where
      recorded :
          (c : Option (List Member))
          → (c ≡ none → e.node.snapshot_config ≡ none)
          → (st.load e.storage).snapshot_config ≡ e.node.snapshot_config
          → kept_config c (st.load e.storage).snapshot_config ≡ given_or c c
      recorded none nothing same = unfold kept_config in (same ∙ nothing refl)
      recorded (some members) nothing same = unfold kept_config in refl

  maybe_snapshot-Saved :
      (loads : Loads) (e : Engine S R)
      → Saved st Sound e
      → Saved st Sound (maybe_snapshot st loads e)
  unfolding maybe_snapshot
  maybe_snapshot-Saved loads e s = elim (Option-cases (term_at e.node e.node.last_applied)) [
    | inl missing ↦ ground arith
    | inr (term, found) ↦ ground (arith, compact-Saved loads term e (rw found (beq_refl term)) s)
  ]

  pub after_apply-Saved :
      (loads : Loads) (entry : LogEntry) (result : R) (e : Engine S R)
      → Saved st Sound e
      → Saved st Sound (after_apply st loads entry result e)
  unfolding after_apply
  after_apply-Saved loads entry result e s =
      maybe_snapshot-Saved loads _ (leave-Saved loads entry _ (note_applied-Saved entry result e s))
