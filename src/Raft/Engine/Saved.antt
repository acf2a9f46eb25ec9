-- ===== src/Raft/Engine/Saved.antt =====
-- The storage always holds what the node must not forget: no handler of raft/node.py returns with
-- a term, a vote, a log or a snapshot boundary in memory that is not saved.
pub mod Roles
pub mod Votes
pub mod Replication
pub mod Applying
pub mod Installing
pub mod Lifecycle
use distributed_key_value_ca.Prelude.{
  ℕ, zero, suc, ◌+◌, ◌-◌, ◌<◌, ◌≤◌, ◌≡◌, refl, sym, ap, ◌∙◌, subst, subst₂, String, Bool, true,
  false, inl, inr, Bool-cases, Option, none, some, List, [], ◌∷◌, ◌++◌, arith, ltb, if◌then◌else◌,
  length, take,
}
use distributed_key_value_ca.Raft.Types.{
  Loads, LogEntry, Member, RaftNode, last_log_index, truncate_from,
}
use distributed_key_value_ca.Raft.Types.Position.{position, position-sub}
use distributed_key_value_ca.Raft.Log.Runs.{
  Runs, Runs-Ascends, Runs-append, Runs-take, before-truncate, appended-append,
}
use distributed_key_value_ca.Raft.Storage.{RaftStorage, RaftStorageLaws, Ascends, appended, before}
use distributed_key_value_ca.Raft.Engine.{Engine, Clock, persist_term_and_vote}
use distributed_key_value_ca.Raft.Engine.Frame.{Keeps, refresh_config-Keeps}
use distributed_key_value_ca.Raft.Engine.Members.{
  store_entries, drop_entries, append_local, truncate_local, refresh_config, any_config,
}

module _ {S R : Type 0} (st : RaftStorage S) (Sound : S → Type 0) where
  -- All but the term and the vote.
  pub record LogSaved (e : Engine S R) : Type 0 where
    pub sound : Sound e.storage
    pub runs : Runs e.node.snapshot_index e.node.log
    pub log : (st.load e.storage).log ≡ e.node.log
    pub snapshot_index : (st.load e.storage).snapshot_index ≡ e.node.snapshot_index
    pub snapshot_term : (st.load e.storage).snapshot_term ≡ e.node.snapshot_term
    pub snapshot_config : (st.load e.storage).snapshot_config ≡ e.node.snapshot_config

  pub record Saved (e : Engine S R) : Type 0 where
    pub logs : LogSaved e
    pub open logs use *
    pub term : (st.load e.storage).current_term ≡ e.node.current_term
    pub vote : (st.load e.storage).voted_for ≡ e.node.voted_for

module _ {S R : Type 0} {st : RaftStorage S} {Sound : S → Type 0} where
  pub Keeps-LogSaved : {e e' : Engine S R} → Keeps e e' → LogSaved st Sound e → LogSaved st Sound e'
  Keeps-LogSaved k s = record {
    sound = subst Sound (sym k.storage) s.sound;
    runs = subst₂ Runs (sym k.snapshot_index) (sym k.log) s.runs;
    log = ap (λ x. (st.load x).log) k.storage ∙ s.log ∙ sym k.log;
    snapshot_index =
        ap (λ x. (st.load x).snapshot_index) k.storage ∙ s.snapshot_index ∙ sym k.snapshot_index;
    snapshot_term =
        ap (λ x. (st.load x).snapshot_term) k.storage ∙ s.snapshot_term ∙ sym k.snapshot_term;
    snapshot_config =
        ap (λ x. (st.load x).snapshot_config) k.storage ∙ s.snapshot_config ∙ sym k.snapshot_config;
  }

  pub Keeps-Saved : {e e' : Engine S R} → Keeps e e' → Saved st Sound e → Saved st Sound e'
  Keeps-Saved k s = record {
    logs = Keeps-LogSaved k s.logs;
    term = ap (λ x. (st.load x).current_term) k.storage ∙ s.term ∙ sym k.term;
    vote = ap (λ x. (st.load x).voted_for) k.storage ∙ s.vote ∙ sym k.vote;
  }

module _ {S R : Type 0} {st : RaftStorage S} {Sound : S → Type 0}
    (laws : RaftStorageLaws st Sound) where
  -- Saving the term and the vote makes up for whatever has become of them.
  pub persist_term_and_vote-Saved :
      (e : Engine S R) → LogSaved st Sound e → Saved st Sound (persist_term_and_vote st e)
  unfolding persist_term_and_vote
  persist_term_and_vote-Saved e s =
      let t = e.node.current_term in
      let v = e.node.voted_for in
      let saved = laws.load-save_term_and_vote e.storage t v in
      record {
        logs = record {
          sound = laws.save_term_and_vote-Sound e.storage t v s.sound;
          runs = s.runs;
          log = ap (λ p. p.log) saved ∙ s.log;
          snapshot_index = ap (λ p. p.snapshot_index) saved ∙ s.snapshot_index;
          snapshot_term = ap (λ p. p.snapshot_term) saved ∙ s.snapshot_term;
          snapshot_config = ap (λ p. p.snapshot_config) saved ∙ s.snapshot_config;
        };
        term = ap (λ p. p.current_term) saved;
        vote = ap (λ p. p.voted_for) saved;
      }

  store_entries-Saved :
      (es : List LogEntry) (e : Engine S R)
      → Runs (last_log_index e.node) es
      → Saved st Sound e
      → Saved st Sound (store_entries st es e)
  unfolding store_entries last_log_index
  store_entries-Saved es e next s =
      let rising : Ascends (st.load e.storage).snapshot_index es =
        subst (λ i. Ascends i es) (sym s.snapshot_index)
          (Runs-Ascends _ e.node.snapshot_index es (omega arith) next) in
      let saved = laws.load-append e.storage es s.sound rising in
      record {
        logs = record {
          sound = laws.append-Sound e.storage es s.sound rising;
          runs = Runs-append e.node.snapshot_index e.node.log es s.runs next;
          log =
              ap (λ p. p.log) saved
              ∙ ap (λ l. appended l es) s.log
              ∙ appended-append e.node.snapshot_index e.node.log es s.runs next;
          snapshot_index = ap (λ p. p.snapshot_index) saved ∙ s.snapshot_index;
          snapshot_term = ap (λ p. p.snapshot_term) saved ∙ s.snapshot_term;
          snapshot_config = ap (λ p. p.snapshot_config) saved ∙ s.snapshot_config;
        };
        term = ap (λ p. p.current_term) saved ∙ s.term;
        vote = ap (λ p. p.voted_for) saved ∙ s.vote;
      }

  pub append_local-Saved :
      (loads : Loads) (now : Clock) (es : List LogEntry) (e : Engine S R)
      → Runs (last_log_index e.node) es
      → Saved st Sound e
      → Saved st Sound (append_local st loads now es e)
  unfolding append_local
  append_local-Saved loads now es e next s = elim (Bool-cases (any_config loads es)) [
    | inl c ↦
        rw c (Keeps-Saved (refresh_config-Keeps loads now _) (store_entries-Saved es e next s))
    | inr c ↦ rw c (store_entries-Saved es e next s)
  ]

  drop_entries-Saved :
      (index : ℕ) (e : Engine S R)
      → e.node.snapshot_index < index
      → Saved st Sound e
      → Saved st Sound (drop_entries st index e)
  unfolding drop_entries truncate_from
  drop_entries-Saved index e later s =
      let b = e.node.snapshot_index in
      let saved = laws.load-truncate_from e.storage index s.sound in
      let kept : position (length e.node.log) index (b + 1) ≡ index - suc b =
        position-sub _ index (b + 1) (omega arith) ∙ omega arith in
      record {
        logs = record {
          sound = laws.truncate_from-Sound e.storage index s.sound;
          runs = Runs-take b _ e.node.log s.runs;
          log =
              ap (λ p. p.log) saved
              ∙ ap (before index) s.log
              ∙ before-truncate b index e.node.log later s.runs
              ∙ ap (λ k. take k e.node.log) (sym kept);
          snapshot_index = ap (λ p. p.snapshot_index) saved ∙ s.snapshot_index;
          snapshot_term = ap (λ p. p.snapshot_term) saved ∙ s.snapshot_term;
          snapshot_config = ap (λ p. p.snapshot_config) saved ∙ s.snapshot_config;
        };
        term = ap (λ p. p.current_term) saved ∙ s.term;
        vote = ap (λ p. p.voted_for) saved ∙ s.vote;
      }

  pub truncate_local-Saved :
      (loads : Loads) (now : Clock) (index : ℕ) (e : Engine S R)
      → e.node.snapshot_index < index
      → Saved st Sound e
      → Saved st Sound (truncate_local st loads now index e)
  unfolding truncate_local
  truncate_local-Saved loads now index e later s =
      Keeps-Saved (refresh_config-Keeps loads now _) (drop_entries-Saved index e later s)
