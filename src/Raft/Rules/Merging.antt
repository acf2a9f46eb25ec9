-- ===== src/Raft/Rules/Merging.antt =====
-- raft/node.py, `_handle_append_entries`: what merging the entries of a request does to the log.
use distributed_key_value_ca.Prelude.{
  ℕ, ◌≤◌, ◌≡◌, refl, ap, sym, ◌∙◌, Bool, true, false, Option, none, some, List, [], ◌∷◌, ◌++◌,
  append-nil, arith, subst, length, take, drop, inl, inr, if◌then◌else◌, max, min,
}
use distributed_key_value_ca.Raft.Types.{
  Loads, LogEntry, RaftNode, last_log_index, term_at, truncate_from,
}
use distributed_key_value_ca.Raft.Log.Runs.{Runs}
use distributed_key_value_ca.Raft.Log.News.{new_entries-Fits}
use distributed_key_value_ca.Raft.Log.Merge.{
  Stores, Spliced, new_entries-Spliced, merged, appended, new_entries-Stores, new_entries-CutsAfter,
  term_at-merged,
}
use distributed_key_value_ca.Raft.Storage.{RaftStorage}
use distributed_key_value_ca.Raft.Engine.{Engine, Clock}
use distributed_key_value_ca.Raft.Engine.Frame.{Keeps, refresh_config-Keeps}
use distributed_key_value_ca.Raft.Engine.Members.{
  append_local, truncate_local, store_entries, drop_entries, any_config,
}
use distributed_key_value_ca.Raft.Engine.Replication.{
  new_entries, cut, extend, merge_entries, learn_commit,
}

-- The two nodes have the same log, the same snapshot and the same commit index.
pub record SameLog (n n' : RaftNode) : Type 0 where
  pub log : n'.log ≡ n.log
  pub snapshot_index : n'.snapshot_index ≡ n.snapshot_index
  pub snapshot_term : n'.snapshot_term ≡ n.snapshot_term
  pub commit : n'.commit_index ≡ n.commit_index

pub SameLog-refl : (n : RaftNode) → SameLog n n
SameLog-refl n = record { log = refl; snapshot_index = refl; snapshot_term = refl; commit = refl }

pub SameLog-trans : {l m n : RaftNode} → SameLog l m → SameLog m n → SameLog l n
SameLog-trans a b = record {
  log = b.log ∙ a.log;
  snapshot_index = b.snapshot_index ∙ a.snapshot_index;
  snapshot_term = b.snapshot_term ∙ a.snapshot_term;
  commit = b.commit ∙ a.commit;
}

SameLog-if :
    {S R : Type 0} (b : Bool) (n : RaftNode) (e f : Engine S R)
    → SameLog n e.node
    → SameLog n f.node
    → SameLog n (if b then e else f).node
SameLog-if true n e f s t = s
SameLog-if false n e f s t = t

Keeps-SameLog : {S R : Type 0} {e e' : Engine S R} → Keeps e e' → SameLog e.node e'.node
Keeps-SameLog k = record {
  log = k.log;
  snapshot_index = k.snapshot_index;
  snapshot_term = k.snapshot_term;
  commit = k.commit;
}

pub term_at-SameLog : {n n' : RaftNode} (i : ℕ) → SameLog n n' → term_at n' i ≡ term_at n i
unfolding term_at last_log_index
term_at-SameLog i s = rw (s.snapshot_index, s.snapshot_term, s.log) refl

Stores-SameLog : {n n' : RaftNode} (es : List LogEntry) → SameLog n n' → Stores n es → Stores n' es
Stores-SameLog [] s h = tt
Stores-SameLog (entry ∷ es) s (here, rest) =
    (term_at-SameLog entry.index s ∙ here, Stores-SameLog es s rest)

appended-SameLog :
    {n n' : RaftNode} (es : List LogEntry) → SameLog n n' → SameLog (appended n es) (appended n' es)
appended-SameLog es s = record {
  log = ap (λ l. l ++ es) s.log;
  snapshot_index = s.snapshot_index;
  snapshot_term = s.snapshot_term;
  commit = s.commit;
}

module _ {S R : Type 0} (st : RaftStorage S) (loads : Loads) (now : Clock) where
  append_local-SameLog :
      (es : List LogEntry) (e : Engine S R)
      → SameLog (appended e.node es) (append_local st loads now es e).node
  unfolding append_local
  append_local-SameLog es e =
      SameLog-if (any_config loads es) (appended e.node es) _ _
        (SameLog-trans stored
          (Keeps-SameLog (refresh_config-Keeps loads now (store_entries st es e))))
        stored
    where
      stored : SameLog (appended e.node es) (store_entries st es e).node
      stored = unfold store_entries in SameLog-refl _

  extend-SameLog :
      (es : List LogEntry) (e : Engine S R)
      → SameLog (appended e.node es) (extend st loads now es e).node
  unfolding extend
  extend-SameLog [] e = record {
    log = sym (append-nil e.node.log);
    snapshot_index = refl;
    snapshot_term = refl;
    commit = refl;
  }
  extend-SameLog (f ∷ es) e = append_local-SameLog (f ∷ es) e

  cut-SameLog :
      (i : ℕ) (e : Engine S R)
      → SameLog (truncate_from e.node i) (truncate_local st loads now i e).node
  unfolding truncate_local
  cut-SameLog i e =
      SameLog-trans (unfold drop_entries in SameLog-refl _)
        (Keeps-SameLog (refresh_config-Keeps loads now (drop_entries st i e)))

  change-SameLog :
      (change : Option ℕ × List LogEntry) (e : Engine S R)
      → SameLog
          (merged e.node change)
          (extend st loads now change.1 (cut st loads now change.0 e)).node
  unfolding cut
  change-SameLog (none, news) e = extend-SameLog news e
  change-SameLog (some i, news) e =
      SameLog-trans (appended-SameLog news (cut-SameLog i e)) (extend-SameLog news _)

  merge_entries-SameLog :
      (es : List LogEntry) (e : Engine S R)
      → SameLog (merged e.node (new_entries e.node es)) (merge_entries st loads now es e).node
  unfolding merge_entries
  merge_entries-SameLog es e = change-SameLog (new_entries e.node es) e

-- The log stores the entries, as they are where they are new, and up to `p` it is as before.
pub record Extends (n n' : RaftNode) (p : ℕ) (es : List LogEntry) : Type 0 where
  pub stores : Stores n' es
  pub keeps : (i : ℕ) → i ≤ p → term_at n' i ≡ term_at n i
  pub spliced : Spliced n p es n'.log

term_at-commit_index :
    (n : RaftNode) (c i : ℕ) → term_at (record n { commit_index = c }) i ≡ term_at n i
unfolding term_at last_log_index
term_at-commit_index n c i = refl

Stores-commit_index :
    (n : RaftNode) (c : ℕ) (es : List LogEntry)
    → Stores n es
    → Stores (record n { commit_index = c }) es
Stores-commit_index n c [] h = tt
Stores-commit_index n c (entry ∷ es) (here, rest) =
    (term_at-commit_index n c entry.index ∙ here, Stores-commit_index n c es rest)

pub learn_commit-Extends :
    {S R : Type 0} (n : RaftNode) (p leader_commit last_new : ℕ) (es : List LogEntry)
    (e : Engine S R)
    → Extends n e.node p es
    → Extends n (learn_commit leader_commit last_new e).node p es
unfolding learn_commit
learn_commit-Extends n p leader_commit last_new es e x =
    ground (arith, x, raised (max e.node.commit_index (min leader_commit last_new)))
  where
    raised : (c : ℕ) → Extends n (record e.node { commit_index = c }) p es
    raised c = record {
      stores = Stores-commit_index e.node c es x.stores;
      keeps = (λ i h. term_at-commit_index e.node c i ∙ x.keeps i h);
      spliced = x.spliced;
    }

Spliced-SameLog :
    {n m : RaftNode} (p : ℕ) (es log : List LogEntry)
    → SameLog n m
    → Spliced m p es log
    → Spliced n p es log
Spliced-SameLog p es log s (inl kept) = inl (kept ∙ s.log)
Spliced-SameLog p es log s (inr (k, j, inner, aligned, spliced)) = inr (
  k,
  j,
  subst (λ l. k ≤ length l) s.log inner,
  omega (arith, aligned, s.snapshot_index),
  spliced ∙ ap (λ l. take k l ++ drop j es) s.log,
)

pub Extends-SameLog :
    {n m n' : RaftNode} (p : ℕ) (es : List LogEntry)
    → SameLog n m
    → Extends m n' p es
    → Extends n n' p es
Extends-SameLog {n' = n'} p es s x = record {
  stores = x.stores;
  keeps = (λ i h. x.keeps i h ∙ term_at-SameLog i s);
  spliced = Spliced-SameLog p es n'.log s x.spliced;
}

module _ {S R : Type 0} (st : RaftStorage S) (loads : Loads) (now : Clock) where
  pub merge_entries-Extends :
      (p : ℕ) (es : List LogEntry) (e : Engine S R)
      → e.node.snapshot_index ≤ p
      → p ≤ last_log_index e.node
      → Runs p es
      → Extends e.node (merge_entries st loads now es e).node p es
  merge_entries-Extends p es e low high run =
      let same = merge_entries-SameLog st loads now es e in
      let fits = new_entries-Fits e.node p es low high run in
      let cuts = new_entries-CutsAfter e.node p es low run in
      record {
        stores = Stores-SameLog es same (new_entries-Stores e.node p es low high run);
        keeps = (λ i h.
            term_at-SameLog i same
            ∙ term_at-merged e.node p i (new_entries e.node es) high fits cuts h);
        spliced =
            subst (Spliced e.node p es) (sym same.log)
              (new_entries-Spliced e.node p es low high run);
      }
