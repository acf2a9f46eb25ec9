-- ===== src/Raft/Log/News.antt =====
-- Where the entries of an AppendEntries request leave the log of a follower: a conflict is inside
-- the log, after the snapshot, and what is new follows the part that stays.
use distributed_key_value_ca.Prelude.{
  ℕ, suc, ◌-◌, ◌<◌, ◌≤◌, ◌≡◌, true, false, Option, none, some, List, [], ◌∷◌, arith, inl, inr,
  nat_eq, ◌==◌, Bool-cases, le_or_lt, subst, sym,
}
use distributed_key_value_ca.Raft.Types.{LogEntry, RaftNode, last_log_index, term_at}
use distributed_key_value_ca.Raft.Log.Runs.{Runs}
use distributed_key_value_ca.Raft.Log.Lookup.{term_at-some, term_at-none}
use distributed_key_value_ca.Raft.Engine.Replication.{new_entries}

abbrev pub Fits : RaftNode → Option ℕ × List LogEntry → Type 0
Fits n (none, news) = Runs (last_log_index n) news
Fits n (some i, news) = (n.snapshot_index < i) × (i ≤ last_log_index n) × Runs (i - 1) news

module _ (n : RaftNode) (e : LogEntry) (es : List LogEntry) where
  pub new_entries_past : term_at n e.index ≡ none → new_entries n (e ∷ es) ≡ (none, e ∷ es)
  unfolding new_entries
  new_entries_past h = rw (h, new_entries)

  pub new_entries_same :
      (t : ℕ)
      → term_at n e.index ≡ some t
      → (t == e.term) ≡ true
      → new_entries n (e ∷ es) ≡ new_entries n es
  unfolding new_entries
  new_entries_same t h same = rw (h, same, new_entries)

  pub new_entries_conflict :
      (t : ℕ)
      → term_at n e.index ≡ some t
      → (t == e.term) ≡ false
      → new_entries n (e ∷ es) ≡ (some e.index, e ∷ es)
  unfolding new_entries
  new_entries_conflict t h other = rw (h, other, new_entries)

pub new_entries-Fits :
    (n : RaftNode) (p : ℕ) (entries : List LogEntry)
    → n.snapshot_index ≤ p
    → p ≤ last_log_index n
    → Runs p entries
    → Fits n (new_entries n entries)
new_entries-Fits n p [] low high run = unfold new_entries in tt
new_entries-Fits n p (e ∷ es) low high run = elim (le_or_lt (suc p) (last_log_index n)) [
  | inl inside ↦
      let (t, found) = term_at-some n e.index (omega (arith, run.0)) (omega (arith, run.0)) in
      elim (Bool-cases (t == e.term)) [
        | inl same ↦
            subst (Fits n) (sym (new_entries_same n e es t found same))
              (new_entries-Fits n (suc p) es (omega arith) inside run.1)
        | inr other ↦
            subst (Fits n) (sym (new_entries_conflict n e es t found other)) (
              omega (arith, run.0),
              omega (arith, run.0),
              from (e.index - 1) (omega (arith, run.0)),
            )
      ]
  | inr outside ↦
      subst (Fits n) (sym (new_entries_past n e es (term_at-none n e.index (omega (arith, run.0)))))
        (from (last_log_index n) (omega arith))
]
  where
    from : (q : ℕ) → q ≡ p → Runs q (e ∷ es)
    from q eq = subst (λ k. Runs k (e ∷ es)) (sym eq) run
