-- ===== src/Raft/Log/Lookup.antt =====
-- Where `term_at` finds an entry, and what truncation leaves of the log.
use distributed_key_value_ca.Prelude.{
  ℕ, ◌+◌, ◌-◌, ◌<◌, ◌≤◌, ◌≡◌, true, none, some, arith, length, length-take, get_elem?-some, inl,
  inr, nat_eq, ◌==◌, Bool-cases,
}
use distributed_key_value_ca.Raft.Types.{RaftNode, last_log_index, term_at, truncate_from, has_term}
use distributed_key_value_ca.Raft.Types.Position.{position, position-sub}

module _ (n : RaftNode) where
  -- Every index from the snapshot to the end of the log has a term.
  pub term_at-some :
      (i : ℕ) → n.snapshot_index ≤ i → i ≤ last_log_index n → (t : ℕ) × (term_at n i ≡ some t)
  unfolding term_at
  term_at-some i low high = elim (Bool-cases (i == n.snapshot_index)) [
    | inl here ↦ (n.snapshot_term, ground arith)
    | inr there ↦
        let (entry, found) = get_elem?-some n.log (i - n.snapshot_index - 1) (ground arith) in
        (entry.term, ground arith)
  ]

  -- Past the end there is none.
  pub term_at-none : (i : ℕ) → last_log_index n < i → term_at n i ≡ none
  unfolding term_at
  term_at-none i high = ground arith

  pub last_log_index-truncate_from :
      (i : ℕ)
      → n.snapshot_index < i
      → i ≤ last_log_index n
      → last_log_index (truncate_from n i) ≡ i - 1
  unfolding last_log_index truncate_from
  last_log_index-truncate_from i low high = omega (
    arith,
    position-sub (length n.log) i (n.snapshot_index + 1) (omega arith),
    length-take (position (length n.log) i (n.snapshot_index + 1)) n.log,
  )

  -- An index that has a term is not below the snapshot.
  pub has_term-le : (i t : ℕ) → has_term (term_at n i) t ≡ true → n.snapshot_index ≤ i
  unfolding term_at
  has_term-le i t h = ground arith
