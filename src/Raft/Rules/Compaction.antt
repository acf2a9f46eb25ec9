-- ===== src/Raft/Rules/Compaction.antt =====
-- raft/types.py, `compact_through`: what compacting the log leaves of it.
use distributed_key_value_ca.Prelude.{
  ℕ, ◌+◌, ◌-◌, ◌≤◌, ◌<◌, ◌≡◌, ap, sym, ◌∙◌, inl, inr, true, Option, none, some, List, arith, nat_eq,
  length, length-drop, get_elem?, get_elem?-drop, le_or_lt, subst,
}
use distributed_key_value_ca.Raft.Types.{
  Loads, Member, RaftNode, last_log_index, term_at, has_term, compact_through,
}
use distributed_key_value_ca.Raft.Log.Lookup.{has_term-le, term_at-none}
use distributed_key_value_ca.Raft.Engine.Saved.Applying.{log-compact_through}

has_term-last : (n : RaftNode) (i t : ℕ) → has_term (term_at n i) t ≡ true → i ≤ last_log_index n
has_term-last n i t h = elim (le_or_lt i (last_log_index n)) [
  | inl inside ↦ inside
  | inr outside ↦ absurd (ground (arith, h, term_at-none n i outside))
]

-- Two nodes whose logs end together and have the same entry at an index past both snapshots.
term_at-past :
    (m n : RaftNode) (i : ℕ)
    → m.snapshot_index < i
    → n.snapshot_index < i
    → last_log_index m ≡ last_log_index n
    → get_elem? m.log (i - m.snapshot_index - 1) ≡ get_elem? n.log (i - n.snapshot_index - 1)
    → term_at m i ≡ term_at n i
unfolding term_at
term_at-past m n i low low' ends found = ground (arith, found, ends)

term_at-snapshot_index : (n : RaftNode) → term_at n n.snapshot_index ≡ some n.snapshot_term
unfolding term_at
term_at-snapshot_index n = ground arith

has_term-some : (t : Option ℕ) (u : ℕ) → has_term t u ≡ true → t ≡ some u
has_term-some none u h = ground arith
has_term-some (some t) u h = ap some ((nat_eq.beq_iff t u).0 h)

module _ (loads : Loads) (n : RaftNode) (index term : ℕ) (config : Option (List Member)) where
  compacted : RaftNode
  compacted = compact_through loads n index term config

  last_log_index-compacted :
      has_term (term_at n index) term ≡ true → last_log_index compacted ≡ last_log_index n
  unfolding compacted last_log_index
  last_log_index-compacted same =
      let low = has_term-le n index term same in
      let high : index ≤ n.snapshot_index + length n.log = has_term-last n index term same in
      let kept = ap length (log-compact_through loads n index term config same) in
      unfold compact_through in
      omega (arith, low, high, kept, length-drop (index - n.snapshot_index) n.log)

  found_later :
      (i : ℕ)
      → has_term (term_at n index) term ≡ true
      → index < i
      → get_elem? compacted.log (i - index - 1) ≡ get_elem? n.log (i - n.snapshot_index - 1)
  unfolding compacted
  found_later i same later =
      let low = has_term-le n index term same in
      let k = index - n.snapshot_index in
      let shifted : k + (i - index - 1) ≡ i - n.snapshot_index - 1 = omega (arith, low, later) in
      ap (λ l. get_elem? l (i - index - 1)) (log-compact_through loads n index term config same)
      ∙ get_elem?-drop k n.log (i - index - 1)
      ∙ ap (get_elem? n.log) shifted

  -- Compacting through an index at which the log has the given term keeps the end of the log, and
  -- the term of every index from there on.
  pub term_at-compact_through :
      has_term (term_at n index) term ≡ true
      → (last_log_index (compact_through loads n index term config) ≡ last_log_index n)
        × ((i : ℕ)
            → index ≤ i
            → term_at (compact_through loads n index term config) i ≡ term_at n i)
  unfolding compacted
  term_at-compact_through same = (last_log_index-compacted same, kept)
    where
      here : term_at compacted index ≡ term_at n index
      here =
          unfold compact_through in
          term_at-snapshot_index compacted ∙ sym (has_term-some (term_at n index) term same)

      kept : (i : ℕ) → index ≤ i → term_at compacted i ≡ term_at n i
      kept i low = elim (le_or_lt i index) [
        | inl top ↦
            let eq : index ≡ i = omega arith in
            subst (λ k. term_at compacted k ≡ term_at n k) eq here
        | inr later ↦
            term_at-past compacted n i (unfold compact_through in later)
              (omega (arith, later, has_term-le n index term same)) (last_log_index-compacted same)
              (unfold compact_through in found_later i same later)
      ]
