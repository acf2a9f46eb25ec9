-- ===== src/Raft/Rules/Backing.antt =====
-- raft/node.py, `_handle_append_entries`: the index that a follower names when the logs disagree.
use distributed_key_value_ca.Prelude.{
  ℕ, zero, suc, ◌+◌, ◌-◌, ◌≤◌, ◌<◌, ◌≡◌, ◌⊎◌, inl, inr, true, false, Option, none, some, arith, ltb,
  Bool-cases, le_or_lt, ltb→lt, length, ap, subst, ◌∙◌,
}
use distributed_key_value_ca.Raft.Types.{RaftNode, term_at, entries_from}
use distributed_key_value_ca.Raft.Types.Position.{position, position-sub}
use distributed_key_value_ca.Raft.Log.Runs.{Runs, Runs-take, Runs-drop}
use distributed_key_value_ca.Raft.Rpc.{AppendEntriesRequest}
use distributed_key_value_ca.Raft.Engine.{Engine}
use distributed_key_value_ca.Raft.Engine.Replication.{
  first_of_term, same_term, append_request, max_entries_per_rpc,
}

first_of_term_range :
    (n : RaftNode) (t : Option ℕ) (p : ℕ)
    → n.snapshot_index < p
    → (n.snapshot_index < first_of_term n t p) × (first_of_term n t p ≤ p)
unfolding first_of_term
first_of_term_range n t zero h = omega arith
first_of_term_range n t (suc p) h =
    ground (arith, (λ (l : n.snapshot_index < p). first_of_term_range n t p l))

first_of_term_same :
    (n : RaftNode) (t : Option ℕ) (p i : ℕ)
    → first_of_term n t p ≤ i
    → i < p
    → same_term (term_at n i) t ≡ true
unfolding first_of_term
first_of_term_same n t zero i low high = absurd (omega arith)
first_of_term_same n t (suc p) i low high = elim (le_or_lt p i) [
  | inl top ↦ at_top (subst (λ k. first_of_term n t (suc p) ≤ k) (omega arith) low) (omega arith)
  | inr under ↦
      ground (arith, (λ (l : first_of_term n t p ≤ i). first_of_term_same n t p i l under))
]
  where
    at_top : first_of_term n t (suc p) ≤ p → i ≡ p → same_term (term_at n i) t ≡ true
    at_top below here = ap (λ k. same_term (term_at n k) t) here ∙ ground (arith, below)

first_of_term_stop :
    (n : RaftNode) (t : Option ℕ) (p : ℕ)
    → n.snapshot_index < p
    → (first_of_term n t p ≡ suc n.snapshot_index)
      ⊎ (same_term (term_at n (first_of_term n t p - 1)) t ≡ false)
unfolding first_of_term
first_of_term_stop n t zero h = absurd (omega arith)
first_of_term_stop n t (suc p) h = ground (arith, first_of_term_stop n t p)

-- Where a follower's term at an index after its snapshot conflicts, the index that it names is after
-- the snapshot and not beyond the conflict. The entries from there to the conflict all have the conflicting term, and
-- the one before it has another, unless it is the first after the snapshot.
pub first_of_term_lem :
    (n : RaftNode) (p : ℕ)
    → n.snapshot_index < p
    → (n.snapshot_index < first_of_term n (term_at n p) p)
      × (first_of_term n (term_at n p) p ≤ p)
      × ((i : ℕ)
          → first_of_term n (term_at n p) p ≤ i
          → i < p
          → same_term (term_at n i) (term_at n p) ≡ true)
      × ((first_of_term n (term_at n p) p ≡ suc n.snapshot_index)
          ⊎ (same_term (term_at n (first_of_term n (term_at n p) p - 1)) (term_at n p) ≡ false))
first_of_term_lem n p h =
    let (low, high) = first_of_term_range n (term_at n p) p h in
    (low, high, first_of_term_same n (term_at n p) p, first_of_term_stop n (term_at n p) p h)

entries_from-Runs :
    (n : RaftNode) (index limit : ℕ)
    → n.snapshot_index < index
    → Runs n.snapshot_index n.log
    → Runs (index - 1) (entries_from n index limit)
unfolding entries_from
entries_from-Runs n index limit low run =
    subst (λ k. Runs k (entries_from n index limit))
      (omega (arith, position-sub (length n.log) index (n.snapshot_index + 1) (omega arith)))
      (Runs-take _ _ _ (
        Runs-drop n.snapshot_index (position (length n.log) index (n.snapshot_index + 1)) n.log
          run))

abbrev Consecutive : Option AppendEntriesRequest → Type 0
Consecutive none = Unit
Consecutive (some req) = Runs req.prev_log_index req.entries

module _ {S R : Type 0} where
  append_request-Consecutive :
      (term next_idx : ℕ) (e : Engine S R)
      → Runs e.node.snapshot_index e.node.log
      → Consecutive (append_request term next_idx e)
  unfolding append_request
  append_request-Consecutive term next_idx e run =
      elim (Bool-cases (ltb e.node.snapshot_index next_idx)) [
        | inl has ↦
            rw has (entries_from-Runs e.node next_idx max_entries_per_rpc (ltb→lt _ _ has) run)
        | inr needs ↦ rw needs tt
      ]

  -- A leader whose log has the indices that follow its snapshot sends entries whose indices follow
  -- `prev_log_index`.
  pub append_request-Runs :
      (term next_idx : ℕ) (e : Engine S R) (req : AppendEntriesRequest)
      → Runs e.node.snapshot_index e.node.log
      → append_request term next_idx e ≡ some req
      → Runs req.prev_log_index req.entries
  append_request-Runs term next_idx e req run sent =
      subst Consecutive sent (append_request-Consecutive term next_idx e run)
