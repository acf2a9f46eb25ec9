-- ===== src/Raft/Rules/Commits.antt =====
-- raft/node.py, `_advance_commit_index`: what a leader commits.
use distributed_key_value_ca.Prelude.{
  ℕ, refl, zero, suc, ◌+◌, ◌-◌, ◌≤◌, ◌<◌, ◌≡◌, ◌⊎◌, subst, true, false, none, some, arith, inl, inr,
  Bool-cases, Option-cases, le_or_lt,
}
use distributed_key_value_ca.Raft.Types.{term_at, last_log_index, has_term, is_leader}
use distributed_key_value_ca.Raft.Engine.{Engine, majority, wake_replicators}
use distributed_key_value_ca.Raft.Engine.Roles.{replicas, commit_scan, advance_commit_index}

module _ {S R : Type 0} where
  -- An index that the scan finds, and why.
  pub record Committable (e : Engine S R) (k i : ℕ) : Type 0 where
    pub later : e.node.commit_index < i
    pub inside : i ≤ e.node.commit_index + k
    pub current : has_term (term_at e.node i) e.node.current_term ≡ true
    pub stored : majority e ≤ replicas e i

  widen : (e : Engine S R) (k i : ℕ) → Committable e k i → Committable e (suc k) i
  widen e k i c = record {
    later = c.later;
    inside = omega (arith, c.inside);
    current = c.current;
    stored = c.stored;
  }

  commit_scan-Committable :
      (e : Engine S R) (k i : ℕ) → commit_scan e k ≡ some i → Committable e k i
  unfolding commit_scan
  commit_scan-Committable e zero i h = ground arith
  commit_scan-Committable e (suc k) i h =
      ground
        (arith, (λ (g : commit_scan e k ≡ some i). widen e k i (commit_scan-Committable e k i g)))

  -- Above an index that the scan finds, no index that it looked at is stored by a majority.
  commit_scan_highest :
      (e : Engine S R) (k i j : ℕ)
      → commit_scan e k ≡ some i
      → i < j
      → j ≤ e.node.commit_index + k
      → replicas e j < majority e
  unfolding commit_scan
  commit_scan_highest e zero i j h up top = ground arith
  commit_scan_highest e (suc k) i j h up top = ground (
    arith,
    (λ (g : commit_scan e k ≡ some i) (l : j ≤ e.node.commit_index + k).
        commit_scan_highest e k i j g up l),
  )

  -- A move of the commit index, with the reasons for it.
  pub record Advance (e e' : Engine S R) : Type 0 where
    pub leads : is_leader e.node.state ≡ true
    pub rises : e.node.commit_index < e'.node.commit_index
    pub inside : e'.node.commit_index ≤ last_log_index e.node
    pub current : has_term (term_at e.node e'.node.commit_index) e.node.current_term ≡ true
    pub stored : majority e ≤ replicas e e'.node.commit_index
    pub highest :
        (j : ℕ) → e'.node.commit_index < j → j ≤ last_log_index e.node → replicas e j < majority e

  -- An index that cannot be committed yet: no majority stores it, or it or a later one up to `top` has
  -- not the current term.
  abbrev pub Blocked : Engine S R → ℕ → ℕ → Type 0
  Blocked e top j =
      (replicas e j < majority e)
      ⊎ ((i : ℕ) × (j ≤ i) × (i ≤ top) × (has_term (term_at e.node i) e.node.current_term ≡ false))

  -- Every index of the log that is not committed is blocked.
  abbrev pub Idle : Engine S R → Type 0
  Idle e =
      (j : ℕ)
      → e.node.commit_index < j
      → j ≤ last_log_index e.node
      → Blocked e (last_log_index e.node) j

  scan_stops :
      (e : Engine S R) (k : ℕ)
      → commit_scan e (suc k) ≡ none
      → (has_term (term_at e.node (e.node.commit_index + suc k)) e.node.current_term ≡ false)
        ⊎ ((replicas e (e.node.commit_index + suc k) < majority e) × (commit_scan e k ≡ none))
  unfolding commit_scan
  scan_stops e k h = ground arith

  Blocked-suc : (e : Engine S R) (top j : ℕ) → Blocked e top j → Blocked e (suc top) j
  Blocked-suc e top j (inl few) = inl few
  Blocked-suc e top j (inr (i, low, high, other)) = inr (i, low, omega arith, other)

  commit_scan-none :
      (e : Engine S R) (k j : ℕ)
      → commit_scan e k ≡ none
      → e.node.commit_index < j
      → j ≤ e.node.commit_index + k
      → Blocked e (e.node.commit_index + k) j
  commit_scan-none e zero j h low high = absurd (omega arith)
  commit_scan-none e (suc k) j h low high = elim (scan_stops e k h) [
    | inl other ↦ inr (e.node.commit_index + suc k, high, omega arith, other)
    | inr (few, rest) ↦ elim (le_or_lt j (e.node.commit_index + k)) [
      | inl under ↦
          subst (λ t. Blocked e t j) (omega arith)
            (Blocked-suc e (e.node.commit_index + k) j (commit_scan-none e k j rest low under))
      | inr top ↦ inl (subst (λ i. replicas e i < majority e) (omega arith) few)
    ]
  ]

  scan-Idle :
      (e : Engine S R) → commit_scan e (last_log_index e.node - e.node.commit_index) ≡ none → Idle e
  scan-Idle e missing j low high =
      subst (λ t. Blocked e t j) (omega arith)
        (commit_scan-none e (last_log_index e.node - e.node.commit_index) j missing low
          (omega arith))

  -- the engine once the scan has found an index
  committed : (e : Engine S R) (i : ℕ) → Engine S R
  committed e i = wake_replicators (record e { node = record e.node { commit_index = i } })

  committed-Advance :
      (e : Engine S R) (i : ℕ)
      → is_leader e.node.state ≡ true
      → commit_scan e (last_log_index e.node - e.node.commit_index) ≡ some i
      → Advance e (committed e i)
  unfolding committed wake_replicators
  committed-Advance e i leads found =
      let c = commit_scan-Committable e (last_log_index e.node - e.node.commit_index) i found in
      record {
        leads = leads;
        rises = c.later;
        inside = omega (arith, c.inside, c.later);
        current = c.current;
        stored = c.stored;
        highest = (λ j up top. commit_scan_highest e _ i j found up (omega arith));
      }

  advance_found :
      (e : Engine S R) (i : ℕ)
      → is_leader e.node.state ≡ true
      → commit_scan e (last_log_index e.node - e.node.commit_index) ≡ some i
      → committed e i ≡ advance_commit_index e
  unfolding advance_commit_index committed
  advance_found e i leads found = rw (leads, found) refl

  advance_none :
      (e : Engine S R)
      → (is_leader e.node.state ≡ false)
        ⊎ (commit_scan e (last_log_index e.node - e.node.commit_index) ≡ none)
      → advance_commit_index e ≡ e
  unfolding advance_commit_index
  advance_none e (inl follows) = rw follows refl
  advance_none e (inr missing) = elim (Bool-cases (is_leader e.node.state)) [
    | inl leads ↦ rw (leads, missing) refl
    | inr follows ↦ rw follows refl
  ]

  pub advance_commit_index_lem :
      (e : Engine S R)
      → ((advance_commit_index e ≡ e) × ((is_leader e.node.state ≡ false) ⊎ Idle e))
        ⊎ Advance e (advance_commit_index e)
  advance_commit_index_lem e = elim (Bool-cases (is_leader e.node.state)) [
    | inr follows ↦ inl (advance_none e (inl follows), inl follows)
    | inl leads ↦
        elim (Option-cases (commit_scan e (last_log_index e.node - e.node.commit_index))) [
          | inl missing ↦ inl (advance_none e (inr missing), inr (scan-Idle e missing))
          | inr (i, found) ↦ inr (
              subst (Advance e) (advance_found e i leads found) (committed-Advance e i leads found))
        ]
  ]
