-- ===== src/Raft/Log/Merge.antt =====
-- What the log of a follower holds once the new entries of an AppendEntries request are in it.
use distributed_key_value_ca.Prelude.{
  ℕ, suc, ◌+◌, ◌-◌, ◌<◌, ◌≤◌, ◌≡◌, refl, ap, sym, ◌∙◌, subst, Option, none, some, List, [], ◌∷◌,
  ◌++◌, append_assoc, append-nil, take_all, drop, ◌⊎◌, arith, inl, inr, nat_eq, ◌==◌, Bool-cases,
  le_or_lt, length, length-append, length-take, take, get_elem?, get_elem?-append_left,
  get_elem?-append_right, get_elem?-take,
}
use distributed_key_value_ca.Raft.Types.{LogEntry, RaftNode, last_log_index, term_at, truncate_from}
use distributed_key_value_ca.Raft.Types.Position.{position, position-sub}
use distributed_key_value_ca.Raft.Log.Runs.{Runs}
use distributed_key_value_ca.Raft.Log.Lookup.{
  term_at-some, term_at-none, last_log_index-truncate_from,
}
use distributed_key_value_ca.Raft.Log.News.{
  new_entries_past, new_entries_same, new_entries_conflict, Fits, new_entries-Fits,
}
use distributed_key_value_ca.Raft.Engine.Replication.{new_entries}

-- the node with entries at the end of its log
abbrev pub appended : RaftNode → List LogEntry → RaftNode
appended n es = record n { log = n.log ++ es }

-- the node once the log is cut and the news are in it
abbrev pub merged : RaftNode → Option ℕ × List LogEntry → RaftNode
merged n (none, news) = appended n news
merged n (some i, news) = appended (truncate_from n i) news

-- The node has a log entry for each of these, with the same index and term.
abbrev pub Stores : RaftNode → List LogEntry → Type 0
Stores n [] = Unit
Stores n (entry ∷ es) = (term_at n entry.index ≡ some entry.term) × Stores n es

-- The log is as before, or from some entry of the request on, the rest of the request follows the part of
-- the old log that is before that entry. The request's entries follow the index `p`.
abbrev pub Spliced : RaftNode → ℕ → List LogEntry → List LogEntry → Type 0
Spliced n p es log =
    (log ≡ n.log)
    ⊎ ((k : ℕ) × (j : ℕ) × (k ≤ length n.log)
        × (n.snapshot_index + k ≡ p + j)
        × (log ≡ take k n.log ++ drop j es))

-- The cut, if there is one, is after the index.
abbrev CutsAfter : ℕ → Option ℕ × List LogEntry → Type 0
CutsAfter p (none, news) = Unit
CutsAfter p (some i, news) = p < i

-- A log in which the same entry stands at an index gives it the same term.
term_at_same :
    (n : RaftNode) (l : List LogEntry) (i : ℕ)
    → i ≤ last_log_index n
    → i ≤ n.snapshot_index + length l
    → (n.snapshot_index < i
        → get_elem? l (i - n.snapshot_index - 1) ≡ get_elem? n.log (i - n.snapshot_index - 1))
    → term_at (record n { log = l }) i ≡ term_at n i
unfolding term_at last_log_index
term_at_same n l i h g same = ground (arith, same)

term_at-appended :
    (n : RaftNode) (es : List LogEntry) (i : ℕ)
    → i ≤ last_log_index n
    → term_at (appended n es) i ≡ term_at n i
unfolding last_log_index
term_at-appended n es i h =
    term_at_same n (n.log ++ es) i h (omega (arith, length-append n.log es))
      (λ low. get_elem?-append_left n.log es (i - n.snapshot_index - 1) (omega arith))

term_at-appended_new :
    (n : RaftNode) (entry : LogEntry) (es : List LogEntry)
    → entry.index ≡ suc (last_log_index n)
    → term_at (appended n (entry ∷ es)) entry.index ≡ some entry.term
unfolding term_at last_log_index
term_at-appended_new n entry es h = ground (arith, length-append n.log (entry ∷ es), found)
  where
    found : get_elem? (n.log ++ entry ∷ es) (entry.index - n.snapshot_index - 1) ≡ some entry
    found =
        ap (get_elem? (n.log ++ entry ∷ es)) (unfold last_log_index in omega (arith, h))
        ∙ get_elem?-append_right n.log (entry ∷ es) 0

term_at-truncate_from :
    (n : RaftNode) (index i : ℕ)
    → n.snapshot_index < index
    → index ≤ last_log_index n
    → i < index
    → term_at (truncate_from n index) i ≡ term_at n i
unfolding last_log_index truncate_from
term_at-truncate_from n index i low high under =
    let k = position (length n.log) index (n.snapshot_index + 1) in
    let eq = position-sub (length n.log) index (n.snapshot_index + 1) (omega arith) in
    term_at_same n (take k n.log) i (omega arith) (omega (arith, eq, length-take k n.log))
      (λ l. get_elem?-take k n.log (i - n.snapshot_index - 1) (omega (arith, eq)))

-- News that follow the log are all stored.
appended-Stores :
    (n : RaftNode) (es : List LogEntry) → Runs (last_log_index n) es → Stores (appended n es) es
appended-Stores n [] run = tt
appended-Stores n (entry ∷ es) (index, run) = (
  term_at-appended_new n entry es index,
  subst (λ l. Stores (record n { log = l }) es) (append_assoc n.log (entry ∷ []) es)
      (appended-Stores (appended n (entry ∷ [])) es
        (subst (λ k. Runs k es) (sym (last_log_index-appended n entry)) run)),
)
  where
    last_log_index-appended :
        (m : RaftNode) (f : LogEntry)
        → last_log_index (appended m (f ∷ [])) ≡ suc (last_log_index m)
    last_log_index-appended m f =
        unfold last_log_index in omega (arith, length-append m.log (f ∷ []))

merged-Stores :
    (n : RaftNode) (change : Option ℕ × List LogEntry)
    → Fits n change
    → Stores (merged n change) change.1
merged-Stores n (none, news) run = appended-Stores n news run
merged-Stores n (some i, news) (low, high, run) =
    appended-Stores (truncate_from n i) news
      (subst (λ k. Runs k news) (sym (last_log_index-truncate_from n i low high)) run)

-- Up to an index that the cut is after, all stays.
pub term_at-merged :
    (n : RaftNode) (p i : ℕ) (change : Option ℕ × List LogEntry)
    → p ≤ last_log_index n
    → Fits n change
    → CutsAfter p change
    → i ≤ p
    → term_at (merged n change) i ≡ term_at n i
term_at-merged n p i (none, news) high fits cuts h = term_at-appended n news i (omega arith)
term_at-merged n p i (some c, news) high (low, top, run) cuts h =
    term_at-appended (truncate_from n c) news i
      (omega (arith, last_log_index-truncate_from n c low top))
    ∙ term_at-truncate_from n c i low top (omega arith)

CutsAfter-le :
    (p : ℕ) (change : Option ℕ × List LogEntry) → CutsAfter (suc p) change → CutsAfter p change
CutsAfter-le p (none, news) cuts = tt
CutsAfter-le p (some i, news) cuts = omega arith

module _ (n : RaftNode) where
  -- the entry at hand, where the log has one, and where it has none
  data Seen (entry : LogEntry) (es : List LogEntry) : Type 0 where
    past :
        last_log_index n < entry.index
        → new_entries n (entry ∷ es) ≡ (none, entry ∷ es)
        → Seen entry es
    same :
        term_at n entry.index ≡ some entry.term
        → suc (entry.index - 1) ≤ last_log_index n
        → new_entries n (entry ∷ es) ≡ new_entries n es
        → Seen entry es
    conflict : new_entries n (entry ∷ es) ≡ (some entry.index, entry ∷ es) → Seen entry es

  seen : (entry : LogEntry) (es : List LogEntry) → n.snapshot_index < entry.index → Seen entry es
  seen entry es low = elim (le_or_lt entry.index (last_log_index n)) [
    | inr outside ↦ past outside (new_entries_past n entry es (term_at-none n entry.index outside))
    | inl inside ↦
        let (t, found) = term_at-some n entry.index (omega arith) inside in
        elim (Bool-cases (t == entry.term)) [
          | inl eq ↦
              same (found ∙ ap some (ground (arith, eq))) (omega arith)
                (new_entries_same n entry es t found eq)
          | inr other ↦ conflict (new_entries_conflict n entry es t found other)
        ]
  ]

  pub new_entries-CutsAfter :
      (p : ℕ) (es : List LogEntry)
      → n.snapshot_index ≤ p
      → Runs p es
      → CutsAfter p (new_entries n es)
  new_entries-CutsAfter p [] low run = unfold new_entries in tt
  new_entries-CutsAfter p (entry ∷ es) low (index, run) = elim (seen entry es (omega arith)) [
    | past outside eq ↦ subst (CutsAfter p) (sym eq) tt
    | same found inside eq ↦
        subst (CutsAfter p) (sym eq)
          (CutsAfter-le p _ (new_entries-CutsAfter (suc p) es (omega arith) run))
    | conflict eq ↦ subst (CutsAfter p) (sym eq) (omega arith)
  ]

  -- Merging stores every entry of the request.
  pub new_entries-Stores :
      (p : ℕ) (es : List LogEntry)
      → n.snapshot_index ≤ p
      → p ≤ last_log_index n
      → Runs p es
      → Stores (merged n (new_entries n es)) es
  new_entries-Stores p [] low high run = tt
  new_entries-Stores p (entry ∷ es) low high (index, run) = elim (seen entry es (omega arith)) [
    | past outside eq ↦ whole _ eq refl
    | same found inside eq ↦
        let rest = new_entries-Stores (suc p) es (omega arith) (omega arith) run in
        let fits = new_entries-Fits n (suc p) es (omega arith) (omega arith) run in
        let cuts = new_entries-CutsAfter (suc p) es (omega arith) run in
        subst (λ c. Stores (merged n c) (entry ∷ es)) (sym eq)
          (
            term_at-merged n (suc p) entry.index _ (omega arith) fits cuts (omega arith) ∙ found,
            rest,
          )
    | conflict eq ↦ whole _ eq refl
  ]
    where
      whole :
          (c : Option ℕ × List LogEntry)
          → new_entries n (entry ∷ es) ≡ c
          → c.1 ≡ entry ∷ es
          → Stores (merged n (new_entries n (entry ∷ es))) (entry ∷ es)
      whole c eq all =
          subst (Stores (merged n (new_entries n (entry ∷ es)))) (ap (λ x. x.1) eq ∙ all)
            (merged-Stores n _ (new_entries-Fits n p (entry ∷ es) low high (index, run)))

  -- Merging takes the new entries of the request as they are.
  pub new_entries-Spliced :
      (p : ℕ) (es : List LogEntry)
      → n.snapshot_index ≤ p
      → p ≤ last_log_index n
      → Runs p es
      → Spliced n p es (merged n (new_entries n es)).log
  unfolding last_log_index
  new_entries-Spliced p [] low high run = inl (unfold new_entries in append-nil n.log)
  new_entries-Spliced p (entry ∷ es) low high (index, run) = elim (seen entry es (omega arith)) [
    | past outside eq ↦
        subst (λ c. Spliced n p (entry ∷ es) (merged n c).log) (sym eq)
          (inr (
            length n.log,
            0,
            omega arith,
            omega arith,
            ap (λ l. l ++ entry ∷ es) (sym (take_all (length n.log) n.log (omega arith))),
          ))
    | same found inside eq ↦
        subst (λ c. Spliced n p (entry ∷ es) (merged n c).log) (sym eq)
          (elim (new_entries-Spliced (suc p) es (omega arith) (omega arith) run) [
            | inl kept ↦ inl kept
            | inr (k, j, inner, aligned, log) ↦ inr (k, suc j, inner, omega arith, log)
          ])
    | conflict eq ↦
        subst (λ c. Spliced n p (entry ∷ es) (merged n c).log) (sym eq)
          (let eqk = position-sub (length n.log) entry.index (n.snapshot_index + 1) (omega arith) in
            inr (
              entry.index - (n.snapshot_index + 1),
              0,
              omega arith,
              omega arith,
              unfold truncate_from in ap (λ k. take k n.log ++ entry ∷ es) eqk,
            ))
  ]
