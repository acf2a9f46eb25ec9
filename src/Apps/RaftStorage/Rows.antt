-- ===== src/Apps/RaftStorage/Rows.antt =====
-- The rows of the table raft_log that belong to one node, as the entries of its log.
use distributed_key_value_ca.Prelude.{
  ℕ, ◌≤◌, ◌≡◌, refl, ap, String, Bool, not, ◌&&◌, List, [], ◌∷◌, ◌++◌, map, filter_if, ltb, leb,
  lt→ltb, inl, inr, Bool-cases, string_eq, beq_refl, arith,
}
use distributed_key_value_ca.Raft.Types.{LogEntry}
use distributed_key_value_ca.Raft.Storage.{Ascends, before, after}
use distributed_key_value_ca.Apps.Objects.{Rises}
use distributed_key_value_ca.Apps.RaftStorage.{RaftLogEntry, entry_of, row_of, is_row}

-- the log of a node, in the order of the table
abbrev pub mine : String → List RaftLogEntry → List LogEntry
mine node_id rows = map entry_of (filter_if (is_row node_id) rows)

-- the rows that a deletion up from an index keeps, and one up to an index
abbrev pub keeps_before : String → ℕ → RaftLogEntry → Bool
keeps_before node_id i r = not (is_row node_id r && leb i r.log_index)

abbrev pub keeps_after : String → ℕ → RaftLogEntry → Bool
keeps_after node_id i r = not (is_row node_id r && leb r.log_index i)

pub mine-before :
    (node_id : String) (i : ℕ) (rows : List RaftLogEntry)
    → mine node_id (filter_if (keeps_before node_id i) rows) ≡ before i (mine node_id rows)
unfolding before
mine-before node_id i [] = refl
mine-before node_id i (r ∷ rows) = ground (arith, mine-before node_id i rows)

pub mine-after :
    (node_id : String) (i : ℕ) (rows : List RaftLogEntry)
    → mine node_id (filter_if (keeps_after node_id i) rows) ≡ after i (mine node_id rows)
unfolding after
mine-after node_id i [] = refl
mine-after node_id i (r ∷ rows) = ground (arith, mine-after node_id i rows)

pub mine-new :
    (node_id : String) (rows : List RaftLogEntry) (es : List LogEntry)
    → mine node_id (rows ++ map (row_of node_id) es) ≡ mine node_id rows ++ es
mine-new node_id [] [] = refl
mine-new node_id [] (e ∷ es) = rw (beq_refl node_id) (ap (◌∷◌ e) (mine-new node_id [] es))
mine-new node_id (r ∷ rows) es = elim (Bool-cases (is_row node_id r)) [
  | inl own ↦ rw own (ap (◌∷◌ (entry_of r)) (mine-new node_id rows es))
  | inr other ↦ rw other (mine-new node_id rows es)
]

-- The rows above the snapshot are all of the node's rows, where they lie above it.
pub filter-own :
    (node_id : String) (low b : ℕ) (rows : List RaftLogEntry)
    → low ≤ b
    → Ascends b (mine node_id rows)
    → filter_if (λ r. is_row node_id r && ltb low r.log_index) rows
      ≡ filter_if (is_row node_id) rows
filter-own node_id low b [] le rising = refl
filter-own node_id low b (r ∷ rows) le rising = elim (Bool-cases (is_row node_id r)) [
  | inl own ↦
      let rising' = rw own at rising in
      rw (own, lt→ltb low r.log_index (omega (arith, le, rising'.0)))
        (ap (◌∷◌ r)
          (filter-own node_id low r.log_index rows (omega (arith, le, rising'.0)) rising'.1))
  | inr other ↦ rw other (filter-own node_id low b rows le (rw other at rising))
]

pub Ascends-Rises :
    (b : ℕ) (rows : List RaftLogEntry)
    → Ascends b (map entry_of rows)
    → Rises (λ (r : RaftLogEntry). r.log_index) b rows
Ascends-Rises b [] rising = tt
Ascends-Rises b (r ∷ rows) rising = (rising.0, Ascends-Rises r.log_index rows rising.1)
