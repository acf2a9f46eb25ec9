-- ===== src/Raft/Storage/Memory.antt =====
-- MemoryRaftStorage of raft/storage.py. Its lock makes each operation one step, as a function is.
mod Loading
mod Deleting
pub mod Laws
use distributed_key_value_ca.Prelude.{
  ℕ, ◌<◌, String, ◌≡◌, Option, none, some, List, [], ◌∷◌, map, ltb, leb, nat_eq, if◌then◌else◌,
  filter_if,
}
use distributed_key_value_ca.Prelude.Dict
use distributed_key_value_ca.Prelude.Dict.{Dict, keys}
use distributed_key_value_ca.Raft.Types.{LogEntry, Member}
use distributed_key_value_ca.Raft.Storage.{PersistentState, RaftStorage, Ascends}

pub record MemoryRaftStorage : Type 0 where
  pub term : ℕ
  pub voted_for : Option String
  pub entries : Dict ℕ LogEntry
  pub snapshot_index : ℕ
  pub snapshot_term : ℕ
  pub last_applied : ℕ
  pub config : Option (List Member)

abbrev pub init : MemoryRaftStorage
init = record {
  term = 0;
  voted_for = none;
  entries = [];
  snapshot_index = 0;
  snapshot_term = 0;
  last_applied = 0;
  config = none;
}

-- `sorted`, on the keys
unfoldable pub insert_sorted : ℕ → List ℕ → List ℕ
insert_sorted i [] = i ∷ []
insert_sorted i (j ∷ js) = let rest = insert_sorted i js in if leb i j then i ∷ j ∷ js else j ∷ rest

unfoldable pub sorted : List ℕ → List ℕ
unfolding insert_sorted
sorted [] = []
sorted (i ∷ is) = insert_sorted i (sorted is)

-- `[entries[i] for i in indices]`
unfoldable pub gather : Dict ℕ LogEntry → List ℕ → List LogEntry
gather entries [] = []
gather entries (i ∷ is) =
    let rest = gather entries is in elim (Dict.get i entries) [ none ↦ rest | some e ↦ e ∷ rest ]

unfoldable pub load : MemoryRaftStorage → PersistentState
unfolding sorted gather Dict.get
load s = record {
  current_term = s.term;
  voted_for = s.voted_for;
  log = gather s.entries (filter_if (ltb s.snapshot_index) (sorted (keys s.entries)));
  snapshot_index = s.snapshot_index;
  snapshot_term = s.snapshot_term;
  last_applied = s.last_applied;
  snapshot_config = s.config;
}

unfoldable pub save_term_and_vote : ℕ → Option String → MemoryRaftStorage → MemoryRaftStorage
save_term_and_vote term voted_for s = record s { term = term; voted_for = voted_for }

-- `for i in indices: del entries[i]`
unfoldable pub del_all : List ℕ → Dict ℕ LogEntry → Dict ℕ LogEntry
del_all [] entries = entries
del_all (i ∷ is) entries = del_all is (Dict.remove i entries)

unfoldable pub drop_from : ℕ → MemoryRaftStorage → MemoryRaftStorage
unfolding del_all Dict.remove
drop_from index s = record s {
  entries = del_all (filter_if (leb index) (keys s.entries)) s.entries;
}

-- `for entry in entries: self._entries[entry.index] = entry`
unfoldable pub put_all : List LogEntry → Dict ℕ LogEntry → Dict ℕ LogEntry
put_all [] entries = entries
put_all (e ∷ es) entries = put_all es (Dict.put e.index e entries)

unfoldable pub append : List LogEntry → MemoryRaftStorage → MemoryRaftStorage
unfolding drop_from put_all Dict.put
append [] s = s
append (e ∷ es) s =
    let s' = drop_from e.index s in record s' { entries = put_all (e ∷ es) s'.entries }

unfoldable pub truncate_from : ℕ → MemoryRaftStorage → MemoryRaftStorage
unfolding drop_from
truncate_from index s = drop_from index s

abbrev replaced : Option (List Member) → Option (List Member) → Option (List Member)
replaced none stored = stored
replaced (some members) stored = some members

unfoldable pub save_snapshot :
    ℕ → ℕ → ℕ → Option (List Member) → MemoryRaftStorage → MemoryRaftStorage
unfolding del_all Dict.remove
save_snapshot index term last_applied config s = record s {
  snapshot_index = index;
  snapshot_term = term;
  last_applied = last_applied;
  config = replaced config s.config;
  entries = del_all (filter_if (λ i. leb i index) (keys s.entries)) s.entries;
}

abbrev pub memory : RaftStorage MemoryRaftStorage
memory = record {
  load = load;
  save_term_and_vote = save_term_and_vote;
  append = append;
  truncate_from = truncate_from;
  save_snapshot = save_snapshot;
}

abbrev pub tagged : List LogEntry → Dict ℕ LogEntry
tagged = map (λ e. (e.index, e))

-- Each entry is stored under its own index, in order, and none lies inside the snapshot.
abbrev pub Sound : MemoryRaftStorage → Type 0
Sound s = (log : List LogEntry) × (s.entries ≡ tagged log) × Ascends s.snapshot_index log
