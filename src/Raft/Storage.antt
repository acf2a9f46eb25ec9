-- ===== src/Raft/Storage.antt =====
-- raft/storage.py: what a node saves, as an interface with its laws. The implementation in memory
-- is below.
pub mod Memory
use distributed_key_value_ca.Prelude.{
  ℕ, zero, ◌<◌, ◌≤◌, String, Bool, true, false, Option, none, some, List, [], ◌∷◌, ◌++◌, ◌≡◌, map,
  ltb, leb, nat_eq, if◌then◌else◌, filter_if,
}
use distributed_key_value_ca.Prelude.Dict
use distributed_key_value_ca.Prelude.Dict.{Dict}
use distributed_key_value_ca.Raft.Types.{LogEntry, Member}

pub record PersistentState : Type 0 where
  pub current_term : ℕ
  pub voted_for : Option String
  pub log : List LogEntry
  pub snapshot_index : ℕ
  pub snapshot_term : ℕ
  pub last_applied : ℕ
  pub snapshot_config : Option (List Member)

-- The abstract class: its operations over a type of stores.
pub record RaftStorage (S : Type 0) : Type 0 where
  pub load : S → PersistentState
  pub save_term_and_vote : ℕ → Option String → S → S
  pub append : List LogEntry → S → S
  pub truncate_from : ℕ → S → S
  pub save_snapshot : ℕ → ℕ → ℕ → Option (List Member) → S → S

-- The entries of a log before an index, and after it.
unfoldable pub before : ℕ → List LogEntry → List LogEntry
before i = filter_if (λ entry. ltb entry.index i)

unfoldable pub after : ℕ → List LogEntry → List LogEntry
after i = filter_if (λ entry. ltb i entry.index)

-- "Replaces any stored entry at the same index or later"
unfoldable pub appended : List LogEntry → List LogEntry → List LogEntry
unfolding before
appended log [] = log
appended log (entry ∷ rest) = before entry.index log ++ entry ∷ rest

-- The indices rise, from above `i`.
abbrev pub Ascends : ℕ → List LogEntry → Type 0
Ascends i [] = Unit
Ascends i (entry ∷ rest) = (i < entry.index) × Ascends entry.index rest

unfoldable pub kept_config : Option (List Member) → Option (List Member) → Option (List Member)
kept_config none old = old
kept_config (some members) old = some members

-- What the methods' docs promise of the next `load`. `Sound` is what a store keeps true of itself.
pub record RaftStorageLaws {S : Type 0} (st : RaftStorage S) (Sound : S → Type 0) : Type 0 where
  pub save_term_and_vote-Sound :
      (s : S) (t : ℕ) (v : Option String) → Sound s → Sound (st.save_term_and_vote t v s)
  pub append-Sound :
      (s : S) (es : List LogEntry)
      → Sound s
      → Ascends (st.load s).snapshot_index es
      → Sound (st.append es s)
  pub truncate_from-Sound : (s : S) (i : ℕ) → Sound s → Sound (st.truncate_from i s)
  pub save_snapshot-Sound :
      (s : S) (i t a : ℕ) (c : Option (List Member)) → Sound s → Sound (st.save_snapshot i t a c s)
  pub load-save_term_and_vote :
      (s : S) (t : ℕ) (v : Option String)
      → st.load (st.save_term_and_vote t v s)
        ≡ record (st.load s) { current_term = t; voted_for = v }
  pub load-append :
      (s : S) (es : List LogEntry)
      → Sound s
      → Ascends (st.load s).snapshot_index es
      → st.load (st.append es s) ≡ record (st.load s) { log = appended (st.load s).log es }
  pub load-truncate_from :
      (s : S) (i : ℕ)
      → Sound s
      → st.load (st.truncate_from i s) ≡ record (st.load s) { log = before i (st.load s).log }
  pub load-save_snapshot :
      (s : S) (i t a : ℕ) (c : Option (List Member))
      → Sound s
      → st.load (st.save_snapshot i t a c s) ≡ record (st.load s) {
        log = after i (st.load s).log;
        snapshot_index = i;
        snapshot_term = t;
        last_applied = a;
        snapshot_config = kept_config c (st.load s).snapshot_config;
      }
