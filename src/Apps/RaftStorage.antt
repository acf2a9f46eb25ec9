-- ===== src/Apps/RaftStorage.antt =====
-- apps/cluster/raft_storage.py over the tables of apps/cluster/models.py. A transaction is one step. The
-- tables' managers are parameters, and so is the JSON of the members, of type `J`.
pub mod Rows
pub mod Laws
use distributed_key_value_ca.Prelude.{
  ℕ, String, Bool, ◌&&◌, Option, none, some, List, [], ◌∷◌, map, filter_if, ltb, leb, string_eq,
  ◌==◌, if◌then◌else◌,
}
use distributed_key_value_ca.Raft.Types.{LogEntry, Member}
use distributed_key_value_ca.Raft.Storage.{PersistentState, RaftStorage}
use distributed_key_value_ca.Apps.Objects.{Objects, first_row, or_blank}

pub record RaftMeta (J : Type 0) : Type 0 where
  pub node_id : String
  pub current_term : ℕ
  pub voted_for : Option String
  pub snapshot_index : ℕ
  pub snapshot_term : ℕ
  pub last_applied : ℕ
  pub snapshot_config : Option J

pub record RaftLogEntry : Type 0 where
  pub node_id : String
  pub log_index : ℕ
  pub term : ℕ
  pub command : String
  pub username : String
  pub request_id : String

-- the row of the defaults of `RaftMeta`
abbrev pub blank : {J : Type 0} → String → RaftMeta J
blank node_id = record {
  node_id = node_id;
  current_term = 0;
  voted_for = none;
  snapshot_index = 0;
  snapshot_term = 0;
  last_applied = 0;
  snapshot_config = none;
}

abbrev pub entry_of : RaftLogEntry → LogEntry
entry_of r = record {
  term = r.term;
  index = r.log_index;
  command = r.command;
  username = r.username;
  request_id = r.request_id;
}

abbrev pub row_of : String → LogEntry → RaftLogEntry
row_of node_id e = record {
  node_id = node_id;
  log_index = e.index;
  term = e.term;
  command = e.command;
  username = e.username;
  request_id = e.request_id;
}

abbrev pub is_meta : {J : Type 0} → String → RaftMeta J → Bool
is_meta node_id r = r.node_id == node_id

abbrev pub is_row : String → RaftLogEntry → Bool
is_row node_id r = r.node_id == node_id

-- the two tables
pub record Tables (TM TL : Type 0) : Type 0 where
  pub metas : TM
  pub entries : TL

module _ {J TM TL : Type 0} (meta : Objects (RaftMeta J) TM) (log : Objects RaftLogEntry TL)
    (dumps : List Member → J) (loads : J → List Member) (node_id : String) where
  abbrev pub loaded_config : Option J → Option (List Member)
  loaded_config none = none
  loaded_config (some text) = some (loads text)

  -- `RaftMeta.objects.filter(node_id=self.node_id).first() or RaftMeta(node_id=self.node_id)`
  abbrev pub meta_of : Tables TM TL → RaftMeta J
  meta_of d = or_blank (blank node_id) (first_row (is_meta node_id) (meta.rows d.metas))

  abbrev pub stored_entries : ℕ → Tables TM TL → List LogEntry
  stored_entries snapshot_index d = map entry_of (
      log.order_by (λ r. r.log_index)
        (filter_if (λ r. is_row node_id r && ltb snapshot_index r.log_index) (log.rows d.entries)))

  unfoldable pub load : Tables TM TL → PersistentState
  load d =
      let m = meta_of d in
      record {
        current_term = m.current_term;
        voted_for = m.voted_for;
        log = stored_entries m.snapshot_index d;
        snapshot_index = m.snapshot_index;
        snapshot_term = m.snapshot_term;
        last_applied = m.last_applied;
        snapshot_config = loaded_config m.snapshot_config;
      }

  abbrev pub change_meta : (RaftMeta J → RaftMeta J) → Tables TM TL → Tables TM TL
  change_meta change d = record d {
    metas = meta.update_or_create (is_meta node_id) change (blank node_id) d.metas;
  }

  unfoldable pub save_term_and_vote : ℕ → Option String → Tables TM TL → Tables TM TL
  save_term_and_vote term voted_for =
      change_meta (λ m. record m { current_term = term; voted_for = voted_for })

  -- `filter(node_id=self.node_id, log_index__gte=index).delete()`
  unfoldable pub truncate_from : ℕ → Tables TM TL → Tables TM TL
  truncate_from index d = record d {
    entries = log.delete (λ r. is_row node_id r && leb index r.log_index) d.entries;
  }

  unfoldable pub append : List LogEntry → Tables TM TL → Tables TM TL
  unfolding truncate_from
  append [] d = d
  append (e ∷ es) d =
      let d' = truncate_from e.index d in
      record d' { entries = log.bulk_create (map (row_of node_id) (e ∷ es)) d'.entries }

  -- `if config is not None: values["snapshot_config"] = ...`
  abbrev pub dumped_config : Option (List Member) → Option J → Option J
  dumped_config none old = old
  dumped_config (some members) old = some (dumps members)

  unfoldable pub save_snapshot : ℕ → ℕ → ℕ → Option (List Member) → Tables TM TL → Tables TM TL
  save_snapshot index term last_applied config d =
      let d' =
        change_meta
          (λ m. record m {
            snapshot_index = index;
            snapshot_term = term;
            last_applied = last_applied;
            snapshot_config = dumped_config config m.snapshot_config;
          })
          d in
      record d' { entries = log.delete (λ r. is_row node_id r && leb r.log_index index) d'.entries }

  abbrev pub django : RaftStorage (Tables TM TL)
  django = record {
    load = load;
    save_term_and_vote = save_term_and_vote;
    append = append;
    truncate_from = truncate_from;
    save_snapshot = save_snapshot;
  }
