-- ===== src/Raft/Engine/Members.antt =====
-- raft/node.py: the membership, the replicators, and the two operations that change the log.
use distributed_key_value_ca.Prelude.{
  ℕ, ◌+◌, String, Bool, true, false, not, ◌&&◌, Option, none, some, List, [], ◌∷◌, ◌++◌, ◌==◌,
  nat_eq, string_eq, if◌then◌else◌, length, is_some, filter_if, ◌||◌,
}
use distributed_key_value_ca.Prelude.Dict
use distributed_key_value_ca.Prelude.Dict.{Dict, keys}
use distributed_key_value_ca.Raft.Types.{
  Loads, LogEntry, Member, is_leader, last_log_index, latest_config, parse_config,
}
use distributed_key_value_ca.Raft.Types
use distributed_key_value_ca.Raft.Storage.{RaftStorage}
use distributed_key_value_ca.Raft.Engine.{Engine, Event, Clock, Task, spawn}

abbrev member_eq : Member → Member → Bool
member_eq a b =
    a.node_id == b.node_id
    && a.raft_address == b.raft_address
    && a.client_address == b.client_address

abbrev found_eq : Option Member → Option Member → Bool
found_eq (some a) (some b) = member_eq a b
found_eq _ _ = false

-- `all(d.get(k) == v for k, v in c.items())`
agrees : Dict String Member → Dict String Member → Bool
agrees [] d = true
agrees ((k, v) ∷ c) d = found_eq (some v) (Dict.get k d) && agrees c d

-- `==` on two dicts
unfoldable pub same_members : Dict String Member → Dict String Member → Bool
unfolding agrees
same_members c d = length c == length d && agrees c d

-- `{m.node_id: m for m in members}`
by_id_from : Dict String Member → List Member → Dict String Member
by_id_from d [] = d
by_id_from d (m ∷ ms) = by_id_from (Dict.put m.node_id m d) ms

unfoldable pub by_id : Option (List Member) → Dict String Member
unfolding by_id_from
by_id none = []
by_id (some members) = by_id_from [] members

-- `d.update(other)`
update : Dict String Member → Dict String Member → Dict String Member
update d [] = d
update d ((k, m) ∷ other) = update (Dict.put k m d) other

-- the loop that takes learners out once they are members
without_members : Dict String Member → Dict String Member → Dict String Member
without_members new learners = filter_if (λ l. not (is_some (Dict.get l.0 new))) learners

-- `any(parse_config(e.command) is not None for e in entries)`
unfoldable pub any_config : Loads → List LogEntry → Bool
any_config loads [] = false
any_config loads (entry ∷ entries) =
    is_some (parse_config loads entry.command) || any_config loads entries

module _ {S R : Type 0} where
  unfoldable pub targets : Engine S R → Dict String Member
  unfolding update
  targets e = Dict.remove e.node_id (update e.members e.learners)

  -- the assignments under `if peer_id not in n.next_index`
  unfoldable pub track_peer : Clock → String → Engine S R → Engine S R
  track_peer now peer_id e = if is_some (Dict.get peer_id e.node.next_index) then e else record e {
    node = record e.node {
      next_index = Dict.put peer_id (last_log_index e.node + 1) e.node.next_index;
      match_index = Dict.put peer_id 0 e.node.match_index;
    };
    last_contact = Dict.put peer_id now.monotonic e.last_contact;
  }

  unfoldable pub start_replicator : Clock → String → Engine S R → Engine S R
  unfolding track_peer spawn
  start_replicator now peer_id e =
      if is_some (Dict.get peer_id e.replicators)
      then e
      else (let tracked = track_peer now peer_id e in
          let event : Event = record { ident = e.next_event; is_set = false } in
          spawn (Task.replicate_loop peer_id e.node.current_term e.next_event) (record tracked {
            replicators = Dict.put peer_id event e.replicators;
            next_event = e.next_event + 1;
          }))

  unfoldable pub start_replicators : Clock → List String → Engine S R → Engine S R
  unfolding start_replicator
  start_replicators now [] e = e
  start_replicators now (peer ∷ peers) e = start_replicators now peers (start_replicator now peer e)

  -- `for peer_id in self._targets(): self._start_replicator(peer_id)`
  unfoldable pub start_all : Clock → Engine S R → Engine S R
  unfolding start_replicators targets
  start_all now e = start_replicators now (keys (targets e)) e

  unfoldable pub replace_members : Dict String Member → Engine S R → Engine S R
  unfolding without_members
  replace_members new e = record e { members = new; learners = without_members new e.learners }

  -- `_refresh_config` from the assignment of `_members` on
  unfoldable pub adopt_members : Clock → Dict String Member → Engine S R → Engine S R
  unfolding replace_members start_all
  adopt_members now new e =
      let changed = replace_members new e in
      if is_leader e.node.state then start_all now changed else changed

  module _ (loads : Loads) where
    unfoldable pub refresh_config : Clock → Engine S R → Engine S R
    unfolding same_members adopt_members
    refresh_config now e =
        let (index, members) = latest_config loads e.node in
        let indexed = record e { config_index = index } in
        if same_members (by_id members) e.members
        then indexed
        else adopt_members now (by_id members) indexed

  module _ (st : RaftStorage S) where
    -- `log.extend` and `storage.append`
    unfoldable pub store_entries : List LogEntry → Engine S R → Engine S R
    store_entries entries e = record e {
      node = record e.node { log = e.node.log ++ entries };
      storage = st.append entries e.storage;
    }

    -- `truncate_from`, of the log and of the storage
    unfoldable pub drop_entries : ℕ → Engine S R → Engine S R
    drop_entries index e = record e {
      node = Types.truncate_from e.node index;
      storage = st.truncate_from index e.storage;
    }

    module _ (loads : Loads) where
      unfoldable pub append_local : Clock → List LogEntry → Engine S R → Engine S R
      unfolding refresh_config store_entries
      append_local now entries e =
          let stored = store_entries entries e in
          if any_config loads entries then refresh_config loads now stored else stored

      unfoldable pub truncate_local : Clock → ℕ → Engine S R → Engine S R
      unfolding refresh_config drop_entries
      truncate_local now index e = refresh_config loads now (drop_entries index e)
