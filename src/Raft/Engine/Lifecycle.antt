-- ===== src/Raft/Engine/Lifecycle.antt =====
-- raft/node.py: a new engine over its storage, starting and stopping.
use distributed_key_value_ca.Prelude.{
  ℕ, ◌+◌, String, Bool, true, false, none, some, List, [], ◌∷◌, string_eq, ◌==◌, if◌then◌else◌, max,
}
use distributed_key_value_ca.Prelude.Dict.{keys}
use distributed_key_value_ca.Raft.Types.{Loads, Member, RaftNode, follower}
use distributed_key_value_ca.Raft.Storage.{RaftStorage, PersistentState}
use distributed_key_value_ca.Raft.Engine.{
  Engine, Clock, Task, spawn, reset_election_timer, wake_replicators,
}
use distributed_key_value_ca.Raft.Engine.Members.{refresh_config}
use distributed_key_value_ca.Raft.Engine.Votes.{start_election}

-- What is configured and never changes.
pub record Settings : Type 0 where
  pub node_id : String
  pub raft_address : String
  pub election_timeout_min : ℕ
  pub election_timeout_max : ℕ
  pub snapshot_threshold : ℕ
  pub bootstrap : List Member

abbrev pub fresh_node : String → ℕ → RaftNode
fresh_node node_id wall = record {
  node_id = node_id;
  peers = [];
  current_term = 0;
  voted_for = none;
  log = [];
  state = follower;
  commit_index = 0;
  last_applied = 0;
  next_index = [];
  match_index = [];
  last_heartbeat = wall;
  leader_id = none;
  snapshot_index = 0;
  snapshot_term = 0;
  snapshot_config = none;
}

-- `set(self._members) == {self.node_id}`
abbrev is_alone : String → List String → Bool
is_alone node_id (m ∷ []) = m == node_id
is_alone node_id _ = false

module _ {S R : Type 0} where
  -- `__init__` before the state is restored
  abbrev pub blank : Settings → Clock → S → Engine S R
  blank c now storage = record {
    node_id = c.node_id;
    raft_address = c.raft_address;
    election_timeout_min = c.election_timeout_min;
    election_timeout_max = c.election_timeout_max;
    snapshot_threshold = c.snapshot_threshold;
    node = fresh_node c.node_id now.wall;
    storage = storage;
    members = [];
    config_index = 0;
    learners = [];
    term_start_index = 0;
    last_contact = [];
    send_seq = 0;
    last_ack_seq = [];
    last_leader_contact = 0;
    leader_address = "";
    transferring = false;
    running = false;
    election_timer = none;
    timer_generation = 0;
    replicators = [];
    waiters = [];
    snapshot_rx = none;
    next_event = 0;
    spawned = [];
  }

  -- the assignments of `_restore_persistent_state`
  unfoldable pub reload : PersistentState → Engine S R → Engine S R
  reload saved e =
      let done = max saved.last_applied saved.snapshot_index in
      record e {
        node = record e.node {
          current_term = saved.current_term;
          voted_for = saved.voted_for;
          snapshot_index = saved.snapshot_index;
          snapshot_term = saved.snapshot_term;
          snapshot_config = saved.snapshot_config;
          log = saved.log;
          commit_index = done;
          last_applied = done;
        };
      }

  unfoldable pub stop : Engine S R → Engine S R
  unfolding wake_replicators
  stop e = wake_replicators (record e {
    running = false;
    timer_generation = e.timer_generation + 1;
    election_timer = none;
    snapshot_rx = none;
  })

  module _ (st : RaftStorage S) where
    -- "First start: remember the bootstrap membership"
    unfoldable pub save_bootstrap : List Member → Engine S R → Engine S R
    save_bootstrap bootstrap e = record e {
      node = record e.node { snapshot_config = some bootstrap };
      storage =
          st.save_snapshot e.node.snapshot_index e.node.snapshot_term e.node.last_applied
            (some bootstrap) e.storage;
    }

    unfoldable pub remember_bootstrap : List Member → Engine S R → Engine S R
    unfolding save_bootstrap
    remember_bootstrap bootstrap e = elim e.node.snapshot_config [
      | none ↦ save_bootstrap bootstrap e
      | some _ ↦ e
    ]

    module _ (loads : Loads) where
      unfoldable pub init : Settings → Clock → S → Engine S R
      unfolding reload remember_bootstrap refresh_config
      init c now storage =
          refresh_config loads now
            (remember_bootstrap c.bootstrap (reload (st.load storage) (blank c now storage)))

      -- the node of an engine without a port: the socket and its thread are not modelled
      unfoldable pub start : Clock → Engine S R → Engine S R
      unfolding spawn reset_election_timer start_election
      start now e =
          let running = spawn Task.apply_loop (record e { running = true }) in
          if is_alone e.node_id (keys e.members)
          then start_election st loads now none running
          else reset_election_timer running
