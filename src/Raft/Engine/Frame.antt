-- ===== src/Raft/Engine/Frame.antt =====
-- What the bookkeeping of raft/node.py (replicators, membership, timers, wake-ups) leaves alone.
use distributed_key_value_ca.Prelude.{
  ℕ, ◌≡◌, refl, ◌∙◌, String, Bool, true, false, List, [], ◌∷◌, arith, ◌==◌, string_eq,
  if◌then◌else◌,
}
use distributed_key_value_ca.Prelude.Dict.{Dict, keys, values}
use distributed_key_value_ca.Raft.Types.{Loads, Member, is_leader, last_log_index, latest_config}
use distributed_key_value_ca.Raft.Rpc.{RequestVoteRequest}
use distributed_key_value_ca.Raft.Engine.{
  Engine, Clock, Task, spawn, reset_election_timer, wake_replicators,
}
use distributed_key_value_ca.Raft.Engine.Roles.{campaign, ask_votes, vote_request}
use distributed_key_value_ca.Raft.Engine.Members.{
  start_replicator, start_replicators, start_all, replace_members, targets, track_peer,
  adopt_members, refresh_config, same_members, by_id,
}

module _ {S R : Type 0} where
  -- The second state has the node, but for its replication counters, and the storage of the first.
  pub record Keeps (e e' : Engine S R) : Type 0 where
    pub term : e'.node.current_term ≡ e.node.current_term
    pub vote : e'.node.voted_for ≡ e.node.voted_for
    pub log : e'.node.log ≡ e.node.log
    pub state : e'.node.state ≡ e.node.state
    pub commit : e'.node.commit_index ≡ e.node.commit_index
    pub applied : e'.node.last_applied ≡ e.node.last_applied
    pub leader_id : e'.node.leader_id ≡ e.node.leader_id
    pub snapshot_index : e'.node.snapshot_index ≡ e.node.snapshot_index
    pub snapshot_term : e'.node.snapshot_term ≡ e.node.snapshot_term
    pub snapshot_config : e'.node.snapshot_config ≡ e.node.snapshot_config
    pub storage : e'.storage ≡ e.storage
    pub node_id : e'.node_id ≡ e.node_id
    pub running : e'.running ≡ e.running

  pub Keeps-refl : (e : Engine S R) → Keeps e e
  Keeps-refl e = record {
    term = refl;
    vote = refl;
    log = refl;
    state = refl;
    commit = refl;
    applied = refl;
    leader_id = refl;
    snapshot_index = refl;
    snapshot_term = refl;
    snapshot_config = refl;
    storage = refl;
    node_id = refl;
    running = refl;
  }

  pub Keeps-trans : {e f g : Engine S R} → Keeps e f → Keeps f g → Keeps e g
  Keeps-trans a b = record {
    term = b.term ∙ a.term;
    vote = b.vote ∙ a.vote;
    log = b.log ∙ a.log;
    state = b.state ∙ a.state;
    commit = b.commit ∙ a.commit;
    applied = b.applied ∙ a.applied;
    leader_id = b.leader_id ∙ a.leader_id;
    snapshot_index = b.snapshot_index ∙ a.snapshot_index;
    snapshot_term = b.snapshot_term ∙ a.snapshot_term;
    snapshot_config = b.snapshot_config ∙ a.snapshot_config;
    storage = b.storage ∙ a.storage;
    node_id = b.node_id ∙ a.node_id;
    running = b.running ∙ a.running;
  }

  pub Keeps-if :
      (b : Bool) (e f g : Engine S R) → Keeps e f → Keeps e g → Keeps e (if b then f else g)
  Keeps-if true e f g kf kg = kf
  Keeps-if false e f g kf kg = kg

  pub spawn-Keeps : (task : Task) (e : Engine S R) → Keeps e (spawn task e)
  unfolding spawn
  spawn-Keeps task e = ground arith

  pub reset_election_timer-Keeps : (e : Engine S R) → Keeps e (reset_election_timer e)
  unfolding reset_election_timer
  reset_election_timer-Keeps e = ground arith

  pub wake_replicators-Keeps : (e : Engine S R) → Keeps e (wake_replicators e)
  unfolding wake_replicators
  wake_replicators-Keeps e = ground arith

  track_peer-Keeps :
      (now : Clock) (peer : String) (e : Engine S R) → Keeps e (track_peer now peer e)
  unfolding track_peer
  track_peer-Keeps now peer e = ground arith

  start_replicator-Keeps :
      (now : Clock) (peer : String) (e : Engine S R) → Keeps e (start_replicator now peer e)
  unfolding start_replicator
  start_replicator-Keeps now peer e = ground arith

  pub start_replicators-Keeps :
      (now : Clock) (peers : List String) (e : Engine S R) → Keeps e (start_replicators now peers e)
  unfolding start_replicators
  start_replicators-Keeps now [] e = Keeps-refl e
  start_replicators-Keeps now (peer ∷ peers) e =
      Keeps-trans (start_replicator-Keeps now peer e) (start_replicators-Keeps now peers _)

  pub start_all-Keeps : (now : Clock) (e : Engine S R) → Keeps e (start_all now e)
  unfolding start_all
  start_all-Keeps now e = start_replicators-Keeps now (keys (targets e)) e

  replace_members-Keeps :
      (new : Dict String Member) (e : Engine S R) → Keeps e (replace_members new e)
  unfolding replace_members
  replace_members-Keeps new e = ground arith

  adopt_members-Keeps :
      (now : Clock) (new : Dict String Member) (e : Engine S R) → Keeps e (adopt_members now new e)
  unfolding adopt_members
  adopt_members-Keeps now new e =
      Keeps-if (is_leader e.node.state) e _ _
        (Keeps-trans (replace_members-Keeps new e) (start_all-Keeps now _))
        (replace_members-Keeps new e)

  config_index-Keeps : (index : ℕ) (e : Engine S R) → Keeps e (record e { config_index = index })
  config_index-Keeps index e = ground arith

  pub refresh_config-Keeps :
      (loads : Loads) (now : Clock) (e : Engine S R) → Keeps e (refresh_config loads now e)
  unfolding refresh_config
  refresh_config-Keeps loads now e =
      let (index, members) = latest_config loads e.node in
      Keeps-if (same_members (by_id members) e.members) e _ _ (config_index-Keeps index e)
        (Keeps-trans (config_index-Keeps index e) (adopt_members-Keeps now (by_id members) _))

  campaign-Keeps :
      (request : RequestVoteRequest) (peers : List Member) (e : Engine S R)
      → Keeps e (campaign request peers e)
  unfolding campaign
  campaign-Keeps request [] e = Keeps-refl e
  campaign-Keeps request (peer ∷ peers) e =
      Keeps-trans
        (Keeps-if (peer.node_id == e.node_id) e _ _ (Keeps-refl e)
          (spawn-Keeps (Task.request_vote_from peer request) e))
        (campaign-Keeps request peers _)

  pub ask_votes-Keeps : (transfer : Bool) (e : Engine S R) → Keeps e (ask_votes transfer e)
  unfolding ask_votes
  ask_votes-Keeps transfer e =
      campaign-Keeps (vote_request e.node.current_term false transfer e) (values e.members) e

  pub last_log_index-Keeps :
      {e e' : Engine S R} → Keeps e e' → last_log_index e'.node ≡ last_log_index e.node
  unfolding last_log_index
  last_log_index-Keeps k = ground arith
