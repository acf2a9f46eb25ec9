-- ===== src/Raft/Engine/Roles.antt =====
-- raft/node.py: the transitions between follower, candidate and leader, and the commit index.
use distributed_key_value_ca.Prelude.{
  ℕ, ◌+◌, ◌-◌, zero, suc, String, Bool, false, not, ◌||◌, Option, none, some, List, [], ◌∷◌, ◌==◌,
  nat_eq, string_eq, if◌then◌else◌, ltb, leb, count_if,
}
use distributed_key_value_ca.Prelude.Dict
use distributed_key_value_ca.Prelude.Dict.{Dict, keys}
use distributed_key_value_ca.Raft.Types.{
  Loads, LogEntry, Member, follower, candidate, leader, is_leader, is_follower, noop,
  last_log_index, last_log_term, term_at, has_term,
}
use distributed_key_value_ca.Raft.Storage.{RaftStorage}
use distributed_key_value_ca.Raft.Rpc.{RequestVoteRequest}
use distributed_key_value_ca.Raft.Engine.{
  Engine, Clock, Task, spawn, majority, wake_replicators, reset_election_timer,
  persist_term_and_vote,
}
use distributed_key_value_ca.Raft.Engine.Members.{targets, start_all, append_local}

-- `k in votes`, for a set of node ids
abbrev pub holds : String → List String → Bool
holds k [] = false
holds k (v ∷ votes) = k == v || holds k votes

-- `n.next_index[peer_id] = next_idx`, and so on, for every peer
fill {ℓ} : {A : Type ℓ} → A → List String → Dict String A → Dict String A
fill a [] d = d
fill a (peer ∷ peers) d = fill a peers (Dict.put peer a d)

module _ {S R : Type 0} where
  -- `len(votes & self._members.keys())`
  unfoldable pub counted : List String → Engine S R → ℕ
  counted votes e = count_if (λ m. holds m votes) (keys e.members)

  -- whether a member stores the entry at `index`
  unfoldable pub replicated : Engine S R → ℕ → String → Bool
  replicated e index m = m == e.node_id || (elim (Dict.get m e.node.match_index) [
    | none ↦ leb index 0
    | some match ↦ leb index match
  ])

  unfoldable pub replicas : Engine S R → ℕ → ℕ
  unfolding replicated
  replicas e index = count_if (replicated e index) (keys e.members)

  -- the loop over `range(last_log_index, commit_index, -1)`, which has `k` indices left
  unfoldable pub commit_scan : Engine S R → ℕ → Option ℕ
  unfolding replicas majority
  commit_scan e zero = none
  commit_scan e (suc k) =
      let index = e.node.commit_index + suc k in
      let lower = commit_scan e k in
      if not (has_term (term_at e.node index) e.node.current_term)
      then none
      else if leb (majority e) (replicas e index)
      then some index
      else lower

  unfoldable pub advance_commit_index : Engine S R → Engine S R
  unfolding commit_scan wake_replicators
  advance_commit_index e =
      if is_leader e.node.state
      then (elim (commit_scan e (last_log_index e.node - e.node.commit_index)) [
        | none ↦ e
        | some index ↦ wake_replicators (record e { node = record e.node { commit_index = index } })
      ])
      else e

  module _ (st : RaftStorage S) where
    unfoldable pub adopt_term : ℕ → Engine S R → Engine S R
    unfolding persist_term_and_vote
    adopt_term term e =
        if ltb e.node.current_term term
        then persist_term_and_vote st (record e {
          node = record e.node { current_term = term; voted_for = none; leader_id = none };
        })
        else e

    unfoldable pub drop_leadership : Engine S R → Engine S R
    drop_leadership e =
        if is_leader e.node.state
        then record e {
          node = record e.node { leader_id = none };
          learners = [];
          transferring = false;
        }
        else e

    unfoldable pub become_follower : ℕ → Engine S R → Engine S R
    unfolding adopt_term drop_leadership reset_election_timer
    become_follower term e =
        let adopted = adopt_term term e in
        let dropped = drop_leadership adopted in
        reset_election_timer (record dropped { node = record dropped.node { state = follower } })

    -- the address in `_accept_leader`
    unfoldable pub address_of : String → String → Engine S R → String
    address_of leader_id leader_address e =
        if leader_address == ""
        then (elim (Dict.get leader_id e.members) [
          | none ↦ e.leader_address
          | some m ↦ m.raft_address
        ])
        else leader_address

    -- the first `if` of `_accept_leader`
    unfoldable pub hear : ℕ → Engine S R → Engine S R
    unfolding become_follower reset_election_timer
    hear term e =
        if ltb e.node.current_term term || not (is_follower e.node.state)
        then become_follower term e
        else reset_election_timer e

    unfoldable pub accept_leader : Clock → ℕ → String → String → Engine S R → Engine S R
    unfolding hear address_of
    accept_leader now term leader_id leader_address e =
        let heard = hear term e in
        record heard {
          node = record heard.node { leader_id = some leader_id; last_heartbeat = now.wall };
          leader_address = address_of leader_id leader_address heard;
          last_leader_contact = now.monotonic;
        }

    module _ (loads : Loads) where
      -- `_become_leader` up to the no-op
      unfoldable pub lead : Clock → Engine S R → Engine S R
      unfolding targets fill
      lead now e =
          let next_idx = last_log_index e.node + 1 in
          let alone = record e { learners = [] } in
          let peers = keys (targets alone) in
          record e {
            node = record e.node {
              state = leader;
              leader_id = some e.node_id;
              next_index = fill next_idx peers [];
              match_index = fill 0 peers [];
            };
            leader_address = e.raft_address;
            transferring = false;
            learners = [];
            timer_generation = e.timer_generation + 1;
            election_timer = none;
            last_contact = fill now.monotonic peers [];
            last_ack_seq = [];
            term_start_index = next_idx;
          }

      unfoldable pub no_op : Engine S R → LogEntry
      no_op e = record {
        term = e.node.current_term;
        index = last_log_index e.node + 1;
        command = noop;
        username = "";
        request_id = "";
      }

      unfoldable pub become_leader : Clock → Engine S R → Engine S R
      unfolding lead no_op append_local advance_commit_index start_all spawn
      become_leader now e =
          let leading = lead now e in
          let appended = append_local st loads now (no_op leading ∷ []) leading in
          let committed = advance_commit_index appended in
          let fresh = record committed { replicators = [] } in
          let replicating = start_all now fresh in
          spawn (Task.check_quorum_loop replicating.node.current_term) replicating

    -- "Increment term and vote for self"
    unfoldable pub stand : Engine S R → Engine S R
    unfolding persist_term_and_vote
    stand e = persist_term_and_vote st (record e {
      node = record e.node {
        current_term = e.node.current_term + 1;
        state = candidate;
        voted_for = some e.node_id;
        leader_id = none;
      };
    })

  -- the RequestVote requests to everyone else
  unfoldable pub campaign : RequestVoteRequest → List Member → Engine S R → Engine S R
  unfolding spawn
  campaign request [] e = e
  campaign request (peer ∷ peers) e =
      campaign request peers
        (if peer.node_id == e.node_id then e else spawn (Task.request_vote_from peer request) e)

  -- the RequestVote request of a round for `term`
  unfoldable pub vote_request : ℕ → Bool → Bool → Engine S R → RequestVoteRequest
  unfolding last_log_index last_log_term
  vote_request term pre_vote transfer e = record {
    term = term;
    candidate_id = e.node_id;
    last_log_index = last_log_index e.node;
    last_log_term = last_log_term e.node;
    pre_vote = pre_vote;
    transfer = transfer;
  }

  unfoldable pub ask_votes : Bool → Engine S R → Engine S R
  unfolding campaign vote_request
  ask_votes transfer e =
      campaign (vote_request e.node.current_term false transfer e) (Dict.values e.members) e

  module _ (st : RaftStorage S) (loads : Loads) where
    unfoldable pub become_candidate : Clock → Bool → Engine S R → Engine S R
    unfolding stand counted majority become_leader reset_election_timer ask_votes
    become_candidate now transfer e =
        let standing = stand st e in
        if leb (majority standing) (counted (e.node_id ∷ []) standing)
        then become_leader st loads now standing
        else ask_votes transfer (reset_election_timer standing)
