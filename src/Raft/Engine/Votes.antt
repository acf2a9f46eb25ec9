-- ===== src/Raft/Engine/Votes.antt =====
-- raft/node.py: elections, on both sides. `grants` and `votes` are the sets that the threads of one
-- election share: they are handed in and back.
use distributed_key_value_ca.Prelude.{
  ℕ, ◌+◌, String, Bool, true, false, not, ◌||◌, ◌&&◌, Option, none, some, List, [], ◌∷◌, ◌==◌,
  nat_eq, string_eq, if◌then◌else◌, ltb, leb, is_some, filter_if,
}
use distributed_key_value_ca.Prelude.Dict
use distributed_key_value_ca.Prelude.Dict.{Dict, values}
use distributed_key_value_ca.Raft.Types.{
  Loads, Member, is_leader, is_candidate, last_log_index, last_log_term,
}
use distributed_key_value_ca.Raft.Storage.{RaftStorage}
use distributed_key_value_ca.Raft.Rpc.{
  RequestVoteRequest, RequestVoteResponse, TimeoutNowRequest, TimeoutNowResponse,
}
use distributed_key_value_ca.Raft.Engine.{
  Engine, Clock, Task, spawn, majority, reset_election_timer, persist_term_and_vote,
  in_leader_lease,
}
use distributed_key_value_ca.Raft.Engine.Roles.{
  counted, become_follower, become_leader, become_candidate, vote_request,
}

-- `already_voted`
abbrev pub voted_other : Option String → String → Bool
voted_other none candidate_id = false
voted_other (some v) candidate_id = not (v == candidate_id)

-- `not voters`
abbrev is_empty : List Member → Bool
is_empty [] = true
is_empty (_ ∷ _) = false

-- `generation is not None and generation != self._timer_generation`
abbrev pub is_stale : Option ℕ → ℕ → Bool
is_stale none current = false
is_stale (some g) current = not (g == current)

module _ {S R : Type 0} where
  unfoldable pub log_ok : RequestVoteRequest → Engine S R → Bool
  unfolding last_log_term last_log_index
  log_ok req e =
      ltb (last_log_term e.node) req.last_log_term
      || (req.last_log_term == last_log_term e.node
          && leb (last_log_index e.node) req.last_log_index)

  abbrev pub answer : Bool → Engine S R → RequestVoteResponse × Engine S R
  answer granted e = (record { term = e.node.current_term; vote_granted = granted }, e)

  -- `[m for m in self._members.values() if m.node_id != self.node_id]`
  unfoldable pub others : Engine S R → List Member
  others e = filter_if (λ m. not (m.node_id == e.node_id)) (values e.members)

  -- the threads of a pre-vote round
  unfoldable pub ask : RequestVoteRequest → ℕ → List Member → Engine S R → Engine S R
  unfolding spawn
  ask request round [] e = e
  ask request round (peer ∷ peers) e =
      ask request round peers (spawn (Task.request_pre_vote_from peer request round) e)

  unfoldable pub start_pre_vote : List Member → Engine S R → Engine S R
  unfolding ask vote_request
  start_pre_vote voters e =
      ask (vote_request (e.node.current_term + 1) true false e) e.timer_generation voters e

  module _ (st : RaftStorage S) where
    -- "persist it BEFORE replying"
    unfoldable pub grant : String → Engine S R → Engine S R
    unfolding persist_term_and_vote reset_election_timer
    grant candidate_id e = reset_election_timer (
        persist_term_and_vote st
          (record e { node = record e.node { voted_for = some candidate_id } }))

    -- a vote, once the term is not behind
    unfoldable pub decide_vote : RequestVoteRequest → Engine S R → RequestVoteResponse × Engine S R
    unfolding grant
    decide_vote req e =
        if ltb req.term e.node.current_term
        then answer false e
        else if voted_other e.node.voted_for req.candidate_id
        then answer false e
        else if not (log_ok req e)
        then answer false e
        else answer true (grant req.candidate_id e)

    unfoldable pub handle_request_vote :
        Clock → RequestVoteRequest → Engine S R → RequestVoteResponse × Engine S R
    unfolding decide_vote become_follower
    handle_request_vote now req e =
        if req.pre_vote
        then answer
            (ltb e.node.current_term req.term && not (in_leader_lease now e) && log_ok req e) e
        else if ltb e.node.current_term req.term && not req.transfer && in_leader_lease now e
        then answer false e
        else if ltb e.node.current_term req.term
        then decide_vote req (become_follower st req.term e)
        else decide_vote req e

    module _ (loads : Loads) where
      -- `_start_election`; no generation is given when the engine starts alone
      unfoldable pub start_election : Clock → Option ℕ → Engine S R → Engine S R
      unfolding start_pre_vote become_candidate reset_election_timer
      start_election now generation e =
          let voters = others e in
          if not e.running || is_stale generation e.timer_generation || is_leader e.node.state
          then e
          else if not (is_some (Dict.get e.node_id e.members))
          then reset_election_timer e
          else if is_empty voters
          then become_candidate st loads now false e
          else start_pre_vote voters (reset_election_timer e)

      -- `_request_pre_vote_from`, once the response is there
      unfoldable pub on_pre_vote_response :
          Clock
          → Member
          → ℕ
          → RequestVoteResponse
          → List String
          → Engine S R
          → List String × Engine S R
      unfolding become_follower become_candidate counted majority
      on_pre_vote_response now peer round_id response grants e =
          let with_peer = peer.node_id ∷ grants in
          if ltb e.node.current_term response.term
          then (grants, become_follower st response.term e)
          else if not (round_id == e.timer_generation)
              || is_leader e.node.state
              || not response.vote_granted
          then (grants, e)
          else if leb (majority e) (counted with_peer e)
          then (with_peer, become_candidate st loads now false e)
          else (with_peer, e)

      -- `_request_vote_from`, once the response is there
      unfoldable pub on_vote_response :
          Clock
          → Member
          → RequestVoteRequest
          → RequestVoteResponse
          → List String
          → Engine S R
          → List String × Engine S R
      unfolding become_follower become_leader counted majority
      on_vote_response now peer request response votes e =
          let with_peer = peer.node_id ∷ votes in
          if ltb e.node.current_term response.term
          then (votes, become_follower st response.term e)
          else if not (is_candidate e.node.state)
              || not (e.node.current_term == request.term)
              || not response.vote_granted
          then (votes, e)
          else if leb (majority e) (counted with_peer e)
          then (with_peer, become_leader st loads now e)
          else (with_peer, e)

      unfoldable pub handle_timeout_now :
          Clock → TimeoutNowRequest → Engine S R → TimeoutNowResponse × Engine S R
      unfolding become_candidate
      handle_timeout_now now req e =
          let after =
            if leb e.node.current_term req.term
              && is_some (Dict.get e.node_id e.members)
              && not (is_leader e.node.state)
            then become_candidate st loads now true e
            else e in
          (record { term = after.node.current_term }, after)
