-- ===== src/Raft/Engine/Saved/Votes.antt =====
-- Elections save every vote and every term before they answer.
use distributed_key_value_ca.Prelude.{
  ℕ, ◌+◌, String, true, false, List, [], ◌∷◌, arith, nat_eq, string_eq, Option, some,
}
use distributed_key_value_ca.Raft.Types.{Loads, Member}
use distributed_key_value_ca.Raft.Storage.{RaftStorage, RaftStorageLaws}
use distributed_key_value_ca.Raft.Rpc.{RequestVoteRequest, RequestVoteResponse, TimeoutNowRequest}
use distributed_key_value_ca.Raft.Engine.{Engine, Clock, Task, reset_election_timer}
use distributed_key_value_ca.Raft.Engine.Frame.{
  Keeps, Keeps-refl, Keeps-trans, spawn-Keeps, reset_election_timer-Keeps,
}
use distributed_key_value_ca.Raft.Engine.Roles.{become_follower, vote_request}
use distributed_key_value_ca.Raft.Engine.Votes.{
  ask, start_pre_vote, grant, others, decide_vote, handle_request_vote, start_election,
  on_pre_vote_response, on_vote_response, handle_timeout_now,
}
use distributed_key_value_ca.Raft.Engine.Saved.{Saved, Keeps-Saved, persist_term_and_vote-Saved}
use distributed_key_value_ca.Raft.Engine.Saved.Roles.{
  become_follower-Saved, become_leader-Saved, become_candidate-Saved,
}

module _ {S R : Type 0} where
  ask-Keeps :
      (request : RequestVoteRequest) (round : ℕ) (peers : List Member) (e : Engine S R)
      → Keeps e (ask request round peers e)
  unfolding ask
  ask-Keeps request round [] e = Keeps-refl e
  ask-Keeps request round (peer ∷ peers) e =
      Keeps-trans (spawn-Keeps (Task.request_pre_vote_from peer request round) e)
        (ask-Keeps request round peers _)

  pub start_pre_vote-Keeps :
      (voters : List Member) (e : Engine S R) → Keeps e (start_pre_vote voters e)
  unfolding start_pre_vote
  start_pre_vote-Keeps voters e =
      ask-Keeps (vote_request (e.node.current_term + 1) true false e) e.timer_generation voters e

module _ {S R : Type 0} {st : RaftStorage S} {Sound : S → Type 0} (laws : RaftStorageLaws st Sound)
    (now : Clock) where
  grant-Saved :
      (candidate_id : String) (e : Engine S R)
      → Saved st Sound e
      → Saved st Sound (grant st candidate_id e)
  unfolding grant
  grant-Saved candidate_id e s = Keeps-Saved (reset_election_timer-Keeps _) (
      persist_term_and_vote-Saved laws
        (record e { node = record e.node { voted_for = some candidate_id } }) (ground arith))

  decide_vote-Saved :
      (req : RequestVoteRequest) (e : Engine S R)
      → Saved st Sound e
      → Saved st Sound (decide_vote st req e).1
  unfolding decide_vote
  decide_vote-Saved req e s = ground (arith, grant-Saved req.candidate_id e s)

  pub handle_request_vote-Saved :
      (req : RequestVoteRequest) (e : Engine S R)
      → Saved st Sound e
      → Saved st Sound (handle_request_vote st now req e).1
  unfolding handle_request_vote
  handle_request_vote-Saved req e s = ground (
    arith,
    decide_vote-Saved req e s,
    decide_vote-Saved req (become_follower st req.term e) (become_follower-Saved laws req.term e s),
  )

  pub start_election-Saved :
      (loads : Loads) (generation : Option ℕ) (e : Engine S R)
      → Saved st Sound e
      → Saved st Sound (start_election st loads now generation e)
  unfolding start_election
  start_election-Saved loads generation e s = ground (
    arith,
    Keeps-Saved (reset_election_timer-Keeps e) s,
    become_candidate-Saved laws loads now false e s,
    Keeps-Saved (start_pre_vote-Keeps (others e) (reset_election_timer e))
        (Keeps-Saved (reset_election_timer-Keeps e) s),
  )

  pub on_pre_vote_response-Saved :
      (loads : Loads) (peer : Member) (round_id : ℕ) (response : RequestVoteResponse)
      (grants : List String) (e : Engine S R)
      → Saved st Sound e
      → Saved st Sound (on_pre_vote_response st loads now peer round_id response grants e).1
  unfolding on_pre_vote_response
  on_pre_vote_response-Saved loads peer round_id response grants e s = ground (
    arith,
    become_follower-Saved laws response.term e s,
    become_candidate-Saved laws loads now false e s,
  )

  pub on_vote_response-Saved :
      (loads : Loads) (peer : Member) (request : RequestVoteRequest)
      (response : RequestVoteResponse) (votes : List String) (e : Engine S R)
      → Saved st Sound e
      → Saved st Sound (on_vote_response st loads now peer request response votes e).1
  unfolding on_vote_response
  on_vote_response-Saved loads peer request response votes e s =
      ground (
        arith,
        become_follower-Saved laws response.term e s,
        become_leader-Saved laws loads now e s,
      )

  pub handle_timeout_now-Saved :
      (loads : Loads) (req : TimeoutNowRequest) (e : Engine S R)
      → Saved st Sound e
      → Saved st Sound (handle_timeout_now st loads now req e).1
  unfolding handle_timeout_now
  handle_timeout_now-Saved loads req e s =
      ground (arith, become_candidate-Saved laws loads now true e s)
