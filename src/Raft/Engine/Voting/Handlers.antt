-- ===== src/Raft/Engine/Voting/Handlers.antt =====
-- Every handler of raft/node.py keeps the order of terms and votes.
use distributed_key_value_ca.Prelude.{
  ℕ, ◌+◌, ◌≡◌, refl, ap, inl, inr, true, false, Bool-cases, Option, none, some, List, [], ◌∷◌,
  arith, String, string_eq, length, drop, ◌-◌, max,
}
use distributed_key_value_ca.Raft.Types.{Loads, LogEntry, Member}
use distributed_key_value_ca.Raft.Storage.{RaftStorage}
use distributed_key_value_ca.Raft.Rpc.{
  RequestVoteRequest, RequestVoteResponse, AppendEntriesRequest, AppendEntriesResponse,
  TimeoutNowRequest,
}
use distributed_key_value_ca.Raft.Engine.{
  Engine, Clock, reset_election_timer, persist_term_and_vote,
}
use distributed_key_value_ca.Raft.Engine.Frame.{reset_election_timer-Keeps}
use distributed_key_value_ca.Raft.Engine.Roles.{become_follower, accept_leader}
use distributed_key_value_ca.Raft.Engine.Votes.{
  voted_other, grant, decide_vote, handle_request_vote, others, start_election,
  on_pre_vote_response, on_vote_response, handle_timeout_now,
}
use distributed_key_value_ca.Raft.Engine.Replication.{
  new_entries, cut, extend, merge_entries, learn_commit, check_and_append, handle_append_entries,
  note_contact, note_match, back_up, on_append_response,
}
use distributed_key_value_ca.Raft.Engine.Voting.{
  VoteOrder, stays, SameVote, SameVote-refl, SameVote-trans, SameVote-VoteOrder, Keeps-SameVote,
  VoteOrder-trans, advance_commit_index-SameVote, become_follower-VoteOrder,
  accept_leader-VoteOrder, append_local-SameVote, truncate_local-SameVote, become_leader-SameVote,
  become_candidate-VoteOrder,
}
use distributed_key_value_ca.Raft.Engine.Saved.Votes.{start_pre_vote-Keeps}

-- Nobody who voted for another candidate is granted.
same_candidate :
    (v : Option String) (candidate_id c : String)
    → voted_other v candidate_id ≡ false
    → v ≡ some c
    → candidate_id ≡ c
same_candidate none candidate_id c free voted = cc
same_candidate (some d) candidate_id c free voted = ground (arith, string_eq.beq_iff d candidate_id)

module _ {S R : Type 0} (st : RaftStorage S) (now : Clock) where
  grant-VoteOrder :
      (candidate_id : String) (e : Engine S R)
      → voted_other e.node.voted_for candidate_id ≡ false
      → VoteOrder e (grant st candidate_id e)
  unfolding grant persist_term_and_vote reset_election_timer
  grant-VoteOrder candidate_id e free =
      stays refl (λ c h. ap some (same_candidate e.node.voted_for candidate_id c free h))

  pub decide_vote-VoteOrder :
      (req : RequestVoteRequest) (e : Engine S R) → VoteOrder e (decide_vote st req e).1
  unfolding decide_vote
  decide_vote-VoteOrder req e = elim (Bool-cases (voted_other e.node.voted_for req.candidate_id)) [
    | inl other ↦ ground (arith, SameVote-VoteOrder (SameVote-refl e))
    | inr free ↦
        ground
          (arith, SameVote-VoteOrder (SameVote-refl e), grant-VoteOrder req.candidate_id e free)
  ]

  pub handle_request_vote-VoteOrder :
      (req : RequestVoteRequest) (e : Engine S R) → VoteOrder e (handle_request_vote st now req e).1
  unfolding handle_request_vote
  handle_request_vote-VoteOrder req e = ground (
    arith,
    SameVote-VoteOrder (SameVote-refl e),
    decide_vote-VoteOrder req e,
    VoteOrder-trans (become_follower-VoteOrder st req.term e)
        (decide_vote-VoteOrder req (become_follower st req.term e)),
  )

  pub start_election-VoteOrder :
      (loads : Loads) (generation : Option ℕ) (e : Engine S R)
      → VoteOrder e (start_election st loads now generation e)
  unfolding start_election
  start_election-VoteOrder loads generation e = ground (
    arith,
    SameVote-VoteOrder (SameVote-refl e),
    SameVote-VoteOrder (Keeps-SameVote (reset_election_timer-Keeps e)),
    become_candidate-VoteOrder st loads now false e,
    SameVote-VoteOrder (
        SameVote-trans (Keeps-SameVote (reset_election_timer-Keeps e))
          (Keeps-SameVote (start_pre_vote-Keeps (others e) (reset_election_timer e)))),
  )

  pub on_pre_vote_response-VoteOrder :
      (loads : Loads) (peer : Member) (round_id : ℕ) (response : RequestVoteResponse)
      (grants : List String) (e : Engine S R)
      → VoteOrder e (on_pre_vote_response st loads now peer round_id response grants e).1
  unfolding on_pre_vote_response
  on_pre_vote_response-VoteOrder loads peer round_id response grants e = ground (
    arith,
    SameVote-VoteOrder (SameVote-refl e),
    become_follower-VoteOrder st response.term e,
    become_candidate-VoteOrder st loads now false e,
  )

  pub on_vote_response-VoteOrder :
      (loads : Loads) (peer : Member) (request : RequestVoteRequest)
      (response : RequestVoteResponse) (votes : List String) (e : Engine S R)
      → VoteOrder e (on_vote_response st loads now peer request response votes e).1
  unfolding on_vote_response
  on_vote_response-VoteOrder loads peer request response votes e = ground (
    arith,
    SameVote-VoteOrder (SameVote-refl e),
    become_follower-VoteOrder st response.term e,
    SameVote-VoteOrder (become_leader-SameVote st loads now e),
  )

  pub handle_timeout_now-VoteOrder :
      (loads : Loads) (req : TimeoutNowRequest) (e : Engine S R)
      → VoteOrder e (handle_timeout_now st loads now req e).1
  unfolding handle_timeout_now
  handle_timeout_now-VoteOrder loads req e =
      ground (
        arith,
        SameVote-VoteOrder (SameVote-refl e),
        become_candidate-VoteOrder st loads now true e,
      )

  extend-SameVote :
      (loads : Loads) (news : List LogEntry) (e : Engine S R)
      → SameVote e (extend st loads now news e)
  unfolding extend
  extend-SameVote loads [] e = SameVote-refl e
  extend-SameVote loads (f ∷ news) e = append_local-SameVote st loads now (f ∷ news) e

  cut-SameVote :
      (loads : Loads) (conflict : Option ℕ) (e : Engine S R)
      → SameVote e (cut st loads now conflict e)
  unfolding cut
  cut-SameVote loads none e = SameVote-refl e
  cut-SameVote loads (some i) e = truncate_local-SameVote st loads now i e

  merge_entries-SameVote :
      (loads : Loads) (entries : List LogEntry) (e : Engine S R)
      → SameVote e (merge_entries st loads now entries e)
  unfolding merge_entries
  merge_entries-SameVote loads entries e =
      let (conflict, news) = new_entries e.node entries in
      SameVote-trans (cut-SameVote loads conflict e)
        (extend-SameVote loads news (cut st loads now conflict e))

  learn_commit-SameVote :
      (leader_commit last_new : ℕ) (e : Engine S R)
      → SameVote e (learn_commit leader_commit last_new e)
  unfolding learn_commit
  learn_commit-SameVote leader_commit last_new e = ground arith

  check_and_append-SameVote :
      (loads : Loads) (prev_index : ℕ) (prev_term : Option ℕ) (entries : List LogEntry)
      (leader_commit : ℕ) (e : Engine S R)
      → SameVote e (check_and_append st loads now prev_index prev_term entries leader_commit e).1
  unfolding check_and_append
  check_and_append-SameVote loads prev_index prev_term entries leader_commit e = ground (
    arith,
    SameVote-refl e,
    SameVote-trans (merge_entries-SameVote loads entries e) (
        learn_commit-SameVote leader_commit (prev_index + length entries)
          (merge_entries st loads now entries e)),
  )

  pub handle_append_entries-VoteOrder :
      (loads : Loads) (req : AppendEntriesRequest) (e : Engine S R)
      → VoteOrder e (handle_append_entries st loads now req e).1
  unfolding handle_append_entries
  handle_append_entries-VoteOrder loads req e = ground (
    arith,
    SameVote-VoteOrder (SameVote-refl e),
    then_check req.prev_log_index req.prev_log_term req.entries,
    then_check snapshot (some heard.node.snapshot_term)
        (drop (snapshot - req.prev_log_index) req.entries),
  )
    where
      heard : Engine S R
      heard = accept_leader st now req.term req.leader_id req.leader_address e

      snapshot : ℕ
      snapshot = heard.node.snapshot_index

      then_check :
          (prev_index : ℕ) (prev_term : Option ℕ) (entries : List LogEntry)
          → VoteOrder e
              (check_and_append st loads now prev_index prev_term entries req.leader_commit heard).1
      then_check prev_index prev_term entries =
          VoteOrder-trans
            (accept_leader-VoteOrder st now req.term req.leader_id req.leader_address e)
            (SameVote-VoteOrder (
              check_and_append-SameVote loads prev_index prev_term entries req.leader_commit heard))

  pub on_append_response-VoteOrder :
      (peer : Member) (term seq : ℕ) (request : AppendEntriesRequest)
      (response : AppendEntriesResponse) (e : Engine S R)
      → VoteOrder e (on_append_response st now peer term seq request response e)
  unfolding on_append_response
  on_append_response-VoteOrder peer term seq request response e = ground (
    arith,
    SameVote-VoteOrder (SameVote-refl e),
    become_follower-VoteOrder st response.term e,
    SameVote-VoteOrder (SameVote-trans matched (advance_commit_index-SameVote _)),
    SameVote-VoteOrder backed,
  )
    where
      noted : Engine S R
      noted = note_contact now peer.node_id seq e

      match : ℕ
      match = max (request.prev_log_index + length request.entries) response.match_index

      matched : SameVote e (note_match peer.node_id match noted)
      matched = unfold note_contact note_match in ground arith

      backed :
          SameVote e (back_up peer.node_id response.conflict_index request.prev_log_index noted)
      backed = unfold note_contact back_up in ground arith
