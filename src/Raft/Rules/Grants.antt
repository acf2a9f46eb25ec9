-- ===== src/Raft/Rules/Grants.antt =====
-- raft/node.py, `_handle_request_vote`: when a vote is granted, and what a refusal leaves.
use distributed_key_value_ca.Prelude.{
  ℕ, sym, ap, ◌∙◌, le_or_lt, inl, inr, ◌≡◌, ◌≤◌, ◌<◌, ◌↔◌, refl, true, false, not, ◌&&◌, ltb, arith,
  none, some, List, [], ◌∷◌, ◌+◌, ◌⊎◌, length, get_last?, nat_eq,
}
use distributed_key_value_ca.Raft.Storage.{RaftStorage}
use distributed_key_value_ca.Raft.Rpc.{RequestVoteRequest}
use distributed_key_value_ca.Raft.Types.{LogEntry, RaftNode, last_log_index, last_log_term}
use distributed_key_value_ca.Raft.Engine.{Engine, Clock, in_leader_lease}
use distributed_key_value_ca.Raft.Engine.Roles.{become_follower, adopt_term, drop_leadership}
use distributed_key_value_ca.Raft.Engine.Votes.{
  handle_request_vote, decide_vote, log_ok, voted_other,
}

-- the term of the last entry, or one that is given
abbrev pub final_term : ℕ → List LogEntry → ℕ
final_term t [] = t
final_term t (entry ∷ log) = final_term entry.term log

-- The candidate's log is up to date: its last entry has a later term than the last one of the voter,
-- or the same term and an index that is not lower.
abbrev pub UpToDate : RequestVoteRequest → RaftNode → Type 0
UpToDate req n =
    (final_term n.snapshot_term n.log < req.last_log_term)
    ⊎ ((req.last_log_term ≡ final_term n.snapshot_term n.log)
        × (n.snapshot_index + length n.log ≤ req.last_log_index))

last_term-get_last? :
    (t : ℕ) (log : List LogEntry)
    → (elim (get_last? log) [ none ↦ t | some entry ↦ entry.term ]) ≡ final_term t log
last_term-get_last? t [] = refl
last_term-get_last? t (entry ∷ []) = refl
last_term-get_last? t (entry ∷ other ∷ log) = last_term-get_last? t (other ∷ log)

last_log_term-final_term : (n : RaftNode) → last_log_term n ≡ final_term n.snapshot_term n.log
unfolding last_log_term
last_log_term-final_term n = last_term-get_last? n.snapshot_term n.log

log_ok_iff :
    {S R : Type 0} (req : RequestVoteRequest) (e : Engine S R)
    → (log_ok req e ≡ true) ↔ UpToDate req e.node
unfolding log_ok last_log_index
log_ok_iff req e = rw (last_log_term-final_term e.node) (ground (arith, nat_eq.beq_iff))

module _ {S R : Type 0} (st : RaftStorage S) (now : Clock) (req : RequestVoteRequest)
    (e : Engine S R) where
  -- A pre-vote changes nothing in the engine, whatever the answer.
  pre_vote-unchanged : req.pre_vote ≡ true → (handle_request_vote st now req e).1 ≡ e
  unfolding handle_request_vote
  pre_vote-unchanged pre = rw pre refl

  pre_vote-granted :
      req.pre_vote ≡ true
      → (handle_request_vote st now req e).0.vote_granted
        ≡ (ltb e.node.current_term req.term && not (in_leader_lease now e) && log_ok req e)
  unfolding handle_request_vote
  pre_vote-granted pre = rw pre refl

  become_follower-log_ok : (term : ℕ) → log_ok req (become_follower st term e) ≡ log_ok req e
  unfolding log_ok become_follower adopt_term drop_leadership last_log_index last_log_term
  become_follower-log_ok term = ground arith

  become_follower-term :
      e.node.current_term < req.term
      → ((become_follower st req.term e).node.current_term ≡ req.term)
        × ((become_follower st req.term e).node.voted_for ≡ none)
  unfolding become_follower adopt_term drop_leadership
  become_follower-term up = ground arith

  decide_vote-granted : ((decide_vote st req e).0.vote_granted ≡ true) ↔ (
      (e.node.current_term ≤ req.term)
      × (voted_other e.node.voted_for req.candidate_id ≡ false)
      × (log_ok req e ≡ true))
  unfolding decide_vote
  decide_vote-granted = ground arith

module _ {S R : Type 0} (st : RaftStorage S) (now : Clock) (req : RequestVoteRequest)
    (e : Engine S R) where
  decide_vote-granted_higher :
      e.node.current_term < req.term
      → ((decide_vote st req (become_follower st req.term e)).0.vote_granted ≡ true)
        ↔ (log_ok req e ≡ true)
  decide_vote-granted_higher up =
      let (term, free) = become_follower-term st now req e up in
      let ok = become_follower-log_ok st now req e req.term in
      let (there, back) = decide_vote-granted st now req (become_follower st req.term e) in
      (
        (λ g. sym ok ∙ (there g).2),
        (λ l. back (omega (arith, term), ap (λ v. voted_other v req.candidate_id) free, ok ∙ l)),
      )

  vote-granted_log_ok :
      req.pre_vote ≡ false
      → ((handle_request_vote st now req e).0.vote_granted ≡ true) ↔ (
          (e.node.current_term ≤ req.term)
          × (e.node.current_term < req.term → (not req.transfer && in_leader_lease now e) ≡ false)
          × (e.node.current_term ≡ req.term → voted_other e.node.voted_for req.candidate_id ≡ false)
          × (log_ok req e ≡ true))
  unfolding handle_request_vote
  vote-granted_log_ok real = elim (le_or_lt req.term e.node.current_term) [
    | inl low ↦ ground (arith, real, decide_vote-granted st now req e)
    | inr up ↦ ground (arith, real, decide_vote-granted_higher up)
  ]

  -- A vote is granted exactly where the term is not behind, a higher term is not refused for the
  -- sake of a leader's lease, in the term of the request no other candidate got the vote, and the
  -- candidate's log is up to date: its last entry has a later term than the voter's last one, or the
  -- same term and an index that is not lower. The request is not a pre-vote.
  pub vote-granted_iff :
      req.pre_vote ≡ false
      → ((handle_request_vote st now req e).0.vote_granted ≡ true) ↔ (
          (e.node.current_term ≤ req.term)
          × (e.node.current_term < req.term → (not req.transfer && in_leader_lease now e) ≡ false)
          × (e.node.current_term ≡ req.term → voted_other e.node.voted_for req.candidate_id ≡ false)
          × UpToDate req e.node)
  vote-granted_iff real =
      let (there, back) = vote-granted_log_ok real in
      let (ok, ok_back) = log_ok_iff req e in
      (
        (λ g. let (term, lease, free, log) = there g in (term, lease, free, ok log)),
        (λ (term, lease, free, log). back (term, lease, free, ok_back log)),
      )

module _ {S R : Type 0} (st : RaftStorage S) (now : Clock) (req : RequestVoteRequest)
    (e : Engine S R) where
  pub pre_vote-answer :
      req.pre_vote ≡ true
      → ((handle_request_vote st now req e).1 ≡ e)
        × (((handle_request_vote st now req e).0.vote_granted ≡ true) ↔ (
            (e.node.current_term < req.term)
            × (in_leader_lease now e ≡ false)
            × UpToDate req e.node))
        × ((handle_request_vote st now req e).0.vote_granted ≡ true
            → (handle_request_vote st now (record req { pre_vote = false }) e).0.vote_granted
              ≡ true)
  pre_vote-answer pre =
      let (ok, ok_back) = log_ok_iff req e in
      let granted : ((handle_request_vote st now req e).0.vote_granted ≡ true) ↔ (
          (e.node.current_term < req.term)
          × (in_leader_lease now e ≡ false)
          × UpToDate req e.node) =
        rw (pre_vote-granted st now req e pre) (ground (arith, ok, ok_back)) in
      (
        pre_vote-unchanged st now req e pre,
        granted,
        (λ g.
            let (up, lease, log) = granted.0 g in
            (vote-granted_iff st now (record req { pre_vote = false }) e refl).1
              (omega arith, (λ h. ground (arith, lease)), (λ h. absurd (omega arith)), log)),
      )
