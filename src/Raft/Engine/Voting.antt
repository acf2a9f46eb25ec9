-- ===== src/Raft/Engine/Voting.antt =====
-- Terms never fall, and within a term a vote is never taken back: what each part of raft/node.py
-- does to the term and the vote of a node.
pub mod Handlers
pub mod Rest
use distributed_key_value_ca.Prelude.{
  ℕ, ◌+◌, ◌≡◌, ◌<◌, refl, ◌∙◌, sym, ◌⊎◌, inl, inr, Bool, true, false, Bool-cases, Option, none,
  some, List, [], ◌∷◌, arith, ltb, leb, if◌then◌else◌, String, not, ◌||◌,
}
use distributed_key_value_ca.Raft.Types.{Loads, LogEntry, is_follower, is_leader, truncate_from}
use distributed_key_value_ca.Raft.Storage.{RaftStorage}
use distributed_key_value_ca.Raft.Engine.{
  Engine, Clock, persist_term_and_vote, majority, reset_election_timer,
}
use distributed_key_value_ca.Raft.Engine.Frame.{
  Keeps, refresh_config-Keeps, start_all-Keeps, ask_votes-Keeps, reset_election_timer-Keeps,
  wake_replicators-Keeps, spawn-Keeps,
}
use distributed_key_value_ca.Raft.Engine.Members.{
  append_local, truncate_local, store_entries, drop_entries, any_config,
}
use distributed_key_value_ca.Raft.Engine.Roles.{
  become_follower, hear, accept_leader, advance_commit_index, lead, no_op, become_leader, stand,
  ask_votes, become_candidate, counted,
}

module _ {S R : Type 0} where
  pub record SameVote (e e' : Engine S R) : Type 0 where
    pub term : e'.node.current_term ≡ e.node.current_term
    pub vote : e'.node.voted_for ≡ e.node.voted_for

  -- Either the term rises, or it stays and a vote that was given stays too.
  pub data VoteOrder (e e' : Engine S R) : Type 0 where
    rises : e.node.current_term < e'.node.current_term → VoteOrder e e'
    stays :
        e'.node.current_term ≡ e.node.current_term
        → ((c : String) → e.node.voted_for ≡ some c → e'.node.voted_for ≡ some c)
        → VoteOrder e e'

  pub SameVote-refl : (e : Engine S R) → SameVote e e
  SameVote-refl e = record { term = refl; vote = refl }

  pub SameVote-trans : {e f g : Engine S R} → SameVote e f → SameVote f g → SameVote e g
  SameVote-trans a b = record { term = b.term ∙ a.term; vote = b.vote ∙ a.vote }

  pub Keeps-SameVote : {e e' : Engine S R} → Keeps e e' → SameVote e e'
  Keeps-SameVote k = record { term = k.term; vote = k.vote }

  pub SameVote-VoteOrder : {e e' : Engine S R} → SameVote e e' → VoteOrder e e'
  SameVote-VoteOrder s = stays s.term (λ c h. s.vote ∙ h)

  pub VoteOrder-trans : {e f g : Engine S R} → VoteOrder e f → VoteOrder f g → VoteOrder e g
  VoteOrder-trans (rises a) (rises b) = rises (omega arith)
  VoteOrder-trans (rises a) (stays b k) = rises (omega arith)
  VoteOrder-trans (stays a k) (rises b) = rises (omega arith)
  VoteOrder-trans (stays a k) (stays b l) = stays (b ∙ a) (λ c h. l c (k c h))

  pub SameVote-if :
      (b : Bool) (e f g : Engine S R)
      → SameVote e f
      → SameVote e g
      → SameVote e (if b then f else g)
  SameVote-if true e f g sf sg = sf
  SameVote-if false e f g sf sg = sg

  pub VoteOrder-if :
      (b : Bool) (e f g : Engine S R)
      → VoteOrder e f
      → VoteOrder e g
      → VoteOrder e (if b then f else g)
  VoteOrder-if true e f g sf sg = sf
  VoteOrder-if false e f g sf sg = sg

  pub advance_commit_index-SameVote : (e : Engine S R) → SameVote e (advance_commit_index e)
  unfolding advance_commit_index
  advance_commit_index-SameVote e = ground arith

  module _ (st : RaftStorage S) where
    pub become_follower-VoteOrder :
        (term : ℕ) (e : Engine S R) → VoteOrder e (become_follower st term e)
    unfolding become_follower
    become_follower-VoteOrder term e = elim (Bool-cases (ltb e.node.current_term term)) [
      | inl up ↦ rises (ground arith)
      | inr same ↦ stays (ground arith) (λ c h. ground arith)
    ]

    hear-VoteOrder : (term : ℕ) (e : Engine S R) → VoteOrder e (hear st term e)
    unfolding hear
    hear-VoteOrder term e =
        VoteOrder-if (ltb e.node.current_term term || not (is_follower e.node.state)) e _ _
          (become_follower-VoteOrder term e)
          (SameVote-VoteOrder (Keeps-SameVote (reset_election_timer-Keeps e)))

    pub accept_leader-VoteOrder :
        (now : Clock) (term : ℕ) (leader_id leader_address : String) (e : Engine S R)
        → VoteOrder e (accept_leader st now term leader_id leader_address e)
    unfolding accept_leader
    accept_leader-VoteOrder now term leader_id leader_address e =
        VoteOrder-trans (hear-VoteOrder term e)
          (SameVote-VoteOrder (record { term = refl; vote = refl }))

    pub stand-VoteOrder : (e : Engine S R) → VoteOrder e (stand st e)
    unfolding stand
    stand-VoteOrder e = rises (ground arith)

    module _ (loads : Loads) (now : Clock) where
      pub append_local-SameVote :
          (es : List LogEntry) (e : Engine S R) → SameVote e (append_local st loads now es e)
      unfolding append_local store_entries
      append_local-SameVote es e =
          SameVote-if (any_config loads es) e _ _
            (SameVote-trans (ground arith)
              (Keeps-SameVote (refresh_config-Keeps loads now (store_entries st es e))))
            (ground arith)

      pub truncate_local-SameVote :
          (index : ℕ) (e : Engine S R) → SameVote e (truncate_local st loads now index e)
      unfolding truncate_local drop_entries truncate_from
      truncate_local-SameVote index e =
          SameVote-trans (ground arith)
            (Keeps-SameVote (refresh_config-Keeps loads now (drop_entries st index e)))

      pub become_leader-SameVote : (e : Engine S R) → SameVote e (become_leader st loads now e)
      unfolding become_leader
      become_leader-SameVote e = SameVote-trans leads (
          SameVote-trans (append_local-SameVote (no_op st loads leading ∷ []) leading) (
            SameVote-trans (advance_commit_index-SameVote _) (
              SameVote-trans (fresh _) (
                SameVote-trans (Keeps-SameVote (start_all-Keeps now _))
                  (Keeps-SameVote (spawn-Keeps _ _))))))
        where
          leading : Engine S R
          leading = lead st loads now e

          leads : SameVote e leading
          leads = unfold lead in ground arith

          fresh : (f : Engine S R) → SameVote f (record f { replicators = [] })
          fresh f = ground arith

      pub become_candidate-VoteOrder :
          (transfer : Bool) (e : Engine S R)
          → VoteOrder e (become_candidate st loads now transfer e)
      unfolding become_candidate
      become_candidate-VoteOrder transfer e =
          let standing = stand st e in
          VoteOrder-trans (stand-VoteOrder e) (
            SameVote-VoteOrder (
              SameVote-if (leb (majority standing) (counted (e.node_id ∷ []) standing)) standing _ _
                (become_leader-SameVote standing)
                (SameVote-trans (Keeps-SameVote (reset_election_timer-Keeps standing))
                  (Keeps-SameVote (ask_votes-Keeps transfer _)))))
