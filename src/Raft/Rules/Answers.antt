-- ===== src/Raft/Rules/Answers.antt =====
-- raft/node.py, `_handle_append_entries`: what its answers say of the follower's log.
use distributed_key_value_ca.Prelude.{
  ℕ, ◌+◌, ◌-◌, ◌<◌, ◌≤◌, ◌≡◌, refl, ap, sym, ◌∙◌, subst, subst₂, Bool, true, false, Option, some,
  List, arith, length, ltb, ltb→le, ltb→lt, if◌then◌else◌, drop, max, String,
}
use distributed_key_value_ca.Raft.Types.{Loads, LogEntry, RaftNode, last_log_index, term_at}
use distributed_key_value_ca.Raft.Log.Runs.{Runs, Runs-drop}
use distributed_key_value_ca.Raft.Storage.{RaftStorage}
use distributed_key_value_ca.Raft.Rpc.{AppendEntriesRequest, AppendEntriesResponse}
use distributed_key_value_ca.Raft.Engine.{
  Engine, Clock, reset_election_timer, persist_term_and_vote,
}
use distributed_key_value_ca.Raft.Engine.Roles.{
  accept_leader, hear, become_follower, adopt_term, drop_leadership,
}
use distributed_key_value_ca.Raft.Engine.Replication.{
  merge_entries, learn_commit, check_and_append, handle_append_entries, same_term,
}
use distributed_key_value_ca.Raft.Rules.Merging.{
  SameLog, SameLog-refl, SameLog-trans, term_at-SameLog, Extends, Extends-SameLog,
  learn_commit-Extends, merge_entries-Extends,
}

-- What an answer of `check_and_append` says of the log: whether it is a success, and the node then.
abbrev Checked : ℕ → Option ℕ → List LogEntry → RaftNode → Bool → RaftNode → Type 0
Checked p prev_term es n true n' = (same_term (term_at n p) prev_term ≡ true) × Extends n n' p es
Checked p prev_term es n false n' = SameLog n n'

module _ {S R : Type 0} (st : RaftStorage S) (loads : Loads) (now : Clock) where
  check_and_append-Checked :
      (p : ℕ) (prev_term : Option ℕ) (es : List LogEntry) (leader_commit : ℕ) (e : Engine S R)
      → e.node.snapshot_index ≤ p
      → Runs p es
      → Checked p prev_term es e.node
          (check_and_append st loads now p prev_term es leader_commit e).0.success
          (check_and_append st loads now p prev_term es leader_commit e).1.node
  unfolding check_and_append
  check_and_append-Checked p prev_term es leader_commit e low run =
      ground (arith, SameLog-refl e.node, accepting)
    where
      accepting :
          p ≤ last_log_index e.node
          → Extends e.node
              (learn_commit leader_commit (p + length es) (merge_entries st loads now es e)).node
              p
              es
      accepting high =
          learn_commit-Extends e.node p leader_commit (p + length es) es _
            (merge_entries-Extends st loads now p es e low high run)

accept_leader-SameLog :
    {S R : Type 0} (st : RaftStorage S) (now : Clock) (term : ℕ) (leader_id leader_address : String)
    (e : Engine S R)
    → SameLog e.node (accept_leader st now term leader_id leader_address e).node
unfolding accept_leader hear become_follower adopt_term drop_leadership persist_term_and_vote
    reset_election_timer
accept_leader-SameLog st now term leader_id leader_address e = ground arith

-- The entries of a request that are not in the snapshot, and the index before them.
abbrev pub beyond : ℕ → AppendEntriesRequest → List LogEntry
beyond snapshot req = drop (snapshot - req.prev_log_index) req.entries

-- What an answer to AppendEntries says of the log.
abbrev Answered : AppendEntriesRequest → RaftNode → Bool → RaftNode → Type 0
Answered req n true n' =
    (n.snapshot_index ≤ req.prev_log_index
      → same_term (term_at n req.prev_log_index) req.prev_log_term ≡ true)
    × Extends n n' (max req.prev_log_index n.snapshot_index) (beyond n.snapshot_index req)
Answered req n false n' = SameLog n n'

module _ (req : AppendEntriesRequest) {n m : RaftNode} (same : SameLog n m) where
  from_prev :
      (b : Bool) (n' : RaftNode)
      → n.snapshot_index ≤ req.prev_log_index
      → Checked req.prev_log_index req.prev_log_term req.entries m b n'
      → Answered req n b n'
  from_prev true n' low (term, x) = (
    (λ l.
        ap (λ t. same_term t req.prev_log_term) (sym (term_at-SameLog req.prev_log_index same))
        ∙ term),
    subst₂ (Extends n n') (omega arith)
        (ap (λ k. drop k req.entries) {x = 0} {y = n.snapshot_index - req.prev_log_index}
          (omega arith))
        (Extends-SameLog req.prev_log_index req.entries same x),
  )
  from_prev false n' low x = SameLog-trans same x

  from_snapshot :
      (b : Bool) (n' : RaftNode)
      → req.prev_log_index < n.snapshot_index
      → Checked m.snapshot_index (some m.snapshot_term) (beyond m.snapshot_index req) m b n'
      → Answered req n b n'
  from_snapshot true n' low (term, x) = (
    (λ l. absurd (omega arith)),
    subst₂ (Extends n n') (omega (arith, same.snapshot_index))
        (ap (λ k. beyond k req) same.snapshot_index)
        (Extends-SameLog m.snapshot_index (beyond m.snapshot_index req) same x),
  )
  from_snapshot false n' low x = SameLog-trans same x

module _ {S R : Type 0} (st : RaftStorage S) (loads : Loads) (now : Clock)
    (req : AppendEntriesRequest) (e : Engine S R) where
  heard : Engine S R
  heard = accept_leader st now req.term req.leader_id req.leader_address e

  heard_same : SameLog e.node heard.node
  unfolding heard
  heard_same = accept_leader-SameLog st now req.term req.leader_id req.leader_address e

  beyond-Runs :
      Runs req.prev_log_index req.entries
      → req.prev_log_index < heard.node.snapshot_index
      → Runs heard.node.snapshot_index (beyond heard.node.snapshot_index req)
  beyond-Runs run low =
      subst (λ k. Runs k (beyond heard.node.snapshot_index req)) (omega arith)
        (Runs-drop req.prev_log_index (heard.node.snapshot_index - req.prev_log_index) req.entries
          run)

  abbrev Says : AppendEntriesResponse × Engine S R → Type 0
  Says c = Answered req e.node c.0.success c.1.node

  Says-if :
      (b : Bool) (c d : AppendEntriesResponse × Engine S R)
      → (b ≡ true → Says c)
      → (b ≡ false → Says d)
      → Says (if b then c else d)
  Says-if true c d t f = t refl
  Says-if false c d t f = f refl

  handle_append_entries-Answered :
      Runs req.prev_log_index req.entries → Says (handle_append_entries st loads now req e)
  unfolding handle_append_entries heard
  handle_append_entries-Answered run =
      Says-if (ltb req.term e.node.current_term) _ _ (λ stale. SameLog-refl e.node)
        (λ _. Says-if (ltb req.prev_log_index heard.node.snapshot_index) _ _ behind inside)
    where
      behind :
          ltb req.prev_log_index heard.node.snapshot_index ≡ true
          → Says (
              check_and_append st loads now heard.node.snapshot_index
                (some heard.node.snapshot_term)
                (beyond heard.node.snapshot_index req)
                req.leader_commit
                heard)
      behind low =
          let under = ltb→lt _ _ low in
          from_snapshot req heard_same _ _ (omega (arith, under, heard_same.snapshot_index)) (
            check_and_append-Checked st loads now _ _ _ req.leader_commit heard (omega arith)
              (beyond-Runs run under))

      inside :
          ltb req.prev_log_index heard.node.snapshot_index ≡ false
          → Says (
              check_and_append st loads now req.prev_log_index req.prev_log_term req.entries
                req.leader_commit heard)
      inside high =
          let over = ltb→le _ _ high in
          from_prev req heard_same _ _ (omega (arith, over, heard_same.snapshot_index))
            (check_and_append-Checked st loads now _ _ _ req.leader_commit heard over run)

  -- Where the entries of a request follow its `prev_log_index` and it is accepted: if that index is
  -- not before the snapshot, the follower has an entry there with the request's term. Afterwards the
  -- log has an entry with the index and the term of every entry of the request that is past the
  -- snapshot, and up to `prev_log_index`, or to the snapshot where that is later, every index has the
  -- term it had. The log is the old one, or a part of it followed by the request's entries from one
  -- of them on, just as they are, where the part ends right before that entry's index.
  pub append_entries-accepted :
      Runs req.prev_log_index req.entries
      → (handle_append_entries st loads now req e).0.success ≡ true
      → (e.node.snapshot_index ≤ req.prev_log_index
          → same_term (term_at e.node req.prev_log_index) req.prev_log_term ≡ true)
        × Extends e.node
            (handle_append_entries st loads now req e).1.node
            (max req.prev_log_index e.node.snapshot_index)
            (beyond e.node.snapshot_index req)
  append_entries-accepted run ok =
      subst (λ b. Answered req e.node b (handle_append_entries st loads now req e).1.node) ok
        (handle_append_entries-Answered run)

  -- A refused request leaves the log, the snapshot boundary and the commit index as they are, where
  -- its entries follow its `prev_log_index`.
  pub append_entries-refused :
      Runs req.prev_log_index req.entries
      → (handle_append_entries st loads now req e).0.success ≡ false
      → SameLog e.node (handle_append_entries st loads now req e).1.node
  append_entries-refused run refusal =
      subst (λ b. Answered req e.node b (handle_append_entries st loads now req e).1.node) refusal
        (handle_append_entries-Answered run)
