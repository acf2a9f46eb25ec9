-- ===== src/Raft/Engine/Replication.antt =====
-- raft/node.py: AppendEntries, on the follower and on the leader.
use distributed_key_value_ca.Prelude.{
  ℕ, ◌+◌, ◌-◌, zero, suc, String, Bool, true, false, not, ◌||◌, ◌&&◌, Option, none, some, List, [],
  ◌∷◌, ◌==◌, nat_eq, string_eq, if◌then◌else◌, ltb, length, drop, min, max,
}
use distributed_key_value_ca.Prelude.Dict
use distributed_key_value_ca.Prelude.Dict.{Dict}
use distributed_key_value_ca.Raft.Types.{
  Loads, LogEntry, Member, RaftNode, is_leader, last_log_index, term_at, entries_from,
}
use distributed_key_value_ca.Raft.Storage.{RaftStorage}
use distributed_key_value_ca.Raft.Rpc.{AppendEntriesRequest, AppendEntriesResponse}
use distributed_key_value_ca.Raft.Engine.{Engine, Clock}
use distributed_key_value_ca.Raft.Engine.Members.{append_local, truncate_local}
use distributed_key_value_ca.Raft.Engine.Roles.{
  accept_leader, become_follower, advance_commit_index,
}

-- `MAX_ENTRIES_PER_RPC`
abbrev pub max_entries_per_rpc : ℕ
max_entries_per_rpc = 100

abbrev pub same_term : Option ℕ → Option ℕ → Bool
same_term none none = true
same_term (some t) (some u) = t == u
same_term _ _ = false

-- the loop that goes back to the first index of the conflicting term
unfoldable pub first_of_term : RaftNode → Option ℕ → ℕ → ℕ
first_of_term n conflict_term zero = zero
first_of_term n conflict_term (suc p) =
    let further = first_of_term n conflict_term p in
    if ltb n.snapshot_index p && same_term (term_at n p) conflict_term then further else suc p

-- Where the log has to be cut, and the entries that it lacks.
unfoldable pub new_entries : RaftNode → List LogEntry → Option ℕ × List LogEntry
new_entries n [] = (none, [])
new_entries n (entry ∷ entries) =
    let later = new_entries n entries in
    elim (term_at n entry.index) [
      | none ↦ (none, entry ∷ entries)
      | some term ↦ if term == entry.term then later else (some entry.index, entry ∷ entries)
    ]

abbrev pub accepted : ℕ → ℕ → AppendEntriesResponse
accepted term match_index = record {
  term = term;
  success = true;
  match_index = match_index;
  conflict_index = 0;
}

abbrev pub refused : ℕ → ℕ → AppendEntriesResponse
refused term conflict_index = record {
  term = term;
  success = false;
  match_index = 0;
  conflict_index = conflict_index;
}

-- `.get(key, 0)`
abbrev pub number : Option ℕ → ℕ
number none = 0
number (some n) = n

-- `response.conflict_index or request.prev_log_index`
abbrev hint : ℕ → ℕ → ℕ
hint zero prev = prev
hint (suc c) prev = suc c

module _ {S R : Type 0} where
  -- `_next_send_seq`
  unfoldable pub next_send_seq : Engine S R → ℕ × Engine S R
  next_send_seq e = (e.send_seq + 1, record e { send_seq = e.send_seq + 1 })

  unfoldable pub note_contact : Clock → String → ℕ → Engine S R → Engine S R
  note_contact now peer_id seq e = record e {
    last_contact = Dict.put peer_id now.monotonic e.last_contact;
    last_ack_seq =
        Dict.put peer_id (max (number (Dict.get peer_id e.last_ack_seq)) seq) e.last_ack_seq;
  }

  -- the request of one round of `_replicate_loop`; none where the follower needs the snapshot
  unfoldable pub append_request : ℕ → ℕ → Engine S R → Option AppendEntriesRequest
  append_request term next_idx e =
      if ltb e.node.snapshot_index next_idx
      then some (record {
        term = term;
        leader_id = e.node_id;
        prev_log_index = next_idx - 1;
        prev_log_term = term_at e.node (next_idx - 1);
        entries = entries_from e.node next_idx max_entries_per_rpc;
        leader_commit = e.node.commit_index;
        leader_address = e.raft_address;
      })
      else none

  -- "Only entries this request proved to match may be committed."
  unfoldable pub learn_commit : ℕ → ℕ → Engine S R → Engine S R
  learn_commit leader_commit last_new e =
      if ltb e.node.commit_index leader_commit
      then record e {
        node = record e.node {
          commit_index = max e.node.commit_index (min leader_commit last_new);
        };
      }
      else e

  module _ (st : RaftStorage S) (loads : Loads) where
    unfoldable pub cut : Clock → Option ℕ → Engine S R → Engine S R
    cut now none e = e
    cut now (some index) e = truncate_local st loads now index e

    unfoldable pub extend : Clock → List LogEntry → Engine S R → Engine S R
    extend now [] e = e
    extend now (entry ∷ entries) e = append_local st loads now (entry ∷ entries) e

    -- the part APPEND
    unfoldable pub merge_entries : Clock → List LogEntry → Engine S R → Engine S R
    unfolding new_entries cut extend
    merge_entries now entries e =
        let (conflict, news) = new_entries e.node entries in extend now news (cut now conflict e)

    -- from CONSISTENCY CHECK on
    unfoldable pub check_and_append :
        Clock → ℕ → Option ℕ → List LogEntry → ℕ → Engine S R → AppendEntriesResponse × Engine S R
    unfolding first_of_term merge_entries learn_commit
    check_and_append now prev_index prev_term entries leader_commit e =
        if ltb (last_log_index e.node) prev_index
        then (refused e.node.current_term (last_log_index e.node + 1), e)
        else if not (same_term (term_at e.node prev_index) prev_term)
        then (
          refused e.node.current_term (first_of_term e.node (term_at e.node prev_index) prev_index),
          e,
        )
        else (let last_new = prev_index + length entries in
            let done = learn_commit leader_commit last_new (merge_entries now entries e) in
            (accepted done.node.current_term last_new, done))

    unfoldable pub handle_append_entries :
        Clock → AppendEntriesRequest → Engine S R → AppendEntriesResponse × Engine S R
    unfolding check_and_append accept_leader
    handle_append_entries now req e =
        if ltb req.term e.node.current_term
        then (refused e.node.current_term 0, e)
        else (let heard = accept_leader st now req.term req.leader_id req.leader_address e in
            let snapshot = heard.node.snapshot_index in
            if ltb req.prev_log_index snapshot
            then check_and_append now snapshot (some heard.node.snapshot_term)
                (drop (snapshot - req.prev_log_index) req.entries) req.leader_commit heard
            else check_and_append now req.prev_log_index req.prev_log_term req.entries
                req.leader_commit heard)

  -- what an accepted AppendEntries tells the leader
  unfoldable pub note_match : String → ℕ → Engine S R → Engine S R
  note_match peer_id match e =
      let known = max (number (Dict.get peer_id e.node.match_index)) match in
      record e {
        node = record e.node {
          match_index = Dict.put peer_id known e.node.match_index;
          next_index = Dict.put peer_id (known + 1) e.node.next_index;
        };
      }

  unfoldable pub back_up : String → ℕ → ℕ → Engine S R → Engine S R
  back_up peer_id conflict_index prev e = record e {
    node = record e.node {
      next_index = Dict.put peer_id (max 1 (min (hint conflict_index prev) prev)) e.node.next_index;
    };
  }

  module _ (st : RaftStorage S) where
    -- `_send_entries_to`, once the response is there
    unfoldable pub on_append_response :
        Clock
        → Member
        → ℕ
        → ℕ
        → AppendEntriesRequest
        → AppendEntriesResponse
        → Engine S R
        → Engine S R
    unfolding become_follower note_contact note_match back_up advance_commit_index
    on_append_response now peer term seq request response e =
        if ltb e.node.current_term response.term
        then become_follower st response.term e
        else if not (is_leader e.node.state) || not (e.node.current_term == term)
        then e
        else (let noted = note_contact now peer.node_id seq e in
            if response.success
            then advance_commit_index (
                note_match peer.node_id
                  (max (request.prev_log_index + length request.entries) response.match_index)
                  noted)
            else back_up peer.node_id response.conflict_index request.prev_log_index noted)
