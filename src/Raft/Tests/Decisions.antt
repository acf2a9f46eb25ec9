-- ===== src/Raft/Tests/Decisions.antt =====
-- Votes, appends, commits and snapshots of engines of raft/node.py.
use distributed_key_value_ca.Prelude.{
  List, inr, ℕ, ◌-◌, ◌<◌, ◌↔◌, max, ◌≡◌, ◌≤◌, refl, String, true, false, Option, some, [], ◌∷◌,
  arith, ◌⊎◌,
}
use distributed_key_value_ca.Raft.Types.{term_at}
use distributed_key_value_ca.Raft.Storage.Memory
use distributed_key_value_ca.Raft.Storage.Memory.{MemoryRaftStorage, memory, Sound}
use distributed_key_value_ca.Raft.Log.Runs.{Runs}
use distributed_key_value_ca.Raft.Rpc.{AppendEntriesRequest}
use distributed_key_value_ca.Raft.Engine.{Engine}
use distributed_key_value_ca.Raft.Engine.Lifecycle.{init}
use distributed_key_value_ca.Raft.Engine.Votes.{handle_request_vote}
use distributed_key_value_ca.Prelude.Dict
use distributed_key_value_ca.Raft.Types.{last_log_index, latest_config, newest_config, entries_from}
use distributed_key_value_ca.Raft.Engine.{in_leader_lease, majority}
use distributed_key_value_ca.Raft.Engine.Members.{by_id}
use distributed_key_value_ca.Raft.Engine.Roles.{holds, counted, advance_commit_index}
use distributed_key_value_ca.Raft.Engine.Votes.{voted_other}
use distributed_key_value_ca.Raft.Engine.Replication.{
  first_of_term, same_term, append_request, handle_append_entries,
}
use distributed_key_value_ca.Raft.Rules.Quorums.{majorities-meet}
use distributed_key_value_ca.Raft.Rules.Commits.{Idle, Advance, advance_commit_index_lem}
use distributed_key_value_ca.Raft.Rules.Grants.{UpToDate, pre_vote-answer, vote-granted_iff}
use distributed_key_value_ca.Raft.Rules.Backing.{first_of_term_lem, append_request-Runs}
use distributed_key_value_ca.Raft.Types.{has_term, compact_through, is_leader}
use distributed_key_value_ca.Raft.Engine.{Outcome, pending}
use distributed_key_value_ca.Raft.Engine.Applying.{
  returns, raises_replaced, propose_poll, note_applied,
}
use distributed_key_value_ca.Prelude.{none, nat_eq, ◌==◌, if◌then◌else◌, is_some}
use distributed_key_value_ca.Raft.Rpc.{InstallSnapshotRequest}
use distributed_key_value_ca.Raft.Engine.Installing.{receive_chunk}
use distributed_key_value_ca.Raft.Rules.Chunks.{Reassembled, receive_chunk-Reassembled}
use distributed_key_value_ca.Raft.Rules.Compaction.{term_at-compact_through}
use distributed_key_value_ca.Raft.Rules.Proposals.{propose_poll-note_applied}
use distributed_key_value_ca.Raft.Rules.Merging.{SameLog, Extends}
use distributed_key_value_ca.Raft.Rules.Answers.{
  append_entries-accepted, append_entries-refused, beyond,
}
use distributed_key_value_ca.Raft.Tests.{
  no_config, clock, engine, request, entry, entries, leading, behind, append,
}

append-Runs :
    (prev_term : Option ℕ) → Runs (append prev_term).prev_log_index (append prev_term).entries
append-Runs prev_term = (refl, (refl, tt))

entries-Runs : Runs 0 entries
entries-Runs = (refl, (refl, (refl, tt)))

first_majority : majority engine ≤ counted ("a" ∷ "b" ∷ []) engine
unfolding majority counted init by_id latest_config newest_config Memory.load Dict.put
first_majority = ground arith

second_majority : majority engine ≤ counted ("b" ∷ "c" ∷ []) engine
unfolding majority counted init by_id latest_config newest_config Memory.load Dict.put
second_majority = ground arith

majorities-meet_example :
    (m : String) × (holds m ("a" ∷ "b" ∷ []) ≡ true) × (holds m ("b" ∷ "c" ∷ []) ≡ true)
majorities-meet_example =
    majorities-meet engine ("a" ∷ "b" ∷ []) ("b" ∷ "c" ∷ []) first_majority second_majority

pre_vote-answer_example :
    ((handle_request_vote memory clock (record request { pre_vote = true }) engine).1 ≡ engine)
    × (((handle_request_vote memory clock
            (record request { pre_vote = true })
            engine).0.vote_granted
          ≡ true)
        ↔ ((engine.node.current_term < 3)
            × (in_leader_lease clock engine ≡ false)
            × UpToDate (record request { pre_vote = true }) engine.node))
    × ((handle_request_vote memory clock (record request { pre_vote = true }) engine).0.vote_granted
          ≡ true
        → (handle_request_vote memory clock request engine).0.vote_granted ≡ true)
pre_vote-answer_example =
    pre_vote-answer memory clock (record request { pre_vote = true }) engine refl

vote-granted_iff_example :
    ((handle_request_vote memory clock request engine).0.vote_granted ≡ true) ↔ (
      (engine.node.current_term ≤ 3)
      × (engine.node.current_term < 3 → in_leader_lease clock engine ≡ false)
      × (engine.node.current_term ≡ 3 → voted_other engine.node.voted_for "b" ≡ false)
      × UpToDate request engine.node)
vote-granted_iff_example = vote-granted_iff memory clock request engine refl

advance_commit_index_lem_example :
    ((advance_commit_index leading ≡ leading)
      × ((is_leader leading.node.state ≡ false) ⊎ Idle leading))
    ⊎ Advance leading (advance_commit_index leading)
advance_commit_index_lem_example = advance_commit_index_lem leading

first_of_term_lem_example :
    (0 < first_of_term leading.node (term_at leading.node 3) 3)
    × (first_of_term leading.node (term_at leading.node 3) 3 ≤ 3)
    × ((i : ℕ)
        → first_of_term leading.node (term_at leading.node 3) 3 ≤ i
        → i < 3
        → same_term (term_at leading.node i) (term_at leading.node 3) ≡ true)
    × ((first_of_term leading.node (term_at leading.node 3) 3 ≡ 1)
        ⊎ (same_term
              (term_at leading.node (first_of_term leading.node (term_at leading.node 3) 3 - 1))
              (term_at leading.node 3)
            ≡ false))
first_of_term_lem_example = first_of_term_lem leading.node 3 (ground arith)

abbrev sent : AppendEntriesRequest
sent = record (append (some 1)) { leader_id = "a"; leader_address = "a"; leader_commit = 0 }

sent_by_leading : append_request 3 2 leading ≡ some sent
unfolding append_request term_at last_log_index entries_from init by_id latest_config newest_config
    Memory.load Dict.put
sent_by_leading = refl

append_request-Runs_example : Runs 1 (entry 3 2 ∷ entry 3 3 ∷ [])
append_request-Runs_example = append_request-Runs 3 2 leading sent entries-Runs sent_by_leading

accepts : (handle_append_entries memory no_config clock (append (some 1)) behind).0.success ≡ true
unfolding handle_append_entries last_log_index term_at
accepts = refl

refuses : (handle_append_entries memory no_config clock (append (some 2)) behind).0.success ≡ false
unfolding handle_append_entries last_log_index term_at
refuses = refl

append_entries-accepted_example :
    (behind.node.snapshot_index ≤ 1 → same_term (term_at behind.node 1) (some 1) ≡ true)
    × Extends behind.node
        (handle_append_entries memory no_config clock (append (some 1)) behind).1.node
        (max 1 behind.node.snapshot_index)
        (beyond behind.node.snapshot_index (append (some 1)))
append_entries-accepted_example =
    append_entries-accepted memory no_config clock (append (some 1)) behind (append-Runs (some 1))
      accepts

append_entries-refused_example :
    SameLog behind.node
      (handle_append_entries memory no_config clock (append (some 2)) behind).1.node
append_entries-refused_example =
    append_entries-refused memory no_config clock (append (some 2)) behind (append-Runs (some 2))
      refuses

second_term : has_term (term_at leading.node 2) 3 ≡ true
unfolding term_at last_log_index
second_term = refl

term_at-compact_through_example :
    (last_log_index (compact_through no_config leading.node 2 3 none) ≡ last_log_index leading.node)
    × ((i : ℕ)
        → 2 ≤ i
        → term_at (compact_through no_config leading.node 2 3 none) i ≡ term_at leading.node i)
term_at-compact_through_example =
    term_at-compact_through no_config leading.node 2 3 none second_term

-- a proposal of term 3 that waits for index 1
abbrev waiting_for : Outcome ℕ → Engine MemoryRaftStorage ℕ
waiting_for outcome = record leading { waiters = (1, outcome) ∷ [] }

waits : is_some (Dict.get 1 (waiting_for pending).waiters) ≡ true
unfolding Dict.get
waits = refl

propose_poll-note_applied_example :
    propose_poll 1 3 500 (note_applied (entry 3 1) 42 (waiting_for pending))
    ≡ (if (entry 3 1).term == 3 then returns 42 else raises_replaced)
propose_poll-note_applied_example =
    propose_poll-note_applied (entry 3 1) 42 3 500 (waiting_for pending) waits

-- a follower that has the first two bytes of a snapshot, and the chunk that completes it
abbrev receiver : Engine MemoryRaftStorage ℕ
receiver = record behind {
  snapshot_rx = some (record { index = 5; size = 2; content = 10 ∷ 11 ∷ [] });
}

abbrev last_chunk : InstallSnapshotRequest
last_chunk = record {
  term = 3;
  leader_id = "b";
  last_included_index = 5;
  last_included_term = 3;
  offset = 2;
  chunk = 12 ∷ [];
  done = true;
  config = [];
  leader_address = "b";
}

-- the snapshot of every index
abbrev file : ℕ → List ℕ
file index = 10 ∷ 11 ∷ 12 ∷ []

receive_chunk-Reassembled_example :
    Reassembled memory file last_chunk (receive_chunk memory clock last_chunk receiver)
receive_chunk-Reassembled_example =
    receive_chunk-Reassembled memory file clock last_chunk receiver (refl, 12 ∷ [], refl)
      (10 ∷ 11 ∷ [], [], refl, refl, inr refl)
