-- ===== src/Raft/Engine.antt =====
-- raft/node.py: the state of `RaftEngine`. What runs under `_state_lock` is a function of this
-- state; the threads that it starts are listed in `spawned`. `S` is the type of the storage and `R`
-- of what `apply_fn` returns. Waking the threads that wait on the condition changes no state.
pub mod Frame
pub mod Saved
pub mod Voting
pub mod Members
pub mod Roles
pub mod Votes
pub mod Replication
pub mod Applying
pub mod Installing
pub mod Lifecycle
use distributed_key_value_ca.Prelude.{
  ℕ, ◌+◌, ◌*◌, ◌/◌, ◌<◌, String, Bool, true, false, Option, none, some, List, [], ◌∷◌, ◌++◌, map,
  ltb, leb, if◌then◌else◌, length, count_if, ◌==◌, string_eq, ◌||◌, ◌&&◌, is_some,
}
use distributed_key_value_ca.Prelude.Dict
use distributed_key_value_ca.Prelude.Dict.{Dict, keys}
use distributed_key_value_ca.Raft.Types.{RaftState, RaftNode, Member}
use distributed_key_value_ca.Raft.Storage.{RaftStorage}
use distributed_key_value_ca.Raft.Rpc.{RequestVoteRequest}

-- The readings of `time.monotonic` and `time.time`, in thousandths of a second.
pub record Clock : Type 0 where
  pub monotonic : ℕ
  pub wall : ℕ

-- A `threading.Event`: which one it is, and whether it is set.
pub record Event : Type 0 where
  pub ident : ℕ
  pub is_set : Bool

-- What `_spawn` is told to run.
pub data Task : Type 0 where
  request_pre_vote_from : Member → RequestVoteRequest → ℕ → Task
  request_vote_from : Member → RequestVoteRequest → Task
  replicate_loop : String → ℕ → ℕ → Task
  check_quorum_loop : ℕ → Task
  apply_loop : Task

-- The snapshot that a follower is receiving: its index, and the temporary file.
pub record Receiving : Type 0 where
  pub index : ℕ
  pub size : ℕ
  pub content : List ℕ

-- What a `propose` call waits for.
pub data Outcome (R : Type 0) : Type 0 where
  pending : Outcome R
  applied : ℕ → R → Outcome R

pub record Engine (S R : Type 0) : Type 0 where
  pub node_id : String
  pub raft_address : String
  pub election_timeout_min : ℕ
  pub election_timeout_max : ℕ
  pub snapshot_threshold : ℕ
  pub node : RaftNode
  pub storage : S
  pub members : Dict String Member
  pub config_index : ℕ
  pub learners : Dict String Member
  pub term_start_index : ℕ
  pub last_contact : Dict String ℕ
  pub send_seq : ℕ
  pub last_ack_seq : Dict String ℕ
  pub last_leader_contact : ℕ
  pub leader_address : String
  pub transferring : Bool
  pub running : Bool
  pub election_timer : Option ℕ
  pub timer_generation : ℕ
  pub replicators : Dict String Event
  pub waiters : Dict ℕ (Outcome R)
  pub snapshot_rx : Option Receiving
  pub next_event : ℕ
  pub spawned : List Task

-- `event.set()`, on the replicator of a peer
abbrev pub set_event : String × Event → String × Event
set_event (peer, event) = (peer, record event { is_set = true })

-- The timer that `_reset_election_timer` leaves: none unless the engine runs.
abbrev pub armed : Bool → ℕ → Option ℕ
armed true generation = some generation
armed false generation = none

module _ {S R : Type 0} where
  -- `_spawn`
  unfoldable pub spawn : Task → Engine S R → Engine S R
  spawn task e = record e { spawned = e.spawned ++ task ∷ [] }

  unfoldable pub majority : Engine S R → ℕ
  majority e = length e.members / 2 + 1

  -- `for event in self._replicators.values(): event.set()`
  unfoldable pub wake_replicators : Engine S R → Engine S R
  wake_replicators e = record e { replicators = map set_event e.replicators }

  unfoldable pub reset_election_timer : Engine S R → Engine S R
  reset_election_timer e = record e {
    timer_generation = e.timer_generation + 1;
    election_timer = armed e.running (e.timer_generation + 1);
  }

  -- `self._last_contact.get(m, -1e9)` and the comparison with the window
  unfoldable pub in_contact : Clock → ℕ → Engine S R → String → Bool
  in_contact now window e m = m == e.node_id || (elim (Dict.get m e.last_contact) [
    | none ↦ ltb (now.monotonic + 1000000000000) window
    | some at ↦ ltb now.monotonic (at + window)
  ])

  unfoldable pub has_quorum_contact : Clock → ℕ → Engine S R → Bool
  unfolding majority in_contact
  has_quorum_contact now window e =
      leb (majority e) (count_if (in_contact now window e) (keys e.members))

  unfoldable pub in_leader_lease : Clock → Engine S R → Bool
  unfolding has_quorum_contact
  in_leader_lease now e = elim e.node.state [
    | RaftState.leader ↦ has_quorum_contact now e.election_timeout_min e
    | _ ↦
        is_some e.node.leader_id
        && ltb now.monotonic (e.last_leader_contact + e.election_timeout_min)
  ]

  module _ (st : RaftStorage S) where
    unfoldable pub persist_term_and_vote : Engine S R → Engine S R
    persist_term_and_vote e = record e {
      storage = st.save_term_and_vote e.node.current_term e.node.voted_for e.storage;
    }
