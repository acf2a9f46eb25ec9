-- ===== src/Raft/Types.antt =====
-- raft/types.py: the data types of the Raft engine, and the operations of `RaftNode` on its log.
-- Times are numbers of clock ticks. `json.loads` of a CONFIG command is a parameter, `loads`.
pub mod Position
use Position.{position}
use Prim.Native.Char.{code}
use distributed_key_value_ca.Prelude.{
  ℕ, zero, ◌+◌, ◌-◌, String, Bool, true, false, not, ◌||◌, ◌&&◌, Option, none, some, List, [], ◌∷◌,
  ◌++◌, reverse, ltb, leb, ◌==◌, nat_eq, if◌then◌else◌, length, get_elem?, get_last?, take, drop,
}
use distributed_key_value_ca.Prelude.Dict.{Dict}

abbrev pub noop : String
noop = "NOOP"

pub data RaftState : Type 0 where
  follower candidate leader : RaftState

pub record LogEntry : Type 0 where
  pub term : ℕ
  pub index : ℕ
  pub command : String
  pub username : String
  pub request_id : String

pub record Member : Type 0 where
  pub node_id : String
  pub raft_address : String
  pub client_address : String

-- What follows a prefix of a text, if it begins so.
unfoldable pub strip_prefix : String → String → Option String
strip_prefix String.[] s = some s
strip_prefix (String.◌∷◌ c p) String.[] = none
strip_prefix (String.◌∷◌ c p) (String.◌∷◌ d s) =
    let rest = strip_prefix p s in if code c == code d then rest else none

-- What `json` and `Member.from_dict` read from the payload of a CONFIG command.
abbrev pub Loads : Type 0
Loads = String → List Member

unfoldable pub parse_config : Loads → String → Option (List Member)
parse_config loads command = elim (strip_prefix "CONFIG " command) [
  | none ↦ none
  | some payload ↦ some (loads payload)
]

pub record RaftNode : Type 0 where
  pub node_id : String
  pub peers : List String
  pub current_term : ℕ
  pub voted_for : Option String
  pub log : List LogEntry
  pub state : RaftState
  pub commit_index : ℕ
  pub last_applied : ℕ
  pub next_index : Dict String ℕ
  pub match_index : Dict String ℕ
  pub last_heartbeat : ℕ
  pub leader_id : Option String
  pub snapshot_index : ℕ
  pub snapshot_term : ℕ
  pub snapshot_config : Option (List Member)

abbrev pub is_leader : RaftState → Bool
is_leader leader = true
is_leader _ = false

abbrev pub is_follower : RaftState → Bool
is_follower follower = true
is_follower _ = false

abbrev pub is_candidate : RaftState → Bool
is_candidate candidate = true
is_candidate _ = false

unfoldable pub last_log_index : RaftNode → ℕ
last_log_index n = n.snapshot_index + length n.log

unfoldable pub last_log_term : RaftNode → ℕ
last_log_term n = elim (get_last? n.log) [ none ↦ n.snapshot_term | some entry ↦ entry.term ]

unfoldable pub entry_at : RaftNode → ℕ → Option LogEntry
entry_at n index =
    if leb index n.snapshot_index || ltb (last_log_index n) index
    then none
    else get_elem? n.log (index - n.snapshot_index - 1)

abbrev term_of : Option LogEntry → Option ℕ
term_of none = none
term_of (some entry) = some entry.term

unfoldable pub term_at : RaftNode → ℕ → Option ℕ
unfolding last_log_index
term_at n index =
    if index == n.snapshot_index
    then some n.snapshot_term
    else if ltb index n.snapshot_index || ltb (last_log_index n) index
    then none
    else term_of (get_elem? n.log (index - n.snapshot_index - 1))

-- `log[start:start + limit]`, where `start` is `index - snapshot_index - 1`
unfoldable pub entries_from : RaftNode → ℕ → ℕ → List LogEntry
unfolding position
entries_from n index limit =
    let size = length n.log in
    let lower = position size index (n.snapshot_index + 1) in
    let upper = position size (index + limit) (n.snapshot_index + 1) in
    take (upper - lower) (drop lower n.log)

-- `del log[index - snapshot_index - 1:]`
unfoldable pub truncate_from : RaftNode → ℕ → RaftNode
unfolding position
truncate_from n index = record n {
  log = take (position (length n.log) index (n.snapshot_index + 1)) n.log;
}

abbrev pub given_or : Option (List Member) → Option (List Member) → Option (List Member)
given_or none found = found
given_or (some members) found = some members

abbrev pub has_term : Option ℕ → ℕ → Bool
has_term none term = false
has_term (some t) term = t == term

module _ (loads : Loads) where
  -- the loop of `latest_config`, over the log in reverse
  unfoldable pub newest_config : List LogEntry → Option (ℕ × List Member)
  newest_config [] = none
  newest_config (entry ∷ rest) =
      let older = newest_config rest in
      elim (parse_config loads entry.command) [
        | none ↦ older
        | some members ↦ some (entry.index, members)
      ]

  unfoldable pub latest_config : RaftNode → ℕ × Option (List Member)
  latest_config n = elim (newest_config (reverse n.log)) [
    | none ↦ (n.snapshot_index, n.snapshot_config)
    | some (index, members) ↦ (index, some members)
  ]

  -- the loop of `config_at`, over the log in reverse
  unfoldable pub newest_config_at : ℕ → List LogEntry → Option (List Member)
  newest_config_at index [] = none
  newest_config_at index (entry ∷ rest) =
      let older = newest_config_at index rest in
      if leb entry.index index
      then elim (parse_config loads entry.command) [ none ↦ older | some members ↦ some members ]
      else older

  unfoldable pub config_at : RaftNode → ℕ → Option (List Member)
  config_at n index = elim (newest_config_at index (reverse n.log)) [
    | none ↦ n.snapshot_config
    | some members ↦ some members
  ]

  unfoldable pub compact_through : RaftNode → ℕ → ℕ → Option (List Member) → RaftNode
  unfolding position
  compact_through n index term config = record n {
    log =
        if has_term (term_at n index) term
        then drop (position (length n.log) index n.snapshot_index) n.log
        else [];
    snapshot_index = index;
    snapshot_term = term;
    snapshot_config = given_or config (config_at n index);
  }
