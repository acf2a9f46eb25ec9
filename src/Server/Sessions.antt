-- ===== src/Server/Sessions.antt =====
-- server/state_machine.py: the sessions of the clients, by which a retried request is applied once, and
-- `apply`.
pub mod Keeps
pub mod Known
pub mod Others
pub mod Retries
pub mod Bounds
pub mod Limit
pub mod RequestIds
pub mod Failures
use distributed_key_value_ca.Prelude.{
  ℕ, String, Bool, true, false, Option, none, some, [], ◌∷◌, string_eq, nat_eq, ◌==◌, ltb,
  if◌then◌else◌, length,
}
use distributed_key_value_ca.Prelude.Dict
use distributed_key_value_ca.Prelude.Dict.{Dict}
use distributed_key_value_ca.Text.{rpartition}
use distributed_key_value_ca.Text.Numbers.{int, str}
use distributed_key_value_ca.Raft.Types.{LogEntry}
use distributed_key_value_ca.Server.Machine.{
  Machine, Value, bool, number, null, Session, Database, M, ◌>>=◌, ◌>>◌, pure, lift, ask, call,
  replace_sessions,
}
use distributed_key_value_ca.Server.Commands.{apply_command}

abbrev pub max_sessions : ℕ
max_sessions = 10000

-- `_parse_request_id`, with the ValueError of `int` as `none`
unfoldable pub parse_request_id : String → Option (String × ℕ)
unfolding rpartition int
parse_request_id request_id =
    let (client_id, seq) = rpartition b':' request_id in
    elim (int seq) [ none ↦ none | some n ↦ some (client_id, n) ]

-- what `_check_session` answers for a session; `none` is `_MISS`
unfoldable pub checked : ℕ → Option Session → Option Value
checked seq none = none
checked seq (some (last, result, index)) =
    if ltb last seq then none else if seq == last then some result else some null

-- `json.dumps` of a result
unfoldable pub dumps : Value → String
unfolding str
dumps (bool true) = "true"
dumps (bool false) = "false"
dumps (number n) = str n
dumps null = "null"

abbrev pub loaded_number : Option ℕ → Option Value
loaded_number none = none
loaded_number (some n) = some (number n)

-- `json.loads` of what `dumps` has written
unfoldable pub loads : String → Option Value
unfolding int
loads s =
    if s == "true"
    then some (bool true)
    else if s == "false"
    then some (bool false)
    else if s == "null"
    then some null
    else loaded_number (int s)

-- the client of the session with the least index, the first of them
unfoldable pub oldest_of : String → ℕ → Dict String Session → String
oldest_of best least [] = best
oldest_of best least ((client, (seq, result, index)) ∷ sessions) =
    let (best', least') = if ltb index least then (client, index) else (best, least) in
    oldest_of best' least' sessions

abbrev pub oldest : Dict String Session → Option String
oldest [] = none
oldest ((client, (seq, result, index)) ∷ sessions) = some (oldest_of client index sessions)

abbrev pub without : Option String → Dict String Session → Dict String Session
without none sessions = sessions
without (some client) sessions = Dict.remove client sessions

-- the session that is forgotten: with too many, the one used longest ago
unfoldable pub evicted : Dict String Session → Option String
unfolding oldest_of
evicted sessions = if ltb max_sessions (length sessions) then oldest sessions else none

-- the table with a new session in it
unfoldable pub recorded : String → Session → Dict String Session → Dict String Session
unfolding evicted
recorded client session sessions =
    let more = Dict.put client session sessions in without (evicted more) more

module _ {D : Type 0} (db : Database D) (lower : String → String) where
  -- `_check_session`
  unfoldable pub check_session : String → M D (Option Value)
  unfolding parse_request_id checked
  check_session request_id = do
    (client_id, seq) ← lift (parse_request_id request_id)
    session ← ask (λ m. Dict.get client_id m.sessions)
    pure (checked seq session)

  -- `if evict: delete_session(evict)`
  abbrev pub forget : Option String → M D (Unit {0})
  forget none = pure tt
  forget (some client) = if client == "" then pure tt else call (db.delete_session client)

  -- the part of `_record_session` that writes the database
  unfoldable pub save_recorded : String → Session → Option String → M D (Unit {0})
  unfolding dumps
  save_recorded client_id (seq, result, index) evict = do
    use_db ← ask (λ m. m.use_db)
    if use_db
        then (do call (db.save_session client_id seq (dumps result) index); forget evict)
        else pure tt

  -- `_record_session`
  unfoldable pub record_session : String → Value → ℕ → M D (Unit {0})
  unfolding parse_request_id recorded evicted save_recorded replace_sessions
  record_session request_id result index = do
    (client_id, seq) ← lift (parse_request_id request_id)
    evict ← ask (λ m. evicted (Dict.put client_id (seq, result, index) m.sessions))
    sessions ← ask (λ m. m.sessions)
    replace_sessions (recorded client_id (seq, result, index) sessions)
    save_recorded client_id (seq, result, index) evict

  -- `apply`, for a request that was not applied before
  unfoldable pub apply_new : LogEntry → M D Value
  unfolding apply_command record_session
  apply_new entry = do
    result ← apply_command db lower entry
    record_session entry.request_id result entry.index
    pure result

  -- `apply`, for a request that carries an id
  unfoldable pub apply_once : LogEntry → M D Value
  unfolding check_session apply_new
  apply_once entry = do
    cached ← check_session entry.request_id
    elim cached [ some result ↦ pure result | none ↦ apply_new entry ]

  -- `apply`
  unfoldable pub apply : LogEntry → M D Value
  unfolding apply_once
  apply entry = if entry.request_id == "" then apply_command db lower entry else apply_once entry

  abbrev pub result_of : ℕ → Option Session → Option Value
  result_of seq none = none
  result_of seq (some (last, result, index)) = if last == seq then some result else none

  -- `session_result`
  unfoldable pub session_result : String → M D (Option Value)
  unfolding parse_request_id
  session_result request_id = do
    (client_id, seq) ← lift (parse_request_id request_id)
    session ← ask (λ m. Dict.get client_id m.sessions)
    pure (result_of seq session)
