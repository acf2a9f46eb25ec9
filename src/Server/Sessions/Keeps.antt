-- ===== src/Server/Sessions/Keeps.antt =====
-- server/state_machine.py: the commands leave the sessions alone, and `_record_session` changes nothing else in RAM.
use distributed_key_value_ca.Prelude.{
  ℕ, ◌≡◌, refl, ◌∙◌, String, Bool, Option, none, some, string_eq, ◌==◌, if◌then◌else◌,
}
use distributed_key_value_ca.Prelude.Dict
use distributed_key_value_ca.Store.{Store}
use distributed_key_value_ca.Raft.Types.{LogEntry}
use distributed_key_value_ca.Text.{partition}
use distributed_key_value_ca.Server.Machine.{
  Machine, Value, Session, Database, M, ◌>>=◌, replace_stores, replace_sessions,
}
use distributed_key_value_ca.Server.Commands.{
  apply_sweep, run_set, run_setex, run_delete, run_expireat, run_persist, run_sweep, run,
  apply_command,
}
use distributed_key_value_ca.Server.Frames.{Chains, Along, Only, bind-Along, if-Along}
use distributed_key_value_ca.Server.Frames.Commands.{
  apply_signup-Only, apply_set-Only, apply_delete-Only, apply_expiry-Only,
}
use distributed_key_value_ca.Server.Sessions.{
  parse_request_id, save_recorded, record_session, evicted, recorded, forget,
}

-- The mode, the capacity and the sessions are the same.
pub record Keeps {D : Type 0} (m m' : Machine D) : Type 0 where
  pub same_mode : m'.use_db ≡ m.use_db
  pub same_sessions : m'.sessions ≡ m.sessions

module _ {D : Type 0} where
  keeps : Chains (Keeps {D = D})
  keeps = record {
    none_done = (λ m. record { same_mode = refl; same_sessions = refl });
    both = (λ first second. record {
      same_mode = second.same_mode ∙ first.same_mode;
      same_sessions = second.same_sessions ∙ first.same_sessions;
    });
  }

  of_user : {u : String} {m m' : Machine D} → Only u m m' → Keeps m m'
  of_user only = record { same_mode = only.same_mode; same_sessions = only.same_sessions }

  quiet : (m : Machine D) → Keeps m m
  quiet = keeps.none_done

  step :
      {A B : Type 0} (c : M D A) (f : A → M D B)
      → Along Keeps c
      → ((a : A) → Along Keeps (f a))
      → Along Keeps (c >>= f)
  step = bind-Along keeps

  either :
      {A : Type 0} (b : Bool) (c d : M D A)
      → Along Keeps c
      → Along Keeps d
      → Along Keeps (if b then c else d)
  either = if-Along keeps

  stored-Keeps : (f : Machine D → D) (m : Machine D) → Keeps m (record m { database = f m })
  stored-Keeps f m = record { same_mode = refl; same_sessions = refl }

  replaced-Keeps : (stores : Dict.Dict String Store) → Along Keeps (replace_stores {D = D} stores)
  unfolding replace_stores
  replaced-Keeps stores m = record { same_mode = refl; same_sessions = refl }

module _ {D : Type 0} (db : Database D) (lower : String → String) where
  apply_sweep-Keeps : (at_ms : ℕ) → Along Keeps (apply_sweep db lower at_ms)
  unfolding apply_sweep
  apply_sweep-Keeps at_ms = step _ _ quiet λ use_db.
      step _ _ (either use_db _ _ (stored-Keeps _) quiet)
        λ removed. step _ _ quiet λ stores. step _ _ (replaced-Keeps _) λ done. quiet

  run_set-Keeps : (user rest : String) → Along Keeps (run_set db lower user rest)
  unfolding run_set
  run_set-Keeps user rest = λ m. of_user (apply_set-Only db lower user _ _ _ m)

  run_setex-Keeps : (user rest : String) → Along Keeps (run_setex db lower user rest)
  unfolding run_setex
  run_setex-Keeps user rest =
      step _ _ quiet
        λ parts. step _ _ quiet λ t. λ m. of_user (apply_set-Only db lower user _ _ _ m)

  run_delete-Keeps : (user rest : String) → Along Keeps (run_delete db lower user rest)
  unfolding run_delete
  run_delete-Keeps user rest =
      step _ _ quiet λ at_ms. λ m. of_user (apply_delete-Only db lower user _ at_ms m)

  run_expireat-Keeps : (user rest : String) → Along Keeps (run_expireat db lower user rest)
  unfolding run_expireat
  run_expireat-Keeps user rest = step _ _ quiet λ parts.
      step _ _ quiet λ t.
        step _ _ quiet λ at_ms. λ m. of_user (apply_expiry-Only db lower user _ (some t) at_ms m)

  run_persist-Keeps : (user rest : String) → Along Keeps (run_persist db lower user rest)
  unfolding run_persist
  run_persist-Keeps user rest =
      step _ _ quiet λ parts.
        step _ _ quiet λ at_ms. λ m. of_user (apply_expiry-Only db lower user _ none at_ms m)

  run_sweep-Keeps : (rest : String) → Along Keeps (run_sweep db lower rest)
  unfolding run_sweep
  run_sweep-Keeps rest = step _ _ quiet λ at_ms. apply_sweep-Keeps at_ms

  run-Keeps : (verb user rest : String) → Along Keeps (run db lower verb user rest)
  unfolding run
  run-Keeps verb user rest =
      either (verb == "SIGNUP") _ _ (λ m. of_user (apply_signup-Only db lower user rest m))
        (either (verb == "SET") _ _ (run_set-Keeps user rest) (
          either (verb == "SETEX") _ _ (run_setex-Keeps user rest) (
            either (verb == "DELETE") _ _ (run_delete-Keeps user rest) (
              either (verb == "EXPIREAT") _ _ (run_expireat-Keeps user rest) (
                either (verb == "PERSIST") _ _ (run_persist-Keeps user rest)
                  (either (verb == "SWEEP") _ _ (run_sweep-Keeps rest) quiet))))))

  -- No command changes the sessions.
  pub apply_command-Keeps : (entry : LogEntry) → Along Keeps (apply_command db lower entry)
  unfolding apply_command
  apply_command-Keeps entry =
      run-Keeps (partition b' ' entry.command).0 entry.username (partition b' ' entry.command).1

  forget-Keeps : (evict : Option String) → Along Keeps (forget db lower evict)
  forget-Keeps none = quiet
  forget-Keeps (some client) = either (client == "") _ _ quiet (stored-Keeps _)

  save_recorded-Keeps :
      (client : String) (s : Session) (evict : Option String)
      → Along Keeps (save_recorded db lower client s evict)
  unfolding save_recorded
  save_recorded-Keeps client s evict =
      step _ _ quiet
        λ use_db. either use_db _ _ (step _ _ (stored-Keeps _) λ done. forget-Keeps evict) quiet

  -- The sessions after `_record_session`, whether it returns or raises.
  pub sessions-record :
      (request_id : String) (result : Value) (index : ℕ) (client : String) (seq : ℕ) (m : Machine D)
      → parse_request_id request_id ≡ some (client, seq)
      → (record_session db lower request_id result index m).1.sessions
        ≡ recorded client (seq, result, index) m.sessions
  unfolding record_session ◌>>=◌ replace_sessions
  sessions-record request_id result index client seq m parsed =
      rw (parsed)
        (save_recorded-Keeps client (seq, result, index)
          (evicted (Dict.put client (seq, result, index) m.sessions))
          (record m { sessions = recorded client (seq, result, index) m.sessions })).same_sessions
