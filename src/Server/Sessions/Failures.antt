-- ===== src/Server/Sessions/Failures.antt =====
-- server/state_machine.py: a session that the database could not save. `_record_session` has put it
-- into RAM before.
use distributed_key_value_ca.Prelude.{
  ℕ, ◌≡◌, ◌<◌, refl, sym, ap, ◌∙◌, subst, String, true, false, Option, none, some, string_eq, ◌==◌,
  length,
}
use distributed_key_value_ca.Prelude.Dict
use distributed_key_value_ca.Raft.Types.{LogEntry}
use distributed_key_value_ca.Server.Machine.{
  Machine, Value, Session, Database, ◌>>=◌, replace_sessions,
}
use distributed_key_value_ca.Server.Commands.{apply_command}
use distributed_key_value_ca.Server.Sessions.{
  max_sessions, parse_request_id, checked, dumps, save_recorded, record_session, evicted, recorded,
  apply_new, apply,
}
use distributed_key_value_ca.Server.Sessions.Keeps.{apply_command-Keeps}
use distributed_key_value_ca.Server.Sessions.Known.{
  named_apply, answered, apply_once_new, checked-recorded,
}

module _ {D : Type 0} (db : Database D) (lower : String → String) where
  -- the state after a session was put into RAM, and the database call left `database`
  abbrev pub unsaved : String → Session → D → Machine D → Machine D
  unsaved client s database m = record m {
    sessions = recorded client s m.sessions;
    database = database;
  }

  save_raises :
      (client : String) (seq index : ℕ) (result : Value) (evict : Option String) (m : Machine D)
      (database : D)
      → m.use_db ≡ true
      → db.save_session client seq (dumps result) index m.database ≡ (none, database)
      → save_recorded db lower client (seq, result, index) evict m
        ≡ (none, record m { database = database })
  unfolding save_recorded ◌>>=◌
  save_raises client seq index result evict m database on raises = rw (on, raises) refl

  record_raises :
      (request_id : String) (result : Value) (index : ℕ) (client : String) (seq : ℕ) (m : Machine D)
      (database : D)
      → parse_request_id request_id ≡ some (client, seq)
      → m.use_db ≡ true
      → db.save_session client seq (dumps result) index m.database ≡ (none, database)
      → record_session db lower request_id result index m
        ≡ (none, unsaved client (seq, result, index) database m)
  unfolding record_session ◌>>=◌ replace_sessions
  record_raises request_id result index client seq m database parsed on raises = rw parsed (
      save_raises client seq index result
        (evicted (Dict.put client (seq, result, index) m.sessions))
        (record m { sessions = recorded client (seq, result, index) m.sessions }) database on
        raises)

  new_raises :
      (entry : LogEntry) (m m₁ : Machine D) (client : String) (seq : ℕ) (result : Value)
      (database : D)
      → parse_request_id entry.request_id ≡ some (client, seq)
      → apply_command db lower entry m ≡ (some result, m₁)
      → m₁.use_db ≡ true
      → db.save_session client seq (dumps result) entry.index m₁.database ≡ (none, database)
      → apply_new db lower entry m ≡ (none, unsaved client (seq, result, entry.index) database m₁)
  unfolding apply_new ◌>>=◌
  new_raises entry m m₁ client seq result database parsed ran on raises =
      rw
        (
          ran,
          record_raises entry.request_id result entry.index client seq m₁ database parsed on raises,
        )
        refl

  -- Where the command of a new request was run and the database then fails to save its session, `apply`
  -- raises; but the session is in RAM, so the repetition of the entry returns the result and does not
  -- call the database again: the session stays unsaved. The id is not empty, and the table has room.
  pub save_session_lost :
      (entry : LogEntry) (m m₁ : Machine D) (client : String) (seq : ℕ) (result : Value)
      (database : D)
      → (entry.request_id == "") ≡ false
      → parse_request_id entry.request_id ≡ some (client, seq)
      → length m.sessions < max_sessions
      → checked seq (Dict.get client m.sessions) ≡ none
      → apply_command db lower entry m ≡ (some result, m₁)
      → m₁.use_db ≡ true
      → db.save_session client seq (dumps result) entry.index m₁.database ≡ (none, database)
      → (apply db lower entry m ≡ (none, unsaved client (seq, result, entry.index) database m₁))
        × (apply db lower entry (unsaved client (seq, result, entry.index) database m₁)
            ≡ (some result, unsaved client (seq, result, entry.index) database m₁))
  save_session_lost entry m m₁ client seq result database named parsed roomy new ran on raises =
      let here = named_apply db lower entry named in
      let kept : m₁.sessions ≡ m.sessions =
        sym (ap (λ (r : Option Value × Machine D). r.1.sessions) ran)
        ∙ (apply_command-Keeps db lower entry m).same_sessions in
      (
        ap (λ f. f m) here
            ∙ apply_once_new db lower entry m client seq parsed new
            ∙ new_raises entry m m₁ client seq result database parsed ran on raises,
        ap (λ f. f (unsaved client (seq, result, entry.index) database m₁)) here
            ∙ answered db lower entry (unsaved client (seq, result, entry.index) database m₁) client
                seq result parsed
                (checked-recorded client seq entry.index result m₁.sessions
                  (subst (λ d. length d < max_sessions) (sym kept) roomy)),
      )
