-- ===== src/Server/Sessions/Known.antt =====
-- server/state_machine.py: what `apply` does with a request, by what the sessions know of it.
use distributed_key_value_ca.Prelude.{
  ℕ, ◌≡◌, ◌<◌, refl, ap, ◌∙◌, String, Bool, true, false, none, some, string_eq, nat_eq, ◌==◌,
  beq_refl, le→ltb, if◌then◌else◌, length, arith,
}
use mathlib.Core.Option.{some-injective}
use distributed_key_value_ca.Prelude.Dict
use distributed_key_value_ca.Raft.Types.{LogEntry}
use distributed_key_value_ca.Server.Machine.{Machine, Value, Session, Database, ◌>>=◌, >>=-some}
use distributed_key_value_ca.Server.Commands.{apply_command}
use distributed_key_value_ca.Server.Sessions.{
  max_sessions, parse_request_id, checked, check_session, evicted, recorded, apply_new, apply_once,
  apply,
}
use distributed_key_value_ca.Server.Sessions.Bounds.{length-put}
use distributed_key_value_ca.Server.Sessions.Keeps.{apply_command-Keeps, sessions-record}

-- With room in the table, a session is put into it.
pub recorded_roomy :
    (client : String) (s : Session) (d : Dict.Dict String Session)
    → length d < max_sessions
    → recorded client s d ≡ Dict.put client s d
unfolding recorded evicted
recorded_roomy client s d roomy =
    rw
      (le→ltb max_sessions (length (Dict.put client s d))
        (omega (arith, length-put client s d, roomy)))
      refl

-- A session that was just recorded answers a retry.
pub checked-recorded :
    (client : String) (seq index : ℕ) (result : Value) (d : Dict.Dict String Session)
    → length d < max_sessions
    → checked seq (Dict.get client (recorded client (seq, result, index) d)) ≡ some result
unfolding checked
checked-recorded client seq index result d roomy =
    rw
      (
        recorded_roomy client (seq, result, index) d roomy,
        Dict.get-put client client (seq, result, index) d,
        beq_refl client,
        le→ltb seq seq (omega arith),
        beq_refl seq,
      )
      refl

pub ap-if :
    {A : Type 0} (b : Bool) (x y : A) → (if b then some x else some y) ≡ some (if b then x else y)
ap-if true x y = refl
ap-if false x y = refl

module _ {D : Type 0} (db : Database D) (lower : String → String) where
  pub named_apply :
      (entry : LogEntry)
      → (entry.request_id == "") ≡ false
      → apply db lower entry ≡ apply_once db lower entry
  unfolding apply
  named_apply entry named = rw named refl

  pub check_session_lem :
      (request_id : String) (m : Machine D) (client : String) (seq : ℕ)
      → parse_request_id request_id ≡ some (client, seq)
      → check_session db lower request_id m ≡ (some (checked seq (Dict.get client m.sessions)), m)
  unfolding check_session ◌>>=◌
  check_session_lem request_id m client seq parsed = rw parsed refl

  -- A request that the sessions answer changes nothing.
  pub answered :
      (entry : LogEntry) (m : Machine D) (client : String) (seq : ℕ) (result : Value)
      → parse_request_id entry.request_id ≡ some (client, seq)
      → checked seq (Dict.get client m.sessions) ≡ some result
      → apply_once db lower entry m ≡ (some result, m)
  unfolding apply_once ◌>>=◌
  answered entry m client seq result parsed seen =
      rw (check_session_lem entry.request_id m client seq parsed, seen) refl

  pub apply_once_new :
      (entry : LogEntry) (m : Machine D) (client : String) (seq : ℕ)
      → parse_request_id entry.request_id ≡ some (client, seq)
      → checked seq (Dict.get client m.sessions) ≡ none
      → apply_once db lower entry m ≡ apply_new db lower entry m
  unfolding apply_once ◌>>=◌
  apply_once_new entry m client seq parsed new =
      rw (check_session_lem entry.request_id m client seq parsed, new) refl

  -- After a new request, its session is in the table.
  pub sessions-new :
      (entry : LogEntry) (m : Machine D) (client : String) (seq : ℕ) (result : Value)
      → parse_request_id entry.request_id ≡ some (client, seq)
      → (apply_new db lower entry m).0 ≡ some result
      → (apply_new db lower entry m).1.sessions
        ≡ recorded client (seq, result, entry.index) m.sessions
  unfolding apply_new
  sessions-new entry m client seq result parsed done =
      let command = apply_command db lower entry in
      let (r, _, recording, end) = >>=-some command _ m result done in
      let (_, _, same, last) = >>=-some _ _ (command m).1 result recording in
      ap (λ (x : Machine D). x.sessions) (end ∙ last)
      ∙ sessions-record db lower entry.request_id r entry.index client seq (command m).1 parsed
      ∙ ap (λ d. recorded client (seq, r, entry.index) d)
          (apply_command-Keeps db lower entry m).same_sessions
      ∙ ap (λ v. recorded client (seq, v, entry.index) m.sessions) (some-injective _ _ same)
