-- ===== src/Server/Sessions/Limit.antt =====
-- server/state_machine.py: no entry makes the table of sessions larger than MAX_SESSIONS.
use distributed_key_value_ca.Prelude.{
  ℕ, ◌≡◌, ◌≤◌, refl, sym, subst, String, none, inl, inr, string_eq, ◌==◌, length, Option-cases,
}
use distributed_key_value_ca.Raft.Types.{LogEntry}
use distributed_key_value_ca.Server.Machine.{Machine, Value, Database, ◌>>=◌}
use distributed_key_value_ca.Server.Commands.{apply_command}
use distributed_key_value_ca.Server.Frames.{Chains, Along, bind-Along, option-Along, if-Along}
use distributed_key_value_ca.Server.Sessions.{
  max_sessions, parse_request_id, check_session, record_session, apply_new, apply_once, apply,
}
use distributed_key_value_ca.Server.Sessions.Bounds.{length-recorded}
use distributed_key_value_ca.Server.Sessions.Keeps.{apply_command-Keeps, sessions-record}

-- The table is not too large after, if it is not before.
abbrev Bounded : {D : Type 0} → Machine D → Machine D → Type 0
Bounded m m' = length m.sessions ≤ max_sessions → length m'.sessions ≤ max_sessions

module _ {D : Type 0} (db : Database D) (lower : String → String) where
  bounded : Chains (Bounded {D = D})
  bounded = record {
    none_done = (λ m fits. fits);
    both = (λ first second fits. second (first fits));
  }

  check_session-Bounded : (request_id : String) → Along Bounded (check_session db lower request_id)
  unfolding check_session
  check_session-Bounded request_id =
      bind-Along bounded _ _ bounded.none_done
        λ parts. bind-Along bounded _ _ bounded.none_done λ session. bounded.none_done

  unparsed :
      (request_id : String) (result : Value) (index : ℕ) (m : Machine D)
      → parse_request_id request_id ≡ none
      → (record_session db lower request_id result index m).1.sessions ≡ m.sessions
  unfolding record_session ◌>>=◌
  unparsed request_id result index m failed = rw failed refl

  record_session-Bounded :
      (request_id : String) (result : Value) (index : ℕ)
      → Along Bounded (record_session db lower request_id result index)
  record_session-Bounded request_id result index m =
      elim (Option-cases (parse_request_id request_id)) [
        | inl failed ↦ λ fits.
            subst (λ d. length d ≤ max_sessions) (sym (unparsed request_id result index m failed))
              fits
        | inr ((client, seq), parsed) ↦ λ fits.
            subst (λ d. length d ≤ max_sessions)
              (sym (sessions-record db lower request_id result index client seq m parsed))
              (length-recorded client (seq, result, index) m.sessions fits)
      ]

  apply_command-Bounded : (entry : LogEntry) → Along Bounded (apply_command db lower entry)
  apply_command-Bounded entry m fits =
      subst (λ d. length d ≤ max_sessions)
        (sym (apply_command-Keeps db lower entry m).same_sessions) fits

  apply_new-Bounded : (entry : LogEntry) → Along Bounded (apply_new db lower entry)
  unfolding apply_new
  apply_new-Bounded entry = bind-Along bounded _ _ (apply_command-Bounded entry) λ result.
      bind-Along bounded _ _ (record_session-Bounded entry.request_id result entry.index)
        λ done. bounded.none_done

  apply_once-Bounded : (entry : LogEntry) → Along Bounded (apply_once db lower entry)
  unfolding apply_once
  apply_once-Bounded entry =
      bind-Along bounded _ _ (check_session-Bounded entry.request_id) λ cached.
        option-Along bounded _ _ cached (apply_new-Bounded entry) λ result. bounded.none_done

  -- No entry, whether it is applied or raises, makes the table of sessions larger than MAX_SESSIONS. It
  -- is not larger before.
  pub length-apply :
      (entry : LogEntry) (m : Machine D)
      → length m.sessions ≤ max_sessions
      → length (apply db lower entry m).1.sessions ≤ max_sessions
  unfolding apply
  length-apply entry =
      if-Along bounded (entry.request_id == "") _ _ (apply_command-Bounded entry)
        (apply_once-Bounded entry)
