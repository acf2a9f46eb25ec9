-- ===== src/Server/Sessions/Retries.antt =====
-- server/state_machine.py: a request is applied once.
use distributed_key_value_ca.Prelude.{
  List, suc, ◌+◌, ℕ, ◌≡◌, ◌≤◌, ◌<◌, inl, inr, sym, ap, ◌∙◌, String, true, false, Option, some,
  string_eq, nat_eq, ◌==◌, le→ltb, if◌then◌else◌, length, Option-cases, arith,
}
use distributed_key_value_ca.Prelude.Dict
use distributed_key_value_ca.Raft.Types.{LogEntry}
use distributed_key_value_ca.Server.Machine.{Machine, Value, null, Database}
use distributed_key_value_ca.Server.Sessions.{
  max_sessions, parse_request_id, checked, apply_once, apply,
}
use distributed_key_value_ca.Server.Sessions.Others.{
  all_other, apply_all, apply-length, apply_all-session,
}
use distributed_key_value_ca.Server.Sessions.Known.{
  checked-recorded, ap-if, named_apply, answered, apply_once_new, sessions-new,
}

module _ {D : Type 0} (db : Database D) (lower : String → String) where
  -- A request whose number is not above the last one of its client changes nothing: the last one gets
  -- the stored result again, and an older one gets None. The id is not empty, and names the client and
  -- the number; the client has a session.
  pub apply_seen :
      (entry : LogEntry) (m : Machine D) (client : String) (seq last index : ℕ) (result : Value)
      → (entry.request_id == "") ≡ false
      → parse_request_id entry.request_id ≡ some (client, seq)
      → Dict.get client m.sessions ≡ some (last, result, index)
      → seq ≤ last
      → apply db lower entry m ≡ (some (if seq == last then result else null), m)
  unfolding checked
  apply_seen entry m client seq last index result named parsed found old =
      ap (λ f. f m) (named_apply db lower entry named)
      ∙ answered db lower entry m client seq (if seq == last then result else null) parsed
          (rw (found, le→ltb last seq old) (ap-if (seq == last) result null))

  -- After a request that has returned, its session answers a retry.
  seen_after :
      (entry : LogEntry) (m : Machine D) (client : String) (seq : ℕ) (result : Value)
      → length m.sessions < max_sessions
      → parse_request_id entry.request_id ≡ some (client, seq)
      → (apply_once db lower entry m).0 ≡ some result
      → checked seq (Dict.get client (apply_once db lower entry m).1.sessions) ≡ some result
  seen_after entry m client seq result roomy parsed done =
      elim (Option-cases (checked seq (Dict.get client m.sessions))) [
        | inl new ↦
            let same = apply_once_new db lower entry m client seq parsed new in
            rw same (
              ap (λ d. checked seq (Dict.get client d))
                (sessions-new db lower entry m client seq result parsed
                  (sym (ap (λ (r : Option Value × Machine D). r.0) same) ∙ done))
              ∙ checked-recorded client seq entry.index result m.sessions roomy)
        | inr (v, seen) ↦
            let same = answered db lower entry m client seq v parsed seen in
            rw same (seen ∙ sym (ap (λ (r : Option Value × Machine D). r.0) same) ∙ done)
      ]

  -- A request is applied once: where an entry with an id has returned a result, and then requests of
  -- other clients were applied, or raised, an entry with the same id returns that result, and changes
  -- neither the state nor the database. The table of sessions has room for one more session and one for
  -- each of those requests.
  pub apply_retry :
      (entry retry : LogEntry) (others : List LogEntry) (m : Machine D) (client : String) (seq : ℕ)
      (result : Value)
      → length m.sessions + length others < max_sessions
      → (entry.request_id == "") ≡ false
      → retry.request_id ≡ entry.request_id
      → parse_request_id entry.request_id ≡ some (client, seq)
      → all_other client others ≡ true
      → (apply db lower entry m).0 ≡ some result
      → apply db lower retry (apply_all db lower others (apply db lower entry m).1)
        ≡ (some result, apply_all db lower others (apply db lower entry m).1)
  apply_retry entry retry others m client seq result roomy named same parsed apart done =
      let here = named_apply db lower entry named in
      let there = named_apply db lower retry (ap (λ s. s == "") same ∙ named) in
      let done' = sym (ap (λ f. (f m).0) here) ∙ done in
      let seen = seen_after entry m client seq result (omega arith) parsed done' in
      let first : length (apply db lower entry m).1.sessions ≤ suc (length m.sessions) =
        apply-length db lower entry m (omega arith) in
      let kept =
        apply_all-session db lower client others (apply db lower entry m).1 apart
          (omega (arith, first)) in
      rw there (
        answered db lower retry (apply_all db lower others (apply db lower entry m).1) client seq
          result (ap parse_request_id same ∙ parsed)
          (ap (checked seq) kept
            ∙ ap (λ f. checked seq (Dict.get client (f m).1.sessions)) here
            ∙ seen))
