-- ===== src/Server/Sessions/Others.antt =====
-- server/state_machine.py: the requests of other clients leave a client's session.
use distributed_key_value_ca.Prelude.{
  List, [], ◌∷◌, suc, ◌+◌, ◌⊎◌, not, ◌&&◌, Bool-cases, ℕ, ◌≡◌, ◌≤◌, ◌<◌, inl, inr, refl, sym, ap,
  ◌∙◌, String, Bool, true, false, Option, none, some, string_eq, nat_eq, ◌==◌, length, Option-cases,
  arith,
}
use distributed_key_value_ca.Prelude.Dict
use distributed_key_value_ca.Raft.Types.{LogEntry}
use distributed_key_value_ca.Server.Machine.{Machine, Value, Session, Database, M, pure, ◌>>=◌}
use distributed_key_value_ca.Server.Commands.{apply_command}
use distributed_key_value_ca.Server.Sessions.{
  max_sessions, parse_request_id, checked, check_session, record_session, recorded, apply_new,
  apply_once, apply,
}
use distributed_key_value_ca.Server.Sessions.Bounds.{length-put}
use distributed_key_value_ca.Server.Sessions.Keeps.{apply_command-Keeps, sessions-record}
use distributed_key_value_ca.Server.Sessions.Known.{
  recorded_roomy, named_apply, answered, apply_once_new,
}

-- a request that is not the client's
unfoldable pub is_other : String → LogEntry → Bool
is_other client entry = elim (parse_request_id entry.request_id) [
  | none ↦ true
  | some (other, seq) ↦ not (other == client)
]

unfoldable pub all_other : String → List LogEntry → Bool
unfolding is_other
all_other client [] = true
all_other client (entry ∷ others) = is_other client entry && all_other client others

module _ {D : Type 0} (db : Database D) (lower : String → String) where
  -- the state after entries that are applied one after another
  unfoldable pub apply_all : List LogEntry → Machine D → Machine D
  apply_all [] m = m
  apply_all (entry ∷ entries) m = apply_all entries (apply db lower entry m).1

module _ {D : Type 0} (db : Database D) (lower : String → String) where
  -- What an entry leaves of the sessions: they are as before, or one of its client is recorded.
  abbrev Recorded : LogEntry → Dict.Dict String Session → Dict.Dict String Session → Type 0
  Recorded entry d d' =
      (d' ≡ d)
      ⊎ ((client : String) × (seq : ℕ) × (result : Value) × (parse_request_id entry.request_id
            ≡ some (client, seq))
          × (d' ≡ recorded client (seq, result, entry.index) d))

  ends_with :
      (c : M D (Unit {0})) (r : Value) (m : Machine D) → ((c >>= λ done. pure r) m).1 ≡ (c m).1
  unfolding ◌>>=◌
  ends_with c r m = elim (Option-cases (c m).0) [
    | inl raised ↦ rw raised refl
    | inr (u, done) ↦ rw done refl
  ]

  apply_new-Recorded :
      (entry : LogEntry) (m : Machine D) (client : String) (seq : ℕ)
      → parse_request_id entry.request_id ≡ some (client, seq)
      → Recorded entry m.sessions (apply_new db lower entry m).1.sessions
  unfolding apply_new ◌>>=◌
  apply_new-Recorded entry m client seq parsed =
      let kept = (apply_command-Keeps db lower entry m).same_sessions in
      elim (Option-cases (apply_command db lower entry m).0) [
        | inl raised ↦ inl (rw raised kept)
        | inr (r, done) ↦ inr (
          client,
          seq,
          r,
          parsed,
          rw done (
              ap (λ (x : Machine D). x.sessions)
                (ends_with (record_session db lower entry.request_id r entry.index) r
                  (apply_command db lower entry m).1)
              ∙ sessions-record db lower entry.request_id r entry.index client seq
                  (apply_command db lower entry m).1 parsed
              ∙ ap (recorded client (seq, r, entry.index)) kept),
        )
      ]

  unreadable :
      (entry : LogEntry) (m : Machine D)
      → parse_request_id entry.request_id ≡ none
      → apply_once db lower entry m ≡ (none, m)
  unfolding apply_once check_session ◌>>=◌
  unreadable entry m failed = rw failed refl

  apply-Recorded :
      (entry : LogEntry) (m : Machine D)
      → Recorded entry m.sessions (apply db lower entry m).1.sessions
  apply-Recorded entry m = elim (Bool-cases (entry.request_id == "")) [
    | inl unnamed ↦
        inl (unfold apply in rw unnamed (apply_command-Keeps db lower entry m).same_sessions)
    | inr named ↦
        rw (named_apply db lower entry named)
          (elim (Option-cases (parse_request_id entry.request_id)) [
            | inl failed ↦
                inl
                  (ap (λ (r : Option Value × Machine D). r.1.sessions) (unreadable entry m failed))
            | inr ((client, seq), parsed) ↦
                elim (Option-cases (checked seq (Dict.get client m.sessions))) [
                  | inl new ↦
                      rw (apply_once_new db lower entry m client seq parsed new)
                        (apply_new-Recorded entry m client seq parsed)
                  | inr (v, seen) ↦ inl (
                      ap (λ (r : Option Value × Machine D). r.1.sessions)
                        (answered db lower entry m client seq v parsed seen))
                ]
          ])
  ]

  Recorded-length :
      (entry : LogEntry) (d d' : Dict.Dict String Session)
      → Recorded entry d d'
      → length d < max_sessions
      → length d' ≤ suc (length d)
  Recorded-length entry d d' (inl same) roomy = omega (arith, ap length same)
  Recorded-length entry d d' (inr (client, seq, result, parsed, same)) roomy =
      let s : Session = (seq, result, entry.index) in
      omega (arith, ap length (same ∙ recorded_roomy client s d roomy), length-put client s d)

  pub apply-length :
      (entry : LogEntry) (m : Machine D)
      → length m.sessions < max_sessions
      → length (apply db lower entry m).1.sessions ≤ suc (length m.sessions)
  apply-length entry m roomy =
      Recorded-length entry m.sessions (apply db lower entry m).1.sessions (apply-Recorded entry m)
        roomy

  -- A request of another client leaves a client's session.
  Recorded-other :
      (client : String) (entry : LogEntry) (d d' : Dict.Dict String Session)
      → is_other client entry ≡ true
      → Recorded entry d d'
      → length d < max_sessions
      → Dict.get client d' ≡ Dict.get client d
  unfolding is_other
  Recorded-other client entry d d' apart (inl same) roomy = ap (Dict.get client) same
  Recorded-other client entry d d' apart (inr (other, seq, result, parsed, same)) roomy =
      let s : Session = (seq, result, entry.index) in
      let asked : is_other client entry ≡ not (other == client) = rw (parsed, is_other) refl in
      let differs : (other == client) ≡ false = ground (arith, sym asked ∙ apart) in
      ap (Dict.get client) (same ∙ recorded_roomy other s d roomy)
      ∙ Dict.get-put other client s d
      ∙ rw differs refl

  pub apply_all-session :
      (client : String) (others : List LogEntry) (m : Machine D)
      → all_other client others ≡ true
      → length m.sessions + length others ≤ max_sessions
      → Dict.get client (apply_all db lower others m).sessions ≡ Dict.get client m.sessions
  unfolding all_other apply_all
  apply_all-session client [] m apart roomy = refl
  apply_all-session client (entry ∷ others) m apart roomy =
      let both : (is_other client entry ≡ true) × (all_other client others ≡ true) =
        ground (arith, apart) in
      let room : length m.sessions < max_sessions = omega (arith, roomy) in
      apply_all-session client others (apply db lower entry m).1 both.1
        (omega (arith, roomy, apply-length entry m room))
      ∙ Recorded-other client entry m.sessions (apply db lower entry m).1.sessions both.0
          (apply-Recorded entry m) room
