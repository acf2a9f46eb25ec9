-- ===== src/Server/Sessions/Bounds.antt =====
-- server/state_machine.py: the table of sessions never grows beyond MAX_SESSIONS.
use distributed_key_value_ca.Prelude.{
  ℕ, suc, ◌≡◌, ◌≤◌, ◌<◌, inl, inr, refl, String, true, [], ◌∷◌, string_eq, nat_eq, ltb, ltb→lt,
  ltb→le, length, Bool-cases, arith, beq_refl,
}
use distributed_key_value_ca.Prelude.Dict
use distributed_key_value_ca.Prelude.Dict.{Dict}
use distributed_key_value_ca.Server.Machine.{Session}
use distributed_key_value_ca.Server.Sessions.{
  max_sessions, oldest_of, oldest, without, evicted, recorded,
}

pub length-put :
    (k : String) (s : Session) (d : Dict String Session) → length (Dict.put k s d) ≤ suc (length d)
unfolding Dict.put
length-put k s [] = omega arith
length-put k s ((j, t) ∷ d) = ground (arith, length-put k s d)

length-remove :
    (k : String) (d : Dict String Session)
    → (length (Dict.remove k d) ≤ length d)
      × (Dict.contains k d ≡ true → length (Dict.remove k d) < length d)
unfolding Dict.remove Dict.get
length-remove k [] = (omega arith, λ h. ground arith)
length-remove k ((j, t) ∷ d) =
    (ground (arith, length-remove k d), ground (arith, length-remove k d))

-- The oldest session is one of the table.
oldest_of-contains :
    (best : String) (least : ℕ) (d e : Dict String Session)
    → Dict.contains best e ≡ true
    → ((k : String) → Dict.contains k d ≡ true → Dict.contains k e ≡ true)
    → Dict.contains (oldest_of best least d) e ≡ true
unfolding oldest_of
oldest_of-contains best least [] e there all = there
oldest_of-contains best least ((client, (seq, result, index)) ∷ d) e there all =
    let here : Dict.contains client ((client, (seq, result, index)) ∷ d) ≡ true =
      unfold Dict.get in rw (beq_refl client) refl in
    let later : (k : String) → Dict.contains k d ≡ true → Dict.contains k e ≡ true =
      λ k h. all k (unfold Dict.get in ground (arith, h)) in
    elim (Bool-cases (ltb index least)) [
      | inl less ↦
          rw (less, oldest_of) (oldest_of-contains client index d e (all client here) later)
      | inr more ↦ rw (more, oldest_of) (oldest_of-contains best least d e there later)
    ]

without-oldest : (d : Dict String Session) → 0 < length d → length (without (oldest d) d) < length d
without-oldest [] h = absurd (omega arith)
without-oldest ((client, (seq, result, index)) ∷ d) h =
    let e = (client, (seq, result, index)) ∷ d in
    (length-remove (oldest_of client index d) e).1 (
      oldest_of-contains client index d e (unfold Dict.get in rw (beq_refl client) refl)
        (λ k h. unfold Dict.get in ground (arith, h)))

-- Recording a session leaves at most MAX_SESSIONS of them, where there were not more before.
pub length-recorded :
    (client : String) (s : Session) (d : Dict String Session)
    → length d ≤ max_sessions
    → length (recorded client s d) ≤ max_sessions
unfolding recorded evicted
length-recorded client s d fits =
    let more = Dict.put client s d in
    elim (Bool-cases (ltb max_sessions (length more))) [
      | inl over ↦ rw over (
          omega
            (arith, length-put client s d, without-oldest more (omega (arith, ltb→lt _ _ over))))
      | inr under ↦ rw under (ltb→le _ _ under)
    ]
