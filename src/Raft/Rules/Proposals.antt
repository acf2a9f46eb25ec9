-- ===== src/Raft/Rules/Proposals.antt =====
-- raft/node.py, `propose`: what ends the wait of a caller.
use distributed_key_value_ca.Prelude.{
  ℕ, ◌+◌, ◌≡◌, refl, ap, ◌∙◌, true, some, nat_eq, ◌==◌, beq_refl, is_some, if◌then◌else◌,
}
use distributed_key_value_ca.Prelude.Dict
use distributed_key_value_ca.Raft.Types.{LogEntry}
use distributed_key_value_ca.Raft.Engine.{Engine, applied}
use distributed_key_value_ca.Raft.Engine.Applying.{
  returns, raises_replaced, propose_poll, note_applied,
}

module _ {S R : Type 0} where
  propose_poll-applied :
      (index term remaining applied_term : ℕ) (result : R) (e : Engine S R)
      → Dict.get index e.waiters ≡ some (applied applied_term result)
      → propose_poll index term remaining e
        ≡ (if applied_term == term then returns result else raises_replaced)
  unfolding propose_poll
  propose_poll-applied index term remaining applied_term result e found =
      rw (found, propose_poll) refl

  note_applied-waiters :
      (entry : LogEntry) (result : R) (e : Engine S R)
      → is_some (Dict.get (e.node.last_applied + 1) e.waiters) ≡ true
      → (note_applied entry result e).waiters
        ≡ Dict.put (e.node.last_applied + 1) (applied entry.term result) e.waiters
  unfolding note_applied
  note_applied-waiters entry result e waits = rw waits refl

  -- While a proposal waits for the next index, applying the entry there ends the wait: with the
  -- result of the entry if it is of the proposal's term, and as replaced by a new leader otherwise.
  pub propose_poll-note_applied :
      (entry : LogEntry) (result : R) (term remaining : ℕ) (e : Engine S R)
      → is_some (Dict.get (e.node.last_applied + 1) e.waiters) ≡ true
      → propose_poll (e.node.last_applied + 1) term remaining (note_applied entry result e)
        ≡ (if entry.term == term then returns result else raises_replaced)
  propose_poll-note_applied entry result term remaining e waits =
      let i = e.node.last_applied + 1 in
      propose_poll-applied i term remaining entry.term result (note_applied entry result e) (
        ap (Dict.get i) (note_applied-waiters entry result e waits)
        ∙ Dict.get-put i i (applied entry.term result) e.waiters
        ∙ rw (beq_refl i) refl)
