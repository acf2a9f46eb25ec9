-- ===== src/Raft/Rules/Chunks.antt =====
-- raft/node.py, `_handle_install_snapshot`: the chunks of a snapshot are put together in order.
use mathlib.Core.Option.{some-injective, none-ne-some}
use distributed_key_value_ca.Prelude.{
  [], ◌∷◌, ap, take, append_assoc, append-nil, ◌⊎◌, not, ◌||◌, ◌==◌, ℕ, String, ◌≡◌, refl, sym, ◌∙◌,
  subst, Bool, true, false, Option, none, some, List, ◌++◌, arith, nat_eq, length, length-append,
  if◌then◌else◌, ltb, leb, inl, inr, Bool-cases,
}
use distributed_key_value_ca.Raft.Storage.{RaftStorage}
use distributed_key_value_ca.Raft.Rpc.{InstallSnapshotRequest}
use distributed_key_value_ca.Raft.Engine.{
  Engine, Clock, Receiving, persist_term_and_vote, reset_election_timer,
}
use distributed_key_value_ca.Raft.Engine.Roles.{
  accept_leader, hear, become_follower, adopt_term, drop_leadership,
}
use distributed_key_value_ca.Raft.Engine.Installing.{
  Received, reply, restore_from, respond, receiving, with_chunk, store_chunk, receive_chunk,
}

-- What has arrived of a file begins as the file does, and has the size that is noted. `file` is the
-- snapshot of an index.
abbrev pub Begun : (ℕ → List ℕ) → Option Receiving → Type 0
Begun file none = Unit
Begun file (some r) =
    (r.size ≡ length r.content) × (rest : List ℕ) × (r.content ++ rest ≡ file r.index)

-- The chunk stands at its offset in the file, and ends it if it is the last.
abbrev pub PartOf : (ℕ → List ℕ) → InstallSnapshotRequest → Type 0
PartOf file req =
    (left : List ℕ) × (right : List ℕ) × (left ++ (req.chunk ++ right)
      ≡ file req.last_included_index)
    × (length left ≡ req.offset)
    × ((req.done ≡ false) ⊎ (right ≡ []))

-- What is restored from is the file.
abbrev pub Complete : (ℕ → List ℕ) → InstallSnapshotRequest → Received → Type 0
Complete file req (reply response) = Unit
Complete file req (restore_from content) = content ≡ file req.last_included_index

take-append : (xs ys : List ℕ) → take (length xs) (xs ++ ys) ≡ xs
take-append [] ys = refl
take-append (x ∷ xs) ys = ap (◌∷◌ x) (take-append xs ys)

-- Two beginnings of a list that are as long are the same.
same_beginning : (xs ys us vs : List ℕ) → xs ++ us ≡ ys ++ vs → length xs ≡ length ys → xs ≡ ys
same_beginning xs ys us vs same long =
    sym (take-append xs us)
    ∙ ap (take (length xs)) same
    ∙ ap (λ n. take n (ys ++ vs)) long
    ∙ take-append ys vs

-- What a chunk may be appended to.
Fits : (ℕ → List ℕ) → InstallSnapshotRequest → Receiving → Type 0
Fits file req r = Begun file (some r) × (r.index ≡ req.last_included_index) × (r.size ≡ req.offset)

receiving_old :
    (req : InstallSnapshotRequest) (old r : Receiving)
    → (req.offset == 0) ≡ false
    → receiving req (some old) ≡ some r
    → (old ≡ r) × (old.index ≡ req.last_included_index) × (old.size ≡ req.offset)
unfolding receiving
receiving_old req old r later taken =
    elim (Bool-cases (not (old.index == req.last_included_index) || not (old.size == req.offset))) [
      | inl bad ↦ absurd (none-ne-some r (sym (rw (later, bad) refl) ∙ taken))
      | inr good ↦ (
        some-injective _ _ (sym (rw (later, good) refl) ∙ taken),
        ground (arith, nat_eq.beq_iff),
        ground (arith, nat_eq.beq_iff),
      )
    ]

receiving-Fits :
    (file : ℕ → List ℕ) (req : InstallSnapshotRequest) (rx : Option Receiving) (r : Receiving)
    → Begun file rx
    → receiving req rx ≡ some r
    → Fits file req r
unfolding Fits receiving
receiving-Fits file req rx r begun taken = elim (Bool-cases (req.offset == 0)) [
  | inl zero ↦
      let fresh : Receiving = record { index = req.last_included_index; size = 0; content = [] } in
      let start : receiving req rx ≡ some fresh = rw zero refl in
      subst (Fits file req) (some-injective fresh r (sym start ∙ taken))
        ((refl, file req.last_included_index, refl), refl, ground (arith, nat_eq.beq_iff))
  | inr later ↦ go rx later begun taken
]
  where
    go :
        (rx : Option Receiving)
        → (req.offset == 0) ≡ false
        → Begun file rx
        → receiving req rx ≡ some r
        → Fits file req r
    go none later begun taken = absurd (none-ne-some r (sym (rw later refl) ∙ taken))
    go (some old) later begun taken =
        let (same, index, size) = receiving_old req old r later taken in
        subst (Fits file req) same (begun, index, size)

module _ {S R : Type 0} (st : RaftStorage S) where
  accept_leader-snapshot_rx :
      (now : Clock) (term : ℕ) (leader_id leader_address : String) (e : Engine S R)
      → (accept_leader st now term leader_id leader_address e).snapshot_rx ≡ e.snapshot_rx
  unfolding accept_leader hear become_follower adopt_term drop_leadership persist_term_and_vote
      reset_election_timer
  accept_leader-snapshot_rx now term leader_id leader_address e = ground arith

  -- What an answer and the engine after it have in common.
  abbrev pub Reassembled : (ℕ → List ℕ) → InstallSnapshotRequest → Received × Engine S R → Type 0
  Reassembled file req c = Complete file req c.0 × Begun file c.1.snapshot_rx

  store_chunk-Reassembled :
      (file : ℕ → List ℕ) (req : InstallSnapshotRequest) (r : Receiving) (e : Engine S R)
      → PartOf file req
      → Fits file req r
      → Reassembled file req (store_chunk st req r e)
  unfolding store_chunk with_chunk Fits
  store_chunk-Reassembled file req r e (left, right, whole, offset, last)
        ((sized, rest, begun), index, size) =
      let head : r.content ≡ left =
        same_beginning r.content left rest (req.chunk ++ right) (begun ∙ ap file index ∙ sym whole)
          (omega (arith, sized, size, offset)) in
      let joined : (r.content ++ req.chunk) ++ right ≡ file req.last_included_index =
        append_assoc r.content req.chunk right ∙ ap (λ l. l ++ (req.chunk ++ right)) head ∙ whole in
      elim (Bool-cases req.done) [
        | inl done ↦ rw done (elim last [
          | inl more ↦ ground (arith, done, more)
          | inr end ↦ (
            sym (append-nil (r.content ++ req.chunk))
                ∙ ap (λ l. (r.content ++ req.chunk) ++ l) (sym end)
                ∙ joined,
            tt,
          )
        ])
        | inr more ↦ rw more (
          tt,
          (
            omega (arith, sized, length-append r.content req.chunk),
            right,
            joined ∙ ap file (sym index),
          ),
        )
      ]

  Reassembled-if :
      (file : ℕ → List ℕ) (req : InstallSnapshotRequest) (b : Bool) (c d : Received × Engine S R)
      → Reassembled file req c
      → Reassembled file req d
      → Reassembled file req (if b then c else d)
  Reassembled-if file req true c d rc rd = rc
  Reassembled-if file req false c d rc rd = rd

  -- The chunks of a snapshot are put together in order. Where every snapshot index stands for one file,
  -- what has arrived begins as the file of its index does, and the chunk is the part of its file at its
  -- offset, and the end of it if it is the last chunk: after the chunk, accepted or not, what has arrived
  -- still begins as the file of its index does, and a snapshot that is restored from is the whole file.
  pub receive_chunk-Reassembled :
      (file : ℕ → List ℕ) (now : Clock) (req : InstallSnapshotRequest) (e : Engine S R)
      → Begun file e.snapshot_rx
      → PartOf file req
      → Reassembled file req (receive_chunk st now req e)
  unfolding receive_chunk
  receive_chunk-Reassembled file now req e begun part =
      Reassembled-if file req (ltb req.term e.node.current_term) _ _ (tt, begun)
        (Reassembled-if file req (leb req.last_included_index heard.node.last_applied) _ _
          (tt, begun_too) (taken (receiving req heard.snapshot_rx) refl))
    where
      heard : Engine S R
      heard = accept_leader st now req.term req.leader_id req.leader_address e

      begun_too : Begun file heard.snapshot_rx
      begun_too =
          subst (Begun file)
            (sym (accept_leader-snapshot_rx now req.term req.leader_id req.leader_address e)) begun

      taken :
          (o : Option Receiving)
          → receiving req heard.snapshot_rx ≡ o
          → Reassembled file req (elim o [
            | none ↦ (respond heard.node.current_term false, heard)
            | some r ↦ store_chunk st req r heard
          ])
      taken none eq = (tt, begun_too)
      taken (some r) eq =
          store_chunk-Reassembled file req r heard part
            (receiving-Fits file req heard.snapshot_rx r begun_too eq)
