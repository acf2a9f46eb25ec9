-- ===== src/Raft/Rules/Quorums.antt =====
-- Two majorities of the members of an engine of raft/node.py have a member in common.
use distributed_key_value_ca.Prelude.{
  suc, refl, ap, map, ◌+◌, ◌≤◌, ◌<◌, ◌≡◌, Bool, true, List, [], ◌∷◌, String, arith, length,
  count_if, Bool-cases, inl, inr,
}
use distributed_key_value_ca.Prelude.Dict.{keys}
use distributed_key_value_ca.Raft.Engine.{Engine, majority}
use distributed_key_value_ca.Raft.Engine.Roles.{holds, counted}

length-map {ℓ ℓ'} :
    {A : Type ℓ} {B : Type ℓ'} (f : A → B) (xs : List A) → length (map f xs) ≡ length xs
length-map f [] = refl
length-map f (x ∷ xs) = ap suc (length-map f xs)

-- If two tests pass for more than there are elements, both pass for one of these.
common {ℓ} :
    {A : Type ℓ} (p q : A → Bool) (xs : List A)
    → length xs < count_if p xs + count_if q xs
    → (x : A) × (p x ≡ true) × (q x ≡ true)
common p q [] more = absurd (omega arith)
common p q (x ∷ xs) more = elim (Bool-cases (p x)) [
  | inl here ↦ elim (Bool-cases (q x)) [
    | inl also ↦ (x, here, also)
    | inr other ↦ common p q xs (ground arith)
  ]
  | inr other ↦ common p q xs (ground arith)
]

-- If two sets of votes each hold a majority of an engine's members, some node is in both.
pub majorities-meet :
    {S R : Type 0} (e : Engine S R) (a b : List String)
    → majority e ≤ counted a e
    → majority e ≤ counted b e
    → (m : String) × (holds m a ≡ true) × (holds m b ≡ true)
unfolding majority counted
majorities-meet e a b ma mb =
    common (λ m. holds m a) (λ m. holds m b) (keys e.members) (omega (arith, length_keys))
  where
    length_keys : length (keys e.members) ≡ length e.members
    length_keys = length-map (λ x. x.0) e.members
