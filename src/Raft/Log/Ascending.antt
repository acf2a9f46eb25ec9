-- ===== src/Raft/Log/Ascending.antt =====
-- Logs with rising indices, and what the storage keeps of them.
use distributed_key_value_ca.Prelude.{
  ℕ, suc, suc, ◌<◌, ◌≤◌, ◌≡◌, refl, List, [], ◌∷◌, ◌++◌, ltb, nat_eq, filter_if, arith, Bool-cases,
  inl, inr, ltb→lt, lt→ltb, ltb→le,
}
use distributed_key_value_ca.Raft.Types.{LogEntry}
use distributed_key_value_ca.Raft.Storage.{Ascends, before, after, appended}

pub Ascends-le : (b c : ℕ) (log : List LogEntry) → b ≤ c → Ascends c log → Ascends b log
Ascends-le b c [] le h = tt
Ascends-le b c (e ∷ log) le h = (omega arith, h.1)

pub Ascends-before : (b i : ℕ) (log : List LogEntry) → Ascends b log → Ascends b (before i log)
unfolding before
Ascends-before b i [] h = tt
Ascends-before b i (e ∷ log) h = elim (Bool-cases (ltb e.index i)) [
  | inl t ↦ rw t (h.0, Ascends-before e.index i log h.1)
  | inr f ↦ rw f (Ascends-le b e.index _ (omega arith) (Ascends-before e.index i log h.1))
]

pub Ascends-after : (b i : ℕ) (log : List LogEntry) → Ascends b log → Ascends i (after i log)
unfolding after
Ascends-after b i [] h = tt
Ascends-after b i (e ∷ log) h = elim (Bool-cases (ltb i e.index)) [
  | inl t ↦
      rw t (
        ltb→lt _ _ t,
        Ascends-le e.index _ _ (omega arith) (filtered e.index log h.1 (ltb→lt _ _ t)),
      )
  | inr f ↦ rw f (Ascends-after e.index i log h.1)
]
  where
    filtered :
        (c : ℕ) (l : List LogEntry)
        → Ascends c l
        → i < c
        → Ascends c (filter_if (λ entry. ltb i entry.index) l)
    filtered c [] g lt = tt
    filtered c (f ∷ l) g lt =
        rw (lt→ltb i f.index (omega (arith, g.0)))
          (g.0, filtered f.index l g.1 (omega (arith, g.0)))

pub before-none : (i c : ℕ) (log : List LogEntry) → i ≤ suc c → Ascends c log → before i log ≡ []
unfolding before
before-none i c [] le h = refl
before-none i c (e ∷ log) le h = ground (arith, before-none i e.index log)

-- Everything before the first appended entry, then the appended ones.
pub Ascends-appended :
    (b : ℕ) (f : LogEntry) (log es : List LogEntry)
    → Ascends b log
    → Ascends b (f ∷ es)
    → Ascends b (before f.index log ++ f ∷ es)
unfolding before
Ascends-appended b f [] es h g = g
Ascends-appended b f (e ∷ log) es h g = elim (Bool-cases (ltb e.index f.index)) [
  | inl t ↦ rw t (h.0, Ascends-appended e.index f log es h.1 (ltb→lt _ _ t, g.1))
  | inr n ↦ rw (n, before-none f.index e.index log (omega (arith, ltb→le _ _ n)) h.1) g
]

pub Ascends-split :
    (b : ℕ) (log : List LogEntry) (e : LogEntry) (es : List LogEntry)
    → Ascends b (log ++ e ∷ es)
    → b < e.index
Ascends-split b [] e es h = h.0
Ascends-split b (f ∷ log) e es h = omega (arith, Ascends-split f.index log e es h.1, h.0)

pub Ascends-appended_all :
    (b : ℕ) (log es : List LogEntry) → Ascends b log → Ascends b es → Ascends b (appended log es)
unfolding appended
Ascends-appended_all b log [] h g = h
Ascends-appended_all b log (e ∷ es) h g = Ascends-appended b e log es h g
