-- ===== src/Raft/Log/Runs.antt =====
-- Logs whose indices follow one another, and what the storage makes of them.
use distributed_key_value_ca.Prelude.{
  ℕ, zero, suc, ◌+◌, ◌-◌, ◌<◌, ◌≤◌, ◌≡◌, refl, ap, ◌∙◌, subst, List, [], ◌∷◌, ◌++◌, arith, lt→ltb,
  le→ltb, length, take, drop, sym, append-nil, take_all,
}
use distributed_key_value_ca.Raft.Types.{LogEntry}
use distributed_key_value_ca.Raft.Log.Ascending.{before-none}
use distributed_key_value_ca.Raft.Storage.{Ascends, before, after, appended}

-- The entries have the indices `b + 1`, `b + 2`, …
abbrev pub Runs : ℕ → List LogEntry → Type 0
Runs b [] = Unit
Runs b (entry ∷ log) = (entry.index ≡ suc b) × Runs (suc b) log

pub Runs-Ascends : (b c : ℕ) (log : List LogEntry) → c ≤ b → Runs b log → Ascends c log
Runs-Ascends b c [] le h = tt
Runs-Ascends b c (e ∷ log) le h =
    (omega (arith, h.0), Runs-Ascends (suc b) e.index log (omega (arith, h.0)) h.1)

pub Runs-append :
    (b : ℕ) (log es : List LogEntry) → Runs b log → Runs (b + length log) es → Runs b (log ++ es)
Runs-append b [] es h g = subst (λ k. Runs k es) (omega arith) g
Runs-append b (e ∷ log) es h g =
    (h.0, Runs-append (suc b) log es h.1 (subst (λ k. Runs k es) (omega arith) g))

pub Runs-take : (b n : ℕ) (log : List LogEntry) → Runs b log → Runs b (take n log)
Runs-take b zero log h = tt
Runs-take b (suc n) [] h = tt
Runs-take b (suc n) (e ∷ log) h = (h.0, Runs-take (suc b) n log h.1)

pub Runs-drop : (b n : ℕ) (log : List LogEntry) → Runs b log → Runs (b + n) (drop n log)
Runs-drop b zero log h = subst (λ k. Runs k log) (omega arith) h
Runs-drop b (suc n) [] h = tt
Runs-drop b (suc n) (e ∷ log) h =
    subst (λ k. Runs k (drop n log)) (omega arith) (Runs-drop (suc b) n log h.1)

-- What is stored before an index is a prefix of the log, and what is stored after it a suffix.
pub before-take : (b k : ℕ) (log : List LogEntry) → Runs b log → before (suc b + k) log ≡ take k log
unfolding before
before-take b zero log h =
    before-none (suc b + 0) b log (omega arith) (Runs-Ascends b b log (omega arith) h)
before-take b (suc k) [] h = refl
before-take b (suc k) (e ∷ log) h =
    rw (lt→ltb e.index (suc b + suc k) (omega (arith, h.0)))
      (ap (◌∷◌ e) (ap (λ i. before i log) shift ∙ before-take (suc b) k log h.1))
  where
    shift : suc b + suc k ≡ suc (suc b) + k
    shift = omega arith

pub before-truncate :
    (b i : ℕ) (log : List LogEntry) → b < i → Runs b log → before i log ≡ take (i - suc b) log
before-truncate b i log later h = ap (λ k. before k log) split ∙ before-take b (i - suc b) log h
  where
    split : i ≡ suc b + (i - suc b)
    split = omega arith

pub after-all : (b c : ℕ) (log : List LogEntry) → c ≤ b → Runs b log → after c log ≡ log
unfolding after
after-all b c [] le h = refl
after-all b c (e ∷ log) le h =
    rw (lt→ltb c e.index (omega (arith, h.0)))
      (ap (◌∷◌ e) (after-all (suc b) c log (omega arith) h.1))

pub after-drop : (b k : ℕ) (log : List LogEntry) → Runs b log → after (b + k) log ≡ drop k log
unfolding after
after-drop b zero log h = after-all b (b + 0) log (omega arith) h
after-drop b (suc k) [] h = refl
after-drop b (suc k) (e ∷ log) h =
    rw (le→ltb (b + suc k) e.index (omega (arith, h.0)))
      (ap (λ i. after i log) shift ∙ after-drop (suc b) k log h.1)
  where
    shift : b + suc k ≡ suc b + k
    shift = omega arith

-- New entries that follow the log are appended to it.
pub appended-append :
    (b : ℕ) (log es : List LogEntry)
    → Runs b log
    → Runs (b + length log) es
    → appended log es ≡ log ++ es
unfolding appended
appended-append b log [] h g = sym (append-nil log)
appended-append b log (e ∷ es) h g = ap (λ l. l ++ e ∷ es) (all ∙ take_all _ log (omega arith))
  where
    next : e.index ≡ suc b + length log
    next = omega (arith, g.0)

    all : before e.index log ≡ take (length log) log
    all = ap (λ i. before i log) next ∙ before-take b (length log) log h
