-- ===== src/Raft/Storage/Memory/Deleting.antt =====
-- The loops of the store in memory that delete keys.
use distributed_key_value_ca.Prelude.{
  ℕ, ◌≡◌, refl, sym, ap, ◌∙◌, Bool, true, false, not, List, [], ◌∷◌, leb, nat_eq, filter_if,
  filter_if-true, arith, ◌==◌, ◌||◌, ◌&&◌, fun_ext, nat_beq_iff,
}
use distributed_key_value_ca.Prelude.Dict
use distributed_key_value_ca.Prelude.Dict.{Dict, keys}
use distributed_key_value_ca.Raft.Types.{LogEntry}
use distributed_key_value_ca.Raft.Storage.{before, after}
use distributed_key_value_ca.Raft.Storage.Memory.{del_all, tagged}
use distributed_key_value_ca.Raft.Storage.Memory.Loading.{indices, keys-tagged}

-- `del` of the keys that pass a test leaves the entries whose index fails it.
pub keep_if : (ℕ → Bool) → List LogEntry → List LogEntry
keep_if p = filter_if (λ e. not (p e.index))

pub remove-tagged :
    (i : ℕ) (log : List LogEntry) → Dict.remove i (tagged log) ≡ tagged (keep_if (λ j. j == i) log)
unfolding Dict.remove keep_if
remove-tagged i [] = refl
remove-tagged i (e ∷ log) = ground (arith, remove-tagged i log)

pub keep_if-keep_if :
    (p q : ℕ → Bool) (log : List LogEntry)
    → keep_if p (keep_if q log) ≡ keep_if (λ j. q j || p j) log
unfolding keep_if
keep_if-keep_if p q [] = refl
keep_if-keep_if p q (e ∷ log) = ground (arith, keep_if-keep_if p q log)

pub mem : ℕ → List ℕ → Bool
mem j [] = false
mem j (i ∷ is) = j == i || mem j is

pub keep_if-ext :
    (p q : ℕ → Bool) (log : List LogEntry) → ((j : ℕ) → p j ≡ q j) → keep_if p log ≡ keep_if q log
keep_if-ext p q log h = ap (λ r. keep_if r log) (fun_ext h)

pub del_all-tagged :
    (is : List ℕ) (log : List LogEntry)
    → del_all is (tagged log) ≡ tagged (keep_if (λ j. mem j is) log)
unfolding del_all mem
del_all-tagged [] log = ap tagged (sym (keep_all log))
  where
    keep_all : (l : List LogEntry) → keep_if (λ j. false) l ≡ l
    keep_all l = unfold keep_if in filter_if-true l
del_all-tagged (i ∷ is) log =
    rw (remove-tagged i log, del_all-tagged is (keep_if (λ j. j == i) log))
      (ap tagged (keep_if-keep_if _ _ log))

pub Within : List ℕ → List LogEntry → Type 0
Within is [] = Unit
Within is (e ∷ log) = (mem e.index is ≡ true) × Within is log

pub Within-cons : (i : ℕ) (is : List ℕ) (log : List LogEntry) → Within is log → Within (i ∷ is) log
unfolding Within mem
Within-cons i is [] h = tt
Within-cons i is (e ∷ log) h = (ground arith, Within-cons i is log h.1)

pub Within-indices : (log : List LogEntry) → Within (indices log) log
unfolding Within mem indices
Within-indices [] = tt
Within-indices (e ∷ log) =
    (ground arith, Within-cons e.index (indices log) log (Within-indices log))

pub mem-filter_if :
    (p : ℕ → Bool) (j : ℕ) (is : List ℕ) → mem j (filter_if p is) ≡ (mem j is && p j)
unfolding mem
mem-filter_if p j [] = refl
mem-filter_if p j (i ∷ is) = ground (arith, mem-filter_if p j is, nat_beq_iff j i)

pub keep_if-Within :
    (p : ℕ → Bool) (is : List ℕ) (log : List LogEntry)
    → Within is log
    → keep_if (λ j. mem j is && p j) log ≡ keep_if p log
unfolding Within keep_if
keep_if-Within p is [] h = refl
keep_if-Within p is (e ∷ log) h = ground (arith, keep_if-Within p is log h.1)

-- The two loops that delete: the keys that pass a test are gone, and the others stay.
pub del_all-filter :
    (p : ℕ → Bool) (log : List LogEntry)
    → del_all (filter_if p (keys (tagged log))) (tagged log) ≡ tagged (keep_if p log)
del_all-filter p log =
    rw (keys-tagged log, del_all-tagged)
      (ap tagged (
        keep_if-ext _ _ log (λ j. mem-filter_if p j (indices log))
        ∙ keep_if-Within p (indices log) log (Within-indices log)))

pub keep_if-before : (i : ℕ) (log : List LogEntry) → keep_if (leb i) log ≡ before i log
unfolding keep_if before
keep_if-before i log = ap (λ p. filter_if p log) (fun_ext λ e. ground arith)

pub keep_if-after : (i : ℕ) (log : List LogEntry) → keep_if (λ j. leb j i) log ≡ after i log
unfolding keep_if after
keep_if-after i log = ap (λ p. filter_if p log) (fun_ext λ e. ground arith)
