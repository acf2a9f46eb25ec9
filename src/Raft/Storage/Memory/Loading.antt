-- ===== src/Raft/Storage/Memory/Loading.antt =====
-- Loading from memory: the sorted keys give back the stored log.
use distributed_key_value_ca.Prelude.{
  ℕ, ◌≤◌, ◌≡◌, refl, ap, List, [], ◌∷◌, map, ltb, nat_eq, filter_if, arith,
}
use distributed_key_value_ca.Prelude.Dict
use distributed_key_value_ca.Prelude.Dict.{Dict, keys}
use distributed_key_value_ca.Raft.Types.{LogEntry}
use distributed_key_value_ca.Raft.Storage.{Ascends}
use distributed_key_value_ca.Raft.Storage.Memory.{MemoryRaftStorage, sorted, gather, load, tagged}

unfoldable pub indices : List LogEntry → List ℕ
indices = map (λ e. e.index)

pub keys-tagged : (log : List LogEntry) → keys (tagged log) ≡ indices log
unfolding indices
keys-tagged [] = refl
keys-tagged (e ∷ log) = ap (◌∷◌ e.index) (keys-tagged log)

pub sorted-indices :
    (b : ℕ) (log : List LogEntry) → Ascends b log → sorted (indices log) ≡ indices log
unfolding sorted indices
sorted-indices b [] h = refl
sorted-indices b (e ∷ []) h = refl
sorted-indices b (e ∷ f ∷ log) h = rw (sorted-indices e.index (f ∷ log) h.1) (ground arith)

pub filter-indices :
    (b c : ℕ) (log : List LogEntry)
    → b ≤ c
    → Ascends c log
    → filter_if (ltb b) (indices log) ≡ indices log
unfolding indices
filter-indices b c [] le h = refl
filter-indices b c (e ∷ log) le h = ground (arith, filter-indices b e.index log)

-- An entry with a smaller index is not looked at.
pub gather-cons :
    (b : ℕ) (e : LogEntry) (d : Dict ℕ LogEntry) (log : List LogEntry)
    → e.index ≤ b
    → Ascends b log
    → gather ((e.index, e) ∷ d) (indices log) ≡ gather d (indices log)
unfolding gather indices Dict.get
gather-cons b e d [] le h = refl
gather-cons b e d (f ∷ log) le h = ground (arith, gather-cons f.index e d log)

pub gather-tagged :
    (b : ℕ) (log : List LogEntry) → Ascends b log → gather (tagged log) (indices log) ≡ log
unfolding gather indices Dict.get
gather-tagged b [] h = refl
gather-tagged b (e ∷ log) h =
    ground (arith, gather-cons e.index e (tagged log) log, gather-tagged e.index log)

-- What is loaded from a sound store is the log that it stores.
pub load-log :
    (s : MemoryRaftStorage) (log : List LogEntry)
    → s.entries ≡ tagged log
    → Ascends s.snapshot_index log
    → (load s).log ≡ log
unfolding load
load-log s log e h =
    rw (e, keys-tagged, sorted-indices _ log h, filter-indices _ _ log le_self h)
      (gather-tagged _ log h)
  where
    le_self : s.snapshot_index ≤ s.snapshot_index
    le_self = omega arith
