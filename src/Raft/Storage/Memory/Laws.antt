-- ===== src/Raft/Storage/Memory/Laws.antt =====
-- The store in memory keeps the promises of the interface.
use distributed_key_value_ca.Prelude.{
  ℕ, ◌≡◌, refl, sym, ap, ◌∙◌, Option, none, some, List, [], ◌∷◌, ◌++◌, nat_eq, arith, append-nil,
  append_assoc, subst, Option, none, some,
}
use distributed_key_value_ca.Prelude.Dict
use distributed_key_value_ca.Prelude.Dict.{Dict, keys}
use distributed_key_value_ca.Raft.Types.{LogEntry, Member}
use distributed_key_value_ca.Raft.Storage.{
  PersistentState, RaftStorageLaws, Ascends, before, after, appended, kept_config,
}
use distributed_key_value_ca.Raft.Storage.Memory.{
  MemoryRaftStorage, load, save_term_and_vote, drop_from, put_all, append, truncate_from,
  save_snapshot, memory, tagged, Sound,
}
use distributed_key_value_ca.Raft.Log.Ascending.{
  Ascends-before, Ascends-after, Ascends-appended, Ascends-appended_all, Ascends-split,
}
use distributed_key_value_ca.Raft.Storage.Memory.Loading.{load-log}
use distributed_key_value_ca.Raft.Storage.Memory.Deleting.{
  del_all-filter, keep_if-before, keep_if-after,
}

put-tagged :
    (b : ℕ) (log : List LogEntry) (e : LogEntry) (es : List LogEntry)
    → Ascends b (log ++ e ∷ es)
    → Dict.put e.index e (tagged log) ≡ tagged (log ++ e ∷ [])
unfolding Dict.put
put-tagged b [] e es h = refl
put-tagged b (f ∷ log) e es h =
    ground (arith, put-tagged f.index log e es h.1, Ascends-split f.index log e es h.1)

put_all-tagged :
    (b : ℕ) (log es : List LogEntry)
    → Ascends b (log ++ es)
    → put_all es (tagged log) ≡ tagged (log ++ es)
unfolding put_all
put_all-tagged b log [] h = ap tagged (sym (append-nil log))
put_all-tagged b log (e ∷ es) h =
    let regroup : (log ++ e ∷ []) ++ es ≡ log ++ e ∷ es = append_assoc log (e ∷ []) es in
    rw (put-tagged b log e es h)
      (put_all-tagged b (log ++ e ∷ []) es (rw regroup h) ∙ ap tagged regroup)

-- `append`, `truncate_from` and `save_snapshot` of a store that holds `log`.
module _ (s : MemoryRaftStorage) (log : List LogEntry) (stored : s.entries ≡ tagged log) where
  entries-drop_from : (i : ℕ) → (drop_from i s).entries ≡ tagged (before i log)
  unfolding drop_from
  entries-drop_from i = rw (stored, del_all-filter) (ap tagged (keep_if-before i log))

  entries-append :
      (es : List LogEntry)
      → Ascends s.snapshot_index log
      → Ascends s.snapshot_index es
      → (append es s).entries ≡ tagged (appended log es)
  unfolding append appended
  entries-append [] h g = stored
  entries-append (e ∷ es) h g = rw (entries-drop_from e.index) (
      put_all-tagged s.snapshot_index (before e.index log) (e ∷ es)
        (Ascends-appended s.snapshot_index e log es h g))

  entries-save_snapshot :
      (i t a : ℕ) (c : Option (List Member))
      → (save_snapshot i t a c s).entries ≡ tagged (after i log)
  unfolding save_snapshot
  entries-save_snapshot i t a c = rw (stored, del_all-filter) (ap tagged (keep_if-after i log))

-- The whole of what is loaded, from a store that holds `log`.
abbrev loaded : MemoryRaftStorage → List LogEntry → PersistentState
loaded s log = record {
  current_term = s.term;
  voted_for = s.voted_for;
  log = log;
  snapshot_index = s.snapshot_index;
  snapshot_term = s.snapshot_term;
  last_applied = s.last_applied;
  snapshot_config = s.config;
}

load-loaded :
    (s : MemoryRaftStorage) (log : List LogEntry)
    → s.entries ≡ tagged log
    → Ascends s.snapshot_index log
    → load s ≡ loaded s log
unfolding load
load-loaded s log e h = ap (λ l. loaded s l) (load-log s log e h)

snapshot_index-load : (s : MemoryRaftStorage) → (load s).snapshot_index ≡ s.snapshot_index
unfolding load
snapshot_index-load s = refl

append-frame :
    (s : MemoryRaftStorage) (es : List LogEntry)
    → append es s ≡ record s { entries = (append es s).entries }
unfolding append
append-frame s [] = refl
append-frame s (e ∷ es) = refl

-- A sound store, rewritten to show its log, after each operation.
module _ (s : MemoryRaftStorage) where
  Ascends-append :
      (log es : List LogEntry)
      → Ascends s.snapshot_index log
      → Ascends s.snapshot_index es
      → Ascends (append es s).snapshot_index (appended log es)
  Ascends-append log es rising new =
      subst (λ (t : MemoryRaftStorage). Ascends t.snapshot_index (appended log es))
        (sym (append-frame s es)) (Ascends-appended_all s.snapshot_index log es rising new)

  append-Sound :
      (es : List LogEntry) → Sound s → Ascends (load s).snapshot_index es → Sound (append es s)
  append-Sound es (log, stored, rising) new =
      let new' : Ascends s.snapshot_index es = rw snapshot_index-load at new in
      (
        appended log es,
        entries-append s log stored es rising new',
        Ascends-append log es rising new',
      )

  truncate_from-Sound : (i : ℕ) → Sound s → Sound (truncate_from i s)
  unfolding truncate_from
  truncate_from-Sound i (log, stored, rising) =
      (before i log, entries-drop_from s log stored i, Ascends-before _ i log rising)

  save_snapshot-Sound :
      (i t a : ℕ) (c : Option (List Member)) → Sound s → Sound (save_snapshot i t a c s)
  unfolding save_snapshot
  save_snapshot-Sound i t a c (log, stored, rising) = (
    after i log,
    entries-save_snapshot s log stored i t a c,
    Ascends-after s.snapshot_index i log rising,
  )

  load-append :
      (es : List LogEntry)
      → Sound s
      → Ascends (load s).snapshot_index es
      → load (append es s) ≡ record (load s) { log = appended (load s).log es }
  load-append es (log, stored, rising) new =
      let new' : Ascends s.snapshot_index es = rw snapshot_index-load at new in
      rw (load-loaded s log stored rising) (
        load-loaded (append es s) (appended log es) (entries-append s log stored es rising new')
          (Ascends-append log es rising new')
        ∙ ap (λ (t : MemoryRaftStorage). loaded t (appended log es)) (append-frame s es))

  load-truncate_from :
      (i : ℕ) → Sound s → load (truncate_from i s) ≡ record (load s) { log = before i (load s).log }
  unfolding truncate_from
  load-truncate_from i (log, stored, rising) = rw (load-loaded s log stored rising) (
      load-loaded (drop_from i s) (before i log) (entries-drop_from s log stored i)
        (Ascends-before _ i log rising))

  load-save_snapshot :
      (i t a : ℕ) (c : Option (List Member))
      → Sound s
      → load (save_snapshot i t a c s) ≡ record (load s) {
        log = after i (load s).log;
        snapshot_index = i;
        snapshot_term = t;
        last_applied = a;
        snapshot_config = kept_config c (load s).snapshot_config;
      }
  unfolding save_snapshot kept_config
  load-save_snapshot i t a c (log, stored, rising) = rw (load-loaded s log stored rising) (
      load-loaded (save_snapshot i t a c s) (after i log)
        (entries-save_snapshot s log stored i t a c) (Ascends-after s.snapshot_index i log rising)
      ∙ config_lem c)
    where
      config_lem :
          (d : Option (List Member))
          → loaded (save_snapshot i t a d s) (after i log) ≡ record (loaded s log) {
            log = after i log;
            snapshot_index = i;
            snapshot_term = t;
            last_applied = a;
            snapshot_config = kept_config d s.config;
          }
      config_lem none = refl
      config_lem (some members) = refl

-- What the docs of the abstract class promise holds of the store in memory.
pub memory-laws : RaftStorageLaws memory Sound
unfolding save_term_and_vote load
memory-laws = record {
  save_term_and_vote-Sound = λ s t v sound. sound;
  append-Sound = append-Sound;
  truncate_from-Sound = truncate_from-Sound;
  save_snapshot-Sound = save_snapshot-Sound;
  load-save_term_and_vote = λ s t v. refl;
  load-append = load-append;
  load-truncate_from = load-truncate_from;
  load-save_snapshot = load-save_snapshot;
}
