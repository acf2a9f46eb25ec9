-- ===== src/Apps/RaftStorage/Laws.antt =====
-- apps/cluster/raft_storage.py keeps what raft/storage.py promises.
use distributed_key_value_ca.Prelude.{
  ℕ, ◌≡◌, refl, sym, ap, ◌∙◌, subst, String, Option, none, some, List, [], ◌∷◌, ◌++◌, map,
  filter_if, ◌&&◌, string_eq, ◌==◌, beq_refl, arith, leb,
}
use distributed_key_value_ca.Raft.Types.{LogEntry, Member}
use distributed_key_value_ca.Raft.Storage.{
  PersistentState, RaftStorageLaws, Ascends, before, after, appended, kept_config,
}
use distributed_key_value_ca.Raft.Log.Ascending.{
  Ascends-before, Ascends-after, Ascends-appended_all,
}
use distributed_key_value_ca.Apps.Objects.{Objects, ObjectsLaws, or_blank, first-update_or_create}
use distributed_key_value_ca.Apps.RaftStorage.{
  RaftMeta, RaftLogEntry, Tables, entry_of, blank, row_of, is_meta, is_row, loaded_config, meta_of,
  stored_entries, load, change_meta, save_term_and_vote, truncate_from, append, dumped_config,
  save_snapshot, django,
}
use distributed_key_value_ca.Apps.RaftStorage.Rows.{
  mine, mine-before, mine-after, mine-new, filter-own, Ascends-Rises,
}

module _ {J TM TL : Type 0} (meta : Objects (RaftMeta J) TM) (log : Objects RaftLogEntry TL)
    (dumps : List Member → J) (loads : J → List Member) (node_id : String) where
  -- the node's own log in the table, and the node's row
  abbrev own : Tables TM TL → List LogEntry
  own d = mine node_id (log.rows d.entries)

  abbrev row : Tables TM TL → RaftMeta J
  row d = meta_of meta log dumps loads node_id d

  -- The node's entries rise from above its snapshot.
  abbrev pub Sound : Tables TM TL → Type 0
  Sound d = Ascends (row d).snapshot_index (own d)

  -- The whole of what is loaded, of a row and a log.
  abbrev loaded : RaftMeta J → List LogEntry → PersistentState
  loaded m entries = record {
    current_term = m.current_term;
    voted_for = m.voted_for;
    log = entries;
    snapshot_index = m.snapshot_index;
    snapshot_term = m.snapshot_term;
    last_applied = m.last_applied;
    snapshot_config = loaded_config meta log dumps loads node_id m.snapshot_config;
  }

module _ {J TM TL : Type 0} (meta : Objects (RaftMeta J) TM) (log : Objects RaftLogEntry TL)
    (dumps : List Member → J) (loads : J → List Member) (node_id : String)
    (meta_laws : ObjectsLaws meta) (log_laws : ObjectsLaws log)
    (loads-dumps : (members : List Member) → loads (dumps members) ≡ members) where
  stored-own :
      (low : ℕ) (d : Tables TM TL)
      → Ascends low (own meta log dumps loads node_id d)
      → stored_entries meta log dumps loads node_id low d ≡ own meta log dumps loads node_id d
  stored-own low d rising =
      let mine_rows = filter_if (is_row node_id) (log.rows d.entries) in
      ap (λ rows. map entry_of (log.order_by (λ r. r.log_index) rows))
        (filter-own node_id low low (log.rows d.entries) (omega arith) rising)
      ∙ ap (map entry_of) (
          log_laws.order_by-Rises (λ r. r.log_index) low mine_rows
            (Ascends-Rises low mine_rows rising))

  load-loaded :
      (d : Tables TM TL)
      → Sound meta log dumps loads node_id d
      → load meta log dumps loads node_id d
        ≡ loaded meta log dumps loads node_id
            (row meta log dumps loads node_id d)
            (own meta log dumps loads node_id d)
  unfolding load
  load-loaded d sound =
      ap (loaded meta log dumps loads node_id (row meta log dumps loads node_id d))
        (stored-own (row meta log dumps loads node_id d).snapshot_index d sound)

  own-truncate :
      (i : ℕ) (d : Tables TM TL)
      → own meta log dumps loads node_id (truncate_from meta log dumps loads node_id i d)
        ≡ before i (own meta log dumps loads node_id d)
  unfolding truncate_from
  own-truncate i d =
      ap (mine node_id)
        (log_laws.rows-delete (λ r. is_row node_id r && leb i r.log_index) d.entries)
      ∙ mine-before node_id i (log.rows d.entries)

  own-append :
      (es : List LogEntry) (d : Tables TM TL)
      → own meta log dumps loads node_id (append meta log dumps loads node_id es d)
        ≡ appended (own meta log dumps loads node_id d) es
  unfolding append appended
  own-append [] d = refl
  own-append (e ∷ es) d =
      let d' = truncate_from meta log dumps loads node_id e.index d in
      ap (mine node_id) (log_laws.rows-bulk_create (map (row_of node_id) (e ∷ es)) d'.entries)
      ∙ mine-new node_id (log.rows d'.entries) (e ∷ es)
      ∙ ap (λ l. l ++ e ∷ es) (own-truncate e.index d)

  row-append :
      (es : List LogEntry) (d : Tables TM TL)
      → row meta log dumps loads node_id (append meta log dumps loads node_id es d)
        ≡ row meta log dumps loads node_id d
  unfolding append truncate_from
  row-append [] d = refl
  row-append (e ∷ es) d = refl

  row-changed :
      (change : RaftMeta J → RaftMeta J) (d : Tables TM TL)
      → ((m : RaftMeta J) → (change m).node_id ≡ m.node_id)
      → row meta log dumps loads node_id (change_meta meta log dumps loads node_id change d)
        ≡ change (row meta log dumps loads node_id d)
  row-changed change d same = ap (or_blank (blank node_id)) (
      first-update_or_create meta meta_laws (is_meta node_id) change (blank node_id) d.metas
        (beq_refl node_id) (λ m. ap (λ n. n == node_id) (same m)))

  load-save_term_and_vote :
      (d : Tables TM TL) (term : ℕ) (vote : Option String)
      → load meta log dumps loads node_id
          (save_term_and_vote meta log dumps loads node_id term vote d)
        ≡ record (load meta log dumps loads node_id d) { current_term = term; voted_for = vote }
  unfolding load save_term_and_vote
  load-save_term_and_vote d term vote =
      let change : RaftMeta J → RaftMeta J =
        λ m. record m { current_term = term; voted_for = vote } in
      ap
        (λ (m : RaftMeta J).
          loaded meta log dumps loads node_id m
            (stored_entries meta log dumps loads node_id m.snapshot_index d))
        (row-changed change d (λ m. refl))

  vote-Sound :
      (d : Tables TM TL) (term : ℕ) (vote : Option String)
      → Sound meta log dumps loads node_id d
      → Sound meta log dumps loads node_id
          (save_term_and_vote meta log dumps loads node_id term vote d)
  unfolding save_term_and_vote
  vote-Sound d term vote sound =
      let change : RaftMeta J → RaftMeta J =
        λ m. record m { current_term = term; voted_for = vote } in
      subst (λ (m : RaftMeta J). Ascends m.snapshot_index (own meta log dumps loads node_id d))
        (sym (row-changed change d (λ m. refl))) sound

  append-Sound :
      (d : Tables TM TL) (es : List LogEntry)
      → Sound meta log dumps loads node_id d
      → Ascends (row meta log dumps loads node_id d).snapshot_index es
      → Sound meta log dumps loads node_id (append meta log dumps loads node_id es d)
  append-Sound d es sound new =
      rw (row-append es d, own-append es d)
        (Ascends-appended_all (row meta log dumps loads node_id d).snapshot_index
          (own meta log dumps loads node_id d) es sound new)

  load-append :
      (d : Tables TM TL) (es : List LogEntry)
      → Sound meta log dumps loads node_id d
      → Ascends (row meta log dumps loads node_id d).snapshot_index es
      → load meta log dumps loads node_id (append meta log dumps loads node_id es d)
        ≡ record (load meta log dumps loads node_id d) {
          log = appended (load meta log dumps loads node_id d).log es;
        }
  load-append d es sound new = rw (load-loaded d sound) (
      load-loaded (append meta log dumps loads node_id es d) (append-Sound d es sound new)
      ∙ rw (row-append es d, own-append es d) refl)

  truncate-Sound :
      (d : Tables TM TL) (i : ℕ)
      → Sound meta log dumps loads node_id d
      → Sound meta log dumps loads node_id (truncate_from meta log dumps loads node_id i d)
  truncate-Sound d i sound = rw (own-truncate i d) (
      unfold truncate_from in
      Ascends-before (row meta log dumps loads node_id d).snapshot_index i
        (own meta log dumps loads node_id d) sound)

  load-truncate :
      (d : Tables TM TL) (i : ℕ)
      → Sound meta log dumps loads node_id d
      → load meta log dumps loads node_id (truncate_from meta log dumps loads node_id i d)
        ≡ record (load meta log dumps loads node_id d) {
          log = before i (load meta log dumps loads node_id d).log;
        }
  load-truncate d i sound = rw (load-loaded d sound) (
      load-loaded (truncate_from meta log dumps loads node_id i d) (truncate-Sound d i sound)
      ∙ rw (own-truncate i d) (unfold truncate_from in refl))

  config-dumped :
      (c : Option (List Member)) (old : Option J)
      → loaded_config meta log dumps loads node_id
          (dumped_config meta log dumps loads node_id c old)
        ≡ kept_config c (loaded_config meta log dumps loads node_id old)
  unfolding kept_config
  config-dumped none old = refl
  config-dumped (some members) old = ap some (loads-dumps members)

  module _ (d : Tables TM TL) (i t a : ℕ) (c : Option (List Member)) where
    -- the row after a snapshot, and the tables
    abbrev boundary : RaftMeta J → RaftMeta J
    boundary m = record m {
      snapshot_index = i;
      snapshot_term = t;
      last_applied = a;
      snapshot_config = dumped_config meta log dumps loads node_id c m.snapshot_config;
    }

    abbrev saved : Tables TM TL
    saved = save_snapshot meta log dumps loads node_id i t a c d

    row-saved :
        row meta log dumps loads node_id saved ≡ boundary (row meta log dumps loads node_id d)
    unfolding save_snapshot
    row-saved = row-changed boundary d (λ m. refl)

    own-saved :
        own meta log dumps loads node_id saved ≡ after i (own meta log dumps loads node_id d)
    unfolding save_snapshot
    own-saved =
        ap (mine node_id)
          (log_laws.rows-delete (λ r. is_row node_id r && leb r.log_index i) d.entries)
        ∙ mine-after node_id i (log.rows d.entries)

    saved-Sound : Sound meta log dumps loads node_id d → Sound meta log dumps loads node_id saved
    saved-Sound sound =
        rw (row-saved, own-saved)
          (Ascends-after (row meta log dumps loads node_id d).snapshot_index i
            (own meta log dumps loads node_id d) sound)

    load-saved :
        Sound meta log dumps loads node_id d
        → load meta log dumps loads node_id saved ≡ record (load meta log dumps loads node_id d) {
          log = after i (load meta log dumps loads node_id d).log;
          snapshot_index = i;
          snapshot_term = t;
          last_applied = a;
          snapshot_config = kept_config c (load meta log dumps loads node_id d).snapshot_config;
        }
    load-saved sound =
        let m = row meta log dumps loads node_id d in
        let entries = after i (own meta log dumps loads node_id d) in
        rw (load-loaded d sound) (
          load-loaded saved (saved-Sound sound)
          ∙ rw (row-saved, own-saved)
              (ap
                (λ config. record (loaded meta log dumps loads node_id (boundary m) entries) {
                  snapshot_config = config;
                })
                (config-dumped c m.snapshot_config)))

  index-load :
      (d : Tables TM TL)
      → (load meta log dumps loads node_id d).snapshot_index
        ≡ (row meta log dumps loads node_id d).snapshot_index
  unfolding load
  index-load d = refl

  -- The storage in the database keeps what the abstract storage promises, for the node it belongs to, also
  -- where other nodes have rows in the tables. The managers keep their laws, and the JSON of the members
  -- is read back.
  pub django-laws :
      RaftStorageLaws (django meta log dumps loads node_id) (Sound meta log dumps loads node_id)
  django-laws = record {
    save_term_and_vote-Sound = vote-Sound;
    append-Sound = (λ d es sound new. append-Sound d es sound (rw index-load at new));
    truncate_from-Sound = truncate-Sound;
    save_snapshot-Sound = saved-Sound;
    load-save_term_and_vote = load-save_term_and_vote;
    load-append = (λ d es sound new. load-append d es sound (rw index-load at new));
    load-truncate_from = load-truncate;
    load-save_snapshot = load-saved;
  }
