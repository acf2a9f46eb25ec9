-- ===== src/Server/View/Setting.antt =====
-- server/state_machine.py: SET and SETEX.
use distributed_key_value_ca.Prelude.{
  ℕ, ◌≡◌, refl, sym, ap, ◌∙◌, String, Bool, true, false, Option, none, some, string_eq, ◌==◌,
  beq_refl, if◌then◌else◌, inl, inr, Bool-cases,
}
use distributed_key_value_ca.Prelude.Dict
use distributed_key_value_ca.Cache.Interface.{AnyCache}
use distributed_key_value_ca.Cache.Interface.Dispatch
use distributed_key_value_ca.Cache.Interface.Dispatch.{Healthy}
use distributed_key_value_ca.Cache.Interface.Dispatch.Kept.{dispatch-laws}
use distributed_key_value_ca.Store.{Store}
use distributed_key_value_ca.Server.Machine.{Machine, bool, Database, ◌>>=◌, save}
use distributed_key_value_ca.Server.Stores.{expired, timed, remember}
use distributed_key_value_ca.Server.Commands.{set_in, apply_set}
use distributed_key_value_ca.Server.Reads.{get, live, or_now}
use distributed_key_value_ca.Server.View.{get_store_hit, find_hit, get-find}

-- What `store.expiry` has after a write is the expiry of the write.
pub get-timed :
    (key : String) (expire_at : Option ℕ) (d : Dict.Dict String ℕ)
    → Dict.get key (timed key expire_at d) ≡ expire_at
get-timed key none d = Dict.get-remove key key d ∙ rw (beq_refl key) refl
get-timed key (some t) d = Dict.get-put key key t d ∙ rw (beq_refl key) refl

module _ {D : Type 0} (db : Database D) (lower : String → String) where
  -- what the database answers to a SET; without a database, nothing fails
  abbrev pub saving : String → String → String → Option ℕ → Machine D → Option (Unit {0}) × D
  saving u key value expire_at m =
      if m.use_db then db.save_entry u key value expire_at m.database else (some tt, m.database)

  abbrev pub written : String → String → Option ℕ → Store → AnyCache → D → Machine D → Machine D
  written u key expire_at s cache database m = record m {
    stores =
        Dict.put u (record s { cache = cache; expiry = timed key expire_at s.expiry }) m.stores;
    database = database;
  }

  set_in-written :
      (u key value : String) (expire_at : Option ℕ) (s : Store) (cache : AnyCache) (database : D)
      (m : Machine D)
      → Dispatch.set key value s.cache ≡ some cache
      → saving u key value expire_at m ≡ (some tt, database)
      → set_in db lower s u key value expire_at m
        ≡ (some (bool true), written u key expire_at s cache database m)
  unfolding set_in ◌>>=◌ remember save
  set_in-written u key value expire_at s cache database m fits saved =
      let answer : Bool → Option (Unit {0}) × D =
        λ b. if b then db.save_entry u key value expire_at m.database else (some tt, m.database) in
      elim (Bool-cases m.use_db) [
        | inl on ↦ rw (on, ap answer (sym on) ∙ saved, fits) refl
        | inr off ↦
            let same : m.database ≡ database =
              ap (λ (r : Option (Unit {0}) × D). r.1) (ap answer (sym off) ∙ saved) in
            rw (off, fits, same) refl
      ]

  -- A SET under a name that is not empty, for a user whose store is in RAM, returns True where the
  -- database saves the entry or there is none, and leaves the cache healthy; then a get answers the value
  -- from RAM, but None from the expiry on. The store's cache is healthy before.
  pub get-apply_set :
      (u key value : String) (expire_at : Option ℕ) (s : Store) (database : D) (m : Machine D)
      → Dict.get u m.stores ≡ some s
      → Healthy s.cache
      → (key == "") ≡ false
      → saving u key value expire_at m ≡ (some tt, database)
      → (cache : AnyCache) × Healthy cache
        × (apply_set db lower u key value expire_at m
            ≡ (some (bool true), written u key expire_at s cache database m))
        × ((at_ms : Option ℕ) (now : ℕ)
            → (get db lower u key at_ms now (written u key expire_at s cache database m)).0
              ≡ some (if expired expire_at (or_now at_ms now) then none else some value))
  unfolding apply_set ◌>>=◌ live
  get-apply_set u key value expire_at s database m there healthy named saved =
      let (cache, fits, healthy', found) = dispatch-laws.set-some key value s.cache healthy named in
      let s' : Store = record s { cache = cache; expiry = timed key expire_at s.expiry } in
      let m' = written u key expire_at s cache database m in
      (
        cache,
        healthy',
        rw (get_store_hit db lower u s m there)
            (set_in-written u key value expire_at s cache database m fits saved),
        λ at_ms now.
            get-find db lower u key at_ms now m' (some (value, Dict.get key s'.expiry)) (
              find_hit db lower u key value s' m'
                (Dict.get-put u u s' m.stores ∙ rw (beq_refl u) refl) found)
            ∙ ap (λ e. some (if expired e (or_now at_ms now) then none else some value))
                (get-timed key expire_at s.expiry),
      )

  -- Where the database raises as it saves the entry, a SET raises and leaves RAM as it was: the database
  -- is written first. The user's store is in RAM.
  pub apply_set_raises :
      (u key value : String) (expire_at : Option ℕ) (s : Store) (database : D) (m : Machine D)
      → Dict.get u m.stores ≡ some s
      → m.use_db ≡ true
      → db.save_entry u key value expire_at m.database ≡ (none, database)
      → apply_set db lower u key value expire_at m ≡ (none, record m { database = database })
  unfolding apply_set set_in ◌>>=◌
  apply_set_raises u key value expire_at s database m there on raises =
      rw (get_store_hit db lower u s m there, on, raises) refl
