-- ===== src/Server/View/Warming.antt =====
-- server/state_machine.py: a key that the cache has lost, on a node with a database.
use distributed_key_value_ca.Prelude.{
  ◌≡◌, refl, ℕ, String, true, false, Option, none, some, string_eq, ◌==◌,
}
use distributed_key_value_ca.Prelude.Dict
use distributed_key_value_ca.Cache.Interface.{AnyCache}
use distributed_key_value_ca.Cache.Interface.Dispatch
use distributed_key_value_ca.Cache.Interface.Dispatch.{Healthy}
use distributed_key_value_ca.Cache.Interface.Dispatch.Kept.{dispatch-laws}
use distributed_key_value_ca.Store.{Store}
use distributed_key_value_ca.Server.Machine.{Machine, Database, ◌>>=◌, save}
use distributed_key_value_ca.Server.Stores.{timed, remember, warm, lookup}
use distributed_key_value_ca.Server.Reads.{find}
use distributed_key_value_ca.Server.View.{get_store_hit}
use distributed_key_value_ca.Server.View.Removing.{moved}

module _ {D : Type 0} (db : Database D) (lower : String → String) where
  -- the store of a user, and the state, after a key was brought back
  abbrev pub warmed : String → Option ℕ → Store → AnyCache → Store
  warmed key expire_at s cache = record s { cache = cache; expiry = timed key expire_at s.expiry }

  abbrev pub warm_state : String → String → Option ℕ → Store → AnyCache → D → Machine D → Machine D
  warm_state u key expire_at s cache database m = record m {
    stores =
        Dict.put u (warmed key expire_at (moved key s) cache) (Dict.put u (moved key s) m.stores);
    database = database;
  }

  -- A key that is not in the user's cache is answered from the database, and is in the cache afterwards,
  -- with its value. The node has a database, whose row it is; the name is not empty, and the cache is
  -- healthy.
  pub find-warmed :
      (u key value : String) (expire_at : Option ℕ) (s : Store) (database : D) (m : Machine D)
      → m.use_db ≡ true
      → Dict.get u m.stores ≡ some s
      → Healthy s.cache
      → (key == "") ≡ false
      → (Dispatch.get key s.cache).0 ≡ none
      → db.get_entry_with_expiry u key m.database ≡ (some (some (value, expire_at)), database)
      → (cache : AnyCache) × Healthy cache
        × ((Dispatch.get key cache).0 ≡ some value)
        × (find db lower u key m
            ≡ (some (some (value, expire_at)), warm_state u key expire_at s cache database m))
  unfolding find lookup warm remember save ◌>>=◌
  find-warmed u key value expire_at s database m on there healthy named missing row =
      let (cache, fits, healthy', found) =
        dispatch-laws.set-some key value (moved key s).cache
          (dispatch-laws.get-Valid key s.cache healthy) named in
      (cache, healthy', found, rw (get_store_hit db lower u s m there, missing, on, row, fits) refl)
