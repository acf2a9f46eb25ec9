-- ===== src/Server/Stores.antt =====
-- server/state_machine.py: the stores of the users, from RAM or from the database.
use distributed_key_value_ca.Prelude.{
  ℕ, String, Bool, false, Option, none, some, [], ◌∷◌, string_eq, leb, if◌then◌else◌,
}
use distributed_key_value_ca.Prelude.Dict
use distributed_key_value_ca.Prelude.Dict.{Dict}
use distributed_key_value_ca.Cache.Interface.{AnyCache}
use distributed_key_value_ca.Cache.Interface.Dispatch
use distributed_key_value_ca.Store
use distributed_key_value_ca.Store.{Store}
use distributed_key_value_ca.Server.Machine.{Database, M, ◌>>=◌, ◌>>◌, pure, lift, ask, call, save}

-- `_expired`
unfoldable pub expired : Option ℕ → ℕ → Bool
expired none at_ms = false
expired (some expire_at) at_ms = leb expire_at at_ms

-- `store.expiry[key] = expire_at`, or `store.expiry.pop(key, None)` for None
abbrev pub timed : String → Option ℕ → Dict String ℕ → Dict String ℕ
timed key none expiry = Dict.remove key expiry
timed key (some expire_at) expiry = Dict.put key expire_at expiry

abbrev pub with_cache : String → Option ℕ → Store → Option AnyCache → Option Store
with_cache key expire_at s none = none
with_cache key expire_at s (some cache) =
    some (record s { cache = cache; expiry = timed key expire_at s.expiry })

-- the value and the expiry of a key in RAM; `none` is the cache's ValueError
unfoldable pub remember : String → String → Option ℕ → Store → Option Store
remember key value expire_at s = with_cache key expire_at s (Dispatch.set key value s.cache)

-- the `for` loop that fills a new cache
unfoldable pub set_all : Dict String String → AnyCache → Option AnyCache
set_all [] cache = some cache
set_all ((key, value) ∷ entries) cache = elim (Dispatch.set key value cache) [
  | none ↦ none
  | some cache' ↦ set_all entries cache'
]

-- the expiries of the keys that are there
unfoldable pub known : Dict String String → Dict String ℕ → Dict String ℕ
known entries [] = []
known entries ((key, t) ∷ expiries) =
    let rest = known entries expiries in if Dict.contains key entries then (key, t) ∷ rest else rest

module _ {D : Type 0} (db : Database D) (lower : String → String) where
  -- a user's Store as the database has it, for a row of cache_users
  unfoldable pub read_store : String → String → M D Store
  unfolding Store.init set_all known
  read_store username password_hash = do
    capacity ← ask (λ m. m.capacity)
    store ← lift (Store.init lower username password_hash capacity)
    entries ← call (db.get_all_entries username capacity)
    cache ← lift (set_all entries store.cache)
    expiries ← call (db.get_expiries username)
    pure (record store { cache = cache; expiry = known entries expiries })

  -- `self.stores.setdefault(username, store)`
  unfoldable pub set_default : String → Store → M D Store
  unfolding save
  set_default username store m = elim (Dict.get username m.stores) [
    | some there ↦ (some there, m)
    | none ↦ (some store, (save username store m).1)
  ]

  -- `_load_user_from_db`
  unfoldable pub load_user_from_db : String → M D (Option Store)
  unfolding read_store set_default
  load_user_from_db username = do
    user ← call (db.get_user username)
    elim user [
      | none ↦ pure none
      | some password_hash ↦ do
        store ← read_store username password_hash
        there ← set_default username store
        pure (some there)
    ]

  unfoldable pub get_store : String → M D (Option Store)
  unfolding load_user_from_db
  get_store username m = elim (Dict.get username m.stores) [
    | some store ↦ (some (some store), m)
    | none ↦ if m.use_db then load_user_from_db username m else (some none, m)
  ]

  -- what the database has of a key that is not in RAM, brought into RAM
  unfoldable pub warm : Store → String → String → M D (Option (String × Option ℕ))
  unfolding remember save
  warm s username key = do
    row ← call (db.get_entry_with_expiry username key)
    elim row [
      | none ↦ pure none
      | some (value, expire_at) ↦ do
        warmed ← lift (remember key value expire_at s)
        save username warmed
        pure (some (value, expire_at))
    ]

  -- `_lookup` in the store `s` of a user; a read moves the key in the cache
  unfoldable pub lookup : Store → String → String → M D (Option (String × Option ℕ))
  unfolding warm save Dispatch.get
  lookup s username key = do
    let (value, cache) = Dispatch.get key s.cache
    let moved = record s { cache = cache }
    save username moved
    elim value [
      | some v ↦ pure (some (v, Dict.get key s.expiry))
      | none ↦ do
        use_db ← ask (λ m. m.use_db)
        if use_db then warm moved username key else pure none
    ]
