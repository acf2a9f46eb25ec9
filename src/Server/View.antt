-- ===== src/Server/View.antt =====
-- server/state_machine.py: what RAM holds of each key, as a function of the user and the key, and that
-- a read answers it.
pub mod Signing
pub mod Setting
pub mod Warming
pub mod Removing
pub mod Renewing
pub mod Sweeping
use distributed_key_value_ca.Prelude.{
  ℕ, ◌≡◌, refl, sym, ap, ◌∙◌, String, Bool, true, false, Option, none, some, inl, inr, Option-cases,
  string_eq,
}
use distributed_key_value_ca.Prelude.Dict
use distributed_key_value_ca.Cache.Interface.Dispatch
use distributed_key_value_ca.Store.{Store}
use distributed_key_value_ca.Server.Machine.{Machine, Database, M, ◌>>=◌, save}
use distributed_key_value_ca.Server.Stores.{expired, get_store, lookup}
use distributed_key_value_ca.Server.Reads.{find, get, live, or_now}

-- a value with its expiry, if there is one
abbrev pub with_expiry : Option ℕ → Option String → Option (String × Option ℕ)
with_expiry expire_at none = none
with_expiry expire_at (some value) = some (value, expire_at)

abbrev pub item_in : Store → String → Option (String × Option ℕ)
item_in s key = with_expiry (Dict.get key s.expiry) (Dispatch.get key s.cache).0

abbrev pub item_of : Option Store → String → Option (String × Option ℕ)
item_of none key = none
item_of (some s) key = item_in s key

-- what RAM holds under a key of a user
abbrev pub item : {D : Type 0} → String → String → Machine D → Option (String × Option ℕ)
item u key m = item_of (Dict.get u m.stores) key

module _ {D : Type 0} (db : Database D) (lower : String → String) where
  pub get_store_hit :
      (u : String) (s : Store) (m : Machine D)
      → Dict.get u m.stores ≡ some s
      → get_store db lower u m ≡ (some (some s), m)
  unfolding get_store
  get_store_hit u s m found = rw (found, get_store) refl

  pub get_store_miss :
      (u : String) (m : Machine D)
      → m.use_db ≡ false
      → Dict.get u m.stores ≡ none
      → get_store db lower u m ≡ (some none, m)
  unfolding get_store
  get_store_miss u m off missing = rw (missing, get_store) (rw off refl)

  -- the store of a user after `_lookup`, where nothing is warmed
  abbrev pub touched : String → String → Store → Machine D → Machine D
  touched u key s m = record m {
    stores = Dict.put u (record s { cache = (Dispatch.get key s.cache).1 }) m.stores;
  }

  pub lookup_ram :
      (u key : String) (s : Store) (m : Machine D)
      → m.use_db ≡ false
      → lookup db lower s u key m ≡ (some (item_in s key), touched u key s m)
  unfolding lookup ◌>>=◌ save
  lookup_ram u key s m off = elim (Option-cases (Dispatch.get key s.cache).0) [
    | inl missing ↦ rw missing (rw off refl)
    | inr (v, found) ↦ rw found refl
  ]

  pub lookup_hit :
      (u key v : String) (s : Store) (m : Machine D)
      → (Dispatch.get key s.cache).0 ≡ some v
      → lookup db lower s u key m ≡ (some (some (v, Dict.get key s.expiry)), touched u key s m)
  unfolding lookup ◌>>=◌ save
  lookup_hit u key v s m found = rw found refl

  pub find_hit :
      (u key v : String) (s : Store) (m : Machine D)
      → Dict.get u m.stores ≡ some s
      → (Dispatch.get key s.cache).0 ≡ some v
      → (find db lower u key m).0 ≡ some (some (v, Dict.get key s.expiry))
  unfolding find ◌>>=◌
  find_hit u key v s m there found =
      rw (get_store_hit u s m there, lookup_hit u key v s m found) refl

  -- Without a database, `_lookup` answers what RAM holds.
  pub find_ram :
      (u key : String) (m : Machine D)
      → m.use_db ≡ false
      → (find db lower u key m).0 ≡ some (item u key m)
  unfolding find ◌>>=◌
  find_ram u key m off = elim (Option-cases (Dict.get u m.stores)) [
    | inl missing ↦ rw (get_store_miss u m off missing, missing) refl
    | inr (s, there) ↦ rw (get_store_hit u s m there, lookup_ram u key s m off, there) refl
  ]

  pub get-find :
      (u key : String) (at_ms : Option ℕ) (now : ℕ) (m : Machine D)
      (found : Option (String × Option ℕ))
      → (find db lower u key m).0 ≡ some found
      → (get db lower u key at_ms now m).0 ≡ some (live (or_now at_ms now) found)
  unfolding get ◌>>=◌
  get-find u key at_ms now m found e = rw e refl
