-- ===== src/Server/View/Signing.antt =====
-- server/state_machine.py: SIGNUP, on a node without a database.
use distributed_key_value_ca.Prelude.{
  ℕ, ◌≡◌, ◌<◌, refl, ◌∙◌, String, true, false, none, some, [], string_eq, beq_refl, leb, arith,
}
use distributed_key_value_ca.Prelude.Dict
use distributed_key_value_ca.Cache.LruCache
use distributed_key_value_ca.Cache.Interface.{lru_cache, create}
use distributed_key_value_ca.Store
use distributed_key_value_ca.Store.{Store}
use distributed_key_value_ca.Server.Machine.{Machine, bool, Database, ◌>>=◌, save}
use distributed_key_value_ca.Server.Commands.{apply_signup}
use distributed_key_value_ca.Server.View.{get_store_hit, get_store_miss}

-- the store of a new user
abbrev pub empty_store : String → String → ℕ → Store
empty_store u password_hash capacity = record {
  username = u;
  password_hash = password_hash;
  cache = lru_cache (record { capacity = capacity; entries = []; eviction_count = 0 });
  expiry = [];
}

init_store :
    (lower : String → String) (u password_hash : String) (capacity : ℕ)
    → lower "lru" ≡ "lru"
    → 0 < capacity
    → Store.init lower u password_hash capacity ≡ some (empty_store u password_hash capacity)
unfolding Store.init create LruCache.init
init_store lower u password_hash capacity lowered positive =
    let more : leb capacity 0 ≡ false = ground arith in rw (lowered, more) refl

module _ {D : Type 0} (db : Database D) (lower : String → String) where
  abbrev pub signed_up : String → String → Machine D → Machine D
  signed_up u password_hash m = record m {
    stores = Dict.put u (empty_store u password_hash m.capacity) m.stores;
  }

  -- The first SIGNUP of a name wins: on a node without a database, where the name is free, it returns True
  -- and makes an empty store with its password hash. In any state in which the name has a store in RAM, as
  -- it has then, a SIGNUP of the name returns False and changes nothing. `lower` leaves "lru" as it is, and
  -- the capacity is positive.
  pub apply_signup_first :
      (u first second : String) (m later : Machine D) (s : Store)
      → lower "lru" ≡ "lru"
      → 0 < m.capacity
      → m.use_db ≡ false
      → Dict.get u m.stores ≡ none
      → Dict.get u later.stores ≡ some s
      → (apply_signup db lower u first m ≡ (some (bool true), signed_up u first m))
        × (Dict.get u (signed_up u first m).stores ≡ some (empty_store u first m.capacity))
        × (apply_signup db lower u second later ≡ (some (bool false), later))
  unfolding apply_signup ◌>>=◌ save
  apply_signup_first u first second m later s lowered positive off free taken = (
    rw
        (
          get_store_miss db lower u m off free,
          off,
          init_store lower u first m.capacity lowered positive,
        )
        refl,
    Dict.get-put u u (empty_store u first m.capacity) m.stores ∙ rw (beq_refl u) refl,
    rw (get_store_hit db lower u s later taken) refl,
  )
