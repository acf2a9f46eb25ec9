-- ===== src/Store.antt =====
-- store/store.py: what one user has in memory.
use distributed_key_value_ca.Prelude.{ℕ, String, Bool, Option, none, some, []}
use distributed_key_value_ca.Prelude.Dict.{Dict}
use distributed_key_value_ca.Cache.Interface.{AnyCache, create}

pub record Store : Type 0 where
  pub username : String
  pub password_hash : String
  pub cache : AnyCache
  pub expiry : Dict String ℕ

-- the store around the cache, if the factory makes one
abbrev around : String → String → Option AnyCache → Option Store
around username password_hash none = none
around username password_hash (some cache) =
    some (record { username = username; password_hash = password_hash; cache = cache; expiry = [] })

-- `__init__`; `lower` is `str.lower`, and `none` stands for the factory's ValueError
unfoldable pub init : (String → String) → String → String → ℕ → Option Store
unfolding create
init lower username password_hash capacity =
    around username password_hash (create lower "lru" capacity)

-- `check_password` is Django's
unfoldable pub verify_password : (String → String → Bool) → String → Store → Bool
verify_password check_password plain_password s = check_password plain_password s.password_hash
