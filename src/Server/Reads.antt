-- ===== src/Server/Reads.antt =====
-- server/state_machine.py: the reads. `now` is what `now_ms` reads from the clock, and `fnmatch` is
-- `fnmatch.fnmatchcase` with the pattern first.
use Prim.Native.Char.{code}
use distributed_key_value_ca.Prelude.{
  ℕ, zero, suc, ◌+◌, ◌-◌, ◌/◌, min, String, Bool, true, false, ◌||◌, ◌&&◌, Option, none, some, List,
  [], ◌∷◌, string_eq, nat_eq, ◌==◌, ltb, if◌then◌else◌, filter_if, is_some,
}
use distributed_key_value_ca.Prelude.Dict
use distributed_key_value_ca.Prelude.Dict.{Dict}
use distributed_key_value_ca.Cache.Interface.Dispatch
use distributed_key_value_ca.Store
use distributed_key_value_ca.Store.{Store}
use distributed_key_value_ca.Server.Machine.{Database, M, ◌>>=◌, pure, ask, call}
use distributed_key_value_ca.Server.Stores.{expired, get_store, lookup}

-- Python's numbers, where they may be negative
pub data ℤ : Type 0 where
  pos negsuc : ℕ → ℤ

-- `at_ms or now_ms()`
abbrev pub or_now : Option ℕ → ℕ → ℕ
or_now none now = now
or_now (some zero) now = now
or_now (some (suc t)) now = suc t

-- the value of an item that has not expired
unfoldable pub live : ℕ → Option (String × Option ℕ) → Option String
unfolding expired
live at_ms none = none
live at_ms (some (value, expire_at)) = if expired expire_at at_ms then none else some value

-- the whole seconds that are left, rounded up: `-(-(expire_at - now) // 1000)` where it is later
unfoldable pub seconds_left : ℕ → Option (String × Option ℕ) → ℤ
unfolding expired
seconds_left now none = negsuc 1
seconds_left now (some (value, none)) = negsuc 0
seconds_left now (some (value, some expire_at)) =
    if expired (some expire_at) now then negsuc 1 else pos ((expire_at - now + 999) / 1000)

-- the order of texts, by their characters
unfoldable pub text_le : String → String → Bool
text_le String.[] t = true
text_le (String.◌∷◌ c s) String.[] = false
text_le (String.◌∷◌ c s) (String.◌∷◌ d t) =
    ltb (code c) (code d) || (code c == code d && text_le s t)

unfoldable pub insert : String → List String → List String
unfolding text_le
insert key [] = key ∷ []
insert key (k ∷ ks) = let rest = insert key ks in if text_le key k then key ∷ k ∷ ks else k ∷ rest

unfoldable pub sorted : List String → List String
unfolding insert
sorted [] = []
sorted (k ∷ ks) = insert k (sorted ks)

-- the keys in RAM that have not expired
unfoldable pub live_keys : ℕ → Dict String ℕ → List (String × String) → List String
unfolding expired
live_keys now expiry [] = []
live_keys now expiry ((key, value) ∷ items) =
    let rest = live_keys now expiry items in
    if expired (Dict.get key expiry) now then rest else key ∷ rest

-- `if pattern:`
abbrev pub matching : (String → String → Bool) → Option String → List String → List String
matching fnmatch none names = names
matching fnmatch (some pattern) names =
    if pattern == "" then names else filter_if (fnmatch pattern) names

unfoldable pub earliest_in : Option ℕ → Dict String ℕ → Option ℕ
earliest_in earliest [] = earliest
earliest_in none ((key, t) ∷ expiry) = earliest_in (some t) expiry
earliest_in (some first) ((key, t) ∷ expiry) = earliest_in (some (min first t)) expiry

unfoldable pub earliest_of : Option ℕ → Dict String Store → Option ℕ
unfolding earliest_in
earliest_of earliest [] = earliest
earliest_of earliest ((u, s) ∷ stores) = earliest_of (earliest_in earliest s.expiry) stores

module _ {D : Type 0} (db : Database D) (lower : String → String) where
  unfoldable pub user_exists : String → M D Bool
  unfolding get_store
  user_exists username = do store ← get_store db lower username; pure (is_some store)

  -- `check_password` is Django's
  unfoldable pub verify_password : (String → String → Bool) → String → String → M D Bool
  unfolding get_store Store.verify_password
  verify_password check_password username password = do
    store ← get_store db lower username
    pure (elim store [ none ↦ false | some s ↦ Store.verify_password check_password password s ])

  -- `_lookup` for a user who may be unknown
  unfoldable pub find : String → String → M D (Option (String × Option ℕ))
  unfolding get_store lookup
  find username key = do
    store ← get_store db lower username
    elim store [ none ↦ pure none | some s ↦ lookup db lower s username key ]

  unfoldable pub get : String → String → Option ℕ → ℕ → M D (Option String)
  unfolding find live
  get username key at_ms now = do item ← find username key; pure (live (or_now at_ms now) item)

  unfoldable pub has : String → String → ℕ → M D Bool
  unfolding get
  has username key now = do value ← get username key none now; pure (is_some value)

  unfoldable pub ttl : String → String → ℕ → M D ℤ
  unfolding find seconds_left
  ttl username key now = do item ← find username key; pure (seconds_left now item)

  unfoldable pub names_of : String → Store → ℕ → M D (List String)
  unfolding sorted live_keys Dispatch.items
  names_of username s now = do
    use_db ← ask (λ m. m.use_db)
    if use_db
        then call (db.list_keys username now)
        else pure (sorted (live_keys now s.expiry (Dispatch.items s.cache)))

  unfoldable pub keys : (String → String → Bool) → String → Option String → ℕ → M D (List String)
  unfolding get_store names_of
  keys fnmatch username pattern now = do
    store ← get_store db lower username
    elim store [
      | none ↦ pure []
      | some s ↦ do names ← names_of username s now; pure (matching fnmatch pattern names)
    ]

  unfoldable pub next_expiry : M D (Option ℕ)
  unfolding earliest_of
  next_expiry = do
    use_db ← ask (λ m. m.use_db)
    if use_db then call db.next_expiry else ask (λ m. earliest_of none m.stores)
