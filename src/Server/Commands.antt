-- ===== src/Server/Commands.antt =====
-- server/state_machine.py: the commands of committed entries. The database is written before RAM.
pub mod Texts
pub mod Parsing
use distributed_key_value_ca.Prelude.{
  ℕ, zero, suc, ◌+◌, String, Bool, true, false, not, ◌&&◌, Option, none, some, List, [], ◌∷◌,
  string_eq, ◌==◌, leb, if◌then◌else◌, is_some,
}
use distributed_key_value_ca.Prelude.Dict
use distributed_key_value_ca.Prelude.Dict.{Dict}
use distributed_key_value_ca.Cache.Interface.Dispatch
use distributed_key_value_ca.Store
use distributed_key_value_ca.Store.{Store}
use distributed_key_value_ca.Text.{partition, split, split_all}
use distributed_key_value_ca.Text.Numbers.{int}
use distributed_key_value_ca.Raft.Types.{LogEntry}
use distributed_key_value_ca.Server.Machine.{
  Machine, Value, bool, number, null, Database, M, ◌>>=◌, ◌>>◌, pure, lift, ask, call, save,
  replace_stores,
}
use distributed_key_value_ca.Server.Stores.{expired, timed, remember, get_store, lookup}

-- a key that is deleted from RAM, and whether the cache had it
unfoldable pub dropped : String → Store → Bool × Store
dropped key s =
    let (existed, cache) = Dispatch.delete key s.cache in
    (existed, record s { cache = cache; expiry = Dict.remove key s.expiry })

-- the keys of one store that have expired, and how many of them the cache had
unfoldable pub swept : ℕ → Dict String ℕ → Store → ℕ × Store
unfolding dropped
swept at_ms [] s = (0, s)
swept at_ms ((key, expire_at) ∷ expiry) s =
    let (gone, s') = if leb expire_at at_ms then dropped key s else (false, s) in
    let (n, s'') = swept at_ms expiry s' in (if gone then suc n else n, s'')

unfoldable pub sweep_all : ℕ → Dict String Store → Dict String Store
unfolding swept
sweep_all at_ms [] = []
sweep_all at_ms ((u, s) ∷ stores) = (u, (swept at_ms s.expiry s).1) ∷ sweep_all at_ms stores

unfoldable pub count_swept : ℕ → Dict String Store → ℕ → ℕ
unfolding swept
count_swept at_ms [] n = n
count_swept at_ms ((u, s) ∷ stores) n = count_swept at_ms stores (n + (swept at_ms s.expiry s).0)

-- the three parts of a text, or the ValueError of the assignment
abbrev pub three : List String → Option (String × String × String)
three (a ∷ b ∷ c ∷ []) = some (a, b, c)
three _ = none

abbrev pub two : List String → Option (String × String)
two (a ∷ b ∷ []) = some (a, b)
two _ = none

-- `at_ms is not None and _expired(expire_at, at_ms)`
abbrev pub gone_by : Option ℕ → Option ℕ → Bool
gone_by expire_at none = false
gone_by expire_at (some at_ms) = expired expire_at at_ms

abbrev pub existed_at : Option ℕ → Option (String × Option ℕ) → Bool
existed_at at_ms none = false
existed_at at_ms (some (value, expire_at)) = not (gone_by expire_at at_ms)

-- PERSIST, on a key that never expires
abbrev pub forever : Option ℕ → Option ℕ → Bool
forever expire_at old = not (is_some expire_at) && not (is_some old)

-- `int(now) if now else None`
abbrev pub optional_int : String → Option (Option ℕ)
optional_int now =
    if now == "" then some none else elim (int now) [ none ↦ none | some n ↦ some (some n) ]

module _ {D : Type 0} (db : Database D) (lower : String → String) where
  -- `_apply_signup`
  unfoldable pub apply_signup : String → String → M D Value
  unfolding get_store Store.init save
  apply_signup username password_hash = do
    there ← get_store db lower username
    elim there [
      | some _ ↦ pure (bool false)
      | none ↦ do
        use_db ← ask (λ m. m.use_db)
        if use_db then call (db.save_user username password_hash) else pure tt
        capacity ← ask (λ m. m.capacity)
        store ← lift (Store.init lower username password_hash capacity)
        save username store
        pure (bool true)
    ]

  -- `_apply_set`, where the user is known
  unfoldable pub set_in : Store → String → String → String → Option ℕ → M D Value
  unfolding remember save
  set_in s username key value expire_at = do
    use_db ← ask (λ m. m.use_db)
    if use_db then call (db.save_entry username key value expire_at) else pure tt
    written ← lift (remember key value expire_at s)
    save username written
    pure (bool true)

  -- `_apply_set`
  unfoldable pub apply_set : String → String → String → Option ℕ → M D Value
  unfolding get_store set_in
  apply_set username key value expire_at = do
    there ← get_store db lower username
    elim there [ none ↦ pure (bool false) | some s ↦ set_in s username key value expire_at ]

  -- `store` is the object that `_lookup` has changed
  abbrev pub current : String → Store → M D Store
  current username s = ask (λ m. elim (Dict.get username m.stores) [ none ↦ s | some s' ↦ s' ])

  -- `_apply_delete`, where the user is known
  unfoldable pub delete_in : Store → String → String → Option ℕ → M D Value
  unfolding lookup dropped save
  delete_in s username key at_ms = do
    item ← lookup db lower s username key
    use_db ← ask (λ m. m.use_db)
    _ ← if use_db then call (db.delete_entry username key) else pure false
    s' ← current username s
    save username (dropped key s').1
    pure (bool (existed_at at_ms item))

  -- `_apply_delete`
  unfoldable pub apply_delete : String → String → Option ℕ → M D Value
  unfolding get_store delete_in
  apply_delete username key at_ms = do
    there ← get_store db lower username
    elim there [ none ↦ pure (bool false) | some s ↦ delete_in s username key at_ms ]

  -- `_apply_expiry`, on a key that is there
  unfoldable pub expire_in : Store → String → String → Option ℕ → M D Value
  unfolding save
  expire_in s username key expire_at = do
    use_db ← ask (λ m. m.use_db)
    _ ← if use_db then call (db.set_expiry username key expire_at) else pure false
    s' ← current username s
    save username (record s' { expiry = timed key expire_at s'.expiry })
    pure (bool true)

  -- `_apply_expiry`, on what `_lookup` has found
  unfoldable pub expire_item :
      Store → String → String → Option ℕ → ℕ → String × Option ℕ → M D Value
  unfolding expire_in expired
  expire_item s username key expire_at at_ms (value, old) =
      if expired old at_ms
      then pure (bool false)
      else if forever expire_at old
      then pure (bool false)
      else expire_in s username key expire_at

  -- `_apply_expiry`
  unfoldable pub apply_expiry : String → String → Option ℕ → ℕ → M D Value
  unfolding get_store lookup expire_item
  apply_expiry username key expire_at at_ms = do
    there ← get_store db lower username
    elim there [
      | none ↦ pure (bool false)
      | some s ↦ do
        item ← lookup db lower s username key
        elim item [
          | none ↦ pure (bool false)
          | some found ↦ expire_item s username key expire_at at_ms found
        ]
    ]

  -- `_apply_sweep`
  unfoldable pub apply_sweep : ℕ → M D Value
  unfolding sweep_all count_swept
  apply_sweep at_ms = do
    use_db ← ask (λ m. m.use_db)
    removed ← if use_db then call (db.delete_expired at_ms) else pure 0
    stores ← ask (λ m. m.stores)
    replace_stores (sweep_all at_ms stores)
    pure (number (if use_db then removed else count_swept at_ms stores removed))

  unfoldable pub run_set : String → String → M D Value
  unfolding apply_set partition
  run_set user rest = let (key, value) = partition b' ' rest in apply_set user key value none

  unfoldable pub run_setex : String → String → M D Value
  unfolding apply_set split int
  run_setex user rest = do
    (key, expire_at, value) ← lift (three (split b' ' 2 rest))
    t ← lift (int expire_at)
    apply_set user key value (some t)

  unfoldable pub run_delete : String → String → M D Value
  unfolding apply_delete partition int
  run_delete user rest = do
    let (key, now) = partition b' ' rest
    at_ms ← lift (optional_int now)
    apply_delete user key at_ms

  unfoldable pub run_expireat : String → String → M D Value
  unfolding apply_expiry split_all int
  run_expireat user rest = do
    (key, expire_at, now) ← lift (three (split_all b' ' rest))
    t ← lift (int expire_at)
    at_ms ← lift (int now)
    apply_expiry user key (some t) at_ms

  unfoldable pub run_persist : String → String → M D Value
  unfolding apply_expiry split_all int
  run_persist user rest = do
    (key, now) ← lift (two (split_all b' ' rest))
    at_ms ← lift (int now)
    apply_expiry user key none at_ms

  unfoldable pub run_sweep : String → M D Value
  unfolding apply_sweep int
  run_sweep rest = do at_ms ← lift (int rest); apply_sweep at_ms

  -- the command of a verb
  unfoldable pub run : String → String → String → M D Value
  unfolding apply_signup run_set run_setex run_delete run_expireat run_persist run_sweep
  run verb user rest =
      if verb == "SIGNUP"
      then apply_signup user rest
      else if verb == "SET"
      then run_set user rest
      else if verb == "SETEX"
      then run_setex user rest
      else if verb == "DELETE"
      then run_delete user rest
      else if verb == "EXPIREAT"
      then run_expireat user rest
      else if verb == "PERSIST"
      then run_persist user rest
      else if verb == "SWEEP"
      then run_sweep rest
      else pure null

  -- `_apply_command`
  unfoldable pub apply_command : LogEntry → M D Value
  unfolding run partition
  apply_command entry =
      let (verb, rest) = partition b' ' entry.command in run verb entry.username rest
