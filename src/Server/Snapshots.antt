-- ===== src/Server/Snapshots.antt =====
-- server/state_machine.py: a snapshot of the whole state, its restoration, and the start from the
-- database. A line is the row that its JSON holds, so that no line is blank.
use distributed_key_value_ca.Prelude.{
  ℕ, String, Option, none, some, List, [], ◌∷◌, ◌++◌, string_eq, if◌then◌else◌,
}
use distributed_key_value_ca.Prelude.Dict
use distributed_key_value_ca.Prelude.Dict.{Dict}
use distributed_key_value_ca.Cache.Interface.Dispatch
use distributed_key_value_ca.Store
use distributed_key_value_ca.Store.{Store}
use distributed_key_value_ca.Server.Machine.{
  Session, Row, user_row, entry_row, session_row, Database, M, ◌>>=◌, ◌>>◌, pure, lift, ask, call,
  replace_stores, replace_sessions,
}
use distributed_key_value_ca.Server.Stores.{read_store}
use distributed_key_value_ca.Server.Sessions.{dumps, loads}

unfoldable pub user_rows : Dict String Store → List Row
user_rows [] = []
user_rows ((u, s) ∷ stores) = user_row s.username s.password_hash ∷ user_rows stores

unfoldable pub rows_of : Store → List (String × String) → List Row
rows_of s [] = []
rows_of s ((key, value) ∷ items) =
    entry_row s.username key value (Dict.get key s.expiry) ∷ rows_of s items

unfoldable pub entry_rows : Dict String Store → List Row
unfolding rows_of Dispatch.items
entry_rows [] = []
entry_rows ((u, s) ∷ stores) = rows_of s (Dispatch.items s.cache) ++ entry_rows stores

unfoldable pub session_rows : Dict String Session → List Row
unfolding dumps
session_rows [] = []
session_rows ((client, (seq, result, index)) ∷ sessions) =
    session_row client seq (dumps result) index ∷ session_rows sessions

-- the two dicts that `restore` fills
abbrev pub Tables : Type 0
Tables = Dict String Store × Dict String Session

-- `if expire_at is not None: store.expiry[key] = expire_at`
abbrev pub expiring : String → Option ℕ → Dict String ℕ → Dict String ℕ
expiring key none expiry = expiry
expiring key (some t) expiry = Dict.put key t expiry

-- one entry put into its user's store; `none` is the KeyError of an unknown user, or the cache's error
unfoldable pub restore_entry :
    String → String → String → Option ℕ → Dict String Store → Option (Dict String Store)
restore_entry username key value expire_at stores = elim (Dict.get username stores) [
  | none ↦ none
  | some s ↦ elim (Dispatch.set key value s.cache) [
    | none ↦ none
    | some cache ↦ some (
        Dict.put username (record s { cache = cache; expiry = expiring key expire_at s.expiry })
          stores)
  ]
]

module _ (lower : String → String) where
  unfoldable pub restore_row : ℕ → Row → Tables → Option Tables
  unfolding Store.init restore_entry loads
  restore_row capacity (user_row u h) (stores, sessions) = elim (Store.init lower u h capacity) [
    | none ↦ none
    | some s ↦ some (Dict.put u s stores, sessions)
  ]
  restore_row capacity (entry_row u key value expire_at) (stores, sessions) =
      elim (restore_entry u key value expire_at stores) [
        | none ↦ none
        | some stores' ↦ some (stores', sessions)
      ]
  restore_row capacity (session_row client seq text index) (stores, sessions) = elim (loads text) [
    | none ↦ none
    | some result ↦ some (stores, Dict.put client (seq, result, index) sessions)
  ]

  -- the loop over the lines
  unfoldable pub restore_rows : ℕ → List Row → Tables → Option Tables
  unfolding restore_row
  restore_rows capacity [] tables = some tables
  restore_rows capacity (row ∷ rows) tables = elim (restore_row capacity row tables) [
    | none ↦ none
    | some tables' ↦ restore_rows capacity rows tables'
  ]

-- the sessions that the database has
unfoldable pub load_all :
    List (String × ℕ × String × ℕ) → Dict String Session → Option (Dict String Session)
unfolding loads
load_all [] sessions = some sessions
load_all ((client, seq, text, index) ∷ rows) sessions = elim (loads text) [
  | none ↦ none
  | some result ↦ load_all rows (Dict.put client (seq, result, index) sessions)
]

module _ {D : Type 0} (db : Database D) (lower : String → String) where
  unfoldable pub load_stores : List (String × String) → Dict String Store → M D (Dict String Store)
  unfolding read_store
  load_stores [] stores = pure stores
  load_stores ((u, h) ∷ users) stores = do
    s ← read_store db lower u h
    load_stores users (Dict.put u s stores)

  -- `load_from_db`; a StateLoadError stands for any exception
  unfoldable pub load_from_db : M D (Unit {0})
  unfolding load_stores load_all replace_stores replace_sessions
  load_from_db = do
    users ← call db.load_all_users
    stores ← load_stores users []
    rows ← call db.load_sessions
    sessions ← lift (load_all rows [])
    replace_stores stores
    replace_sessions sessions

  unfoldable pub snapshot : M D (List Row)
  unfolding user_rows entry_rows session_rows
  snapshot = do
    use_db ← ask (λ m. m.use_db)
    if use_db
        then call db.dump_to
        else ask (λ m. user_rows m.stores ++ entry_rows m.stores ++ session_rows m.sessions)

  unfoldable pub restore : List Row → M D (Unit {0})
  unfolding load_from_db restore_rows replace_stores replace_sessions
  restore rows = do
    use_db ← ask (λ m. m.use_db)
    capacity ← ask (λ m. m.capacity)
    if use_db then (do _ ← call (db.replace_from rows); load_from_db) else (do
      (stores, sessions) ← lift (restore_rows lower capacity rows ([], []))
      replace_stores stores
      replace_sessions sessions)
