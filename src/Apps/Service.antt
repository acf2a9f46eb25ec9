-- ===== src/Apps/Service.antt =====
-- apps/users/db_service.py over the tables of apps/users/models.py: the functions that the state machine
-- calls. The tables' managers are parameters, `text` is how the database compares and orders text fields, and
-- `clock` is what `auto_now` reads. An entry names its user by the unique username. Only the errors that
-- the tables themselves raise are modelled: of the database's connection nothing is known.
pub mod Snapshots
pub mod Laws
use distributed_key_value_ca.Prelude.{
  ℕ, String, Bool, true, false, ◌&&◌, ◌||◌, not, Option, none, some, List, [], ◌∷◌, map, reverse,
  take, filter_if, length, min, leb, string_eq, ◌==◌, if◌then◌else◌, is_some,
}
use distributed_key_value_ca.Prelude.Dict
use distributed_key_value_ca.Prelude.Dict.{Dict}
use distributed_key_value_ca.Apps.Objects.{Objects, first_row}
use distributed_key_value_ca.Server.Machine.{Call}

pub record CacheUser : Type 0 where
  pub username : String
  pub password_hash : String

pub record CacheEntry : Type 0 where
  pub user : String
  pub cache_key : String
  pub cache_value : String
  pub updated_at : ℕ
  pub expire_at : Option ℕ

pub record ClientSession : Type 0 where
  pub client_id : String
  pub last_seq : ℕ
  pub result : String
  pub last_index : ℕ

pub record Tables (TU TE TS : Type 0) : Type 0 where
  pub users : TU
  pub entries : TE
  pub sessions : TS
  pub clock : ℕ

-- how the database compares and orders text fields
pub record Collation : Type 0 where
  pub same_text : String → String → Bool
  pub by_text : List String → List String

abbrev pub is_user : Collation → String → CacheUser → Bool
is_user text username u = text.same_text u.username username

-- filter(user__username=username)
abbrev pub of_user : Collation → String → CacheEntry → Bool
of_user text username e = text.same_text e.user username

-- filter(user__username=username, cache_key=key)
abbrev pub is_entry : Collation → String → String → CacheEntry → Bool
is_entry text username key e = of_user text username e && text.same_text e.cache_key key

-- filter(user=user, cache_key=key), by the username of the user's row
abbrev pub is_own : Collation → String → String → CacheEntry → Bool
is_own text username key e = e.user == username && text.same_text e.cache_key key

-- Q(expire_at__lte=now_ms)
abbrev pub is_expired : ℕ → CacheEntry → Bool
is_expired now_ms e = elim e.expire_at [ none ↦ false | some t ↦ leb t now_ms ]

-- {e.cache_key: e.cache_value for e in entries}
unfoldable pub dict_of : List CacheEntry → Dict String String → Dict String String
dict_of [] d = d
dict_of (e ∷ entries) d = dict_of entries (Dict.put e.cache_key e.cache_value d)

-- dict(...values_list("cache_key", "expire_at")) of the rows that have an expiry
unfoldable pub expiries_of : List CacheEntry → Dict String ℕ → Dict String ℕ
expiries_of [] d = d
expiries_of (e ∷ entries) d = elim e.expire_at [
  | none ↦ expiries_of entries d
  | some t ↦ expiries_of entries (Dict.put e.cache_key t d)
]

-- Min("expire_at")
unfoldable pub first_expiry : List CacheEntry → Option ℕ
first_expiry [] = none
first_expiry (e ∷ entries) =
    let rest = first_expiry entries in
    elim e.expire_at [
      | none ↦ rest
      | some t ↦ elim rest [ none ↦ some t | some u ↦ some (min t u) ]
    ]

abbrev pub new_entry : String → String → CacheEntry
new_entry username key = record {
  user = username;
  cache_key = key;
  cache_value = "";
  updated_at = 0;
  expire_at = none;
}

abbrev pub new_session : String → ClientSession
new_session client_id = record { client_id = client_id; last_seq = 0; result = ""; last_index = 0 }

module _ {TU TE TS : Type 0} (users : Objects CacheUser TU) (entries : Objects CacheEntry TE)
    (sessions : Objects ClientSession TS) (text : Collation) where
  abbrev pub D : Type 0
  D = Tables TU TE TS

  abbrev pub find_user : String → D → Option CacheUser
  find_user username d = first_row (is_user text username) (users.rows d.users)

  -- The username is unique: a second one is an IntegrityError.
  unfoldable pub save_user : String → String → Call D (Unit {0})
  save_user username password_hash d = if is_some (find_user username d) then (none, d) else (
    some tt,
    record d {
      users =
          users.bulk_create (record { username = username; password_hash = password_hash } ∷ [])
            d.users;
    },
  )

  unfoldable pub get_user : String → Call D (Option String)
  get_user username d =
      (some (elim (find_user username d) [ none ↦ none | some u ↦ some u.password_hash ]), d)

  unfoldable pub user_exists : String → Call D Bool
  user_exists username d = (some (is_some (find_user username d)), d)

  -- the entry saved with its defaults, and `auto_now`
  abbrev pub put_entry : String → String → String → Option ℕ → D → D
  put_entry username key value expire_at d = record d {
    entries =
        entries.update_or_create (is_own text username key)
          (λ e. record e { cache_value = value; expire_at = expire_at; updated_at = d.clock })
          (new_entry username key) d.entries;
  }

  unfoldable pub save_entry : String → String → String → Option ℕ → Call D (Unit {0})
  save_entry username key value expire_at d = elim (find_user username d) [
    | none ↦ (some tt, d)
    | some user ↦ (some tt, put_entry user.username key value expire_at d)
  ]

  abbrev pub find_entry : String → String → D → Option CacheEntry
  find_entry username key d = first_row (is_entry text username key) (entries.rows d.entries)

  unfoldable pub get_entry : String → String → Call D (Option String)
  get_entry username key d =
      (some (elim (find_entry username key d) [ none ↦ none | some e ↦ some e.cache_value ]), d)

  unfoldable pub get_entry_with_expiry : String → String → Call D (Option (String × Option ℕ))
  get_entry_with_expiry username key d = (
    some (elim (find_entry username key d) [
      | none ↦ none
      | some e ↦ some (e.cache_value, e.expire_at)
    ]),
    d,
  )

  unfoldable pub delete_entry : String → String → Call D Bool
  delete_entry username key d = elim (find_user username d) [
    | none ↦ (some false, d)
    | some user ↦ (
      some (is_some (first_row (is_own text user.username key) (entries.rows d.entries))),
      record d { entries = entries.delete (is_own text user.username key) d.entries },
    )
  ]

  -- `.update(...)`, which does not touch `updated_at`
  unfoldable pub set_expiry : String → String → Option ℕ → Call D Bool
  set_expiry username key expire_at d = (
    some (is_some (find_entry username key d)),
    record d {
      entries =
          entries.update (is_entry text username key) (λ e. record e { expire_at = expire_at })
            d.entries;
    },
  )

  -- the newest `limit` entries, oldest first
  abbrev pub newest : String → ℕ → D → List CacheEntry
  newest username limit d = reverse (
      take limit (
        reverse (
          entries.order_by (λ e. e.updated_at)
            (filter_if (λ e. e.user == username) (entries.rows d.entries)))))

  unfoldable pub get_all_entries : String → ℕ → Call D (Dict String String)
  unfolding dict_of
  get_all_entries username limit d = elim (find_user username d) [
    | none ↦ (some [], d)
    | some user ↦ (some (dict_of (newest user.username limit d) []), d)
  ]

  unfoldable pub get_expiries : String → Call D (Dict String ℕ)
  unfolding expiries_of
  get_expiries username d =
      (some (expiries_of (filter_if (of_user text username) (entries.rows d.entries)) []), d)

  unfoldable pub list_keys : String → ℕ → Call D (List String)
  list_keys username now_ms d = (
    some (
        text.by_text (
          map (λ (e : CacheEntry). e.cache_key)
            (filter_if (λ e. of_user text username e && not (is_expired now_ms e))
              (entries.rows d.entries)))),
    d,
  )

  unfoldable pub delete_expired : ℕ → Call D ℕ
  delete_expired now_ms d = (
    some (length (filter_if (is_expired now_ms) (entries.rows d.entries))),
    record d { entries = entries.delete (is_expired now_ms) d.entries },
  )

  unfoldable pub next_expiry : Call D (Option ℕ)
  unfolding first_expiry
  next_expiry d = (some (first_expiry (entries.rows d.entries)), d)

  unfoldable pub load_all_users : Call D (List (String × String))
  load_all_users d =
      (some (map (λ (u : CacheUser). (u.username, u.password_hash)) (users.rows d.users)), d)

  unfoldable pub load_sessions : Call D (List (String × ℕ × String × ℕ))
  load_sessions d = (
    some (
        map (λ (s : ClientSession). (s.client_id, s.last_seq, s.result, s.last_index))
          (sessions.rows d.sessions)),
    d,
  )

  unfoldable pub save_session : String → ℕ → String → ℕ → Call D (Unit {0})
  save_session client_id seq result_json index d = (
    some tt,
    record d {
      sessions =
          sessions.update_or_create (λ s. text.same_text s.client_id client_id)
            (λ s. record s { last_seq = seq; result = result_json; last_index = index })
            (new_session client_id) d.sessions;
    },
  )

  unfoldable pub delete_session : String → Call D (Unit {0})
  delete_session client_id d = (
    some tt,
    record d { sessions = sessions.delete (λ s. text.same_text s.client_id client_id) d.sessions },
  )
