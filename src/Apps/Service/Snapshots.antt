-- ===== src/Apps/Service/Snapshots.antt =====
-- apps/users/db_service.py: `dump_to` and `replace_from`. A snapshot is the list of its rows, and its
-- transaction is one step: an exception leaves the tables as they were. The keys of the rows are
-- distinct, as those of the tables that they come from, so that no row is refused for its key.
use distributed_key_value_ca.Prelude.{
  ℕ, String, true, Option, none, some, List, [], ◌∷◌, ◌++◌, map, length, leb, string_eq,
  if◌then◌else◌,
}
use distributed_key_value_ca.Prelude.Dict
use distributed_key_value_ca.Prelude.Dict.{Dict}
use distributed_key_value_ca.Apps.Objects.{Objects}
use distributed_key_value_ca.Server.Machine.{Call, Row, user_row, entry_row, session_row, Database}
use distributed_key_value_ca.Apps.Service.{Collation, CacheUser, CacheEntry, ClientSession, Tables}
use distributed_key_value_ca.Apps.Service

abbrev pub batch_size : ℕ
batch_size = 1000

-- what `replace_from` holds between two lines: the rows that wait for their batch, the names that have
-- an id, and the tables
pub record Loading (D : Type 0) : Type 0 where
  pub new_users : List CacheUser
  pub new_entries : List CacheEntry
  pub new_sessions : List ClientSession
  pub user_ids : Dict String (Unit {0})
  pub tables : D

-- `user_ids.update(...)`
unfoldable pub with_ids : List CacheUser → Dict String (Unit {0}) → Dict String (Unit {0})
with_ids [] ids = ids
with_ids (u ∷ us) ids = with_ids us (Dict.put u.username tt ids)

abbrev pub user_of : CacheUser → Row
user_of u = user_row u.username u.password_hash

abbrev pub entry_of : CacheEntry → Row
entry_of e = entry_row e.user e.cache_key e.cache_value e.expire_at

abbrev pub session_of : ClientSession → Row
session_of s = session_row s.client_id s.last_seq s.result s.last_index

module _ {TU TE TS : Type 0} (users : Objects CacheUser TU) (entries : Objects CacheEntry TE)
    (sessions : Objects ClientSession TS) (text : Collation) where
  abbrev pub Load : Type 0
  Load = Loading (Tables TU TE TS)

  unfoldable pub dump_to : Call (Tables TU TE TS) (List Row)
  dump_to d = (
    some (
        map user_of (users.rows d.users)
        ++ map entry_of (entries.order_by (λ e. e.updated_at) (entries.rows d.entries))
        ++ map session_of (sessions.rows d.sessions)),
    d,
  )

  unfoldable pub flush_users : Load → Load
  unfolding with_ids
  flush_users l = record l {
    tables = record l.tables { users = users.bulk_create l.new_users l.tables.users };
    user_ids = with_ids l.new_users l.user_ids;
    new_users = [];
  }

  unfoldable pub flush_entries : Load → Load
  flush_entries l = record l {
    tables = record l.tables { entries = entries.bulk_create l.new_entries l.tables.entries };
    new_entries = [];
  }

  unfoldable pub flush_sessions : Load → Load
  flush_sessions l = record l {
    tables = record l.tables { sessions = sessions.bulk_create l.new_sessions l.tables.sessions };
    new_sessions = [];
  }

  -- `if users: flush_users()`
  unfoldable pub flush_waiting : Load → Load
  unfolding flush_users
  flush_waiting l = elim l.new_users [ [] ↦ l | _ ∷ _ ↦ flush_users l ]

  unfoldable pub add_user : String → String → Load → Load
  unfolding flush_users
  add_user u h l =
      let more : Load = record l {
        new_users = l.new_users ++ record { username = u; password_hash = h } ∷ [];
      } in
      if leb batch_size (length more.new_users) then flush_users more else more

  -- an entry of a user who has an id; `none` is the KeyError
  unfoldable pub add_entry : CacheEntry → Load → Option Load
  unfolding flush_entries
  add_entry e l =
      let more : Load = record l { new_entries = l.new_entries ++ e ∷ [] } in
      let full = if leb batch_size (length more.new_entries) then flush_entries more else more in
      if Dict.contains e.user l.user_ids then some full else none

  unfoldable pub add_session : ClientSession → Load → Load
  unfolding flush_sessions
  add_session s l =
      let more : Load = record l { new_sessions = l.new_sessions ++ s ∷ [] } in
      if leb batch_size (length more.new_sessions) then flush_sessions more else more

  -- one line of the snapshot; `auto_now` reads the clock
  unfoldable pub load_row : Row → Load → Option Load
  unfolding add_user add_entry add_session flush_waiting
  load_row (user_row u h) l = some (add_user u h l)
  load_row (entry_row u key value expire_at) l =
      add_entry
        (record {
          user = u;
          cache_key = key;
          cache_value = value;
          updated_at = l.tables.clock;
          expire_at = expire_at;
        })
        (flush_waiting l)
  load_row (session_row client_id seq text index) l = some (
      add_session
        (record { client_id = client_id; last_seq = seq; result = text; last_index = index }) l)

  unfoldable pub load_rows : List Row → Load → Option Load
  unfolding load_row
  load_rows [] l = some l
  load_rows (row ∷ rows) l = elim (load_row row l) [ none ↦ none | some l' ↦ load_rows rows l' ]

  -- all rows of the three tables deleted
  abbrev pub cleared : Tables TU TE TS → Load
  cleared d = record {
    new_users = [];
    new_entries = [];
    new_sessions = [];
    user_ids = [];
    tables = record d {
      users = users.delete (λ u. true) d.users;
      entries = entries.delete (λ e. true) d.entries;
      sessions = sessions.delete (λ s. true) d.sessions;
    };
  }

  abbrev pub finish : Load → Load
  finish l = flush_sessions (flush_entries (flush_waiting l))

  unfoldable pub replace_from : List Row → Call (Tables TU TE TS) ℕ
  unfolding load_rows flush_waiting flush_entries flush_sessions
  replace_from rows d = elim (load_rows rows (cleared d)) [
    | none ↦ (none, d)
    | some l ↦ (some (length (finish l).user_ids), (finish l).tables)
  ]

  -- the functions that the state machine imports
  abbrev pub service : Database (Tables TU TE TS)
  service = record {
    save_user = Service.save_user users entries sessions text;
    get_user = Service.get_user users entries sessions text;
    save_entry = Service.save_entry users entries sessions text;
    get_entry_with_expiry = Service.get_entry_with_expiry users entries sessions text;
    delete_entry = Service.delete_entry users entries sessions text;
    set_expiry = Service.set_expiry users entries sessions text;
    get_all_entries = Service.get_all_entries users entries sessions text;
    get_expiries = Service.get_expiries users entries sessions text;
    list_keys = Service.list_keys users entries sessions text;
    delete_expired = Service.delete_expired users entries sessions text;
    next_expiry = Service.next_expiry users entries sessions text;
    load_all_users = Service.load_all_users users entries sessions text;
    load_sessions = Service.load_sessions users entries sessions text;
    save_session = Service.save_session users entries sessions text;
    delete_session = Service.delete_session users entries sessions text;
    dump_to = dump_to;
    replace_from = replace_from;
  }
