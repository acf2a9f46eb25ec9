-- ===== src/Server/Tests.antt =====
-- The state machine of server/ on small inputs, without a database and with one that fails.
pub mod Requests
pub mod Views
pub mod Handlers
use distributed_key_value_ca.Prelude.{
  ℕ, ◌≡◌, ◌<◌, ◌≤◌, refl, String, Bool, true, false, Option, none, some, [], ◌∷◌, arith, string_eq,
  length, if◌then◌else◌, ◌==◌,
}
use distributed_key_value_ca.Prelude.Dict
use distributed_key_value_ca.Raft.Types.{LogEntry}
use distributed_key_value_ca.Cache.LruCache
use distributed_key_value_ca.Cache.Interface.{AnyCache, lru_cache}
use distributed_key_value_ca.Cache.Interface.Dispatch
use distributed_key_value_ca.Store.{Store}
use distributed_key_value_ca.Text.Numbers.{str, int}
use distributed_key_value_ca.Text.Laws.{int-str}
use distributed_key_value_ca.Server.Machine.{Machine, Value, bool, number, null, Database}
use distributed_key_value_ca.Server.Sessions.{max_sessions, apply}
use distributed_key_value_ca.Server.Sessions.Retries.{apply_retry, apply_seen}
use distributed_key_value_ca.Server.Sessions.Limit.{length-apply}
use distributed_key_value_ca.Server.Reads.{get, ttl, keys, pos, negsuc}

-- a database that cannot be reached
abbrev pub no_database : Database (Unit {0})
no_database = record {
  save_user = (λ u h d. (none, d));
  get_user = (λ u d. (none, d));
  save_entry = (λ u k v e d. (none, d));
  get_entry_with_expiry = (λ u k d. (none, d));
  delete_entry = (λ u k d. (none, d));
  set_expiry = (λ u k e d. (none, d));
  get_all_entries = (λ u n d. (none, d));
  get_expiries = (λ u d. (none, d));
  list_keys = (λ u n d. (none, d));
  delete_expired = (λ n d. (none, d));
  next_expiry = (λ d. (none, d));
  load_all_users = (λ d. (none, d));
  load_sessions = (λ d. (none, d));
  save_session = (λ c n r i d. (none, d));
  delete_session = (λ c d. (none, d));
  dump_to = (λ d. (none, d));
  replace_from = (λ rows d. (none, d));
}

-- one that saves entries and nothing else
abbrev pub half_database : Database (Unit {0})
half_database = record no_database { save_entry = (λ u k v e d. (some tt, d)) }

abbrev pub same : String → String
same s = s

abbrev pub written : ℕ → String → String → LogEntry
written index command request_id = record {
  term = 1;
  index = index;
  command = command;
  username = "ann";
  request_id = request_id;
}

abbrev pub empty : Machine (Unit {0})
empty = record { use_db = false; capacity = 2; stores = []; sessions = []; database = tt }

abbrev pub anns_cache : AnyCache
anns_cache = lru_cache (record { capacity = 2; entries = ("a", "1") ∷ []; eviction_count = 0 })

abbrev pub anns_store : Store
anns_store = record {
  username = "ann";
  password_hash = "hash";
  cache = anns_cache;
  expiry = ("a", 50) ∷ [];
}

abbrev pub with_ann : Bool → Machine (Unit {0})
with_ann use_db = record {
  use_db = use_db;
  capacity = 2;
  stores = ("ann", anns_store) ∷ [];
  sessions = ("c", (3, bool true, 7)) ∷ [];
  database = tt;
}
