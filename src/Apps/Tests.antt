-- ===== src/Apps/Tests.antt =====
-- The storage of a node, and the state machine's database, in tables that are lists.
use distributed_key_value_ca.Prelude.{
  string_eq, ◌==◌, ℕ, ◌≡◌, refl, true, arith, String, none, some, List, [], ◌∷◌,
}
use distributed_key_value_ca.Prelude.Dict
use distributed_key_value_ca.Cache.LruCache
use distributed_key_value_ca.Raft.Types.{LogEntry, Member}
use distributed_key_value_ca.Raft.Storage.{RaftStorageLaws}
use distributed_key_value_ca.Apps.Objects.Lists.{lists, lists-laws}
use distributed_key_value_ca.Apps.RaftStorage.{RaftMeta, RaftLogEntry, Tables, load, append, django}
use distributed_key_value_ca.Apps.Service
use distributed_key_value_ca.Apps.Service.{
  Collation, CacheUser, CacheEntry, ClientSession, save_entry, get_entry_with_expiry,
}
use distributed_key_value_ca.Apps.Service.Laws.{get_entry-save_entry}
use distributed_key_value_ca.Apps.Service.Snapshots.{service}
use distributed_key_value_ca.Cache.Interface.{AnyCache, lru_cache}
use distributed_key_value_ca.Cache.Interface.Dispatch
use distributed_key_value_ca.Cache.Interface.Dispatch.{Healthy}
use distributed_key_value_ca.Store.{Store}
use distributed_key_value_ca.Server.Machine.{Machine, Database}
use distributed_key_value_ca.Server.Reads.{find}
use distributed_key_value_ca.Server.View.Warming.{warm_state, find-warmed}
use distributed_key_value_ca.Apps.RaftStorage.Laws.{Sound, django-laws}

-- the members as their own JSON
abbrev same : List Member → List Member
same members = members

abbrev entry : ℕ → LogEntry
entry index = record { term = 1; index = index; command = "NOOP"; username = ""; request_id = "" }

abbrev node : Tables (List (RaftMeta (List Member))) (List RaftLogEntry)
node = record { metas = []; entries = [] }

appended_log :
    (load lists lists same same "n1" (
      append lists lists same same "n1"
        (entry 2 ∷ [])
        (append lists lists same same "n1" (entry 1 ∷ entry 2 ∷ entry 3 ∷ []) node))).log
    ≡ entry 1 ∷ entry 2 ∷ []
unfolding load append
appended_log = refl

django-laws_example :
    RaftStorageLaws (django lists lists same same "n1") (Sound lists lists same same "n1")
django-laws_example = django-laws lists lists same same "n1" lists-laws lists-laws (λ members. refl)

-- the tables of the service as lists, with Ann and her key
abbrev anns : Service.Tables (List CacheUser) (List CacheEntry) (List ClientSession)
anns = record {
  users = record { username = "ann"; password_hash = "h" } ∷ [];
  entries =
      record { user = "ann"; cache_key = "a"; cache_value = "1"; updated_at = 5; expire_at = none }
      ∷ [];
  sessions = [];
  clock = 9;
}

abbrev binary : Collation
binary = record { same_text = (λ a b. a == b); by_text = (λ names. names) }

abbrev unlowered : String → String
unlowered s = s

get_entry-save_entry_example :
    (get_entry_with_expiry lists lists lists binary "ann" "a"
      (save_entry lists lists lists binary "ann" "b" "2" (some 90) anns).1).0
    ≡ (get_entry_with_expiry lists lists lists binary "ann" "a" anns).0
get_entry-save_entry_example =
    get_entry-save_entry lists lists lists binary lists-laws (λ a b. refl) "ann" "b" "2" "ann" "a"
      (some 90) anns refl

-- Ann's store in RAM, without her key
abbrev cold : Store
cold = record {
  username = "ann";
  password_hash = "h";
  cache = lru_cache (record { capacity = 2; entries = []; eviction_count = 1 });
  expiry = [];
}

abbrev on_tables : Database (Service.Tables (List CacheUser) (List CacheEntry) (List ClientSession))
on_tables = service lists lists lists binary

abbrev with_tables :
    Machine (Service.Tables (List CacheUser) (List CacheEntry) (List ClientSession))
with_tables = record {
  use_db = true;
  capacity = 2;
  stores = ("ann", cold) ∷ [];
  sessions = [];
  database = anns;
}

cold-Healthy : Healthy cold.cache
cold-Healthy = record { positive = omega arith; bounded = omega arith; distinct = tt }

find-warmed_example :
    (cache : AnyCache) × Healthy cache
    × ((Dispatch.get "a" cache).0 ≡ some "1")
    × (find on_tables unlowered "ann" "a" with_tables ≡ (
      some (some ("1", none)),
      warm_state on_tables unlowered "ann" "a" none cold cache anns with_tables,
    ))
unfolding Dict.get Dispatch.get LruCache.get get_entry_with_expiry
find-warmed_example =
    find-warmed on_tables unlowered "ann" "a" "1" none cold anns with_tables refl refl cold-Healthy
      refl refl refl
