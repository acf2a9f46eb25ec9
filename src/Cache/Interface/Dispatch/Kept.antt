-- ===== src/Cache/Interface/Dispatch/Kept.antt =====
-- A cache that the factory made keeps what cache/cache_interface.py promises.
use distributed_key_value_ca.Prelude.{
  ◌≡◌, ap, String, false, none, some, string_eq, ◌==◌, if◌then◌else◌, is_some, length,
}
use distributed_key_value_ca.Prelude.Dict
use distributed_key_value_ca.Cache.Interface.{CacheLaws, AnyCache, basic_cache, lru_cache, made}
use distributed_key_value_ca.Cache.Interface.Laws.{plain-laws, lru-laws}
use distributed_key_value_ca.Cache.Interface.Dispatch.{
  made_basic, set, get, has, delete, clear, size, items, dispatch, Healthy,
}

set-empty_any : (value : String) (c : AnyCache) → set "" value c ≡ none
unfolding set
set-empty_any value (basic_cache c) = ap made_basic (plain-laws.set-empty value c)
set-empty_any value (lru_cache c) = ap made (lru-laws.set-empty value c)

set-some_any :
    (key value : String) (c : AnyCache)
    → Healthy c
    → (key == "") ≡ false
    → (c' : AnyCache) × (set key value c ≡ some c') × Healthy c' × ((get key c').0 ≡ some value)
unfolding set get
set-some_any key value (basic_cache c) w named =
    let (c', done, valid, found) = plain-laws.set-some key value c w named in
    (basic_cache c', ap made_basic done, tt, found)
set-some_any key value (lru_cache c) w named =
    let (c', done, valid, found) = lru-laws.set-some key value c w named in
    (lru_cache c', ap made done, valid, found)

pub get-Healthy : (key : String) (c : AnyCache) → Healthy c → Healthy (get key c).1
unfolding get
get-Healthy key (basic_cache c) w = tt
get-Healthy key (lru_cache c) w = lru-laws.get-Valid key c w

pub get-get : (key j : String) (c : AnyCache) → Healthy c → (get j (get key c).1).0 ≡ (get j c).0
unfolding get
get-get key j (basic_cache c) w = plain-laws.get-get key j c w
get-get key j (lru_cache c) w = lru-laws.get-get key j c w

delete-Healthy : (key : String) (c : AnyCache) → Healthy c → Healthy (delete key c).1
unfolding delete
delete-Healthy key (basic_cache c) w = tt
delete-Healthy key (lru_cache c) w = lru-laws.delete-Valid key c w

get-delete :
    (key j : String) (c : AnyCache)
    → Healthy c
    → (get j (delete key c).1).0 ≡ (if key == j then none else (get j c).0)
unfolding get delete
get-delete key j (basic_cache c) w = plain-laws.get-delete key j c w
get-delete key j (lru_cache c) w = lru-laws.get-delete key j c w

has-get : (key : String) (c : AnyCache) → Healthy c → has key c ≡ is_some (get key c).0
unfolding has get
has-get key (basic_cache c) w = plain-laws.has-get key c w
has-get key (lru_cache c) w = lru-laws.has-get key c w

delete-has : (key : String) (c : AnyCache) → (delete key c).0 ≡ has key c
unfolding has delete
delete-has key (basic_cache c) = plain-laws.delete-has key c
delete-has key (lru_cache c) = lru-laws.delete-has key c

clear-Healthy : (c : AnyCache) → Healthy c → Healthy (clear c)
unfolding clear
clear-Healthy (basic_cache c) w = tt
clear-Healthy (lru_cache c) w = lru-laws.clear-Valid c w

get-clear : (key : String) (c : AnyCache) → (get key (clear c)).0 ≡ none
unfolding get clear
get-clear key (basic_cache c) = plain-laws.get-clear key c
get-clear key (lru_cache c) = lru-laws.get-clear key c

get-items : (key : String) (c : AnyCache) → Healthy c → (get key c).0 ≡ Dict.get key (items c)
unfolding get items
get-items key (basic_cache c) w = plain-laws.get-items key c w
get-items key (lru_cache c) w = lru-laws.get-items key c w

size-items : (c : AnyCache) → size c ≡ length (items c)
unfolding size items
size-items (basic_cache c) = plain-laws.size-items c
size-items (lru_cache c) = lru-laws.size-items c

-- A cache that the factory made keeps the laws of the interface, while it is healthy: an LRU
-- cache has to be well-formed.
pub dispatch-laws : CacheLaws dispatch Healthy
dispatch-laws = record {
  set-empty = set-empty_any;
  set-some = set-some_any;
  get-Valid = get-Healthy;
  get-get = get-get;
  has-get = has-get;
  delete-has = delete-has;
  delete-Valid = delete-Healthy;
  get-delete = get-delete;
  clear-Valid = clear-Healthy;
  get-clear = get-clear;
  get-items = get-items;
  size-items = size-items;
}
