-- ===== src/Cache/Interface.antt =====
-- cache/cache_interface.py: the abstract class as a record of operations over a type of caches, and
-- what the methods' docs promise. cache/__init__.py: the factory.
pub mod Laws
pub mod Dispatch
use distributed_key_value_ca.Prelude.{
  ℕ, String, Bool, true, false, Option, none, some, List, string_eq, ◌==◌, if◌then◌else◌, ◌≡◌,
  length, is_some,
}
use distributed_key_value_ca.Prelude.Dict
use distributed_key_value_ca.Cache.PlainCache
use distributed_key_value_ca.Cache.PlainCache.{PlainCache}
use distributed_key_value_ca.Cache.LruCache
use distributed_key_value_ca.Cache.LruCache.{LruCache}

-- A `set` under a bad key raises; a `get` may change the cache.
pub record Cache (C : Type 0) : Type 0 where
  pub set : String → String → C → Option C
  pub get : String → C → Option String × C
  pub has : String → C → Bool
  pub delete : String → C → Bool × C
  pub clear : C → C
  pub size : C → ℕ
  pub items : C → List (String × String)

abbrev pub plain : Cache PlainCache
plain = record {
  set = PlainCache.set;
  get = (λ key c. (PlainCache.get key c, c));
  has = PlainCache.has;
  delete = PlainCache.delete;
  clear = PlainCache.clear;
  size = PlainCache.size;
  items = PlainCache.items;
}

abbrev pub lru : Cache LruCache
lru = record {
  set = LruCache.set;
  get = LruCache.get;
  has = LruCache.has;
  delete = LruCache.delete;
  clear = LruCache.clear;
  size = LruCache.size;
  items = LruCache.items;
}

-- What the factory makes.
pub data AnyCache : Type 0 where
  basic_cache : PlainCache → AnyCache
  lru_cache : LruCache → AnyCache

-- the value of an `LRUCache`, or its error
abbrev pub made : Option LruCache → Option AnyCache
made none = none
made (some c) = some (lru_cache c)

-- `CacheFactory.create`, with the ValueErrors as `none`; `lower` is `str.lower`
unfoldable pub create : (String → String) → String → ℕ → Option AnyCache
create lower cache_type capacity =
    if lower cache_type == "lru"
    then made (LruCache.init capacity)
    else if lower cache_type == "basic"
    then some (basic_cache PlainCache.init)
    else none

-- What a client of any cache may rely on. `Valid` is what a cache keeps true of itself.
pub record CacheLaws {C : Type 0} (cache : Cache C) (Valid : C → Type 0) : Type 0 where
  pub set-empty : (value : String) (c : C) → cache.set "" value c ≡ none
  pub set-some :
      (key value : String) (c : C)
      → Valid c
      → (key == "") ≡ false
      → (c' : C) × (cache.set key value c ≡ some c')
        × Valid c'
        × ((cache.get key c').0 ≡ some value)
  pub get-Valid : (key : String) (c : C) → Valid c → Valid (cache.get key c).1
  pub get-get :
      (key j : String) (c : C) → Valid c → (cache.get j (cache.get key c).1).0 ≡ (cache.get j c).0
  pub has-get : (key : String) (c : C) → Valid c → cache.has key c ≡ is_some (cache.get key c).0
  pub delete-has : (key : String) (c : C) → (cache.delete key c).0 ≡ cache.has key c
  pub delete-Valid : (key : String) (c : C) → Valid c → Valid (cache.delete key c).1
  pub get-delete :
      (key j : String) (c : C)
      → Valid c
      → (cache.get j (cache.delete key c).1).0 ≡ (if key == j then none else (cache.get j c).0)
  pub clear-Valid : (c : C) → Valid c → Valid (cache.clear c)
  pub get-clear : (key : String) (c : C) → (cache.get key (cache.clear c)).0 ≡ none
  pub get-items :
      (key : String) (c : C) → Valid c → (cache.get key c).0 ≡ Dict.get key (cache.items c)
  pub size-items : (c : C) → cache.size c ≡ length (cache.items c)
