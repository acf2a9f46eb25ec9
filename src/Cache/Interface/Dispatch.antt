-- ===== src/Cache/Interface/Dispatch.antt =====
-- The calls of a cache that the factory made: the method of its class is taken.
pub mod Kept
use distributed_key_value_ca.Prelude.{ℕ, String, Bool, Option, none, some, List}
use distributed_key_value_ca.Cache.PlainCache
use distributed_key_value_ca.Cache.PlainCache.{PlainCache}
use distributed_key_value_ca.Cache.LruCache
use distributed_key_value_ca.Cache.Capacity.{WellFormed}
use distributed_key_value_ca.Cache.Interface.{Cache, AnyCache, basic_cache, lru_cache, made}

-- the cache after a `set`, or its error
abbrev pub made_basic : Option PlainCache → Option AnyCache
made_basic none = none
made_basic (some c) = some (basic_cache c)

unfoldable pub set : String → String → AnyCache → Option AnyCache
set key value (basic_cache c) = made_basic (PlainCache.set key value c)
set key value (lru_cache c) = made (LruCache.set key value c)

unfoldable pub get : String → AnyCache → Option String × AnyCache
get key (basic_cache c) = (PlainCache.get key c, basic_cache c)
get key (lru_cache c) = ((LruCache.get key c).0, lru_cache (LruCache.get key c).1)

unfoldable pub delete : String → AnyCache → Bool × AnyCache
delete key (basic_cache c) = ((PlainCache.delete key c).0, basic_cache (PlainCache.delete key c).1)
delete key (lru_cache c) = ((LruCache.delete key c).0, lru_cache (LruCache.delete key c).1)

unfoldable pub items : AnyCache → List (String × String)
items (basic_cache c) = PlainCache.items c
items (lru_cache c) = LruCache.items c

unfoldable pub has : String → AnyCache → Bool
has key (basic_cache c) = PlainCache.has key c
has key (lru_cache c) = LruCache.has key c

unfoldable pub clear : AnyCache → AnyCache
clear (basic_cache c) = basic_cache (PlainCache.clear c)
clear (lru_cache c) = lru_cache (LruCache.clear c)

unfoldable pub size : AnyCache → ℕ
size (basic_cache c) = PlainCache.size c
size (lru_cache c) = LruCache.size c

abbrev pub dispatch : Cache AnyCache
dispatch = record {
  set = set;
  get = get;
  has = has;
  delete = delete;
  clear = clear;
  size = size;
  items = items;
}

-- what the cache keeps true of itself
abbrev pub Healthy : AnyCache → Type 0
Healthy (basic_cache c) = Unit
Healthy (lru_cache c) = WellFormed c
