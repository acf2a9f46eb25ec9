-- ===== src/Cache/Tests.antt =====
-- Runs of cache/lru_cache.py.
use distributed_key_value_ca.Prelude.{◌≡◌, ◌⊎◌, refl, some, [], ◌∷◌, arith, string_eq}
use distributed_key_value_ca.Prelude.Dict
use distributed_key_value_ca.Cache.LruCache.{LruCache, set, peek_mru}
use distributed_key_value_ca.Cache.Capacity.{WellFormed, Lost, set_lem, set_others}

abbrev full : LruCache
full = record { capacity = 2; entries = ("a", "1") ∷ ("b", "2") ∷ []; eviction_count = 0 }

abbrev after_c : LruCache
after_c = record { capacity = 2; entries = ("b", "2") ∷ ("c", "3") ∷ []; eviction_count = 1 }

full-WellFormed : WellFormed full
unfolding Dict.get
full-WellFormed = record {
  positive = omega arith;
  bounded = omega arith;
  distinct = (refl, (refl, tt));
}

set_c : set "c" "3" full ≡ some after_c
unfolding set Dict.get Dict.put
set_c = refl

set_lem_example :
    (c' : LruCache) × (set "c" "3" full ≡ some c')
    × WellFormed c'
    × (Dict.get "c" c'.entries ≡ some "3")
    × (peek_mru c' ≡ some "c")
set_lem_example = set_lem "c" "3" full full-WellFormed refl

set_others_example : (Dict.get "a" after_c.entries ≡ Dict.get "a" full.entries) ⊎ Lost "c" "a" full
set_others_example = set_others "c" "3" "a" full after_c full-WellFormed refl set_c refl
