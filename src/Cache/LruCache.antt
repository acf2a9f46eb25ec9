-- ===== src/Cache/LruCache.antt =====
-- cache/lru_cache.py. The lock makes each method one step. Keys and values are texts by their types,
-- so the TypeError does not arise; `none` stands for the ValueError. `entries` is `_data`.
use distributed_key_value_ca.Prelude.{
  ℕ, ◌+◌, String, Bool, true, false, Option, none, some, List, [], ◌∷◌, ◌++◌, string_eq, ◌==◌,
  if◌then◌else◌, leb, length, get_last?,
}
use distributed_key_value_ca.Prelude.Dict
use distributed_key_value_ca.Prelude.Dict.{Dict, keys}

pub record LruCache : Type 0 where
  pub capacity : ℕ
  pub entries : Dict String String
  pub eviction_count : ℕ

unfoldable pub init : ℕ → Option LruCache
init capacity =
    if leb capacity 0
    then none
    else some (record { capacity = capacity; entries = []; eviction_count = 0 })

-- `OrderedDict.move_to_end`, which is called for keys that are there
unfoldable pub move_to_end : String → Dict String String → Dict String String
move_to_end key entries = elim (Dict.get key entries) [
  | none ↦ entries
  | some value ↦ Dict.remove key entries ++ (key, value) ∷ []
]

unfoldable pub evict_lru : LruCache → Option String × LruCache
evict_lru c = elim c.entries [
  | [] ↦ (none, c)
  | (key, _) ∷ rest ↦ (some key, record c { entries = rest; eviction_count = c.eviction_count + 1 })
]

unfoldable pub make_room : LruCache → LruCache
unfolding evict_lru
make_room c = if leb c.capacity (length c.entries) then (evict_lru c).1 else c

unfoldable pub set : String → String → LruCache → Option LruCache
unfolding move_to_end make_room
set key value c =
    if key == ""
    then none
    else if Dict.contains key c.entries
    then some (record c { entries = Dict.put key value (move_to_end key c.entries) })
    else (let roomy = make_room c in
        some (record roomy { entries = Dict.put key value roomy.entries }))

unfoldable pub get : String → LruCache → Option String × LruCache
unfolding move_to_end
get key c =
    if Dict.contains key c.entries
    then (
      Dict.get key (move_to_end key c.entries),
      record c { entries = move_to_end key c.entries },
    )
    else (none, c)

unfoldable pub has : String → LruCache → Bool
has key c = Dict.contains key c.entries

unfoldable pub delete : String → LruCache → Bool × LruCache
delete key c =
    if Dict.contains key c.entries
    then (true, record c { entries = Dict.remove key c.entries })
    else (false, c)

unfoldable pub clear : LruCache → LruCache
clear c = record c { entries = [] }

unfoldable pub size : LruCache → ℕ
size c = length c.entries

unfoldable pub items : LruCache → List (String × String)
items c = c.entries

abbrev first : List String → Option String
first [] = none
first (k ∷ ks) = some k

unfoldable pub peek_lru : LruCache → Option String
peek_lru c = first (keys c.entries)

unfoldable pub peek_mru : LruCache → Option String
peek_mru c = get_last? (keys c.entries)
