-- ===== src/Cache/PlainCache.antt =====
-- cache/cache_impl.py. The lock makes each method one step. Keys and values are texts by their types,
-- so the TypeError does not arise; `none` stands for the ValueError. `entries` is `_data`.
use distributed_key_value_ca.Prelude.{
  ℕ, String, Bool, true, false, Option, none, some, List, [], string_eq, ◌==◌, if◌then◌else◌,
  length,
}
use distributed_key_value_ca.Prelude.Dict
use distributed_key_value_ca.Prelude.Dict.{Dict}

pub record PlainCache : Type 0 where
  pub entries : Dict String String

unfoldable pub init : PlainCache
init = record { entries = [] }

unfoldable pub set : String → String → PlainCache → Option PlainCache
set key value c =
    if key == "" then none else some (record { entries = Dict.put key value c.entries })

unfoldable pub get : String → PlainCache → Option String
get key c = Dict.get key c.entries

unfoldable pub has : String → PlainCache → Bool
has key c = Dict.contains key c.entries

unfoldable pub delete : String → PlainCache → Bool × PlainCache
delete key c =
    if Dict.contains key c.entries
    then (true, record { entries = Dict.remove key c.entries })
    else (false, c)

unfoldable pub clear : PlainCache → PlainCache
clear c = record { entries = [] }

unfoldable pub size : PlainCache → ℕ
size c = length c.entries

unfoldable pub items : PlainCache → List (String × String)
items c = c.entries

unfoldable pub keys : PlainCache → List String
keys c = Dict.keys c.entries
