-- ===== src/Cache/Entries.antt =====
-- The entries of an `OrderedDict`, as cache/lru_cache.py uses it: distinct keys, their number, and
-- the moves to the end.
use distributed_key_value_ca.Prelude.{
  suc, ◌≡◌, refl, String, none, some, [], ◌∷◌, ◌++◌, arith, string_eq, ◌==◌, if◌then◌else◌, length,
}
use distributed_key_value_ca.Prelude.Dict
use distributed_key_value_ca.Prelude.Dict.{Dict}

abbrev pub Entries : Type 0
Entries = Dict String String

abbrev pub Distinct : Entries → Type 0
Distinct [] = Unit
Distinct ((k, v) ∷ d) = (Dict.get k d ≡ none) × Distinct d

-- A key that is missing is put at the end.
pub put-missing :
    (k v : String) (d : Entries) → Dict.get k d ≡ none → Dict.put k v d ≡ d ++ (k, v) ∷ []
unfolding Dict.get Dict.put
put-missing k v [] h = refl
put-missing k v ((j, w) ∷ d) h = ground (arith, string_eq.beq_iff j k, put-missing k v d)

pub get-end :
    (j k v : String) (d : Entries)
    → Dict.get j (d ++ (k, v) ∷ [])
      ≡ (elim (Dict.get j d) [ none ↦ if k == j then some v else none | some w ↦ some w ])
unfolding Dict.get
get-end j k v [] = refl
get-end j k v ((i, w) ∷ d) = ground (arith, get-end j k v d)

pub Distinct-end :
    (k v : String) (d : Entries) → Dict.get k d ≡ none → Distinct d → Distinct (d ++ (k, v) ∷ [])
unfolding Dict.get
Distinct-end k v [] h g = (refl, tt)
Distinct-end k v ((j, w) ∷ d) h (there, rest) = (
  ground (arith, get-end j k v d, string_eq.beq_iff j k, string_eq.beq_iff k j),
  Distinct-end k v d (ground arith) rest,
)

pub Distinct-remove : (k : String) (d : Entries) → Distinct d → Distinct (Dict.remove k d)
unfolding Dict.remove
Distinct-remove k [] g = tt
Distinct-remove k ((j, w) ∷ d) (there, rest) =
    ground (arith, Distinct-remove k d rest, there, Dict.get-remove k j d)

length-remove_missing :
    (k : String) (d : Entries) → Dict.get k d ≡ none → length (Dict.remove k d) ≡ length d
unfolding Dict.get Dict.remove
length-remove_missing k [] h = refl
length-remove_missing k ((j, w) ∷ d) h = ground (arith, length-remove_missing k d)

pub length-remove :
    (k v : String) (d : Entries)
    → Distinct d
    → Dict.get k d ≡ some v
    → length d ≡ suc (length (Dict.remove k d))
unfolding Dict.get Dict.remove
length-remove k v [] g h = ground arith
length-remove k v ((j, w) ∷ d) (there, rest) h =
    ground
      (arith, length-remove k v d rest, length-remove_missing k d, string_eq.beq_iff j k, there)
