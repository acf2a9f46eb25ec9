-- ===== src/Text.antt =====
-- The texts of server/state_machine.py as Python's library takes them apart: partition, rpartition,
-- split, `str` and `int` of a number that is not negative. A character is taken by its code.
pub mod Numbers
pub mod Laws
use Prim.Native.Char.{Char, code}
use distributed_key_value_ca.Prelude.{
  ℕ, zero, suc, String, Bool, true, false, ◌||◌, Option, none, some, List, [], ◌∷◌, nat_eq, ◌==◌,
  if◌then◌else◌,
}

-- a character put before the first of two parts
abbrev extended : Char → Option (String × String) → Option (String × String)
extended c none = none
extended c (some (before, after)) = some (String.◌∷◌ c before, after)

-- the parts before and after the first separator
unfoldable pub cut : ℕ → String → Option (String × String)
cut sep String.[] = none
cut sep (String.◌∷◌ c s) =
    let rest = cut sep s in if code c == sep then some ("", s) else extended c rest

-- the parts before and after the last separator
unfoldable pub rcut : ℕ → String → Option (String × String)
rcut sep String.[] = none
rcut sep (String.◌∷◌ c s) = elim (rcut sep s) [
  | some parts ↦ extended c (some parts)
  | none ↦ if code c == sep then some ("", s) else none
]

-- s.partition(sep), without the separator
unfoldable pub partition : ℕ → String → String × String
partition sep s = elim (cut sep s) [ none ↦ (s, "") | some parts ↦ parts ]

-- s.rpartition(sep), without the separator
unfoldable pub rpartition : ℕ → String → String × String
rpartition sep s = elim (rcut sep s) [ none ↦ ("", s) | some parts ↦ parts ]

-- s.split(sep, times)
unfoldable pub split : ℕ → ℕ → String → List String
split sep zero s = s ∷ []
split sep (suc times) s = elim (cut sep s) [
  | none ↦ s ∷ []
  | some (before, after) ↦ before ∷ split sep times after
]

abbrev begun : Char → List String → List String
begun c [] = String.◌∷◌ c "" ∷ []
begun c (word ∷ words) = String.◌∷◌ c word ∷ words

-- s.split(sep)
unfoldable pub split_all : ℕ → String → List String
split_all sep String.[] = "" ∷ []
split_all sep (String.◌∷◌ c s) =
    let rest = split_all sep s in if code c == sep then "" ∷ rest else begun c rest

-- the separator occurs in the text
unfoldable pub occurs : ℕ → String → Bool
occurs sep String.[] = false
occurs sep (String.◌∷◌ c s) = code c == sep || occurs sep s
