-- ===== src/Cache/Capacity.antt =====
-- cache/lru_cache.py: the capacity is never exceeded, what is set is found, and only the least
-- recently used key is lost, in a full cache.
use distributed_key_value_ca.Prelude.{
  ℕ, ◌≡◌, ◌≤◌, ◌<◌, ◌⊎◌, inl, inr, refl, ap, sym, ◌∙◌, subst, String, true, false, none, some, [],
  ◌∷◌, ◌++◌, arith, string_eq, ◌==◌, beq_refl, if◌then◌else◌, length, length-append, leb, leb→le,
  leb→lt, Bool-cases, Option-cases, get_last?,
}
use mathlib.Core.Option.{some-injective}
use distributed_key_value_ca.Prelude.Dict
use distributed_key_value_ca.Prelude.Dict.{keys}
use distributed_key_value_ca.Cache.LruCache.{
  LruCache, move_to_end, evict_lru, make_room, set, get, peek_lru, peek_mru,
}
use distributed_key_value_ca.Cache.Entries.{
  Entries, Distinct, put-missing, get-end, Distinct-end, Distinct-remove, length-remove,
}

pub record WellFormed (c : LruCache) : Type 0 where
  pub positive : 0 < c.capacity
  pub bounded : length c.entries ≤ c.capacity
  pub distinct : Distinct c.entries

put-end :
    (k v w : String) (d : Entries)
    → Dict.get k d ≡ none
    → Dict.put k v (d ++ (k, w) ∷ []) ≡ d ++ (k, v) ∷ []
unfolding Dict.get Dict.put
put-end k v w [] h = ground (arith, string_eq.beq_iff k k)
put-end k v w ((j, x) ∷ d) h = ground (arith, put-end k v w d)

get_last?-end : (k v : String) (d : Entries) → get_last? (keys (d ++ (k, v) ∷ [])) ≡ some k
get_last?-end k v [] = refl
get_last?-end k v (e ∷ []) = refl
get_last?-end k v (e ∷ f ∷ d) = get_last?-end k v (f ∷ d)

removed : (k : String) (d : Entries) → Dict.get k (Dict.remove k d) ≡ none
removed k d = rw (Dict.get-remove k k d, beq_refl k) refl

-- the cache that `set` puts the new entry at the end of
unfoldable spare : String → LruCache → LruCache
unfolding make_room
spare key c =
    if Dict.contains key c.entries
    then record c { entries = Dict.remove key c.entries }
    else make_room c

-- the entry at the end
abbrev ended : String → String → LruCache → LruCache
ended key value c = record c { entries = c.entries ++ (key, value) ∷ [] }

-- What there is room for: one entry more, which is not there yet.
record Spare (key : String) (c : LruCache) : Type 0 where
  positive : 0 < c.capacity
  bounded : length c.entries < c.capacity
  distinct : Distinct c.entries
  missing : Dict.get key c.entries ≡ none

ended-WellFormed :
    (key value : String) (c : LruCache) → Spare key c → WellFormed (ended key value c)
ended-WellFormed key value c s = record {
  positive = s.positive;
  bounded = omega (arith, s.bounded, length-append c.entries ((key, value) ∷ []));
  distinct = Distinct-end key value c.entries s.missing s.distinct;
}

-- Evicting from a full cache makes room for a key that is not there.
evict_lru-Spare :
    (key : String) (capacity count : ℕ) (d : Entries)
    → WellFormed (record { capacity = capacity; entries = d; eviction_count = count })
    → Dict.get key d ≡ none
    → capacity ≤ length d
    → Spare key (evict_lru (record { capacity = capacity; entries = d; eviction_count = count })).1
unfolding evict_lru Dict.get
evict_lru-Spare key capacity count [] w missing full = absurd (omega (arith, w.positive))
evict_lru-Spare key capacity count ((k, v) ∷ d) w missing full = record {
  positive = w.positive;
  bounded = w.bounded;
  distinct = w.distinct.1;
  missing = ground (arith, missing);
}

make_room-Spare :
    (key : String) (c : LruCache)
    → WellFormed c
    → Dict.get key c.entries ≡ none
    → Spare key (make_room c)
unfolding make_room
make_room-Spare key c w missing = elim (Bool-cases (leb c.capacity (length c.entries))) [
  | inl full ↦
      rw full
        (evict_lru-Spare key c.capacity c.eviction_count c.entries w missing (leb→le _ _ full))
  | inr free ↦ rw free (record {
    positive = w.positive;
    bounded = leb→lt _ _ free;
    distinct = w.distinct;
    missing = missing;
  })
]

spare-Spare : (key : String) (c : LruCache) → WellFormed c → Spare key (spare key c)
unfolding spare
spare-Spare key c w = elim (Option-cases (Dict.get key c.entries)) [
  | inl missing ↦ rw missing (make_room-Spare key c w missing)
  | inr (old, found) ↦ rw found (record {
    positive = w.positive;
    bounded = omega (arith, w.bounded, length-remove key old c.entries w.distinct found);
    distinct = Distinct-remove key c.entries w.distinct;
    missing = removed key c.entries;
  })
]

move_to_end_found :
    (key old : String) (d : Entries)
    → Dict.get key d ≡ some old
    → move_to_end key d ≡ Dict.remove key d ++ (key, old) ∷ []
unfolding move_to_end
move_to_end_found key old d found = rw (found, move_to_end) refl

set-ended :
    (key value : String) (c : LruCache)
    → WellFormed c
    → (key == "") ≡ false
    → set key value c ≡ some (ended key value (spare key c))
unfolding set spare
set-ended key value c w named = elim (Option-cases (Dict.get key c.entries)) [
  | inl missing ↦
      rw (named, missing)
        (ap (λ d. some (record (make_room c) { entries = d }))
          (put-missing key value (make_room c).entries (make_room-Spare key c w missing).missing))
  | inr (old, found) ↦
      rw (named, move_to_end_found key old c.entries found, found)
        (ap (λ d. some (record c { entries = d }))
          (put-end key value old (Dict.remove key c.entries) (removed key c.entries)))
]

-- A set under a name that is not empty succeeds, and leaves a well-formed cache: not more entries
-- than the capacity, under distinct keys. The value is found under the key, which is the most recently
-- used one. The cache is well-formed before.
pub set_lem :
    (key value : String) (c : LruCache)
    → WellFormed c
    → (key == "") ≡ false
    → (c' : LruCache) × (set key value c ≡ some c')
      × WellFormed c'
      × (Dict.get key c'.entries ≡ some value)
      × (peek_mru c' ≡ some key)
unfolding peek_mru
set_lem key value c w named =
    let roomy = spare key c in
    let s = spare-Spare key c w in
    (
      ended key value roomy,
      set-ended key value c w named,
      ended-WellFormed key value roomy s,
      get-end key key value roomy.entries ∙ rw (s.missing, beq_refl key) refl,
      get_last?-end key value roomy.entries,
    )

-- The key `j` is the one that is lost when `key` is set.
pub Lost : String → String → LruCache → Type 0
Lost key j c =
    (c.capacity ≤ length c.entries) × (Dict.get key c.entries ≡ none) × (peek_lru c ≡ some j)

evicted_others :
    (j : String) (capacity count : ℕ) (d : Entries)
    → (Dict.get j
          (evict_lru
            (record { capacity = capacity; entries = d; eviction_count = count })).1.entries
        ≡ Dict.get j d)
      ⊎ (peek_lru (record { capacity = capacity; entries = d; eviction_count = count }) ≡ some j)
unfolding evict_lru peek_lru Dict.get
evicted_others j capacity count [] = inl refl
evicted_others j capacity count ((k, v) ∷ d) = elim (Bool-cases (k == j)) [
  | inl here ↦ inr (ap some ((string_eq.beq_iff k j).0 here))
  | inr there ↦ inl (rw there refl)
]

make_room_others :
    (key j : String) (c : LruCache)
    → Dict.get key c.entries ≡ none
    → (Dict.get j (make_room c).entries ≡ Dict.get j c.entries) ⊎ Lost key j c
unfolding make_room Lost
make_room_others key j c missing = elim (Bool-cases (leb c.capacity (length c.entries))) [
  | inr free ↦ inl (rw free refl)
  | inl full ↦ elim (evicted_others j c.capacity c.eviction_count c.entries) [
    | inl same ↦ inl (rw full same)
    | inr oldest ↦ inr (leb→le _ _ full, missing, oldest)
  ]
]

spare_others :
    (key j : String) (c : LruCache)
    → (key == j) ≡ false
    → (Dict.get j (spare key c).entries ≡ Dict.get j c.entries) ⊎ Lost key j c
unfolding spare
spare_others key j c other = elim (Option-cases (Dict.get key c.entries)) [
  | inl missing ↦ rw missing (make_room_others key j c missing)
  | inr (old, found) ↦ rw found (inl (Dict.get-remove key j c.entries ∙ rw other refl))
]

get-ended_other :
    (key value j : String) (d : Entries)
    → (key == j) ≡ false
    → Dict.get j (d ++ (key, value) ∷ []) ≡ Dict.get j d
get-ended_other key value j d other = ground (arith, get-end j key value d, other)

-- A set changes no other key, but for the least recently used one, which is lost where the key is
-- new and the cache is full. The cache is well-formed, and the name is not empty.
pub set_others :
    (key value j : String) (c c' : LruCache)
    → WellFormed c
    → (key == "") ≡ false
    → set key value c ≡ some c'
    → (key == j) ≡ false
    → (Dict.get j c'.entries ≡ Dict.get j c.entries) ⊎ Lost key j c
set_others key value j c c' w named done other =
    subst (λ (x : LruCache). (Dict.get j x.entries ≡ Dict.get j c.entries) ⊎ Lost key j c)
      (some-injective _ _ (sym (set-ended key value c w named) ∙ done))
      (elim (spare_others key j c other) [
        | inl same ↦ inl (get-ended_other key value j (spare key c).entries other ∙ same)
        | inr lost ↦ inr lost
      ])

moved_others :
    (key old j : String) (d : Entries)
    → Dict.get key d ≡ some old
    → Dict.get j (Dict.remove key d ++ (key, old) ∷ []) ≡ Dict.get j d
moved_others key old j d found = elim (Bool-cases (key == j)) [
  | inl here ↦
      let eq = (string_eq.beq_iff key j).0 here in
      subst (λ k. Dict.get k (Dict.remove key d ++ (key, old) ∷ []) ≡ Dict.get k d) eq
        (get-end key key old (Dict.remove key d) ∙ rw (removed key d, beq_refl key) (sym found))
  | inr there ↦
      get-ended_other key old j (Dict.remove key d) there ∙ Dict.get-remove key j d ∙ rw there refl
]

moved-WellFormed :
    (key old : String) (c : LruCache)
    → WellFormed c
    → Dict.get key c.entries ≡ some old
    → WellFormed (record c { entries = Dict.remove key c.entries ++ (key, old) ∷ [] })
moved-WellFormed key old c w found =
    ended-WellFormed key old (record c { entries = Dict.remove key c.entries })
      (record {
        positive = w.positive;
        bounded = omega (arith, w.bounded, length-remove key old c.entries w.distinct found);
        distinct = Distinct-remove key c.entries w.distinct;
        missing = removed key c.entries;
      })

-- A get answers what is stored, keeps the cache well-formed and what is stored under every key, and
-- makes a key that is there the most recently used one. The cache is well-formed before.
pub get_lem :
    (key : String) (c : LruCache)
    → WellFormed c
    → ((get key c).0 ≡ Dict.get key c.entries)
      × WellFormed (get key c).1
      × ((j : String) → Dict.get j (get key c).1.entries ≡ Dict.get j c.entries)
      × (Dict.contains key c.entries ≡ true → peek_mru (get key c).1 ≡ some key)
unfolding get peek_mru
get_lem key c w = elim (Option-cases (Dict.get key c.entries)) [
  | inl missing ↦ rw missing (refl, w, (λ j. refl), (λ (f : false ≡ true). absurd (ground arith)))
  | inr (old, found) ↦
      rw (found, move_to_end_found key old c.entries found)
        (
          moved_others key old key c.entries found ∙ found,
          moved-WellFormed key old c w found,
          (λ j. moved_others key old j c.entries found),
          (λ (t : true ≡ true). get_last?-end key old (Dict.remove key c.entries)),
        )
]
