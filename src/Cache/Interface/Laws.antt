-- ===== src/Cache/Interface/Laws.antt =====
-- Both caches of cache/ keep what cache/cache_interface.py promises.
use distributed_key_value_ca.Prelude.{
  ◌≡◌, refl, sym, ap, ◌∙◌, subst, String, false, none, some, arith, string_eq, ◌==◌, beq_refl,
  if◌then◌else◌, inl, inr, Bool-cases, Option-cases, is_some,
}
use distributed_key_value_ca.Prelude.Dict
use distributed_key_value_ca.Cache.PlainCache
use distributed_key_value_ca.Cache.PlainCache.{PlainCache}
use distributed_key_value_ca.Cache.LruCache
use distributed_key_value_ca.Cache.LruCache.{LruCache}
use distributed_key_value_ca.Cache.Entries.{Distinct-remove, length-remove}
use distributed_key_value_ca.Cache.Capacity.{WellFormed, set_lem, get_lem}
use distributed_key_value_ca.Cache.Interface.{CacheLaws, plain, lru}

-- Nothing is asked of a plain cache.
abbrev pub Anything : PlainCache → Type 0
Anything c = Unit

delete-other :
    (key j : String) (d : Dict.Dict String String)
    → Dict.get key d ≡ none
    → Dict.get j d ≡ (if key == j then none else Dict.get j d)
delete-other key j d missing = elim (Bool-cases (key == j)) [
  | inl here ↦ rw here (subst (λ k. Dict.get k d ≡ none) ((string_eq.beq_iff key j).0 here) missing)
  | inr there ↦ rw there refl
]

get-plain_delete :
    (key j : String) (c : PlainCache)
    → PlainCache.get j (PlainCache.delete key c).1 ≡ (if key == j then none else PlainCache.get j c)
unfolding PlainCache.get PlainCache.delete
get-plain_delete key j c = elim (Option-cases (Dict.get key c.entries)) [
  | inl missing ↦ rw missing (delete-other key j c.entries missing)
  | inr (old, found) ↦ rw found (Dict.get-remove key j c.entries)
]

-- The plain cache keeps the laws of the interface.
pub plain-laws : CacheLaws plain Anything
unfolding PlainCache.set PlainCache.get PlainCache.has PlainCache.delete PlainCache.clear
    PlainCache.size PlainCache.items Dict.get
plain-laws = record {
  set-empty = (λ value c. refl);
  set-some = (λ key value c w named. (
    record { entries = Dict.put key value c.entries },
    rw named refl,
    tt,
    Dict.get-put key key value c.entries ∙ rw (beq_refl key) refl,
  ));
  get-Valid = (λ key c w. tt);
  get-get = (λ key j c w. refl);
  has-get = (λ key c w. refl);
  delete-has = (λ key c. ground arith);
  delete-Valid = (λ key c w. tt);
  get-delete = (λ key j c w. get-plain_delete key j c);
  clear-Valid = (λ c w. tt);
  get-clear = (λ key c. refl);
  get-items = (λ key c w. refl);
  size-items = (λ c. refl);
}

lookup-get :
    (key : String) (c : LruCache) → WellFormed c → (LruCache.get key c).0 ≡ Dict.get key c.entries
lookup-get key c w = (get_lem key c w).0

delete-WellFormed :
    (key : String) (c : LruCache) → WellFormed c → WellFormed (LruCache.delete key c).1
unfolding LruCache.delete
delete-WellFormed key c w = elim (Option-cases (Dict.get key c.entries)) [
  | inl missing ↦ rw missing w
  | inr (old, found) ↦ rw found (record {
    positive = w.positive;
    bounded = omega (arith, w.bounded, length-remove key old c.entries w.distinct found);
    distinct = Distinct-remove key c.entries w.distinct;
  })
]

entries-delete :
    (key j : String) (c : LruCache)
    → Dict.get j (LruCache.delete key c).1.entries
      ≡ (if key == j then none else Dict.get j c.entries)
unfolding LruCache.delete
entries-delete key j c = elim (Option-cases (Dict.get key c.entries)) [
  | inl missing ↦ rw missing (delete-other key j c.entries missing)
  | inr (old, found) ↦ rw found (Dict.get-remove key j c.entries)
]

set-LruCache :
    (key value : String) (c : LruCache)
    → WellFormed c
    → (key == "") ≡ false
    → (c' : LruCache) × (LruCache.set key value c ≡ some c')
      × WellFormed c'
      × ((LruCache.get key c').0 ≡ some value)
set-LruCache key value c w named =
    let (c', done, valid, found, recent) = set_lem key value c w named in
    (c', done, valid, lookup-get key c' valid ∙ found)

-- The LRU cache keeps the laws of the interface while it is well-formed: a positive capacity, not more
-- entries than that, and distinct keys. A set under a name that is not empty is read back, and raises
-- under the empty one; get and has agree with what items lists, and size with its length; a get changes
-- no later answer; a delete removes that key only and tells whether it was there; clear removes all.
pub lru-laws : CacheLaws lru WellFormed
unfolding LruCache.set LruCache.has LruCache.delete LruCache.clear LruCache.size LruCache.items
    Dict.get
lru-laws = record {
  set-empty = (λ value c. refl);
  set-some = set-LruCache;
  get-Valid = (λ key c w. (get_lem key c w).1);
  get-get = (λ key j c w.
      lookup-get j (LruCache.get key c).1 (get_lem key c w).1
      ∙ (get_lem key c w).2 j
      ∙ sym (lookup-get j c w));
  has-get = (λ key c w. ap is_some (sym (lookup-get key c w)));
  delete-has = (λ key c. ground arith);
  delete-Valid = delete-WellFormed;
  get-delete = (λ key j c w.
      lookup-get j (LruCache.delete key c).1 (delete-WellFormed key c w)
      ∙ entries-delete key j c
      ∙ ap (λ o. if key == j then none else o) (sym (lookup-get j c w)));
  clear-Valid = (λ c w. record { positive = w.positive; bounded = omega arith; distinct = tt });
  get-clear = (λ key c. unfold LruCache.get in refl);
  get-items = lookup-get;
  size-items = (λ c. refl);
}
