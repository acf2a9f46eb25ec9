-- ===== src/Server/Tests/Views.antt =====
-- Runs of the commands of server/state_machine.py on what RAM holds.
use distributed_key_value_ca.Prelude.{
  ℕ, ◌≡◌, refl, sym, ◌∙◌, subst, inl, inr, Bool-cases, ◌&&◌, String, true, false, Option, none,
  some, [], arith, string_eq, if◌then◌else◌, ◌==◌,
}
use mathlib.Core.Option.{some-injective, none-ne-some}
use distributed_key_value_ca.Prelude.Dict
use distributed_key_value_ca.Cache.LruCache
use distributed_key_value_ca.Cache.Interface.{AnyCache, lru_cache}
use distributed_key_value_ca.Cache.Interface.Dispatch
use distributed_key_value_ca.Store.{Store}
use distributed_key_value_ca.Server.Machine.{Machine, bool, number}
use distributed_key_value_ca.Server.Reads.{get}
use distributed_key_value_ca.Text.{occurs}
use distributed_key_value_ca.Server.Stores.{expired}
use distributed_key_value_ca.Server.Machine.{◌>>=◌, replace_stores}
use distributed_key_value_ca.Server.Commands.{
  apply_signup, apply_set, apply_delete, apply_expiry, apply_sweep, existed_at,
}
use distributed_key_value_ca.Server.Reads.{or_now}
use distributed_key_value_ca.Server.View.{item}
use distributed_key_value_ca.Server.View.Signing.{empty_store, signed_up, apply_signup_first}
use distributed_key_value_ca.Server.View.Setting.{
  get-apply_set, apply_set_raises, written as set_to,
}
use distributed_key_value_ca.Server.View.Removing.{item-apply_delete}
use distributed_key_value_ca.Server.View.Renewing.{renews, with_new, item-apply_expiry}
use distributed_key_value_ca.Server.View.Sweeping.{
  Unique, Kept, get-apply_sweep, expired-apply_sweep,
}
use distributed_key_value_ca.Server.Isolation.{SameStore, other_users}
use distributed_key_value_ca.Server.Commands.Texts.{
  signup_text, set_text, setex_text, delete_text, expireat_text, persist_text, sweep_text,
}
use distributed_key_value_ca.Server.Commands.Parsing.{RunsAs, apply_command-text}
use distributed_key_value_ca.Cache.Interface.Dispatch.{Healthy}
use distributed_key_value_ca.Server.Tests.{
  no_database, half_database, same, empty, anns_cache, anns_store, with_ann,
}

anns_cache-Healthy : Healthy anns_cache
unfolding Dict.get
anns_cache-Healthy = record { positive = omega arith; bounded = omega arith; distinct = (refl, tt) }

-- the state after the first SIGNUP
abbrev bobs : Machine (Unit {0})
bobs = signed_up no_database same "bob" "h" empty

apply_signup_first_example :
    (apply_signup no_database same "bob" "h" empty ≡ (some (bool true), bobs))
    × (Dict.get "bob" bobs.stores ≡ some (empty_store "bob" "h" 2))
    × (apply_signup no_database same "bob" "g" bobs ≡ (some (bool false), bobs))
unfolding Dict.get Dict.put
apply_signup_first_example =
    apply_signup_first no_database same "bob" "h" "g" empty bobs (empty_store "bob" "h" 2) refl
      (omega arith) refl refl refl

-- the state after a SETEX
abbrev set_in_cache : AnyCache → Machine (Unit {0})
set_in_cache cache =
    set_to half_database same "ann" "b" (some 90) anns_store cache tt (with_ann true)

get-apply_set_example :
    (cache : AnyCache) × Healthy cache
    × (apply_set half_database same "ann" "b" "2" (some 90) (with_ann true)
        ≡ (some (bool true), set_in_cache cache))
    × ((at_ms : Option ℕ) (now : ℕ)
        → (get half_database same "ann" "b" at_ms now (set_in_cache cache)).0
          ≡ some (if expired (some 90) (or_now at_ms now) then none else some "2"))
unfolding Dict.get
get-apply_set_example =
    get-apply_set half_database same "ann" "b" "2" (some 90) anns_store tt (with_ann true) refl
      anns_cache-Healthy refl refl

apply_set_raises_example :
    apply_set no_database same "ann" "b" "2" (some 90) (with_ann true) ≡ (none, with_ann true)
unfolding Dict.get
apply_set_raises_example =
    apply_set_raises no_database same "ann" "b" "2" (some 90) anns_store tt (with_ann true) refl
      refl refl

item-apply_delete_example :
    ((apply_delete no_database same "ann" "a" (some 40) (with_ann false)).0
      ≡ some (bool (existed_at (some 40) (item "ann" "a" (with_ann false)))))
    × ((v j : String)
        → item v j (apply_delete no_database same "ann" "a" (some 40) (with_ann false)).1
          ≡ (if "ann" == v && "a" == j then none else item v j (with_ann false)))
unfolding Dict.get
item-apply_delete_example =
    item-apply_delete no_database same "ann" "a" (some 40) anns_store (with_ann false) refl refl
      anns_cache-Healthy

item-apply_expiry_example :
    ((apply_expiry no_database same "ann" "a" (some 90) 40 (with_ann false)).0
      ≡ some (bool (renews (some 90) 40 (item "ann" "a" (with_ann false)))))
    × ((v j : String)
        → item v j (apply_expiry no_database same "ann" "a" (some 90) 40 (with_ann false)).1 ≡ (
            if renews (some 90) 40 (item "ann" "a" (with_ann false)) && ("ann" == v && "a" == j)
            then with_new (some 90) (item v j (with_ann false))
            else item v j (with_ann false)))
unfolding Dict.get
item-apply_expiry_example =
    item-apply_expiry no_database same "ann" "a" (some 90) 40 anns_store (with_ann false) refl refl
      anns_cache-Healthy

-- Ann's is the only store.
only_ann : (u : String) (s : Store) → Dict.get u (with_ann false).stores ≡ some s → anns_store ≡ s
unfolding Dict.get
only_ann u s found = elim (Bool-cases ("ann" == u)) [
  | inl here ↦ some-injective _ _ (sym (rw here refl) ∙ found)
  | inr other ↦ absurd (none-ne-some s (sym (rw other refl) ∙ found))
]

with_ann-Kept : Kept (with_ann false)
unfolding Dict.get
with_ann-Kept = record {
  healthy =
      (λ u s found. subst (λ (x : Store). Healthy x.cache) (only_ann u s found) anns_cache-Healthy);
  unique = (λ u s found. subst (λ (x : Store). Unique x.expiry) (only_ann u s found) (refl, tt));
}

get-apply_sweep_example :
    (get no_database same "ann" "a" none 70 (apply_sweep no_database same 60 (with_ann false)).1).0
    ≡ (get no_database same "ann" "a" none 70 (with_ann false)).0
get-apply_sweep_example =
    get-apply_sweep no_database same 60 (with_ann false) "ann" "a" none 70 refl with_ann-Kept
      (omega arith)

-- the state after a SWEEP, and Ann's store in it
abbrev swept_ann : Store
swept_ann = record {
  username = "ann";
  password_hash = "hash";
  cache = lru_cache (record { capacity = 2; entries = []; eviction_count = 0 });
  expiry = [];
}

expired-apply_sweep_example : expired (Dict.get "a" swept_ann.expiry) 60 ≡ false
unfolding apply_sweep Dict.get ◌>>=◌ replace_stores Dispatch.delete Dict.remove LruCache.delete
expired-apply_sweep_example =
    expired-apply_sweep no_database same 60 (with_ann false) "ann" "a" swept_ann (number 1)
      with_ann-Kept refl refl

other_users_example :
    SameStore no_database same "bob" (with_ann false) (apply_signup no_database same "ann" "h")
    × SameStore no_database same "bob"
        (with_ann false)
        (apply_set no_database same "ann" "a" "1" none)
    × SameStore no_database same "bob"
        (with_ann false)
        (apply_delete no_database same "ann" "a" none)
    × SameStore no_database same "bob"
        (with_ann false)
        (apply_expiry no_database same "ann" "a" none 5)
other_users_example =
    other_users no_database same "ann" "bob" (with_ann false) "h" "a" "1" none none 5 refl

apply_command-text_example :
    RunsAs no_database same "ann"
      (signup_text "v w")
      (apply_signup no_database same "ann" "v w")
      empty
    × RunsAs no_database same "ann"
        (set_text "k" "v w")
        (apply_set no_database same "ann" "k" "v w" none)
        empty
    × RunsAs no_database same "ann"
        (setex_text "k" 90 "v w")
        (apply_set no_database same "ann" "k" "v w" (some 90))
        empty
    × RunsAs no_database same "ann"
        (delete_text "k" 7)
        (apply_delete no_database same "ann" "k" (some 7))
        empty
    × RunsAs no_database same "ann"
        (expireat_text "k" 90 7)
        (apply_expiry no_database same "ann" "k" (some 90) 7)
        empty
    × RunsAs no_database same "ann"
        (persist_text "k" 7)
        (apply_expiry no_database same "ann" "k" none 7)
        empty
    × RunsAs no_database same "ann" (sweep_text 7) (apply_sweep no_database same 7) empty
unfolding occurs
apply_command-text_example = apply_command-text no_database same empty "ann" "k" "v w" 90 7 refl
