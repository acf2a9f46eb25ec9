-- ===== src/Server/View/Renewing.antt =====
-- server/state_machine.py: EXPIREAT and PERSIST, on a node without a database.
use distributed_key_value_ca.Prelude.{
  ℕ, ◌≡◌, refl, sym, ap, ◌∙◌, subst, String, Bool, true, false, not, ◌&&◌, Option, none, some, inl,
  inr, Bool-cases, Option-cases, string_eq, ◌==◌, beq_refl, if◌then◌else◌,
}
use distributed_key_value_ca.Prelude.Dict
use distributed_key_value_ca.Cache.Interface.Dispatch
use distributed_key_value_ca.Cache.Interface.Dispatch.{Healthy}
use distributed_key_value_ca.Cache.Interface.Dispatch.Kept.{dispatch-laws}
use distributed_key_value_ca.Store.{Store}
use distributed_key_value_ca.Server.Machine.{Machine, bool, Database, ◌>>=◌, save}
use distributed_key_value_ca.Server.Stores.{expired, timed}
use distributed_key_value_ca.Server.Commands.{forever, expire_in, expire_item, apply_expiry}
use distributed_key_value_ca.Server.View.{
  with_expiry, item_in, item_of, item, get_store_hit, lookup_ram, touched,
}
use distributed_key_value_ca.Server.View.Setting.{get-timed}
use distributed_key_value_ca.Server.View.Removing.{moved, item-moved, item-put}

-- EXPIREAT (`some`) and PERSIST (`none`) change this item at this time.
abbrev pub renews : Option ℕ → ℕ → Option (String × Option ℕ) → Bool
renews expire_at at_ms none = false
renews expire_at at_ms (some (value, old)) = not (expired old at_ms) && not (forever expire_at old)

-- an item with another expiry
abbrev pub with_new : Option ℕ → Option (String × Option ℕ) → Option (String × Option ℕ)
with_new expire_at none = none
with_new expire_at (some (value, old)) = some (value, expire_at)

with_new-with_expiry :
    (expire_at old : Option ℕ) (value : Option String)
    → with_new expire_at (with_expiry old value) ≡ with_expiry expire_at value
with_new-with_expiry expire_at old none = refl
with_new-with_expiry expire_at old (some v) = refl

-- What `store.expiry` has of the other keys stays.
get-timed-other :
    (key j : String) (expire_at : Option ℕ) (d : Dict.Dict String ℕ)
    → (key == j) ≡ false
    → Dict.get j (timed key expire_at d) ≡ Dict.get j d
get-timed-other key j none d other = Dict.get-remove key j d ∙ rw other refl
get-timed-other key j (some t) d other = Dict.get-put key j t d ∙ rw other refl

-- the store after a new expiry
abbrev renewed_store : String → Option ℕ → Store → Store
renewed_store key expire_at s = record (moved key s) { expiry = timed key expire_at s.expiry }

item_in-renewed :
    (key j : String) (expire_at : Option ℕ) (s : Store)
    → Healthy s.cache
    → item_in (renewed_store key expire_at s) j
      ≡ (if key == j then with_new expire_at (item_in s j) else item_in s j)
item_in-renewed key j expire_at s healthy = elim (Bool-cases (key == j)) [
  | inl here ↦ rw here (
      ap (λ o. with_expiry o (Dispatch.get j (moved key s).cache).0)
        (subst (λ w. Dict.get w (timed key expire_at s.expiry) ≡ expire_at)
          ((string_eq.beq_iff key j).0 here) (get-timed key expire_at s.expiry))
      ∙ ap (with_expiry expire_at) (dispatch-laws.get-get key j s.cache healthy)
      ∙ sym (with_new-with_expiry expire_at (Dict.get j s.expiry) (Dispatch.get j s.cache).0))
  | inr other ↦ rw other (
      ap (λ o. with_expiry o (Dispatch.get j (moved key s).cache).0)
        (get-timed-other key j expire_at s.expiry other)
      ∙ item-moved key j s healthy)
]

module _ {D : Type 0} where
  -- the state after a new expiry
  abbrev pub renewed : String → String → Option ℕ → Store → Machine D → Machine D
  renewed u key expire_at s m = record m {
    stores = Dict.put u (renewed_store key expire_at s) (Dict.put u (moved key s) m.stores);
  }

  abbrev if_renewed : Bool → String → String → Option ℕ → Store → Machine D → Machine D
  if_renewed true u key expire_at s m = renewed u key expire_at s m
  if_renewed false u key expire_at s m = record m { stores = Dict.put u (moved key s) m.stores }

  -- a user's items, seen in their store
  item-there :
      (u v j : String) (s : Store) (m : Machine D)
      → Dict.get u m.stores ≡ some s
      → (u == v) ≡ true
      → item_in s j ≡ item v j m
  item-there u v j s m there here =
      sym (ap (λ o. item_of o j) there) ∙ ap (λ w. item w j m) ((string_eq.beq_iff u v).0 here)

  item-touched :
      (u key v j : String) (s : Store) (m : Machine D)
      → Dict.get u m.stores ≡ some s
      → Healthy s.cache
      → item v j (record m { stores = Dict.put u (moved key s) m.stores }) ≡ item v j m
  item-touched u key v j s m there healthy =
      item-put u v j (moved key s) m ∙ elim (Bool-cases (u == v)) [
        | inl here ↦ rw here (item-moved key j s healthy ∙ item-there u v j s m there here)
        | inr other ↦ rw other refl
      ]

  item-renewed :
      (u key v j : String) (expire_at : Option ℕ) (s : Store) (m : Machine D)
      → Dict.get u m.stores ≡ some s
      → Healthy s.cache
      → item v j (renewed u key expire_at s m)
        ≡ (if u == v && key == j then with_new expire_at (item v j m) else item v j m)
  item-renewed u key v j expire_at s m there healthy =
      let m₁ = record m { stores = Dict.put u (moved key s) m.stores } in
      item-put u v j (renewed_store key expire_at s) m₁ ∙ elim (Bool-cases (u == v)) [
        | inl here ↦ rw here (
            item_in-renewed key j expire_at s healthy
            ∙ ap (λ o. if key == j then with_new expire_at o else o)
                (item-there u v j s m there here))
        | inr other ↦ rw other (item-put u v j (moved key s) m ∙ rw other refl)
      ]

  item-if_renewed :
      (b : Bool) (u key v j : String) (expire_at : Option ℕ) (s : Store) (m : Machine D)
      → Dict.get u m.stores ≡ some s
      → Healthy s.cache
      → item v j (if_renewed b u key expire_at s m)
        ≡ (if b && (u == v && key == j) then with_new expire_at (item v j m) else item v j m)
  item-if_renewed true u key v j expire_at s m there healthy =
      item-renewed u key v j expire_at s m there healthy
  item-if_renewed false u key v j expire_at s m there healthy =
      item-touched u key v j s m there healthy

module _ {D : Type 0} (db : Database D) (lower : String → String) where
  expire_in_ram :
      (u key : String) (expire_at : Option ℕ) (s : Store) (m : Machine D)
      → m.use_db ≡ false
      → expire_in db lower s u key expire_at (touched db lower u key s m)
        ≡ (some (bool true), renewed u key expire_at s m)
  unfolding expire_in ◌>>=◌ save
  expire_in_ram u key expire_at s m off =
      rw (off, Dict.get-put u u (moved key s) m.stores, beq_refl u) refl

  expire_item_ram :
      (u key value : String) (expire_at old : Option ℕ) (at_ms : ℕ) (s : Store) (m : Machine D)
      → m.use_db ≡ false
      → expire_item db lower s u key expire_at at_ms (value, old) (touched db lower u key s m) ≡ (
        some (bool (renews expire_at at_ms (some (value, old)))),
        if_renewed (renews expire_at at_ms (some (value, old))) u key expire_at s m,
      )
  unfolding expire_item
  expire_item_ram u key value expire_at old at_ms s m off = elim (Bool-cases (expired old at_ms)) [
    | inl past ↦ rw past refl
    | inr live ↦ elim (Bool-cases (forever expire_at old)) [
      | inl same ↦ rw (live, same) refl
      | inr differs ↦ rw (live, differs) (expire_in_ram u key expire_at s m off)
    ]
  ]

  apply_expiry_ram :
      (u key : String) (expire_at : Option ℕ) (at_ms : ℕ) (s : Store) (m : Machine D)
      → m.use_db ≡ false
      → Dict.get u m.stores ≡ some s
      → apply_expiry db lower u key expire_at at_ms m ≡ (
        some (bool (renews expire_at at_ms (item_in s key))),
        if_renewed (renews expire_at at_ms (item_in s key)) u key expire_at s m,
      )
  unfolding apply_expiry ◌>>=◌
  apply_expiry_ram u key expire_at at_ms s m off there = elim (Option-cases (item_in s key)) [
    | inl missing ↦
        rw (get_store_hit db lower u s m there, lookup_ram db lower u key s m off, missing) refl
    | inr ((value, old), found) ↦
        rw (get_store_hit db lower u s m there, lookup_ram db lower u key s m off, found)
          (expire_item_ram u key value expire_at old at_ms s m off)
  ]

  pub item-apply_expiry :
      (u key : String) (expire_at : Option ℕ) (at_ms : ℕ) (s : Store) (m : Machine D)
      → m.use_db ≡ false
      → Dict.get u m.stores ≡ some s
      → Healthy s.cache
      → ((apply_expiry db lower u key expire_at at_ms m).0
          ≡ some (bool (renews expire_at at_ms (item u key m))))
        × ((v j : String)
            → item v j (apply_expiry db lower u key expire_at at_ms m).1 ≡ (
                if renews expire_at at_ms (item u key m) && (u == v && key == j)
                then with_new expire_at (item v j m)
                else item v j m))
  item-apply_expiry u key expire_at at_ms s m off there healthy = (
    rw (apply_expiry_ram u key expire_at at_ms s m off there, there) refl,
    λ v j.
        rw (apply_expiry_ram u key expire_at at_ms s m off there, there)
          (item-if_renewed (renews expire_at at_ms (item_in s key)) u key v j expire_at s m there
            healthy),
  )
