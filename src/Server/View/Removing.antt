-- ===== src/Server/View/Removing.antt =====
-- server/state_machine.py: DELETE, EXPIREAT and PERSIST, on a node without a database.
use distributed_key_value_ca.Prelude.{
  ℕ, ◌≡◌, refl, sym, ap, ◌∙◌, String, Bool, true, false, ◌&&◌, Option, none, some, inl, inr,
  Bool-cases, string_eq, ◌==◌, beq_refl, if◌then◌else◌,
}
use distributed_key_value_ca.Prelude.Dict
use distributed_key_value_ca.Cache.Interface.Dispatch
use distributed_key_value_ca.Cache.Interface.Dispatch.{Healthy}
use distributed_key_value_ca.Cache.Interface.Dispatch.Kept.{dispatch-laws}
use distributed_key_value_ca.Store.{Store}
use distributed_key_value_ca.Server.Machine.{Machine, bool, Database, ◌>>=◌, save}
use distributed_key_value_ca.Server.Commands.{dropped, existed_at, delete_in, apply_delete}
use distributed_key_value_ca.Server.View.{
  with_expiry, item_in, item_of, item, get_store_hit, lookup_ram,
}

-- A key that is dropped is the only one that is lost.
pub item-dropped :
    (key j : String) (s : Store)
    → Healthy s.cache
    → item_in (dropped key s).1 j ≡ (if key == j then none else item_in s j)
unfolding dropped
item-dropped key j s healthy =
    rw (dispatch-laws.get-delete key j s.cache healthy, Dict.get-remove key j s.expiry)
      (elim (Bool-cases (key == j)) [ inl here ↦ rw here refl | inr other ↦ rw other refl ])

-- the store after `_lookup`
abbrev pub moved : String → Store → Store
moved key s = record s { cache = (Dispatch.get key s.cache).1 }

pub item-moved :
    (key j : String) (s : Store) → Healthy s.cache → item_in (moved key s) j ≡ item_in s j
item-moved key j s healthy =
    ap (with_expiry (Dict.get j s.expiry)) (dispatch-laws.get-get key j s.cache healthy)

-- the item of a user's key in a table of stores with one store replaced
pub item-put :
    {D : Type 0} (u v j : String) (s : Store) (m : Machine D)
    → item v j (record m { stores = Dict.put u s m.stores })
      ≡ (if u == v then item_in s j else item v j m)
item-put u v j s m =
    ap (λ o. item_of o j) (Dict.get-put u v s m.stores)
    ∙ elim (Bool-cases (u == v)) [ inl here ↦ rw here refl | inr other ↦ rw other refl ]

both :
    {A : Type 0} (a b : Bool) (x y : A)
    → (if a then (if b then x else y) else y) ≡ (if a && b then x else y)
both true b x y = refl
both false b x y = refl

module _ {D : Type 0} (db : Database D) (lower : String → String) where
  abbrev pub deleted : String → String → Store → Machine D → Machine D
  deleted u key s m = record m {
    stores = Dict.put u (dropped key (moved key s)).1 (Dict.put u (moved key s) m.stores);
  }

  delete_in_ram :
      (u key : String) (at_ms : Option ℕ) (s : Store) (m : Machine D)
      → m.use_db ≡ false
      → delete_in db lower s u key at_ms m
        ≡ (some (bool (existed_at at_ms (item_in s key))), deleted u key s m)
  unfolding delete_in ◌>>=◌ save
  delete_in_ram u key at_ms s m off =
      rw
        (
          lookup_ram db lower u key s m off,
          off,
          Dict.get-put u u (moved key s) m.stores,
          beq_refl u,
        )
        refl

  item-deleted :
      (u key v j : String) (s : Store) (m : Machine D)
      → Dict.get u m.stores ≡ some s
      → Healthy s.cache
      → item v j (deleted u key s m) ≡ (if u == v && key == j then none else item v j m)
  item-deleted u key v j s m there healthy =
      let s₁ = moved key s in
      let m₁ = record m { stores = Dict.put u s₁ m.stores } in
      item-put u v j (dropped key s₁).1 m₁ ∙ elim (Bool-cases (u == v)) [
        | inl here ↦ rw here (
            item-dropped key j s₁ (dispatch-laws.get-Valid key s.cache healthy)
            ∙ ap (λ x. if key == j then none else x)
                (item-moved key j s healthy
                  ∙ sym (ap (λ o. item_of o j) there)
                  ∙ ap (λ w. item w j m) ((string_eq.beq_iff u v).0 here)))
        | inr other ↦ rw other (item-put u v j s₁ m ∙ rw other refl)
      ]

  pub item-apply_delete :
      (u key : String) (at_ms : Option ℕ) (s : Store) (m : Machine D)
      → m.use_db ≡ false
      → Dict.get u m.stores ≡ some s
      → Healthy s.cache
      → ((apply_delete db lower u key at_ms m).0 ≡ some (bool (existed_at at_ms (item u key m))))
        × ((v j : String)
            → item v j (apply_delete db lower u key at_ms m).1
              ≡ (if u == v && key == j then none else item v j m))
  unfolding apply_delete ◌>>=◌
  item-apply_delete u key at_ms s m off there healthy = (
    rw (get_store_hit db lower u s m there, delete_in_ram u key at_ms s m off, there) refl,
    λ v j.
        rw (get_store_hit db lower u s m there, delete_in_ram u key at_ms s m off)
          (item-deleted u key v j s m there healthy),
  )
