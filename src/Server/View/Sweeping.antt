-- ===== src/Server/View/Sweeping.antt =====
-- server/state_machine.py: SWEEP, on a node without a database.
use distributed_key_value_ca.Prelude.{
  ℕ, ◌≡◌, ◌≤◌, refl, sym, ap, ◌∙◌, subst, String, Bool, true, false, ◌&&◌, ◌||◌, Option, none, some,
  [], ◌∷◌, inl, inr, Bool-cases, Option-cases, string_eq, ◌==◌, if◌then◌else◌, leb, arith,
}
use mathlib.Core.Option.{some-injective, none-ne-some}
use distributed_key_value_ca.Prelude.Dict
use distributed_key_value_ca.Prelude.Dict.{Dict}
use distributed_key_value_ca.Cache.Interface.Dispatch
use distributed_key_value_ca.Cache.Interface.Dispatch.{Healthy}
use distributed_key_value_ca.Cache.Interface.Dispatch.Kept.{dispatch-laws}
use distributed_key_value_ca.Store.{Store}
use distributed_key_value_ca.Server.Machine.{Value, Machine, Database, ◌>>=◌, replace_stores}
use distributed_key_value_ca.Server.Stores.{expired}
use distributed_key_value_ca.Server.Commands.{dropped, swept, sweep_all, apply_sweep}
use distributed_key_value_ca.Server.Reads.{live, get, or_now}
use distributed_key_value_ca.Server.View.{with_expiry, item_in, item_of, item, find_ram, get-find}
use distributed_key_value_ca.Server.View.Removing.{item-dropped}

-- The keys are distinct.
abbrev pub Unique : Dict String ℕ → Type 0
Unique [] = Unit
Unique ((k, t) ∷ d) = (Dict.get k d ≡ none) × Unique d

and-or : (a : Bool) → (a && true || false) ≡ a
and-or true = refl
and-or false = refl

false-or : (a b : Bool) → (a && false || b) ≡ b
false-or true b = refl
false-or false b = refl

or-if :
    {A : Type 0} (a b : Bool) (x : Option A)
    → (if b then none else (if a then none else x)) ≡ (if a || b then none else x)
or-if true true x = refl
or-if true false x = refl
or-if false b x = refl

-- some expiry of the key has passed
unfoldable due : ℕ → Dict String ℕ → String → Bool
due at_ms [] j = false
due at_ms ((k, t) ∷ d) j = leb t at_ms && k == j || due at_ms d j

due-missing :
    (at_ms : ℕ) (d : Dict String ℕ) (j : String) → Dict.get j d ≡ none → due at_ms d j ≡ false
unfolding due Dict.get
due-missing at_ms [] j missing = refl
due-missing at_ms ((k, t) ∷ d) j missing = ground (arith, due-missing at_ms d j)

-- With distinct keys, an expiry has passed if it is the one that is stored.
due-expired :
    (at_ms : ℕ) (d : Dict String ℕ) (j : String)
    → Unique d
    → due at_ms d j ≡ expired (Dict.get j d) at_ms
unfolding due Dict.get expired
due-expired at_ms [] j w = refl
due-expired at_ms ((k, t) ∷ d) j (alone, rest) = elim (Bool-cases (k == j)) [
  | inl here ↦
      let missing = subst (λ x. Dict.get x d ≡ none) ((string_eq.beq_iff k j).0 here) alone in
      rw (here, due-missing at_ms d j missing) (and-or (leb t at_ms))
  | inr other ↦ rw other (false-or (leb t at_ms) (due at_ms d j) ∙ due-expired at_ms d j rest)
]

swept-Healthy :
    (at_ms : ℕ) (d : Dict String ℕ) (s : Store)
    → Healthy s.cache
    → Healthy (swept at_ms d s).1.cache
unfolding swept dropped
swept-Healthy at_ms [] s healthy = healthy
swept-Healthy at_ms ((k, t) ∷ d) s healthy = elim (Bool-cases (leb t at_ms)) [
  | inl past ↦ rw past (swept-Healthy at_ms d _ (dispatch-laws.delete-Valid k s.cache healthy))
  | inr later ↦ rw later (swept-Healthy at_ms d s healthy)
]

-- A sweep loses the keys whose expiry has passed, and no others.
item-swept :
    (at_ms : ℕ) (d : Dict String ℕ) (s : Store) (j : String)
    → Healthy s.cache
    → item_in (swept at_ms d s).1 j ≡ (if due at_ms d j then none else item_in s j)
unfolding swept due
item-swept at_ms [] s j healthy = refl
item-swept at_ms ((k, t) ∷ d) s j healthy = elim (Bool-cases (leb t at_ms)) [
  | inl past ↦ rw (past) (
      item-swept at_ms d (dropped k s).1 j
        (unfold dropped in dispatch-laws.delete-Valid k s.cache healthy)
      ∙ ap (λ x. if due at_ms d j then none else x) (item-dropped k j s healthy)
      ∙ or-if (k == j) (due at_ms d j) (item_in s j))
  | inr later ↦ rw (later) (item-swept at_ms d s j healthy)
]

expiry-swept :
    (at_ms : ℕ) (d : Dict String ℕ) (s : Store) (j : String)
    → Dict.get j (swept at_ms d s).1.expiry ≡ (if due at_ms d j then none else Dict.get j s.expiry)
unfolding swept due dropped
expiry-swept at_ms [] s j = refl
expiry-swept at_ms ((k, t) ∷ d) s j = elim (Bool-cases (leb t at_ms)) [
  | inl past ↦ rw past (
      expiry-swept at_ms d _ j
      ∙ ap (λ x. if due at_ms d j then none else x) (Dict.get-remove k j s.expiry)
      ∙ or-if (k == j) (due at_ms d j) (Dict.get j s.expiry))
  | inr later ↦ rw later (expiry-swept at_ms d s j)
]

-- what expires by the time of the sweep has expired later
expired_later : (e : Option ℕ) (t t' : ℕ) → t ≤ t' → expired e t ≡ true → expired e t' ≡ true
unfolding expired
expired_later none t t' h past = past
expired_later (some x) t t' h past = ground arith

live-expired :
    (e : Option ℕ) (v : Option String) (t : ℕ)
    → expired e t ≡ true
    → live t (with_expiry e v) ≡ none
unfolding live
live-expired e none t past = refl
live-expired e (some v) t past = rw past refl

-- A sweep of a store hides nothing from a later read.
live-swept :
    (at_ms t : ℕ) (s : Store) (j : String)
    → Healthy s.cache
    → Unique s.expiry
    → at_ms ≤ t
    → live t (item_in (swept at_ms s.expiry s).1 j) ≡ live t (item_in s j)
unfolding live
live-swept at_ms t s j healthy unique order =
    let e = Dict.get j s.expiry in
    ap (live t) (
      item-swept at_ms s.expiry s j healthy
      ∙ ap (λ b. if b then none else item_in s j) (due-expired at_ms s.expiry j unique))
    ∙ elim (Bool-cases (expired e at_ms)) [
      | inl past ↦
          rw past
            (sym (live-expired e (Dispatch.get j s.cache).0 t (expired_later e at_ms t order past)))
      | inr later ↦ rw later refl
    ]

-- After a sweep, no expiry has passed.
expired-swept :
    (at_ms : ℕ) (s : Store) (j : String)
    → Unique s.expiry
    → expired (Dict.get j (swept at_ms s.expiry s).1.expiry) at_ms ≡ false
unfolding expired
expired-swept at_ms s j unique =
    let e = Dict.get j s.expiry in
    ap (λ x. expired x at_ms)
      (expiry-swept at_ms s.expiry s j
        ∙ ap (λ b. if b then none else e) (due-expired at_ms s.expiry j unique))
    ∙ elim (Bool-cases (expired e at_ms)) [ inl past ↦ rw past refl | inr later ↦ rw (later) later ]

get-sweep_all :
    (at_ms : ℕ) (u : String) (stores : Dict String Store)
    → Dict.get u (sweep_all at_ms stores)
      ≡ (elim (Dict.get u stores) [ none ↦ none | some s ↦ some (swept at_ms s.expiry s).1 ])
unfolding sweep_all Dict.get
get-sweep_all at_ms u [] = refl
get-sweep_all at_ms u ((v, s) ∷ stores) = elim (Bool-cases (v == u)) [
  | inl here ↦ rw here refl
  | inr other ↦ rw other (get-sweep_all at_ms u stores)
]

-- A store after a sweep was there before.
swept_from :
    (at_ms : ℕ) (u : String) (stores : Dict String Store) (s : Store)
    → Dict.get u (sweep_all at_ms stores) ≡ some s
    → (s₀ : Store) × (Dict.get u stores ≡ some s₀) × ((swept at_ms s₀.expiry s₀).1 ≡ s)
swept_from at_ms u stores s there =
    let swept_option : Option Store → Option Store =
      λ o. elim o [ none ↦ none | some s ↦ some (swept at_ms s.expiry s).1 ] in
    let now_there = sym (get-sweep_all at_ms u stores) ∙ there in
    elim (Option-cases (Dict.get u stores)) [
      | inl missing ↦ absurd (none-ne-some s (sym (ap swept_option missing) ∙ now_there))
      | inr (s₀, found) ↦ (s₀, found, some-injective _ _ (sym (ap swept_option found) ∙ now_there))
    ]

-- what every store keeps true: a healthy cache, and one expiry for a key
pub record Kept {D : Type 0} (m : Machine D) : Type 0 where
  pub healthy : (u : String) (s : Store) → Dict.get u m.stores ≡ some s → Healthy s.cache
  pub unique : (u : String) (s : Store) → Dict.get u m.stores ≡ some s → Unique s.expiry

module _ {D : Type 0} (db : Database D) (lower : String → String) where
  sweep_ram :
      (at_ms : ℕ) (m : Machine D)
      → m.use_db ≡ false
      → (apply_sweep db lower at_ms m).1 ≡ record m { stores = sweep_all at_ms m.stores }
  unfolding apply_sweep ◌>>=◌ replace_stores
  sweep_ram at_ms m off = rw off refl

  -- A SWEEP that returns has swept every store.
  sweep_stores :
      (at_ms : ℕ) (m : Machine D) (answer : Value)
      → (apply_sweep db lower at_ms m).0 ≡ some answer
      → (apply_sweep db lower at_ms m).1.stores ≡ sweep_all at_ms m.stores
  unfolding apply_sweep ◌>>=◌ replace_stores
  sweep_stores at_ms m answer returned = elim (Bool-cases m.use_db) [
    | inr off ↦ rw off refl
    | inl on ↦ elim (Option-cases (db.delete_expired at_ms m.database).0) [
      | inl raised ↦ absurd (none-ne-some answer (sym (rw (on, raised) refl) ∙ returned))
      | inr (removed, done) ↦ rw (on, done) refl
    ]
  ]

  live-sweep :
      (at_ms t : ℕ) (u key : String) (m : Machine D)
      → Kept m
      → at_ms ≤ t
      → live t (item u key (record m { stores = sweep_all at_ms m.stores })) ≡ live t (item u key m)
  live-sweep at_ms t u key m kept order =
      ap (λ o. live t (item_of o key)) (get-sweep_all at_ms u m.stores)
      ∙ elim (Option-cases (Dict.get u m.stores)) [
        | inl missing ↦ rw missing refl
        | inr (s, there) ↦
            rw there
              (live-swept at_ms t s key (kept.healthy u s there) (kept.unique u s there) order)
      ]

  -- On a node without a database, a SWEEP changes no answer of a get at its time or later. Every store
  -- has a healthy cache and one expiry for a key.
  pub get-apply_sweep :
      (at_ms : ℕ) (m : Machine D) (u key : String) (read_at : Option ℕ) (now : ℕ)
      → m.use_db ≡ false
      → Kept m
      → at_ms ≤ or_now read_at now
      → (get db lower u key read_at now (apply_sweep db lower at_ms m).1).0
        ≡ (get db lower u key read_at now m).0
  get-apply_sweep at_ms m u key read_at now off kept order =
      let m' = record m { stores = sweep_all at_ms m.stores } in
      rw (sweep_ram at_ms m off) (
        get-find db lower u key read_at now m' _ (find_ram db lower u key m' off)
        ∙ ap some (live-sweep at_ms (or_now read_at now) u key m kept order)
        ∙ sym (get-find db lower u key read_at now m _ (find_ram db lower u key m off)))

  -- A SWEEP that returns, with a database or without, leaves no expiry in RAM that has passed by its
  -- time. Every store has a healthy cache and one expiry for a key.
  pub expired-apply_sweep :
      (at_ms : ℕ) (m : Machine D) (u key : String) (s : Store) (answer : Value)
      → Kept m
      → (apply_sweep db lower at_ms m).0 ≡ some answer
      → Dict.get u (apply_sweep db lower at_ms m).1.stores ≡ some s
      → expired (Dict.get key s.expiry) at_ms ≡ false
  expired-apply_sweep at_ms m u key s answer kept returned there =
      let (s₀, before, same) =
        swept_from at_ms u m.stores s
          (sym (ap (Dict.get u) (sweep_stores at_ms m answer returned)) ∙ there) in
      subst (λ (x : Store). expired (Dict.get key x.expiry) at_ms ≡ false) same
        (expired-swept at_ms s₀ key (kept.unique u s₀ before))
