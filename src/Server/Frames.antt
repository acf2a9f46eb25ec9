-- ===== src/Server/Frames.antt =====
-- server/state_machine.py: what the commands leave alone. A relation between the state before and the
-- state after is carried through the steps of a method, whether it returns or raises.
pub mod Commands
use distributed_key_value_ca.Prelude.{
  ℕ, ◌≡◌, refl, sym, ap, ◌∙◌, String, Bool, true, false, Option, none, some, string_eq, ◌==◌,
  if◌then◌else◌, inl, inr, Option-cases,
}
use distributed_key_value_ca.Prelude.Dict
use distributed_key_value_ca.Store.{Store}
use distributed_key_value_ca.Server.Machine.{
  Machine, Database, Call, M, bound, ◌>>=◌, pure, lift, ask, call, save,
}
use distributed_key_value_ca.Server.Stores.{
  read_store, set_default, load_user_from_db, get_store, warm, lookup,
}
use distributed_key_value_ca.Server.Commands.{
  apply_signup, set_in, apply_set, delete_in, apply_delete, expire_in, apply_expiry,
}

-- A relation that holds of a state and itself, and that can be chained.
pub record Chains {S : Type 0} (R : S → S → Type 0) : Type 0 where
  pub none_done : (m : S) → R m m
  pub both : {m m' m'' : S} → R m m' → R m' m'' → R m m''

module _ {D : Type 0} (R : Machine D → Machine D → Type 0) where
  abbrev pub Along : {A : Type 0} → M D A → Type 0
  Along c = (m : Machine D) → R m (c m).1

module _ {D : Type 0} {R : Machine D → Machine D → Type 0} (chains : Chains R) where
  bound_along :
      {A B : Type 0} (f : A → M D B) (o : Option A) (m m' : Machine D)
      → R m m'
      → ((a : A) → Along R (f a))
      → R m (bound f o m').1
  bound_along f none m m' done next = done
  bound_along f (some a) m m' done next = chains.both done (next a m')

  pub bind-Along :
      {A B : Type 0} (c : M D A) (f : A → M D B)
      → Along R c
      → ((a : A) → Along R (f a))
      → Along R (c >>= f)
  unfolding ◌>>=◌
  bind-Along c f first next m = bound_along f (c m).0 m (c m).1 (first m) next

  pub if-Along :
      {A : Type 0} (b : Bool) (c d : M D A) → Along R c → Along R d → Along R (if b then c else d)
  if-Along true c d yes_done no_done = yes_done
  if-Along false c d yes_done no_done = no_done

  pub option-Along :
      {A B : Type 0} (c : M D B) (f : A → M D B) (o : Option A)
      → Along R c
      → ((a : A) → Along R (f a))
      → Along R (elim o [ none ↦ c | some a ↦ f a ])
  option-Along c f none first next = first
  option-Along c f (some a) first next = next a

-- Nothing but the database and the store of one user differs.
pub record Only {D : Type 0} (u : String) (m m' : Machine D) : Type 0 where
  pub same_mode : m'.use_db ≡ m.use_db
  pub same_capacity : m'.capacity ≡ m.capacity
  pub same_sessions : m'.sessions ≡ m.sessions
  pub others : (v : String) → (u == v) ≡ false → Dict.get v m'.stores ≡ Dict.get v m.stores

module _ {D : Type 0} (u : String) where
  pub Only-chains : Chains (Only {D = D} u)
  Only-chains = record {
    none_done = (λ m. record {
      same_mode = refl;
      same_capacity = refl;
      same_sessions = refl;
      others = (λ v h. refl);
    });
    both = (λ first second. record {
      same_mode = second.same_mode ∙ first.same_mode;
      same_capacity = second.same_capacity ∙ first.same_capacity;
      same_sessions = second.same_sessions ∙ first.same_sessions;
      others = (λ v h. second.others v h ∙ first.others v h);
    });
  }

  pub call-Only : (d : Machine D → D) (m : Machine D) → Only u m (record m { database = d m })
  call-Only d m = record {
    same_mode = refl;
    same_capacity = refl;
    same_sessions = refl;
    others = (λ v h. refl);
  }

  pub save-Only : (s : Store) → Along (Only u) (save {D = D} u s)
  unfolding save
  save-Only s m = record {
    same_mode = refl;
    same_capacity = refl;
    same_sessions = refl;
    others = (λ v h. Dict.get-put u v s m.stores ∙ rw h refl);
  }

  pub still : (m : Machine D) → Only u m m
  still = Only-chains.none_done

  pub step :
      {A B : Type 0} (c : M D A) (f : A → M D B)
      → Along (Only u) c
      → ((a : A) → Along (Only u) (f a))
      → Along (Only u) (c >>= f)
  step = bind-Along Only-chains

  pub option_case :
      {A B : Type 0} (c : M D B) (f : A → M D B) (o : Option A)
      → Along (Only u) c
      → ((a : A) → Along (Only u) (f a))
      → Along (Only u) (elim o [ none ↦ c | some a ↦ f a ])
  option_case = option-Along Only-chains

  pub if_case :
      {A : Type 0} (b : Bool) (c d : M D A)
      → Along (Only u) c
      → Along (Only u) d
      → Along (Only u) (if b then c else d)
  if_case = if-Along Only-chains

  if_either :
      {A : Type 0} (m : Machine D) (b : Bool) (x y : Option A × Machine D)
      → Only u m x.1
      → Only u m y.1
      → Only u m (if b then x else y).1
  if_either m true x y first second = first
  if_either m false x y first second = second

module _ {D : Type 0} (db : Database D) (lower : String → String) (u : String) where
  read_store-Only : (h : String) → Along (Only u) (read_store db lower u h)
  unfolding read_store
  read_store-Only h = step u _ _ (still u) λ capacity. step u _ _ (still u) λ store.
      step u _ _ (call-Only u _)
        λ entries. step u _ _ (still u) λ cache. step u _ _ (call-Only u _) λ expiries. (still u)

  set_default-Only : (s : Store) → Along (Only u) (set_default db lower u s)
  unfolding set_default
  set_default-Only s m = elim (Option-cases (Dict.get u m.stores)) [
    | inl missing ↦ rw (missing, set_default) (save-Only u s m)
    | inr (there, found) ↦ rw (found, set_default) (still u m)
  ]

  load_user_from_db-Only : Along (Only u) (load_user_from_db db lower u)
  unfolding load_user_from_db
  load_user_from_db-Only = step u _ _ (call-Only u _) λ user. option_case u _ _ user (still u) λ h.
      step u _ _ (read_store-Only h) λ store. step u _ _ (set_default-Only store) λ there. (still u)

  pub get_store-Only : Along (Only u) (get_store db lower u)
  unfolding get_store
  get_store-Only m = elim (Option-cases (Dict.get u m.stores)) [
    | inl missing ↦
        rw (missing, get_store) (if_either u m m.use_db _ _ (load_user_from_db-Only m) (still u m))
    | inr (there, found) ↦ rw (found, get_store) (still u m)
  ]

  warm-Only : (s : Store) (key : String) → Along (Only u) (warm db lower s u key)
  unfolding warm
  warm-Only s key = step u _ _ (call-Only u _) λ row.
      option_case u _ _ row (still u)
        λ item. step u _ _ (still u) λ warmed. step u _ _ (save-Only u warmed) λ done. (still u)

  pub lookup-Only : (s : Store) (key : String) → Along (Only u) (lookup db lower s u key)
  unfolding lookup
  lookup-Only s key = step u _ _ (save-Only u _) λ done.
      option_case u _ _ _
        (step u _ _ (still u) λ use_db. if_case u use_db _ _ (warm-Only _ key) (still u))
        λ v. (still u)
