-- ===== src/Server/Machine.antt =====
-- server/state_machine.py: the state, and the database functions that it imports from
-- apps/users/db_service.py, as an interface. Each method holds its lock for as long as it changes the
-- state, so it is one step. An exception is `none`, beside the state with the changes made before it.
use distributed_key_value_ca.Prelude.{
  ℕ, String, Bool, Option, none, some, List, [], string_eq, ◌≡◌, refl,
}
use distributed_key_value_ca.Prelude.Dict
use distributed_key_value_ca.Prelude.Dict.{Dict}
use mathlib.Core.Option.{none-ne-some}
use distributed_key_value_ca.Store.{Store}

-- what a command returns: True or False, a number, or None
pub data Value : Type 0 where
  bool : Bool → Value
  number : ℕ → Value
  null : Value

-- the last request of a client: its number, its result, and its index in the log
abbrev pub Session : Type 0
Session = ℕ × Value × ℕ

pub record Machine (D : Type 0) : Type 0 where
  pub use_db : Bool
  pub capacity : ℕ
  pub stores : Dict String Store
  pub sessions : Dict String Session
  pub database : D

unfoldable pub init : {D : Type 0} → Bool → ℕ → D → Machine D
init use_db capacity database = record {
  use_db = use_db;
  capacity = capacity;
  stores = [];
  sessions = [];
  database = database;
}

-- a line of a snapshot, by what its JSON holds; the result of a session is JSON itself
pub data Row : Type 0 where
  user_row : String → String → Row
  entry_row : String → String → String → Option ℕ → Row
  session_row : String → ℕ → String → ℕ → Row

-- A call may raise, and may change the database.
abbrev pub Call : Type 0 → Type 0 → Type 0
Call D A = D → Option A × D

pub record Database (D : Type 0) : Type 0 where
  pub save_user : String → String → Call D (Unit {0})
  pub get_user : String → Call D (Option String)
  pub save_entry : String → String → String → Option ℕ → Call D (Unit {0})
  pub get_entry_with_expiry : String → String → Call D (Option (String × Option ℕ))
  pub delete_entry : String → String → Call D Bool
  pub set_expiry : String → String → Option ℕ → Call D Bool
  pub get_all_entries : String → ℕ → Call D (Dict String String)
  pub get_expiries : String → Call D (Dict String ℕ)
  pub list_keys : String → ℕ → Call D (List String)
  pub delete_expired : ℕ → Call D ℕ
  pub next_expiry : Call D (Option ℕ)
  pub load_all_users : Call D (List (String × String))
  pub load_sessions : Call D (List (String × ℕ × String × ℕ))
  pub save_session : String → ℕ → String → ℕ → Call D (Unit {0})
  pub delete_session : String → Call D (Unit {0})
  pub dump_to : Call D (List Row)
  pub replace_from : List Row → Call D ℕ

abbrev pub M : Type 0 → Type 0 → Type 0
M D A = Machine D → Option A × Machine D

module _ {D : Type 0} where
  abbrev pub bound : {A B : Type 0} → (A → M D B) → Option A → M D B
  bound f none m = (none, m)
  bound f (some a) m = f a m

  some-bound :
      {A B : Type 0} (f : A → M D B) (o : Option A) (m : Machine D) (b : B)
      → (bound f o m).0 ≡ some b
      → (a : A) × (o ≡ some a) × ((f a m).0 ≡ some b) × ((bound f o m).1 ≡ (f a m).1)
  some-bound f none m b done = absurd (none-ne-some b done)
  some-bound f (some a) m b done = (a, refl, done, refl)

  infixl 5 ◌>>=◌ ◌>>◌
  unfoldable pub ◌>>=◌ : {A B : Type 0} → M D A → (A → M D B) → M D B
  ◌>>=◌ c f m = bound f (c m).0 (c m).1

  -- What has returned has returned at each step.
  pub >>=-some :
      {A B : Type 0} (c : M D A) (f : A → M D B) (m : Machine D) (b : B)
      → ((c >>= f) m).0 ≡ some b
      → (a : A) × ((c m).0 ≡ some a)
        × ((f a (c m).1).0 ≡ some b)
        × (((c >>= f) m).1 ≡ (f a (c m).1).1)
  unfolding ◌>>=◌
  >>=-some c f m b done = some-bound f (c m).0 (c m).1 b done

  abbrev pub ◌>>◌ : {B : Type 0} → M D (Unit {0}) → M D B → M D B
  c >> d = c >>= λ _. d

  abbrev pub pure : {A : Type 0} → A → M D A
  pure a m = (some a, m)

  -- the value, or the exception of what computes it
  abbrev pub lift : {A : Type 0} → Option A → M D A
  lift o m = (o, m)

  abbrev pub ask : {A : Type 0} → (Machine D → A) → M D A
  ask f m = (some (f m), m)

  abbrev pub call : {A : Type 0} → Call D A → M D A
  call c m = ((c m.database).0, record m { database = (c m.database).1 })

  -- `self.stores[username] = store`, and a change of the store object that stands there
  unfoldable pub save : String → Store → M D (Unit {0})
  save username store m = (some tt, record m { stores = Dict.put username store m.stores })

  unfoldable pub replace_stores : Dict String Store → M D (Unit {0})
  replace_stores stores m = (some tt, record m { stores = stores })

  unfoldable pub replace_sessions : Dict String Session → M D (Unit {0})
  replace_sessions sessions m = (some tt, record m { sessions = sessions })
