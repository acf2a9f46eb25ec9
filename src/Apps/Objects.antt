-- ===== src/Apps/Objects.antt =====
-- The part of Django's ORM that apps/ uses, as an interface: a table's manager, with its documented
-- behaviour as laws. A row is taken in the order of its primary key.
pub mod Lists
use distributed_key_value_ca.Prelude.{
  ℕ, ◌<◌, ◌≡◌, refl, ap, ◌∙◌, Bool, true, not, Option, none, some, List, [], ◌∷◌, ◌++◌, map, inl,
  inr, Bool-cases, filter_if, if◌then◌else◌,
}

module _ {R : Type 0} where
  -- `.filter(...).first()`
  abbrev pub first_row : (R → Bool) → List R → Option R
  first_row p [] = none
  first_row p (r ∷ rows) = let rest = first_row p rows in if p r then some r else rest

  abbrev pub or_blank : R → Option R → R
  or_blank blank none = blank
  or_blank blank (some r) = r

  -- the first row that passes is changed, or a blank row is changed and put at the end
  abbrev pub changed : (R → Bool) → (R → R) → R → List R → List R
  changed p change blank [] = change blank ∷ []
  changed p change blank (r ∷ rows) =
      let rest = changed p change blank rows in if p r then change r ∷ rows else r ∷ rest

  -- The field rises along the rows, from above a bound.
  abbrev pub Rises : (R → ℕ) → ℕ → List R → Type 0
  Rises field b [] = Unit
  Rises field b (r ∷ rows) = (b < field r) × Rises field (field r) rows

-- `T` is the type of a table's contents. `update_or_create` takes the row's key as a test, the defaults
-- as a change of a row, and the row of the model's own defaults under that key.
pub record Objects (R T : Type 0) : Type 0 where
  pub rows : T → List R
  pub delete : (R → Bool) → T → T
  pub bulk_create : List R → T → T
  pub update_or_create : (R → Bool) → (R → R) → R → T → T
  pub update : (R → Bool) → (R → R) → T → T
  pub order_by : (R → ℕ) → List R → List R

pub record ObjectsLaws {R T : Type 0} (objects : Objects R T) : Type 0 where
  pub rows-delete :
      (p : R → Bool) (t : T)
      → objects.rows (objects.delete p t) ≡ filter_if (λ r. not (p r)) (objects.rows t)
  pub rows-bulk_create :
      (new : List R) (t : T) → objects.rows (objects.bulk_create new t) ≡ objects.rows t ++ new
  pub rows-update_or_create :
      (p : R → Bool) (change : R → R) (blank : R) (t : T)
      → objects.rows (objects.update_or_create p change blank t)
        ≡ changed p change blank (objects.rows t)
  pub rows-update :
      (p : R → Bool) (change : R → R) (t : T)
      → objects.rows (objects.update p change t)
        ≡ map (λ r. if p r then change r else r) (objects.rows t)
  pub order_by-Rises :
      (field : R → ℕ) (b : ℕ) (some_rows : List R)
      → Rises field b some_rows
      → objects.order_by field some_rows ≡ some_rows

module _ {R T : Type 0} (objects : Objects R T) (laws : ObjectsLaws objects) where
  first-changed :
      (p : R → Bool) (change : R → R) (blank : R) (t : List R)
      → p blank ≡ true
      → ((r : R) → p (change r) ≡ p r)
      → first_row p (changed p change blank t) ≡ some (change (or_blank blank (first_row p t)))
  first-changed p change blank [] there keeps = rw (keeps blank ∙ there) refl
  first-changed p change blank (r ∷ t) there keeps = elim (Bool-cases (p r)) [
    | inl here ↦ rw here (rw (keeps r ∙ here) refl)
    | inr other ↦ rw other (rw other (first-changed p change blank t there keeps))
  ]

  -- The row under a key after `update_or_create`, where the change keeps the key.
  pub first-update_or_create :
      (p : R → Bool) (change : R → R) (blank : R) (t : T)
      → p blank ≡ true
      → ((r : R) → p (change r) ≡ p r)
      → first_row p (objects.rows (objects.update_or_create p change blank t))
        ≡ some (change (or_blank blank (first_row p (objects.rows t))))
  first-update_or_create p change blank t there keeps =
      ap (first_row p) (laws.rows-update_or_create p change blank t)
      ∙ first-changed p change blank (objects.rows t) there keeps
