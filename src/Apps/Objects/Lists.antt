-- ===== src/Apps/Objects/Lists.antt =====
-- A table as the list of its rows.
use distributed_key_value_ca.Prelude.{
  ℕ, ◌≡◌, refl, ap, ◌∙◌, not, List, [], ◌∷◌, ◌++◌, map, filter_if, leb, if◌then◌else◌, arith,
}
use distributed_key_value_ca.Apps.Objects.{Objects, ObjectsLaws, changed, Rises}

module _ {R : Type 0} where
  abbrev pub placed : (R → ℕ) → R → List R → List R
  placed field r [] = r ∷ []
  placed field r (s ∷ rows) =
      let rest = placed field r rows in if leb (field r) (field s) then r ∷ s ∷ rows else s ∷ rest

  abbrev pub ordered : (R → ℕ) → List R → List R
  ordered field [] = []
  ordered field (r ∷ rows) = placed field r (ordered field rows)

  abbrev pub lists : Objects R (List R)
  lists = record {
    rows = (λ t. t);
    delete = (λ p t. filter_if (λ r. not (p r)) t);
    bulk_create = (λ new t. t ++ new);
    update_or_create = changed;
    update = (λ p change t. map (λ r. if p r then change r else r) t);
    order_by = ordered;
  }

  ordered-Rises : (field : R → ℕ) (b : ℕ) (t : List R) → Rises field b t → ordered field t ≡ t
  ordered-Rises field b [] rising = refl
  ordered-Rises field b (r ∷ []) rising = refl
  ordered-Rises field b (r ∷ s ∷ t) rising =
      ap (placed field r) (ordered-Rises field (field r) (s ∷ t) rising.1) ∙ ground arith

  pub lists-laws : ObjectsLaws lists
  lists-laws = record {
    rows-delete = (λ p t. refl);
    rows-bulk_create = (λ new t. refl);
    rows-update_or_create = (λ p change blank t. refl);
    rows-update = (λ p change t. refl);
    order_by-Rises = ordered-Rises;
  }
