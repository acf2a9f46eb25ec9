-- ===== src/Apps/Service/Laws.antt =====
-- apps/users/db_service.py: an entry that was saved is read back.
use mathlib.Core.Option.{some-injective, none-ne-some}
use distributed_key_value_ca.Prelude.{
  fun_ext, subst, ℕ, ◌≡◌, refl, sym, ap, ◌∙◌, String, Bool, true, false, ◌&&◌, Option, none, some,
  List, [], ◌∷◌, inl, inr, Bool-cases, Option-cases, arith, string_eq, ◌==◌, beq_refl,
  if◌then◌else◌, is_some,
}
use distributed_key_value_ca.Apps.Objects.{
  Objects, ObjectsLaws, first_row, changed, first-update_or_create,
}
use distributed_key_value_ca.Apps.Service.{
  Collation, is_own, is_user, CacheUser, CacheEntry, ClientSession, Tables, is_entry, new_entry,
  find_user, put_entry, save_entry, get_entry_with_expiry,
}

-- A change of a row that keeps its key is not seen under other keys.
first-changed_other :
    {R : Type 0} (p q : R → Bool) (change : R → R) (blank : R) (rows : List R)
    → ((r : R) → p r ≡ true → q r ≡ false)
    → ((r : R) → q (change r) ≡ q r)
    → q blank ≡ false
    → first_row q (changed p change blank rows) ≡ first_row q rows
first-changed_other p q change blank [] apart keeps not_blank = rw (keeps blank ∙ not_blank) refl
first-changed_other p q change blank (r ∷ rows) apart keeps not_blank = elim (Bool-cases (p r)) [
  | inl here ↦ rw here (rw (keeps r ∙ apart r here, apart r here) refl)
  | inr other ↦ rw other (elim (Bool-cases (q r)) [
    | inl found ↦ rw found refl
    | inr missing ↦ rw missing (first-changed_other p q change blank rows apart keeps not_blank)
  ])
]

-- the entries of a user and a key, compared exactly
abbrev exact_entry : String → String → CacheEntry → Bool
exact_entry username key e = e.user == username && e.cache_key == key

same_names : (u key v j : String) → (u == v && key == j) ≡ true → (u ≡ v) × (key ≡ j)
same_names u key v j same =
    let both : ((u == v) ≡ true) × ((key == j) ≡ true) = ground (arith, same) in
    ((string_eq.beq_iff u v).0 both.0, (string_eq.beq_iff key j).0 both.1)

apart :
    (u key v j : String)
    → (u == v && key == j) ≡ false
    → (e : CacheEntry) → exact_entry u key e ≡ true
    → exact_entry v j e ≡ false
apart u key v j other e here = ground (
  arith,
  string_eq.beq_iff u v,
  string_eq.beq_iff key j,
  string_eq.beq_iff e.user u,
  string_eq.beq_iff e.user v,
  string_eq.beq_iff e.cache_key key,
  string_eq.beq_iff e.cache_key j,
)

module _ {TU TE TS : Type 0} (users : Objects CacheUser TU) (entries : Objects CacheEntry TE)
    (sessions : Objects ClientSession TS) (text : Collation) (entry_laws : ObjectsLaws entries)
    (exact : (a b : String) → text.same_text a b ≡ (a == b)) where
  is_own-exact : (u key : String) → is_own text u key ≡ exact_entry u key
  is_own-exact u key = fun_ext λ e. ap (λ b. e.user == u && b) (exact e.cache_key key)

  is_entry-exact : (u key : String) → is_entry text u key ≡ exact_entry u key
  is_entry-exact u key = fun_ext λ e. rw (exact e.user u, exact e.cache_key key) refl

  -- a change of the entry of a user and a key
  put_exact : (CacheEntry → CacheEntry) → String → String → TE → TE
  put_exact change u key t = entries.update_or_create (exact_entry u key) change (new_entry u key) t

  saved : String → Option ℕ → ℕ → CacheEntry → CacheEntry
  saved value expire_at clock e = record e {
    cache_value = value;
    expire_at = expire_at;
    updated_at = clock;
  }

  find_exact : String → String → TE → Option CacheEntry
  find_exact u key t = first_row (exact_entry u key) (entries.rows t)

  first_row-true :
      (p : CacheUser → Bool) (rows : List CacheUser) (user : CacheUser)
      → first_row p rows ≡ some user
      → p user ≡ true
  first_row-true p [] user found = absurd (none-ne-some user found)
  first_row-true p (r ∷ rows) user found = elim (Bool-cases (p r)) [
    | inl here ↦ subst (λ x. p x ≡ true) (some-injective r user (sym (rw here refl) ∙ found)) here
    | inr other ↦ first_row-true p rows user (sym (rw other refl) ∙ found)
  ]

  -- the user's name, as the row has it
  named :
      (u : String) (d : Tables TU TE TS) (user : CacheUser)
      → find_user users entries sessions text u d ≡ some user
      → user.username ≡ u
  named u d user found = (string_eq.beq_iff user.username u).0 (
      sym (exact user.username u) ∙ first_row-true (is_user text u) (users.rows d.users) user found)

  entries-saved :
      (u key value : String) (expire_at : Option ℕ) (d : Tables TU TE TS) (user : CacheUser)
      → find_user users entries sessions text u d ≡ some user
      → (save_entry users entries sessions text u key value expire_at d).1.entries
        ≡ put_exact (saved value expire_at d.clock) u key d.entries
  unfolding save_entry put_exact saved
  entries-saved u key value expire_at d user found =
      rw (save_entry, found)
        (ap (λ w. (put_entry users entries sessions text w key value expire_at d).entries)
            (named u d user found)
          ∙ ap
              (λ p.
                entries.update_or_create p (saved value expire_at d.clock) (new_entry u key)
                  d.entries)
              (is_own-exact u key))

  own_entry : (u key : String) → exact_entry u key (new_entry u key) ≡ true
  own_entry u key = rw (beq_refl u, beq_refl key) refl

  -- what is answered of a row
  abbrev read_row : Option CacheEntry → Option (String × Option ℕ)
  read_row none = none
  read_row (some e) = some (e.cache_value, e.expire_at)

  read_find :
      (u key : String) (d : Tables TU TE TS)
      → (get_entry_with_expiry users entries sessions text u key d).0
        ≡ some (read_row (find_exact u key d.entries))
  unfolding get_entry_with_expiry find_exact
  read_find u key d =
      let same = ap (λ p. first_row p (entries.rows d.entries)) (is_entry-exact u key) in
      rw same (elim (Option-cases (first_row (exact_entry u key) (entries.rows d.entries))) [
        | inl missing ↦ rw missing refl
        | inr (e, found) ↦ rw found refl
      ])

  find-put :
      (u key value : String) (expire_at : Option ℕ) (clock : ℕ) (t : TE)
      → read_row (find_exact u key (put_exact (saved value expire_at clock) u key t))
        ≡ some (value, expire_at)
  unfolding find_exact put_exact saved
  find-put u key value expire_at clock t = ap read_row (
      first-update_or_create entries entry_laws (exact_entry u key)
        (λ e. record e { cache_value = value; expire_at = expire_at; updated_at = clock })
        (new_entry u key) t (own_entry u key) (λ e. refl))

  find-put_other :
      (u key value v j : String) (expire_at : Option ℕ) (clock : ℕ) (t : TE)
      → (u == v && key == j) ≡ false
      → find_exact v j (put_exact (saved value expire_at clock) u key t) ≡ find_exact v j t
  unfolding find_exact put_exact saved
  find-put_other u key value v j expire_at clock t other =
      let change : CacheEntry → CacheEntry =
        λ e. record e { cache_value = value; expire_at = expire_at; updated_at = clock } in
      ap (first_row (exact_entry v j))
        (entry_laws.rows-update_or_create (exact_entry u key) change (new_entry u key) t)
      ∙ first-changed_other (exact_entry u key) (exact_entry v j) change (new_entry u key)
          (entries.rows t) (apart u key v j other) (λ e. refl)
          (apart u key v j other (new_entry u key) (own_entry u key))

  -- Where the database compares texts exactly, an entry that is saved for a known user is read back with
  -- its value and its expiry, and what is read under any other key, or of any other user, is as before.
  -- The manager of the entries keeps its laws.
  pub get_entry-save_entry :
      (u key value v j : String) (expire_at : Option ℕ) (d : Tables TU TE TS)
      → is_some (find_user users entries sessions text u d) ≡ true
      → (get_entry_with_expiry users entries sessions text v j
          (save_entry users entries sessions text u key value expire_at d).1).0
        ≡ (if u == v && key == j
            then some (some (value, expire_at))
            else (get_entry_with_expiry users entries sessions text v j d).0)
  get_entry-save_entry u key value v j expire_at d known =
      elim (Option-cases (find_user users entries sessions text u d)) [
        | inl missing ↦ ground (arith, missing, known)
        | inr (user, found) ↦
            let t = put_exact (saved value expire_at d.clock) u key d.entries in
            read_find v j (save_entry users entries sessions text u key value expire_at d).1
            ∙ ap (λ x. some (read_row (find_exact v j x)))
                (entries-saved u key value expire_at d user found)
            ∙ elim (Bool-cases (u == v && key == j)) [
              | inl here ↦
                  let (same_user, same_key) = same_names u key v j here in
                  rw here (
                    ap (λ w. some (read_row (find_exact w j t))) (sym same_user)
                    ∙ ap (λ k. some (read_row (find_exact u k t))) (sym same_key)
                    ∙ ap some (find-put u key value expire_at d.clock d.entries))
              | inr other ↦ rw other (
                  ap (λ o. some (read_row o))
                    (find-put_other u key value v j expire_at d.clock d.entries other)
                  ∙ sym (read_find v j d))
            ]
      ]
