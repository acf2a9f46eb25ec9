-- ===== src/Text/Laws.antt =====
-- `int` reads what `str` writes, and the parts of a text are found again around a separator.
use Prim.Native.Nat.{◌%◌}
use Prim.Native.Char.{Char, code}
use Prim.Native.String.{◌++◌ as ◌<>◌}
use text.Mathlib.TextLemmas.{nil-append, cons-append, cons-ne-nil}
use distributed_key_value_ca.Prelude.{
  ℕ, zero, suc, ◌+◌, ◌*◌, ◌/◌, ◌<◌, ◌≡◌, refl, sym, ap, ◌∙◌, String, Bool, true, false, none, some,
  [], ◌∷◌, inl, inr, ◌⊎◌, nat_eq, string_eq, ◌==◌, ltb, ltb→lt, ltb→le, Bool-cases, arith, ◌||◌,
  beq_refl,
}
use distributed_key_value_ca.Text.{split_all, cut, rcut, occurs}
use distributed_key_value_ca.Text.Numbers.{
  write, str, glyph, digit, glyph_of, read, unsigned, lstrip, int,
}

pub ||-false : (a b : Bool) → (a || b) ≡ false → (a ≡ false) × (b ≡ false)
||-false a b h = ground arith

glyph_of-glyph : (n : ℕ) → glyph_of (code (glyph n)) ≡ digit (n % 10)
unfolding glyph_of glyph
glyph_of-glyph n = ground arith

read-glyph :
    (b : Bool) (m n : ℕ) (rest : String)
    → read b m (String.◌∷◌ (glyph n) rest) ≡ read true (m * 10 + n % 10) rest
unfolding read
read-glyph b m n rest = rw (glyph_of-glyph n, read) refl

read-write :
    (f n : ℕ) (b : Bool) (rest : String) → n < f → read b 0 (write f n rest) ≡ read true n rest
unfolding write
read-write zero n b rest enough = absurd (omega arith)
read-write (suc f) n b rest enough = elim (Bool-cases (ltb n 10)) [
  | inl small ↦
      rw small
        (read-glyph b 0 n rest ∙ ap (λ k. read true k rest) (omega (arith, ltb→lt n 10 small)))
  | inr large ↦ rw large (
      read-write f (n / 10) b (String.◌∷◌ (glyph n) rest) (omega (arith, ltb→le n 10 large))
      ∙ read-glyph true (n / 10) n rest
      ∙ ap (λ k. read true k rest) (omega arith))
]

-- What is written begins with a digit.
write-glyph :
    (f n k : ℕ) (rest : String)
    → (j : ℕ) × (s : String) × (write f n (String.◌∷◌ (glyph k) rest) ≡ String.◌∷◌ (glyph j) s)
unfolding write
write-glyph zero n k rest = (k, rest, refl)
write-glyph (suc f) n k rest = elim (Bool-cases (ltb n 10)) [
  | inl small ↦ (n, String.◌∷◌ (glyph k) rest, rw small refl)
  | inr large ↦ rw large (write-glyph f (n / 10) n (String.◌∷◌ (glyph k) rest))
]

str-glyph : (n : ℕ) → (j : ℕ) × (s : String) × (str n ≡ String.◌∷◌ (glyph j) s)
unfolding str write
str-glyph n = elim (Bool-cases (ltb n 10)) [
  | inl small ↦ (n, "", rw small refl)
  | inr large ↦ rw large (write-glyph n (n / 10) n "")
]

lstrip-glyph : (j : ℕ) (s : String) → lstrip (String.◌∷◌ (glyph j) s) ≡ String.◌∷◌ (glyph j) s
unfolding lstrip glyph
lstrip-glyph j s = ground arith

unsigned-glyph :
    (j : ℕ) (s : String) → unsigned (String.◌∷◌ (glyph j) s) ≡ read false 0 (String.◌∷◌ (glyph j) s)
unfolding unsigned glyph
unsigned-glyph j s = ground arith

int-glyph :
    (j : ℕ) (s : String) → int (String.◌∷◌ (glyph j) s) ≡ read false 0 (String.◌∷◌ (glyph j) s)
unfolding int
int-glyph j s = ap unsigned (lstrip-glyph j s) ∙ unsigned-glyph j s

-- What `str` writes of a number, `int` reads back.
pub int-str : (n : ℕ) → int (str n) ≡ some n
unfolding str read
int-str n =
    let (j, s, e) = str-glyph n in
    ap int e
    ∙ int-glyph j s
    ∙ sym (ap (read false 0) e)
    ∙ read-write (suc n) n false "" (omega arith)

-- The text after the last separator is what follows it, where it has no separator itself.
rcut-none : (sep : ℕ) (s : String) → occurs sep s ≡ false → rcut sep s ≡ none
unfolding rcut occurs
rcut-none sep String.[] h = refl
rcut-none sep (String.◌∷◌ c s) h =
    let (here, later) = ||-false (code c == sep) (occurs sep s) h in
    rw (rcut-none sep s later, rcut) (rw here refl)

pub cut-none : (sep : ℕ) (s : String) → occurs sep s ≡ false → cut sep s ≡ none
unfolding cut occurs
cut-none sep String.[] h = refl
cut-none sep (String.◌∷◌ c s) h =
    let (here, later) = ||-false (code c == sep) (occurs sep s) h in
    rw (here, cut-none sep s later) refl

occurs-write :
    (sep f n : ℕ) (rest : String)
    → sep < 48 ⊎ 57 < sep
    → occurs sep (write f n rest) ≡ occurs sep rest
unfolding write occurs glyph
occurs-write sep zero n rest h = refl
occurs-write sep (suc f) n rest h =
    grind (arith, occurs-write sep f (n / 10) (String.◌∷◌ (glyph n) rest) h)

-- No digit is the separator.
pub occurs-str : (sep n : ℕ) → sep < 48 ⊎ 57 < sep → occurs sep (str n) ≡ false
unfolding str occurs
occurs-str sep n h = occurs-write sep (suc n) n "" h

module _ (c : Char) where
  pub cut-append :
      (a b : String) → occurs (code c) a ≡ false → cut (code c) (a <> String.◌∷◌ c b) ≡ some (a, b)
  unfolding cut occurs
  cut-append String.[] b h =
      ap (cut (code c)) (nil-append (String.◌∷◌ c b)) ∙ rw (beq_refl (code c), cut) refl
  cut-append (String.◌∷◌ d a) b h =
      let (here, later) = ||-false (code d == code c) (occurs (code c) a) h in
      ap (cut (code c)) (cons-append d a (String.◌∷◌ c b))
      ∙ rw (here, cut-append a b later, cut) refl

  pub rcut-append :
      (a b : String) → occurs (code c) b ≡ false → rcut (code c) (a <> String.◌∷◌ c b) ≡ some (a, b)
  unfolding rcut
  rcut-append String.[] b h =
      ap (rcut (code c)) (nil-append (String.◌∷◌ c b))
      ∙ rw (rcut-none (code c) b h, rcut) (rw (beq_refl (code c)) refl)
  rcut-append (String.◌∷◌ d a) b h =
      ap (rcut (code c)) (cons-append d a (String.◌∷◌ c b)) ∙ rw (rcut-append a b h, rcut) refl

pub split_all-none : (sep : ℕ) (s : String) → occurs sep s ≡ false → split_all sep s ≡ s ∷ []
unfolding split_all occurs
split_all-none sep String.[] h = refl
split_all-none sep (String.◌∷◌ c s) h =
    let (here, later) = ||-false (code c == sep) (occurs sep s) h in
    rw (here, split_all-none sep s later) refl

module _ (c : Char) where
  pub split_all-append :
      (a b : String)
      → occurs (code c) a ≡ false
      → split_all (code c) (a <> String.◌∷◌ c b) ≡ a ∷ split_all (code c) b
  unfolding split_all occurs
  split_all-append String.[] b h =
      ap (split_all (code c)) (nil-append (String.◌∷◌ c b)) ∙ rw (beq_refl (code c), split_all) refl
  split_all-append (String.◌∷◌ d a) b h =
      let (here, later) = ||-false (code d == code c) (occurs (code c) a) h in
      ap (split_all (code c)) (cons-append d a (String.◌∷◌ c b))
      ∙ rw (here, split_all-append a b later, split_all) refl

not-cons : (c : Char) (s : String) → (String.◌∷◌ c s == "") ≡ false
not-cons c s = elim (Bool-cases (String.◌∷◌ c s == "")) [
  | inl same ↦ absurd (cons-ne-nil c s ((string_eq.beq_iff (String.◌∷◌ c s) "").0 same))
  | inr other ↦ other
]

-- What is written of a number is not empty.
pub str-ne-empty : (n : ℕ) → (str n == "") ≡ false
str-ne-empty n = let (j, s, e) = str-glyph n in ap (λ t. t == "") e ∙ not-cons (glyph j) s
