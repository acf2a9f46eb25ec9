-- ===== src/Text/Numbers.antt =====
-- `str` and `int`, as server/state_machine.py uses them, for numbers that are not negative: decimal
-- digits, with the blanks, the sign and the underscores that `int` accepts in ASCII. A text with a
-- minus sign or with other digits, which the server never puts into a command, is taken as an error.
use Prim.Native.Nat.{◌%◌}
use Prim.Native.Char.{Char, char, code, IsScalar}
use distributed_key_value_ca.Prelude.{
  ℕ, zero, suc, ◌+◌, ◌-◌, ◌*◌, ◌/◌, ◌≡◌, refl, String, Bool, true, false, ◌&&◌, ◌||◌, Option, none,
  some, nat_eq, ◌==◌, leb, ltb, ltb→le, ◌<◌, arith, Bool-cases, inl, inr, if◌then◌else◌,
}

scalar : (n : ℕ) → n < 55296 → IsScalar n
scalar n small = elim (Bool-cases (ltb n 55296)) [
  | inl t ↦ ground (arith, t)
  | inr f ↦ absurd (omega (arith, ltb→le n 55296 f))
]

-- the character of the last digit
unfoldable pub glyph : ℕ → Char
unfolding scalar
glyph n = char (48 + n % 10) (scalar (48 + n % 10) (omega arith))

-- the digits of a number before a text; each round needs one unit of fuel
unfoldable pub write : ℕ → ℕ → String → String
write zero n rest = rest
write (suc f) n rest =
    let more = write f (n / 10) (String.◌∷◌ (glyph n) rest) in
    if ltb n 10 then String.◌∷◌ (glyph n) rest else more

-- str(n)
unfoldable pub str : ℕ → String
unfolding write
str n = write (suc n) n ""

abbrev pub is_blank : ℕ → Bool
is_blank c = c == 32 || leb 9 c && leb c 13 || leb 28 c && leb c 31

-- how `int` takes a character
pub data Glyph : Type 0 where
  digit : ℕ → Glyph
  underscore blank other : Glyph

unfoldable pub glyph_of : ℕ → Glyph
glyph_of c =
    if leb 48 c && leb c 57
    then digit (c - 48)
    else if c == 95
    then underscore
    else if is_blank c
    then blank
    else other

unfoldable pub all_blank : String → Bool
all_blank String.[] = true
all_blank (String.◌∷◌ c s) = is_blank (code c) && all_blank s

-- the digits after the value `n`; `after_digit` says that the character before was one
unfoldable pub read : Bool → ℕ → String → Option ℕ
read after_digit n String.[] = if after_digit then some n else none
read after_digit n (String.◌∷◌ c s) = elim (glyph_of (code c)) [
  | digit d ↦ read true (n * 10 + d) s
  | underscore ↦ if after_digit then read false n s else none
  | blank ↦ if after_digit && all_blank s then some n else none
  | other ↦ none
]

-- after the blanks before the number
unfoldable pub unsigned : String → Option ℕ
unsigned String.[] = none
unsigned (String.◌∷◌ c s) =
    if is_blank (code c)
    then none
    else if code c == 43
    then read false 0 s
    else read false 0 (String.◌∷◌ c s)

unfoldable pub lstrip : String → String
lstrip String.[] = ""
lstrip (String.◌∷◌ c s) = let rest = lstrip s in if is_blank (code c) then rest else String.◌∷◌ c s

-- int(s), with the ValueError as `none`
unfoldable pub int : String → Option ℕ
unfolding read unsigned lstrip
int s = unsigned (lstrip s)

str_1209 : str 1209 ≡ "1209"
unfolding str write glyph
str_1209 = refl

int_texts : (int " +1_0 " ≡ some 10) × (int "1__0" ≡ none) × (int "" ≡ none) × (int "007" ≡ some 7)
unfolding int glyph_of all_blank
int_texts = (refl, refl, refl, refl)
