-- ===== src/Server/Handlers/Words.antt =====
-- The words that server/tcp_server.py takes from a line of a client.
use Prim.Native.Char.{code}
use Prim.Native.String.{◌++◌ as ◌<>◌}
use text.Mathlib.TextLemmas.{nil-append, cons-append}
use distributed_key_value_ca.Prelude.{
  zero, ◌∙◌, ℕ, suc, ◌≡◌, refl, ap, String, false, [], ◌∷◌, string_eq, nat_eq, ◌==◌, arith,
}
use distributed_key_value_ca.Text.Laws.{||-false}
use distributed_key_value_ca.Server.Commands.Texts.{spaced, blank}
use distributed_key_value_ca.Server.Handlers.{
  is_space, has_space, first_word, skip_spaces, split_words, words, size,
}

skip_spaces-plain :
    (key rest : String)
    → has_space key ≡ false
    → (key == "") ≡ false
    → skip_spaces (key <> rest) ≡ key <> rest
unfolding skip_spaces has_space
skip_spaces-plain String.[] rest plain named = ground (arith, named)
skip_spaces-plain (String.◌∷◌ c s) rest plain named =
    rw (cons-append c s rest, (||-false (is_space (code c)) (has_space s) plain).0) refl

skip_spaces-spaced :
    (key value : String)
    → has_space key ≡ false
    → (key == "") ≡ false
    → skip_spaces (spaced key value) ≡ spaced key value
unfolding spaced
skip_spaces-spaced key value plain named =
    skip_spaces-plain key (String.◌∷◌ blank value) plain named

skip_spaces-blank : (value : String) → skip_spaces (String.◌∷◌ blank value) ≡ skip_spaces value
unfolding skip_spaces is_space
skip_spaces-blank value = refl

split_words-blank :
    (times : ℕ) (rest : String) → split_words times (String.◌∷◌ blank rest) ≡ split_words times rest
unfolding split_words
split_words-blank zero rest = rw (skip_spaces-blank rest) refl
split_words-blank (suc times) rest = rw (skip_spaces-blank rest) refl

first_word-spaced :
    (key value : String)
    → has_space key ≡ false
    → first_word (spaced key value) ≡ (key, String.◌∷◌ blank value)
unfolding first_word has_space spaced is_space
first_word-spaced String.[] value plain = rw (nil-append (String.◌∷◌ blank value)) refl
first_word-spaced (String.◌∷◌ c s) value plain =
    let (here, later) = ||-false (is_space (code c)) (has_space s) plain in
    rw (cons-append c s (String.◌∷◌ blank value)) (rw (here, first_word-spaced s value later) refl)

-- The first word is taken off, and the blank after it is skipped.
pub split_words-spaced :
    (times : ℕ) (key rest : String)
    → has_space key ≡ false
    → (key == "") ≡ false
    → split_words (suc times) (spaced key rest) ≡ key ∷ split_words times rest
unfolding split_words
split_words-spaced times key rest plain named =
    rw
      (
        skip_spaces-spaced key rest plain named,
        first_word-spaced key rest plain,
        named,
        split_words-blank times rest,
      )
      refl

-- A text that begins with no space is left as it is where nothing is to be split off.
pub split_words-zero :
    (value : String)
    → (value == "") ≡ false
    → skip_spaces value ≡ value
    → split_words 0 value ≡ value ∷ []
unfolding split_words
split_words-zero value full trimmed = rw (trimmed, full) refl

skip_spaces-word :
    (key : String) → has_space key ≡ false → (key == "") ≡ false → skip_spaces key ≡ key
unfolding skip_spaces has_space
skip_spaces-word String.[] plain named = ground (arith, named)
skip_spaces-word (String.◌∷◌ c s) plain named =
    rw ((||-false (is_space (code c)) (has_space s) plain).0) refl

first_word-word : (key : String) → has_space key ≡ false → first_word key ≡ (key, "")
unfolding first_word has_space
first_word-word String.[] plain = refl
first_word-word (String.◌∷◌ c s) plain =
    let (here, later) = ||-false (is_space (code c)) (has_space s) plain in
    rw (here, first_word-word s later) refl

split_words-empty : (times : ℕ) → split_words times "" ≡ []
unfolding split_words skip_spaces first_word
split_words-empty zero = refl
split_words-empty (suc times) = refl

pub split_words-word :
    (times : ℕ) (key : String)
    → has_space key ≡ false
    → (key == "") ≡ false
    → split_words (suc times) key ≡ key ∷ []
unfolding split_words
split_words-word times key plain named =
    rw (skip_spaces-word key plain named, first_word-word key plain, named, split_words-empty times)
      refl

pub words-word : (key : String) → has_space key ≡ false → (key == "") ≡ false → words key ≡ key ∷ []
unfolding words
words-word key plain named = split_words-word (size key) key plain named

size-spaced : (key rest : String) → (n : ℕ) × (size (spaced key rest) ≡ suc n)
unfolding size spaced
size-spaced String.[] rest = (size rest, rw (nil-append (String.◌∷◌ blank rest)) refl)
size-spaced (String.◌∷◌ c s) rest =
    (size (s <> String.◌∷◌ blank rest), rw (cons-append c s (String.◌∷◌ blank rest)) refl)

pub words-spaced :
    (key word : String)
    → has_space key ≡ false
    → (key == "") ≡ false
    → has_space word ≡ false
    → (word == "") ≡ false
    → words (spaced key word) ≡ key ∷ word ∷ []
unfolding words
words-spaced key word plain named plain' named' =
    let (n, long) = size-spaced key word in
    split_words-spaced (size (spaced key word)) key word plain named
    ∙ ap (λ k. key ∷ split_words k word) long
    ∙ ap (◌∷◌ key) (split_words-word n word plain' named')
