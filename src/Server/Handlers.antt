-- ===== src/Server/Handlers.antt =====
-- server/tcp_server.py: the handlers of the commands that write. A handler answers at once or submits
-- one command through Raft and answers by its result; what `_submit` says where Raft fails is not here.
pub mod Words
pub mod Commands
use Prim.Native.Char.{code}
use Prim.Native.String.{◌++◌ as ◌<>◌}
use distributed_key_value_ca.Prelude.{
  ℕ, zero, suc, ◌+◌, ◌*◌, ◌≡◌, refl, String, Bool, true, false, ◌&&◌, ◌||◌, not, Option, none, some,
  List, [], ◌∷◌, nat_eq, string_eq, ◌==◌, leb, if◌then◌else◌,
}
use distributed_key_value_ca.Text.Numbers.{str}
use distributed_key_value_ca.Server.Machine.{Value, bool, number, null}
use distributed_key_value_ca.Server.Commands.{two, three}
use distributed_key_value_ca.Server.Commands.Texts.{
  set_text, setex_text, delete_text, expireat_text, persist_text,
}

abbrev pub max_key_length : ℕ
max_key_length = 512

abbrev pub max_ttl_seconds : ℕ
max_ttl_seconds = 315360000

-- c.isspace()
unfoldable pub is_space : ℕ → Bool
is_space c =
    leb 9 c && leb c 13
    || leb 28 c && leb c 32
    || c == 133
    || c == 160
    || c == 5760
    || leb 8192 c && leb c 8202
    || c == 8232
    || c == 8233
    || c == 8239
    || c == 8287
    || c == 12288

-- a text holds a space
unfoldable pub has_space : String → Bool
has_space String.[] = false
has_space (String.◌∷◌ c s) = is_space (code c) || has_space s

-- len(s)
unfoldable pub size : String → ℕ
size String.[] = 0
size (String.◌∷◌ c s) = suc (size s)

unfoldable pub skip_spaces : String → String
skip_spaces String.[] = ""
skip_spaces (String.◌∷◌ c s) =
    let rest = skip_spaces s in if is_space (code c) then rest else String.◌∷◌ c s

-- the characters before the first space, and what begins with it
unfoldable pub first_word : String → String × String
first_word String.[] = ("", "")
first_word (String.◌∷◌ c s) =
    let (word, rest) = first_word s in
    if is_space (code c) then ("", String.◌∷◌ c s) else (String.◌∷◌ c word, rest)

-- s.split(None, times)
unfoldable pub split_words : ℕ → String → List String
unfolding skip_spaces
split_words zero s = let rest = skip_spaces s in if rest == "" then [] else rest ∷ []
split_words (suc times) s =
    let (word, rest) = first_word (skip_spaces s) in
    let words = split_words times rest in if word == "" then [] else word ∷ words

-- s.split(); there are not more words than characters
unfoldable pub words : String → List String
unfolding split_words size
words s = split_words (suc (size s)) s

-- what `_seconds` leads to: a number in its range, None, or the ValueError of `int`
pub data Seconds : Type 0 where
  within : ℕ → Seconds
  outside invalid : Seconds

abbrev pub in_seconds : ℕ → Seconds
in_seconds value = if leb 1 value && leb value max_ttl_seconds then within value else outside

-- what a handler does: it tells the client something, submits a command and tells of its result, or raises
pub data Plan : Type 0 where
  tell : String → Plan
  submit : String → (Value → String) → Plan
  raises : Plan

-- the truth of a result, as `if` takes it
unfoldable pub truthy : Value → Bool
truthy (bool b) = b
truthy (number n) = not (n == 0)
truthy null = false

abbrev pub ok : Value → String
ok result = "OK"

abbrev pub ok_or_null : Value → String
ok_or_null result = if truthy result then "OK" else "NULL"

abbrev pub one_or_zero : Value → String
one_or_zero result = if truthy result then "1" else "0"

-- `_valid_key`, before a command is submitted
abbrev pub if_valid : String → Plan → Plan
if_valid key plan =
    if leb (size key) max_key_length
    then plan
    else tell ("ERROR: Key longer than " <> (str max_key_length <> " characters"))

abbrev pub usage : String → Plan
usage text = tell ("ERROR: Usage: " <> text)

abbrev pub range : String
range = "<seconds 1.." <> (str max_ttl_seconds <> ">")

-- `_cmd_set`
unfoldable pub cmd_set : String → Plan
unfolding split_words size
cmd_set args = elim (two (split_words 1 args)) [
  | none ↦ usage "SET <key> <value>"
  | some (key, value) ↦ if_valid key (submit (set_text key value) ok)
]

abbrev pub one : List String → Option String
one (a ∷ []) = some a
one _ = none

-- `_cmd_delete`
unfoldable pub cmd_delete : ℕ → String → Plan
unfolding words
cmd_delete now args = elim (one (words args)) [
  | none ↦ usage "DELETE <key>"
  | some key ↦ submit (delete_text key now) ok_or_null
]

-- `_cmd_persist`
unfoldable pub cmd_persist : ℕ → String → Plan
unfolding words
cmd_persist now args = elim (one (words args)) [
  | none ↦ usage "PERSIST <key>"
  | some key ↦ submit (persist_text key now) one_or_zero
]

-- `isdigit` is `str.isdigit`, and `int` reads a text of which it is true, or raises for some of other digits
module _ (isdigit : String → Bool) (int : String → Option ℕ) where
  -- `_seconds`
  unfoldable pub seconds : String → Seconds
  seconds text =
      if isdigit text
      then (elim (int text) [ none ↦ invalid | some value ↦ in_seconds value ])
      else outside

  -- `_cmd_setex`, on its three parts
  unfoldable pub setex_parts : ℕ → String × String × String → Plan
  unfolding seconds
  setex_parts now (key, text, value) = elim (seconds text) [
    | invalid ↦ raises
    | outside ↦ usage ("SETEX <key> " <> (range <> " <value>"))
    | within n ↦ if_valid key (submit (setex_text key (now + n * 1000) value) ok)
  ]

  -- `_cmd_setex`
  unfoldable pub cmd_setex : ℕ → String → Plan
  unfolding setex_parts split_words
  cmd_setex now args = elim (three (split_words 2 args)) [
    | none ↦ usage ("SETEX <key> " <> (range <> " <value>"))
    | some parts ↦ setex_parts now parts
  ]

  -- `_cmd_expire`, on its two parts
  unfoldable pub expire_parts : ℕ → String × String → Plan
  unfolding seconds
  expire_parts now (key, text) = elim (seconds text) [
    | invalid ↦ raises
    | outside ↦ usage ("EXPIRE <key> " <> range)
    | within n ↦ submit (expireat_text key (now + n * 1000) now) one_or_zero
  ]

  -- `_cmd_expire`
  unfoldable pub cmd_expire : ℕ → String → Plan
  unfolding words expire_parts
  cmd_expire now args = elim (two (words args)) [
    | none ↦ usage ("EXPIRE <key> " <> range)
    | some parts ↦ expire_parts now parts
  ]

set_hello : cmd_set " k  hello  world " ≡ submit "SET k hello  world " ok
unfolding cmd_set first_word is_space distributed_key_value_ca.Server.Commands.Texts.spaced
set_hello = refl
