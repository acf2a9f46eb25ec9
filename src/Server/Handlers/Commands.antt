-- ===== src/Server/Handlers/Commands.antt =====
-- The commands that the handlers of server/tcp_server.py submit for the lines of a client.
use Prim.Native.String.{◌++◌ as ◌<>◌}
use distributed_key_value_ca.Prelude.{
  Bool-cases, inl, inr, ℕ, ◌+◌, ◌*◌, ◌≡◌, refl, ap, ◌∙◌, String, Bool, true, false, ◌&&◌, Option,
  some, ◌∷◌, string_eq, ◌==◌, leb, if◌then◌else◌,
}
use distributed_key_value_ca.Server.Commands.Texts.{
  spaced, set_text, setex_text, delete_text, expireat_text, persist_text,
}
use distributed_key_value_ca.Server.Handlers.{
  has_space, skip_spaces, in_seconds, seconds, submit, usage, if_valid, range, ok, ok_or_null,
  one_or_zero, cmd_set, setex_parts, cmd_setex, cmd_delete, expire_parts, cmd_expire, cmd_persist,
  max_ttl_seconds,
}
use distributed_key_value_ca.Server.Handlers.Words.{
  split_words-spaced, split_words-zero, words-word, words-spaced,
}

-- the number is one that SETEX and EXPIRE accept
abbrev pub in_range : ℕ → Bool
in_range n = leb 1 n && leb n max_ttl_seconds

module _ (isdigit : String → Bool) (int : String → Option ℕ) (now : ℕ) (key text : String)
    (n : ℕ) where
  seconds_lem : isdigit text ≡ true → int text ≡ some n → seconds isdigit int text ≡ in_seconds n
  unfolding seconds
  seconds_lem digits number = rw (digits, number) refl

  setex_parts_lem :
      (value : String)
      → isdigit text ≡ true
      → int text ≡ some n
      → setex_parts isdigit int now (key, text, value) ≡ (
          if in_range n
          then if_valid key (submit (setex_text key (now + n * 1000) value) ok)
          else usage ("SETEX <key> " <> (range <> " <value>")))
  unfolding setex_parts
  setex_parts_lem value digits number =
      rw (setex_parts, seconds_lem digits number)
        (elim (Bool-cases (in_range n)) [ inl t ↦ rw t refl | inr f ↦ rw f refl ])

  expire_parts_lem :
      isdigit text ≡ true
      → int text ≡ some n
      → expire_parts isdigit int now (key, text) ≡ (
          if in_range n
          then submit (expireat_text key (now + n * 1000) now) one_or_zero
          else usage ("EXPIRE <key> " <> range))
  unfolding expire_parts
  expire_parts_lem digits number =
      rw (expire_parts, seconds_lem digits number)
        (elim (Bool-cases (in_range n)) [ inl t ↦ rw t refl | inr f ↦ rw f refl ])

module _ (isdigit : String → Bool) (int : String → Option ℕ) (now : ℕ) (key text value : String)
    (n : ℕ) where
  pub handlers_lem :
      has_space key ≡ false
      → (key == "") ≡ false
      → has_space text ≡ false
      → (text == "") ≡ false
      → (value == "") ≡ false
      → skip_spaces value ≡ value
      → isdigit text ≡ true
      → int text ≡ some n
      → (cmd_set (spaced key value) ≡ if_valid key (submit (set_text key value) ok))
        × (cmd_setex isdigit int now (spaced key (spaced text value)) ≡ (
            if in_range n
            then if_valid key (submit (setex_text key (now + n * 1000) value) ok)
            else usage ("SETEX <key> " <> (range <> " <value>"))))
        × (cmd_delete now key ≡ submit (delete_text key now) ok_or_null)
        × (cmd_expire isdigit int now (spaced key text) ≡ (
            if in_range n
            then submit (expireat_text key (now + n * 1000) now) one_or_zero
            else usage ("EXPIRE <key> " <> range)))
        × (cmd_persist now key ≡ submit (persist_text key now) one_or_zero)
  unfolding cmd_set cmd_setex cmd_delete cmd_expire cmd_persist
  handlers_lem plain named plain' named' full trimmed digits number =
      let last = split_words-zero value full trimmed in
      let pair = split_words-spaced 0 key value plain named ∙ ap (◌∷◌ key) last in
      let triple =
        split_words-spaced 1 key (spaced text value) plain named
        ∙ ap (◌∷◌ key) (split_words-spaced 0 text value plain' named' ∙ ap (◌∷◌ text) last) in
      let alone = words-word key plain named in
      let both = words-spaced key text plain named plain' named' in
      (
        rw (cmd_set, pair) refl,
        rw (cmd_setex, triple) (setex_parts_lem isdigit int now key text n value digits number),
        rw (cmd_delete, alone) refl,
        rw (cmd_expire, both) (expire_parts_lem isdigit int now key text n digits number),
        rw (cmd_persist, alone) refl,
      )
