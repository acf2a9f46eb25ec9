-- ===== src/Server/Tests/Handlers.antt =====
-- Runs of the handlers of server/tcp_server.py.
use Prim.Native.Char.{code}
use Prim.Native.String.{◌++◌ as ◌<>◌}
use distributed_key_value_ca.Prelude.{
  ◌≡◌, refl, String, Bool, true, ◌&&◌, leb, string_eq, if◌then◌else◌,
}
use distributed_key_value_ca.Text.Numbers.{int, glyph_of}
use distributed_key_value_ca.Server.Commands.Texts.{
  spaced, set_text, setex_text, delete_text, expireat_text, persist_text,
}
use distributed_key_value_ca.Server.Handlers.{
  has_space, skip_spaces, is_space, submit, if_valid, usage, range, ok, ok_or_null, one_or_zero,
  cmd_set, cmd_setex, cmd_delete, cmd_expire, cmd_persist,
}
use distributed_key_value_ca.Server.Handlers.Commands.{in_range, handlers_lem}

-- `str.isdigit` on ASCII texts that are not empty
abbrev digits : String → Bool
digits String.[] = true
digits (String.◌∷◌ c s) = leb 48 (code c) && leb (code c) 57 && digits s

handlers_lem_example :
    (cmd_set (spaced "k" "v w") ≡ if_valid "k" (submit (set_text "k" "v w") ok))
    × (cmd_setex digits int 5 (spaced "k" (spaced "3600" "v w")) ≡ (
        if in_range 3600
        then if_valid "k" (submit (setex_text "k" 3600005 "v w") ok)
        else usage ("SETEX <key> " <> (range <> " <value>"))))
    × (cmd_delete 5 "k" ≡ submit (delete_text "k" 5) ok_or_null)
    × (cmd_expire digits int 5 (spaced "k" "3600") ≡ (
        if in_range 3600
        then submit (expireat_text "k" 3600005 5) one_or_zero
        else usage ("EXPIRE <key> " <> range)))
    × (cmd_persist 5 "k" ≡ submit (persist_text "k" 5) one_or_zero)
unfolding has_space skip_spaces is_space int glyph_of
handlers_lem_example =
    handlers_lem digits int 5 "k" "3600" "v w" 3600 refl refl refl refl refl refl refl refl
