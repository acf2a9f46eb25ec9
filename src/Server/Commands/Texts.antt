-- ===== src/Server/Commands/Texts.antt =====
-- server/tcp_server.py: the texts of the commands that the server submits, and of the request ids that it
-- makes.
use Prim.Native.Char.{Char, char}
use Prim.Native.String.{◌++◌ as ◌<>◌}
use distributed_key_value_ca.Prelude.{ℕ, String}
use distributed_key_value_ca.Text.Numbers.{str}

abbrev pub blank : Char
blank = char 32 tt

abbrev pub colon : Char
colon = char 58 tt

-- f"{a} {b}"
unfoldable pub spaced : String → String → String
spaced a b = a <> String.◌∷◌ blank b

abbrev pub set_text : String → String → String
set_text key value = spaced "SET" (spaced key value)

abbrev pub setex_text : String → ℕ → String → String
setex_text key expire_at value = spaced "SETEX" (spaced key (spaced (str expire_at) value))

abbrev pub delete_text : String → ℕ → String
delete_text key now = spaced "DELETE" (spaced key (str now))

abbrev pub expireat_text : String → ℕ → ℕ → String
expireat_text key expire_at now = spaced "EXPIREAT" (spaced key (spaced (str expire_at) (str now)))

abbrev pub persist_text : String → ℕ → String
persist_text key now = spaced "PERSIST" (spaced key (str now))

abbrev pub sweep_text : ℕ → String
sweep_text now = spaced "SWEEP" (str now)

abbrev pub signup_text : String → String
signup_text password_hash = spaced "SIGNUP" password_hash

-- `next_request_id`
abbrev pub request_id_text : String → ℕ → String
request_id_text client_id seq = client_id <> String.◌∷◌ colon (str seq)
