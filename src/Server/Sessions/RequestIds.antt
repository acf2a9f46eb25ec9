-- ===== src/Server/Sessions/RequestIds.antt =====
-- The request ids of server/tcp_server.py, as server/state_machine.py takes them apart.
use distributed_key_value_ca.Prelude.{ℕ, ◌≡◌, refl, ap, ◌∙◌, String, none, some, arith}
use distributed_key_value_ca.Text.{rpartition}
use distributed_key_value_ca.Text.Numbers.{str, int}
use distributed_key_value_ca.Text.Laws.{rcut-append, occurs-str, int-str}
use distributed_key_value_ca.Server.Commands.Texts.{colon, request_id_text}
use distributed_key_value_ca.Server.Sessions.{parse_request_id}

rpartition-text :
    (client_id : String) (seq : ℕ)
    → rpartition b':' (request_id_text client_id seq) ≡ (client_id, str seq)
unfolding rpartition
rpartition-text client_id seq =
    ap (λ o. elim o [ none ↦ ("", request_id_text client_id seq) | some parts ↦ parts ])
      (rcut-append colon client_id (str seq) (occurs-str b':' seq (omega arith)))

-- The id of a client's request is taken apart into that client and that number, also where the client's
-- name has colons in it.
pub parse_request_id-text :
    (client_id : String) (seq : ℕ)
    → parse_request_id (request_id_text client_id seq) ≡ some (client_id, seq)
unfolding parse_request_id
parse_request_id-text client_id seq =
    ap (λ (p : String × String). elim (int p.1) [ none ↦ none | some n ↦ some (p.0, n) ])
      (rpartition-text client_id seq)
    ∙ rw (int-str seq) refl
