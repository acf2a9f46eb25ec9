-- ===== src/Server/Tests/Requests.antt =====
-- Runs of the requests of server/state_machine.py.
use distributed_key_value_ca.Prelude.{
  [], ◌∷◌, ◌≡◌, ◌≤◌, refl, true, false, none, some, arith, string_eq, length,
}
use distributed_key_value_ca.Prelude.Dict
use distributed_key_value_ca.Raft.Types.{LogEntry}
use distributed_key_value_ca.Cache.LruCache
use distributed_key_value_ca.Cache.Interface.Dispatch
use distributed_key_value_ca.Server.Machine.{Machine, bool, null}
use distributed_key_value_ca.Server.Sessions.{max_sessions, apply}
use distributed_key_value_ca.Server.Sessions.Retries.{apply_retry, apply_seen}
use distributed_key_value_ca.Server.Sessions.Others.{apply_all, all_other}
use distributed_key_value_ca.Server.Sessions.Limit.{length-apply}
use distributed_key_value_ca.Server.Reads.{get}
use distributed_key_value_ca.Text.{rcut, cut}
use distributed_key_value_ca.Text.Numbers.{glyph_of}
use distributed_key_value_ca.Server.Machine.{◌>>=◌}
use distributed_key_value_ca.Server.Sessions.{parse_request_id, checked}
use distributed_key_value_ca.Server.Commands.{apply_command}
use distributed_key_value_ca.Server.Commands.Texts.{request_id_text}
use distributed_key_value_ca.Server.Sessions.Failures.{unsaved, save_session_lost}
use distributed_key_value_ca.Server.Sessions.RequestIds.{parse_request_id-text}
use distributed_key_value_ca.Server.Tests.{
  no_database, half_database, same, written, empty, with_ann,
}

signup : (apply no_database same (written 1 "SIGNUP hash" "c:1") empty).0 ≡ some (bool true)
unfolding apply ◌>>=◌ rcut glyph_of Dict.get cut LruCache.init
signup = refl

setex :
    (apply no_database same (written 8 "SETEX b 90 x y" "c:4") (with_ann false)).0
    ≡ some (bool true)
unfolding apply ◌>>=◌ rcut glyph_of Dict.get cut Dispatch.set LruCache.set
setex = refl

read_expired : (get no_database same "ann" "a" none 60 (with_ann false)).0 ≡ some none
unfolding get ◌>>=◌ Dict.get LruCache.get Dict.remove
read_expired = refl

-- a request of another client
abbrev between : LogEntry
between = written 2 "SET k v" "d:1"

apply_retry_example :
    apply no_database same (written 3 "SIGNUP hash" "c:1") (
      apply_all no_database same
        (between ∷ [])
        (apply no_database same (written 1 "SIGNUP hash" "c:1") empty).1)
    ≡ (
      some (bool true),
      apply_all no_database same
          (between ∷ [])
          (apply no_database same (written 1 "SIGNUP hash" "c:1") empty).1,
    )
unfolding parse_request_id rcut glyph_of all_other
apply_retry_example =
    apply_retry no_database same (written 1 "SIGNUP hash" "c:1") (written 3 "SIGNUP hash" "c:1")
      (between ∷ []) empty "c" 1 (bool true) (omega arith) refl refl refl refl signup

apply_seen_example :
    apply no_database same (written 9 "DELETE a" "c:2") (with_ann false)
    ≡ (some null, with_ann false)
unfolding parse_request_id rcut glyph_of Dict.get
apply_seen_example =
    apply_seen no_database same (written 9 "DELETE a" "c:2") (with_ann false) "c" 2 3 7 (bool true)
      refl refl refl (omega arith)

length-apply_example :
    length (apply no_database same (written 9 "DELETE a" "c:4") (with_ann false)).1.sessions
    ≤ max_sessions
length-apply_example =
    length-apply no_database same (written 9 "DELETE a" "c:4") (with_ann false) (omega arith)

-- the entry whose session is lost: the value is saved, its session is not
abbrev lost_entry : LogEntry
lost_entry = written 9 "SET b 2" "c:4"

-- the state after its command
abbrev ran : Machine (Unit {0})
ran = (apply_command half_database same lost_entry (with_ann true)).1

abbrev lost : Machine (Unit {0})
lost = unsaved half_database same "c" (4, bool true, 9) tt ran

lost_command : apply_command half_database same lost_entry (with_ann true) ≡ (some (bool true), ran)
unfolding apply_command cut ◌>>=◌ Dict.get Dispatch.set LruCache.set
lost_command = refl

save_session_lost_example :
    (apply half_database same lost_entry (with_ann true) ≡ (none, lost))
    × (apply half_database same lost_entry lost ≡ (some (bool true), lost))
unfolding parse_request_id rcut glyph_of checked Dict.get apply_command cut ◌>>=◌ Dispatch.set
    LruCache.set
save_session_lost_example =
    save_session_lost half_database same lost_entry (with_ann true) ran "c" 4 (bool true) tt refl
      refl (omega arith) refl lost_command refl refl

parse_request_id-text_example : parse_request_id (request_id_text "a:b" 12) ≡ some ("a:b", 12)
parse_request_id-text_example = parse_request_id-text "a:b" 12
