-- ===== src/Server/Isolation.antt =====
-- server/state_machine.py: the commands of one user and the keys of another.
use distributed_key_value_ca.Prelude.{ℕ, ◌≡◌, String, false, Option, string_eq, ◌==◌}
use distributed_key_value_ca.Prelude.Dict
use distributed_key_value_ca.Server.Machine.{Machine, Value, Database, M}
use distributed_key_value_ca.Server.Commands.{apply_signup, apply_set, apply_delete, apply_expiry}
use distributed_key_value_ca.Server.Frames.Commands.{
  apply_signup-Only, apply_set-Only, apply_delete-Only, apply_expiry-Only,
}

module _ {D : Type 0} (db : Database D) (lower : String → String) where
  -- the store of the user `v` after a command
  abbrev pub SameStore : String → Machine D → M D Value → Type 0
  SameStore v m c = Dict.get v (c m).1.stores ≡ Dict.get v m.stores

  -- No command of a user changes the store of another user in RAM, whether the command returns or raises:
  -- not SIGNUP, nor SET or SETEX, nor DELETE, nor EXPIREAT or PERSIST.
  pub other_users :
      (u v : String) (m : Machine D) (password_hash key value : String) (expire_at at_ms : Option ℕ)
      (now : ℕ)
      → (u == v) ≡ false
      → SameStore v m (apply_signup db lower u password_hash)
        × SameStore v m (apply_set db lower u key value expire_at)
        × SameStore v m (apply_delete db lower u key at_ms)
        × SameStore v m (apply_expiry db lower u key expire_at now)
  other_users u v m password_hash key value expire_at at_ms now other = (
    (apply_signup-Only db lower u password_hash m).others v other,
    (apply_set-Only db lower u key value expire_at m).others v other,
    (apply_delete-Only db lower u key at_ms m).others v other,
    (apply_expiry-Only db lower u key expire_at now m).others v other,
  )
