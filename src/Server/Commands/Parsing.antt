-- ===== src/Server/Commands/Parsing.antt =====
-- server/state_machine.py reads the commands that server/tcp_server.py writes.
use distributed_key_value_ca.Prelude.{
  ℕ, ◌≡◌, refl, ap, ◌∙◌, String, false, none, some, [], ◌∷◌, string_eq, arith,
}
use distributed_key_value_ca.Text.{cut, partition, split, split_all, occurs}
use distributed_key_value_ca.Text.Numbers.{str}
use distributed_key_value_ca.Text.Laws.{
  cut-append, occurs-str, int-str, str-ne-empty, split_all-none, split_all-append,
}
use distributed_key_value_ca.Server.Machine.{Machine, Value, Database, M, ◌>>=◌, lift}
use distributed_key_value_ca.Server.Commands.{
  optional_int, apply_signup, apply_set, apply_delete, apply_expiry, apply_sweep, run, run_set,
  run_setex, run_delete, run_expireat, run_persist, run_sweep, apply_command,
}
use distributed_key_value_ca.Server.Commands.Texts.{
  blank, spaced, set_text, setex_text, delete_text, expireat_text, persist_text, sweep_text,
  signup_text,
}

cut-spaced : (a b : String) → occurs b' ' a ≡ false → cut b' ' (spaced a b) ≡ some (a, b)
unfolding spaced
cut-spaced a b plain = cut-append blank a b plain

split_all-spaced :
    (a b : String) → occurs b' ' a ≡ false → split_all b' ' (spaced a b) ≡ a ∷ split_all b' ' b
unfolding spaced
split_all-spaced a b plain = split_all-append blank a b plain

partition-spaced : (a b : String) → occurs b' ' a ≡ false → partition b' ' (spaced a b) ≡ (a, b)
unfolding partition
partition-spaced a b plain = rw (cut-spaced a b plain, partition) refl

plain_str : (n : ℕ) → occurs b' ' (str n) ≡ false
plain_str n = occurs-str b' ' n (omega arith)

split-three :
    (a b c : String)
    → occurs b' ' a ≡ false
    → occurs b' ' b ≡ false
    → split b' ' 2 (spaced a (spaced b c)) ≡ a ∷ b ∷ c ∷ []
unfolding split
split-three a b c plain_a plain_b =
    rw (cut-spaced a (spaced b c) plain_a, cut-spaced b c plain_b, split) refl

split_all-three :
    (a b c : String)
    → occurs b' ' a ≡ false
    → occurs b' ' b ≡ false
    → occurs b' ' c ≡ false
    → split_all b' ' (spaced a (spaced b c)) ≡ a ∷ b ∷ c ∷ []
split_all-three a b c plain_a plain_b plain_c =
    split_all-spaced a (spaced b c) plain_a
    ∙ ap (◌∷◌ a) (split_all-spaced b c plain_b ∙ ap (◌∷◌ b) (split_all-none b' ' c plain_c))

module _ {D : Type 0} (db : Database D) (lower : String → String) where
  command_is :
      (verb rest user : String) (m : Machine D)
      → occurs b' ' verb ≡ false
      → run db lower
          (partition b' ' (spaced verb rest)).0
          user
          (partition b' ' (spaced verb rest)).1
          m
        ≡ run db lower verb user rest m
  command_is verb rest user m plain =
      ap (λ (p : String × String). run db lower p.0 user p.1 m) (partition-spaced verb rest plain)

  set_run :
      (user key value : String) (m : Machine D)
      → occurs b' ' key ≡ false
      → run db lower "SET" user (spaced key value) m ≡ apply_set db lower user key value none m
  unfolding run run_set
  set_run user key value m plain =
      ap (λ (p : String × String). apply_set db lower user p.0 p.1 none m)
        (partition-spaced key value plain)

  setex_run :
      (user key value : String) (expire_at : ℕ) (m : Machine D)
      → occurs b' ' key ≡ false
      → run db lower "SETEX" user (spaced key (spaced (str expire_at) value)) m
        ≡ apply_set db lower user key value (some expire_at) m
  unfolding run run_setex ◌>>=◌
  setex_run user key value expire_at m plain =
      rw (split-three key (str expire_at) value plain (plain_str expire_at), int-str expire_at) refl

  optional_int-str : (now : ℕ) → optional_int (str now) ≡ some (some now)
  optional_int-str now = rw (str-ne-empty now, int-str now) refl

  delete_run :
      (user key : String) (now : ℕ) (m : Machine D)
      → occurs b' ' key ≡ false
      → run db lower "DELETE" user (spaced key (str now)) m
        ≡ apply_delete db lower user key (some now) m
  unfolding run run_delete ◌>>=◌
  delete_run user key now m plain =
      ap
        (λ (p : String × String).
          (lift (optional_int p.1) >>= λ at_ms. apply_delete db lower user p.0 at_ms) m)
        (partition-spaced key (str now) plain)
      ∙ rw (optional_int-str now) refl

  expireat_run :
      (user key : String) (expire_at now : ℕ) (m : Machine D)
      → occurs b' ' key ≡ false
      → run db lower "EXPIREAT" user (spaced key (spaced (str expire_at) (str now))) m
        ≡ apply_expiry db lower user key (some expire_at) now m
  unfolding run run_expireat ◌>>=◌
  expireat_run user key expire_at now m plain =
      rw
        (
          split_all-three key (str expire_at) (str now) plain (plain_str expire_at) (plain_str now),
          int-str expire_at,
          int-str now,
        )
        refl

  persist_run :
      (user key : String) (now : ℕ) (m : Machine D)
      → occurs b' ' key ≡ false
      → run db lower "PERSIST" user (spaced key (str now)) m
        ≡ apply_expiry db lower user key none now m
  unfolding run run_persist ◌>>=◌
  persist_run user key now m plain =
      rw
        (
          split_all-spaced key (str now) plain
              ∙ ap (◌∷◌ key) (split_all-none b' ' (str now) (plain_str now)),
          int-str now,
        )
        refl

  sweep_run :
      (user : String) (now : ℕ) (m : Machine D)
      → run db lower "SWEEP" user (str now) m ≡ apply_sweep db lower now m
  unfolding run run_sweep ◌>>=◌
  sweep_run user now m = rw (int-str now) refl

  -- what the state machine does with a command of a user
  abbrev pub RunsAs : String → String → M D Value → Machine D → Type 0
  RunsAs user command action m =
      (term index : ℕ) (request_id : String)
      → apply_command db lower
          (record {
            term = term;
            index = index;
            command = command;
            username = user;
            request_id = request_id;
          })
          m
        ≡ action m

  -- Each text of a command that the server writes is run as that command, with the same arguments:
  -- SIGNUP, SET, SETEX, DELETE, EXPIREAT, PERSIST and SWEEP. The key has no blank in it.
  pub apply_command-text :
      (m : Machine D) (user key value : String) (expire_at now : ℕ)
      → occurs b' ' key ≡ false
      → RunsAs user (signup_text value) (apply_signup db lower user value) m
        × RunsAs user (set_text key value) (apply_set db lower user key value none) m
        × RunsAs user
            (setex_text key expire_at value)
            (apply_set db lower user key value (some expire_at))
            m
        × RunsAs user (delete_text key now) (apply_delete db lower user key (some now)) m
        × RunsAs user
            (expireat_text key expire_at now)
            (apply_expiry db lower user key (some expire_at) now)
            m
        × RunsAs user (persist_text key now) (apply_expiry db lower user key none now) m
        × RunsAs user (sweep_text now) (apply_sweep db lower now) m
  unfolding apply_command run occurs
  apply_command-text m user key value expire_at now plain = (
    λ term index id. command_is "SIGNUP" value user m refl,
    λ term index id. command_is "SET" _ user m refl ∙ set_run user key value m plain,
    λ term index id. command_is "SETEX" _ user m refl ∙ setex_run user key value expire_at m plain,
    λ term index id. command_is "DELETE" _ user m refl ∙ delete_run user key now m plain,
    λ term index id.
        command_is "EXPIREAT" _ user m refl ∙ expireat_run user key expire_at now m plain,
    λ term index id. command_is "PERSIST" _ user m refl ∙ persist_run user key now m plain,
    λ term index id. command_is "SWEEP" _ user m refl ∙ sweep_run user now m,
  )
