-- ===== src/Raft/Engine/Saved/Lifecycle.antt =====
-- A new engine starts from what was saved, and has everything saved again.
use distributed_key_value_ca.Prelude.{◌+◌, ◌≡◌, refl, ◌∙◌, ap, true, false, none, some, List, arith}
use distributed_key_value_ca.Raft.Types.{Loads, Member}
use distributed_key_value_ca.Raft.Log.Runs.{Runs, after-all}
use distributed_key_value_ca.Raft.Storage.{RaftStorage, RaftStorageLaws, after, kept_config}
use distributed_key_value_ca.Raft.Engine.{Engine, Clock, Task, spawn}
use distributed_key_value_ca.Raft.Engine.Frame.{
  Keeps, refresh_config-Keeps, reset_election_timer-Keeps, wake_replicators-Keeps,
}
use distributed_key_value_ca.Raft.Engine.Lifecycle.{
  Settings, blank, reload, save_bootstrap, remember_bootstrap, init, start, stop,
}
use distributed_key_value_ca.Raft.Engine.Saved.{Saved, Keeps-Saved}
use distributed_key_value_ca.Raft.Engine.Saved.Votes.{start_election-Saved}

module _ {S R : Type 0} {st : RaftStorage S} {Sound : S → Type 0}
    (laws : RaftStorageLaws st Sound) where
  reload-Saved :
      (c : Settings) (now : Clock) (storage : S)
      → Sound storage
      → Runs (st.load storage).snapshot_index (st.load storage).log
      → Saved {R = R} st Sound (reload (st.load storage) (blank c now storage))
  unfolding reload
  reload-Saved c now storage sound run = record {
    logs = record {
      sound = sound;
      runs = run;
      log = refl;
      snapshot_index = refl;
      snapshot_term = refl;
      snapshot_config = refl;
    };
    term = refl;
    vote = refl;
  }

  save_bootstrap-Saved :
      (bootstrap : List Member) (e : Engine S R)
      → Saved st Sound e
      → Saved st Sound (save_bootstrap st bootstrap e)
  unfolding save_bootstrap
  save_bootstrap-Saved bootstrap e s =
      let n = e.node in
      let saved =
        laws.load-save_snapshot e.storage n.snapshot_index n.snapshot_term n.last_applied
          (some bootstrap) s.sound in
      record {
        logs = record {
          sound = laws.save_snapshot-Sound e.storage _ _ _ (some bootstrap) s.sound;
          runs = s.runs;
          log =
              ap (λ p. p.log) saved
              ∙ ap (after n.snapshot_index) s.log
              ∙ after-all n.snapshot_index n.snapshot_index n.log (omega arith) s.runs;
          snapshot_index = ap (λ p. p.snapshot_index) saved;
          snapshot_term = ap (λ p. p.snapshot_term) saved;
          snapshot_config = ap (λ p. p.snapshot_config) saved ∙ (unfold kept_config in refl);
        };
        term = ap (λ p. p.current_term) saved ∙ s.term;
        vote = ap (λ p. p.voted_for) saved ∙ s.vote;
      }

  remember_bootstrap-Saved :
      (bootstrap : List Member) (e : Engine S R)
      → Saved st Sound e
      → Saved st Sound (remember_bootstrap st bootstrap e)
  unfolding remember_bootstrap
  remember_bootstrap-Saved bootstrap e s = ground (arith, s, save_bootstrap-Saved bootstrap e s)

  pub init-Saved :
      (loads : Loads) (c : Settings) (now : Clock) (storage : S)
      → Sound storage
      → Runs (st.load storage).snapshot_index (st.load storage).log
      → Saved {R = R} st Sound (init st loads c now storage)
  unfolding init
  init-Saved loads c now storage sound run =
      Keeps-Saved (refresh_config-Keeps loads now _)
        (remember_bootstrap-Saved c.bootstrap _ (reload-Saved c now storage sound run))

  pub start-Saved :
      (loads : Loads) (now : Clock) (e : Engine S R)
      → Saved st Sound e
      → Saved st Sound (start st loads now e)
  unfolding start
  start-Saved loads now e s = ground (
    arith,
    start_election-Saved laws now loads none running (runs s),
    Keeps-Saved (reset_election_timer-Keeps running) (runs s),
  )
    where
      running : Engine S R
      running = spawn Task.apply_loop (record e { running = true })

      runs : Saved st Sound e → Saved st Sound running
      runs g = unfold spawn in ground arith

  pub stop-Saved : (e : Engine S R) → Saved st Sound e → Saved st Sound (stop e)
  unfolding stop
  stop-Saved e s = Keeps-Saved (wake_replicators-Keeps _) (stopped s)
    where
      stopped :
          Saved st Sound e
          → Saved st Sound (record e {
            running = false;
            timer_generation = e.timer_generation + 1;
            election_timer = none;
            snapshot_rx = none;
          })
      stopped g = ground arith

module _ {S : Type 0} (R : Type 0) (st : RaftStorage S) (loads : Loads) (c : Settings) (now : Clock)
    (storage : S) where
  started :
      Keeps
        (remember_bootstrap st c.bootstrap (reload (st.load storage) (blank c now storage)))
        (init {R = R} st loads c now storage)
  unfolding init
  started = refresh_config-Keeps loads now _

  pub init-term :
      (init {R = R} st loads c now storage).node.current_term ≡ (st.load storage).current_term
  unfolding remember_bootstrap reload save_bootstrap
  init-term = started.term ∙ ground arith

  pub init-vote : (init {R = R} st loads c now storage).node.voted_for ≡ (st.load storage).voted_for
  unfolding remember_bootstrap reload save_bootstrap
  init-vote = started.vote ∙ ground arith

  pub init-log : (init {R = R} st loads c now storage).node.log ≡ (st.load storage).log
  unfolding remember_bootstrap reload save_bootstrap
  init-log = started.log ∙ ground arith
