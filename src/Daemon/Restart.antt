-- ===== src/Daemon/Restart.antt =====
-- The file of the configuration behind a turn of src/daemon.rs: what a restart finds.
use wintermute_brain.Cache.{Float}
use wintermute_brain.Config.{Float64, BrainError, Environment, Config, effective_model}
use wintermute_brain.Config.Files.{Disk, Saved, load_from_file, save_to_file}
use wintermute_brain.Config.Atomic.{after}
use wintermute_brain.Config.Reload.{ReadsBack, Stored, save_to_file-Stored}
use wintermute_brain.Session.{advance, is_explicit_close}
use wintermute_brain.Turn.{Brain, Done, finished, publish_failed, panicked, TurnUserEvent}
use wintermute_brain.Turn.Dispatch.{handle_turn_user}
use wintermute_brain.Daemon.{
  DaemonState, Outside, turn_user, consumed, had_pending, turn_config, on_outcome, saved_disk,
  persist_at, persist_after_pending_consume, behind_turn, close_explicit, ended, quietly, take_turn,
  dispatch_turn, dispatch,
}
use wintermute_brain.Daemon.Kept.{on_outcome-config, on_outcome-file}
use wintermute_brain.Prelude.Paths.{PathBuf}
use wintermute_brain.Prelude.{
  ℕ, ◌≡◌, refl, sym, ap, ◌∙◌, subst, ◌⊎◌, inl, inr, Bool, true, false, none, some, Result, ok, err,
}

module _ {Json : Type 0} {f : Float} {g : Float64} where
  -- The choice is taken from the file, or the save failed and the file is as it was.
  abbrev pub Persisted : Environment → Outside Json f g → PathBuf → Disk → Config g → Disk → Type 0
  Persisted env o path before c now =
      (load_from_file g o.toml env none path now ≡ ok c) ⊎ (now path ≡ before path)

  -- A turn that fails leaves the whole disk.
  abbrev pub Restarts :
      Environment
      → Outside Json f g
      → PathBuf
      → Disk
      → Config g
      → DaemonState Json f g × Done
      → Type 0
  Restarts env o path before c (s, finished) = Persisted env o path before c s.disk
  Restarts env o path before c (s, publish_failed) = s.disk ≡ before
  Restarts env o path before c (s, panicked) = s.disk ≡ before

  Stored-Persisted :
      (env : Environment) (o : Outside Json f g) (path : PathBuf) (before now : Disk) (c : Config g)
      (r : Result BrainError (Unit {0}))
      → Stored g o.toml env path before c r now
      → Persisted env o path before c now
  Stored-Persisted env o path before now c (ok done) stored = inl stored
  Stored-Persisted env o path before now c (err e) stored = inr stored

  saved_disk-after :
      (s : DaemonState Json f g) (saved : Saved) → (saved_disk s saved).disk ≡ after s.disk saved.1
  saved_disk-after s (r, ds) = refl

  persist_at-Persisted :
      (env : Environment) (o : Outside Json f g) (path : PathBuf) (s : DaemonState Json f g)
      → ReadsBack g o.toml env s.config
      → Persisted env o path s.disk s.config (persist_at o (some path) s).disk
  unfolding persist_at
  persist_at-Persisted env o path s back =
      let saved = save_to_file g o.toml o.calls path s.disk s.config in
      rw (saved_disk-after s saved) (
        Stored-Persisted env o path s.disk (after s.disk saved.1) s.config saved.0
          (save_to_file-Stored g o.toml env o.calls path s.disk s.config back))

  behind_turn-Persisted :
      (env : Environment) (o : Outside Json f g) (path : PathBuf) (explicit_close : Bool)
      (now_ms : ℕ) (s : DaemonState Json f g)
      → s.config_path ≡ some path
      → ReadsBack g o.toml env s.config
      → Persisted env o path s.disk s.config (behind_turn o true explicit_close now_ms s).disk
  unfolding behind_turn persist_after_pending_consume close_explicit
  behind_turn-Persisted env o path true now_ms s at back =
      rw at (persist_at-Persisted env o path s back)
  behind_turn-Persisted env o path false now_ms s at back =
      rw at (persist_at-Persisted env o path s back)

  ended-Restarts :
      (env : Environment) (o : Outside Json f g) (path : PathBuf) (explicit_close : Bool)
      (now_ms : ℕ) (s : DaemonState Json f g) (r : Brain Json f × Done)
      → s.config_path ≡ some path
      → ReadsBack g o.toml env s.config
      → Restarts env o path s.disk s.config (ended o true explicit_close now_ms s r)
  ended-Restarts env o path explicit_close now_ms s (b, finished) at back =
      behind_turn-Persisted env o path explicit_close now_ms (quietly b s) at back
  ended-Restarts env o path explicit_close now_ms s (b, publish_failed) at back = refl
  ended-Restarts env o path explicit_close now_ms s (b, panicked) at back = refl

  take_turn-Restarts :
      (env : Environment) (o : Outside Json f g) (path : PathBuf) (explicit_close : Bool)
      (t : TurnUserEvent) (now_ms : ℕ) (s : DaemonState Json f g)
      → s.config_path ≡ some path
      → had_pending g s.config ≡ true
      → ReadsBack g o.toml env (consumed g s.config)
      → Restarts env o path s.disk (consumed g s.config) (take_turn o explicit_close t now_ms s)
  unfolding take_turn
  take_turn-Restarts env o path explicit_close t now_ms s at pending back =
      let s' = record s { config = consumed g s.config } in
      rw pending (
        ended-Restarts env o path explicit_close now_ms s'
          (handle_turn_user o.w (turn_config o s') s.config.child_lock (effective_model g s.config)
            t now_ms s'.brain)
          at back)

  -- A turn with a pending choice, when the daemon has a file for its configuration and the configuration without
  -- the choice is read back from its text: if the turn succeeds, a restart loads that configuration, or the
  -- save failed and the file is as it was; if it fails, the disk is as it was, so that a restart finds the
  -- choice pending again.
  pub dispatch-Restarts :
      (env : Environment) (o : Outside Json f g) (t : TurnUserEvent) (now_ms : ℕ) (path : PathBuf)
      (s : DaemonState Json f g)
      → s.config_path ≡ some path
      → had_pending g s.config ≡ true
      → ReadsBack g o.toml env (consumed g s.config)
      → Restarts env o path s.disk (consumed g s.config) (dispatch o (turn_user t) now_ms s)
  unfolding dispatch dispatch_turn
  dispatch-Restarts env o t now_ms path s at pending back =
      let (tracker, outcome) = advance s.session_tracker now_ms in
      let begun = record s { session_tracker = tracker } in
      let e = on_outcome o outcome now_ms begun in
      let same = on_outcome-config o outcome now_ms begun in
      let (disk, located) = on_outcome-file o outcome now_ms begun in
      let close = is_explicit_close o.w.u s.session_tracker t.transcript in
      subst
        (λ (d : Disk). Restarts env o path d (consumed g s.config) (take_turn o close t now_ms e))
        disk
        (subst
          (λ (c : Config g).
            Restarts env o path e.disk (consumed g c) (take_turn o close t now_ms e))
          same
          (take_turn-Restarts env o path close t now_ms e (located ∙ at)
            (ap (had_pending g) same ∙ pending)
            (subst (λ (c : Config g). ReadsBack g o.toml env (consumed g c)) (sym same) back)))
