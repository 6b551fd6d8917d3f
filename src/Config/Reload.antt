-- ===== src/Config/Reload.antt =====
-- The configuration behind the commands of src/main.rs that change its file, loaded again.
use wintermute_brain.Prelude.Paths.{PathBuf}
use wintermute_brain.Prelude.{
  ℕ, true, ◌≡◌, refl, subst, ◌⊎◌, inl, inr, List, Option, none, Text, codes, Result, ok, err,
  Result-cases,
}
use wintermute_brain.Config.{
  Float64, BrainError, Environment, Config, validate, validate_model_name,
  apply_legacy_tier_backcompat,
}
use wintermute_brain.Config.Files.{
  Disk, Calls, Saved, Toml, raw_has_top_level_key, config_of, load_from_file, save_to_file,
}
use wintermute_brain.Config.Atomic.{after, Ends, save_to_file-Atomic}
use wintermute_brain.Config.Cli.{
  ExitCode, success, failure, exit_code, swapped, defaulted, when_valid, change_file,
  run_swap_model, run_default_model,
}

-- The calls that a save makes when none of them fails.
abbrev pub no_failure : List ℕ → Calls
no_failure written = record {
  create_dir_all = none;
  create = none;
  written = written;
  write_all = none;
  sync_all = none;
  rename = none;
}

module _ (f : Float64) (toml : Toml (Config f)) where
  open toml use {to_string_pretty, from_str}

  -- The text of a configuration is read back, and has the key of the tier.
  unfoldable pub ReadsBack : Environment → Config f → Type 0
  ReadsBack env c =
      (text : Text)
      → to_string_pretty c ≡ ok text
      → (from_str env text ≡ ok c)
        × (raw_has_top_level_key f toml text (codes "default_tier") ≡ true)

  config_of-text :
      (env : Environment) (path : PathBuf) (c : Config f) (text : Text)
      → ReadsBack env c
      → to_string_pretty c ≡ ok text
      → validate f c ≡ ok tt
      → config_of f toml env path text ≡ ok c
  unfolding ReadsBack config_of apply_legacy_tier_backcompat
  config_of-text env path c text back printed valid =
      let (parsed, has_key) = back text printed in rw parsed (rw has_key (rw valid refl))

  -- What a load finds when a save has ended, or the file as it was.
  abbrev pub Stored :
      Environment → PathBuf → Disk → Config f → Result BrainError (Unit {0}) → Disk → Type 0
  Stored env path d c (ok done) e = load_from_file f toml env none path e ≡ ok c
  Stored env path d c (err cause) e = e path ≡ d path

  Stored-at :
      (env : Environment) (path : PathBuf) (d : Disk) (c : Config f)
      (r r' : Result BrainError (Unit {0})) (e : Disk)
      → r ≡ r'
      → Stored env path d c r e
      → Stored env path d c r' e
  Stored-at env path d c r r' e same h =
      subst (λ (x : Result BrainError (Unit {0})). Stored env path d c x e) same h

  Ends-Stored :
      (env : Environment) (path : PathBuf) (d : Disk) (c : Config f) (text : Text)
      → config_of f toml env path text ≡ ok c
      → (r : Result BrainError (Unit {0})) (e : Disk) → Ends path d text r e
      → Stored env path d c r e
  unfolding load_from_file
  Ends-Stored env path d c text back (ok done) e ends = rw ends back
  Ends-Stored env path d c text back (err cause) e ends = ends

  pub save_to_file-Stored :
      (env : Environment) (calls : Calls) (path : PathBuf) (d : Disk) (c : Config f)
      → ReadsBack env c
      → Stored env path d c
          (save_to_file f toml calls path d c).0
          (after d (save_to_file f toml calls path d c).1)
  unfolding after
  save_to_file-Stored env calls path d c back = elim (save_to_file-Atomic f toml calls path d c) [
    | inl (e, same) ↦ rw same refl
    | inr (text, valid, printed, atomic) ↦
        Ends-Stored env path d c text (config_of-text env path c text back printed valid) _ _
          atomic.1
  ]

  exit_code-err :
      (saved : Saved) (e : BrainError) → saved.0 ≡ err e → exit_code saved ≡ (failure, saved.1)
  exit_code-err (ok done, ds) e h = cc
  exit_code-err (err cause, ds) e h = refl

  exit_code-ok :
      (saved : Saved) (done : Unit {0}) → saved.0 ≡ ok done → exit_code saved ≡ (success, saved.1)
  exit_code-ok (ok it, ds) done h = refl
  exit_code-ok (err cause, ds) done h = cc

  -- A command ends well and what is loaded afterwards is what was loaded before with the change, or it ends
  -- with a failure and the file is as it was.
  abbrev pub Changes :
      Environment
      → Option Text
      → PathBuf
      → Disk
      → (Config f → Config f)
      → ExitCode × List Disk
      → Type 0
  Changes env unreadable path d change (code, ds) =
      ((code ≡ success)
        × (cfg : Config f) × (load_from_file f toml env unreadable path d ≡ ok cfg)
        × (load_from_file f toml env none path (after d ds) ≡ ok (change cfg)))
      ⊎ (code ≡ failure) × (after d ds path ≡ d path)

  -- What is loaded and changed is read back.
  abbrev pub Readable : Environment → Option Text → PathBuf → Disk → (Config f → Config f) → Type 0
  Readable env unreadable path d change =
      (cfg : Config f)
      → load_from_file f toml env unreadable path d ≡ ok cfg
      → ReadsBack env (change cfg)

  module _ (env : Environment) (unreadable : Option Text) (calls : Calls) (path : PathBuf)
      (d : Disk) where
    change_file-Changes :
        (change : Config f → Config f)
        → Readable env unreadable path d change
        → Changes env unreadable path d change
            (change_file f toml env unreadable calls path d change)
    unfolding change_file after
    change_file-Changes change back =
        elim (Result-cases (load_from_file f toml env unreadable path d)) [
          | inr (e, failed) ↦ inr (rw failed refl, rw failed refl)
          | inl (cfg, loaded) ↦
              let stored = save_to_file-Stored env calls path d (change cfg) (back cfg loaded) in
              elim (Result-cases (save_to_file f toml calls path d (change cfg)).0) [
                | inr (e, failed) ↦ inr (
                    rw loaded (
                      rw (exit_code-err (save_to_file f toml calls path d (change cfg)) e failed)
                        (refl, Stored-at env path d (change cfg) _ (err e) _ failed stored)))
                | inl (done, saved) ↦ inl (
                    rw loaded (
                      rw (exit_code-ok (save_to_file f toml calls path d (change cfg)) done saved) (
                        refl,
                        cfg,
                        refl,
                        Stored-at env path d (change cfg) _ (ok done) _ saved stored,
                      )))
              ]
        ]

    when_valid-Changes :
        (valid : Result BrainError (Unit {0})) (change : Config f → Config f)
        (r : ExitCode × List Disk)
        → Changes env unreadable path d change r
        → Changes env unreadable path d change (when_valid f toml valid r)
    unfolding after
    when_valid-Changes (ok done) change r h = h
    when_valid-Changes (err e) change r h = inr (refl, refl)

    -- Whatever fails, `swap-model` and `default-model` end well, and what is loaded afterwards is what was
    -- loaded before with the name as the pending, or the default, model and tier; or they end with a failure
    -- and the file is as it was. A configuration with that change is read back from its text.
    pub run_swap_model-Changes :
        (name : Text)
        → Readable env unreadable path d (swapped f toml name)
        → Readable env unreadable path d (defaulted f toml name)
        → Changes env unreadable path d
            (swapped f toml name)
            (run_swap_model f toml env unreadable calls path d name)
          × Changes env unreadable path d
              (defaulted f toml name)
              (run_default_model f toml env unreadable calls path d name)
    unfolding run_swap_model run_default_model
    run_swap_model-Changes name swap default = (
      when_valid-Changes (validate_model_name name) (swapped f toml name) _
          (change_file-Changes (swapped f toml name) swap),
      when_valid-Changes (validate_model_name name) (defaulted f toml name) _
          (change_file-Changes (defaulted f toml name) default),
    )
