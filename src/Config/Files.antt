-- ===== src/Config/Files.antt =====
-- src/persist.rs: the configuration in a file. A file holds a text; what the operating system makes of
-- the calls, and `toml`, are parameters.
use wintermute_brain.Prelude.Paths.{PathBuf, from, join, path_eq, parent, display, with_suffix}
use wintermute_brain.Prelude.{
  ℕ, Bool, false, List, [], ◌∷◌, ◌++◌, Option, none, some, Text, codes, take, Result, ok, err,
  ◌>>=◌, if◌then◌else◌,
}
use wintermute_brain.Tiers.{any_eq}
use wintermute_brain.Config.{
  Float64, BrainError, io, missing, invalid_config, Environment, Config, default_config, validate,
  apply_legacy_tier_backcompat,
}

abbrev located : Option Text → Option Text → Result BrainError PathBuf
located (some (c ∷ s)) home =
    ok (join (from (c ∷ s)) (codes "wintermute" ∷ codes "brain.toml" ∷ []))
located xdg (some (c ∷ s)) =
    ok (join (from (c ∷ s)) (codes ".config" ∷ codes "wintermute" ∷ codes "brain.toml" ∷ []))
located xdg home = err (missing (codes "XDG_CONFIG_HOME or HOME for default config path"))

unfoldable pub config_path_for_env : Option Text → Option Text → Result BrainError PathBuf
config_path_for_env xdg home = located xdg home

unfoldable pub default_config_path : Environment → Result BrainError PathBuf
default_config_path env = config_path_for_env (env (codes "XDG_CONFIG_HOME")) (env (codes "HOME"))

unfoldable pub tmp_path_for : PathBuf → PathBuf
tmp_path_for path = with_suffix (codes ".tmp") path

-- The contents of each file.
abbrev pub Disk : Type 0
Disk = PathBuf → Option Text

abbrev pub put : PathBuf → Option Text → Disk → Disk
put path contents d q = if path_eq path q then contents else d q

abbrev pub renamed : PathBuf → PathBuf → Disk → Disk
renamed tmp path d = put path (d tmp) (put tmp none d)

-- The calls that fail while a file is saved, with the text of their error; `written` are the lengths that
-- the file has while it is written.
pub record Calls : Type 0 where
  pub create_dir_all : Option Text
  pub create : Option Text
  pub written : List ℕ
  pub write_all : Option Text
  pub sync_all : Option Text
  pub rename : Option Text

-- The result, and the disk after each of its changes.
abbrev pub Saved : Type 0
Saved = Result BrainError (Unit {0}) × List Disk

abbrev pub then_disk : Disk → Saved → Saved
then_disk d (r, ds) = (r, d ∷ ds)

abbrev pub attempt : Option Text → PathBuf → Saved → Saved
attempt none path next = next
attempt (some source) path next = (err (io path source), [])

unfoldable pub while_writing : List ℕ → PathBuf → Text → Disk → Saved → Saved
while_writing [] tmp text d next = next
while_writing (n ∷ ns) tmp text d next =
    then_disk (put tmp (some (take n text)) d) (while_writing ns tmp text d next)

abbrev pub dir : Bool → List Text → Option Text → Option Text
dir false [] failure = none
dir has_root components failure = failure

-- The directory is not made when there is none to make.
abbrev pub directory : PathBuf → Option Text → Option Text
directory p failure = dir p.has_root p.components failure

-- The part of `save_to_file` behind the making of the directory.
unfoldable pub write_and_rename : Calls → PathBuf → Text → Disk → Saved
unfolding while_writing
write_and_rename calls path text d =
    let tmp = tmp_path_for path in
    let full = put tmp (some text) d in
    attempt calls.create tmp (
      then_disk (put tmp (some []) d) (
        while_writing calls.written tmp text d (
          attempt calls.write_all tmp (
            then_disk full (
              attempt calls.sync_all tmp
                (attempt calls.rename path (then_disk (renamed tmp path full) (ok tt, []))))))))

-- What is read of `toml`: a table is its keys.
pub record Toml (C : Type 0) : Type 1 where
  pub to_string_pretty : C → Result Text Text
  pub from_str : Environment → Text → Result Text C
  pub Value : Type 0
  pub value_from_str : Text → Result Text Value
  pub as_table : Value → Option (List Text)

module _ (f : Float64) (toml : Toml (Config f)) where
  open toml use {to_string_pretty, from_str, Value, value_from_str, as_table}

  abbrev has_key : Text → Option (List Text) → Bool
  has_key key none = false
  has_key key (some keys) = any_eq keys key

  abbrev value_has_key : Text → Result Text Value → Bool
  value_has_key key (ok v) = has_key key (as_table v)
  value_has_key key (err e) = false

  unfoldable pub raw_has_top_level_key : Text → Text → Bool
  raw_has_top_level_key raw key = value_has_key key (value_from_str raw)

  abbrev parsed_config : PathBuf → Result Text (Config f) → Result BrainError (Config f)
  parsed_config path (ok c) = ok c
  parsed_config path (err e) = err (invalid_config path e)

  -- What becomes of the text of a file.
  unfoldable pub config_of : Environment → PathBuf → Text → Result BrainError (Config f)
  config_of env path raw = do
    parsed ← parsed_config path (from_str env raw)
    cfg ←
        ok
          (apply_legacy_tier_backcompat f (raw_has_top_level_key raw (codes "default_tier")) parsed)
    valid ← validate f cfg
    ok cfg

  abbrev read_config : Environment → PathBuf → Option Text → Result BrainError (Config f)
  read_config env path none = ok (default_config f env)
  read_config env path (some raw) = config_of env path raw

  -- A read fails with the text of an error, or finds what is on the disk.
  unfoldable pub load_from_file :
      Environment → Option Text → PathBuf → Disk → Result BrainError (Config f)
  load_from_file env none path d = read_config env path (d path)
  load_from_file env (some source) path d = err (io path source)

  abbrev in_directory : Calls → PathBuf → Option PathBuf → Saved → Saved
  in_directory calls path none next =
      (err (missing (codes "config path " ++ display path ++ codes " has no parent dir")), [])
  in_directory calls path (some p) next = attempt (directory p calls.create_dir_all) p next

  abbrev save_text : Calls → PathBuf → Disk → Result Text Text → Saved
  save_text calls path d (ok text) =
      in_directory calls path (parent path) (write_and_rename calls path text d)
  save_text calls path d (err e) = (err (invalid_config path e), [])

  abbrev save_valid : Calls → PathBuf → Disk → Config f → Result BrainError (Unit {0}) → Saved
  save_valid calls path d c (ok valid) = save_text calls path d (to_string_pretty c)
  save_valid calls path d c (err e) = (err e, [])

  unfoldable pub save_to_file : Calls → PathBuf → Disk → Config f → Saved
  save_to_file calls path d c = save_valid calls path d c (validate f c)
