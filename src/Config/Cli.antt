-- ===== src/Config/Cli.antt =====
-- The commands of src/main.rs that read the configuration and change its file.
use wintermute_brain.Prelude.Paths.{PathBuf, from, path_eq}
use wintermute_brain.Prelude.Unicode.{to_ascii_lowercase, trim}
use wintermute_brain.Prelude.{
  true, List, [], map, Option, none, some, Text, codes, text_eq, Result, ok, err, ◌>>=◌,
  if◌then◌else◌,
}
use wintermute_brain.Router.{parse_prefer}
use wintermute_brain.Config.{
  Float64, BrainError, Environment, Config, Register, warm_elder, plain, brisk, env_string,
  default_config, validate, validate_model_name,
}
use wintermute_brain.Config.Env.{from_env}
use wintermute_brain.Config.Files.{
  Disk, Calls, Toml, default_config_path, load_from_file, save_to_file,
}

pub data ExitCode : Type 0 where
  success failure : ExitCode

unfoldable pub parse_register : Text → Option Register
parse_register s =
    let name = map to_ascii_lowercase (trim s) in
    if text_eq name (codes "warm-elder")
    then some warm_elder
    else if text_eq name (codes "plain")
    then some plain
    else if text_eq name (codes "brisk")
    then some brisk
    else none

abbrev path_or_default : Environment → Option Text → Result BrainError PathBuf
path_or_default env none = default_config_path env
path_or_default env (some v) = ok (from v)

unfoldable pub resolve_config_path : Environment → Option PathBuf → Result BrainError PathBuf
resolve_config_path env none = path_or_default env (env_string env (codes "WM_BRAIN_CONFIG"))
resolve_config_path env (some p) = ok p

-- A value that is not the default one takes the place of the file's.
abbrev if_set : Text → Text → Text → Text
if_set file env other = if text_eq env other then file else env

abbrev if_some : {A : Type 0} → Option A → Option A → Option A
if_some file none = file
if_some file (some a) = some a

abbrev sock_of : Option PathBuf → PathBuf → PathBuf
sock_of none p = p
sock_of (some p) q = p

abbrev pub exit_code : Result BrainError (Unit {0}) × List Disk → ExitCode × List Disk
exit_code (ok done, ds) = (success, ds)
exit_code (err e, ds) = (failure, ds)

module _ (f : Float64) (toml : Toml (Config f)) where
  unfoldable pub overlaid :
      (cfg env_cfg defaults : Config f) (cli_sock : Option PathBuf) (cli_api_key_env : Text)
      → Config f
  overlaid cfg env_cfg defaults cli_sock cli_api_key_env = record cfg {
    default_model = if_set cfg.default_model env_cfg.default_model defaults.default_model;
    recall_sock = sock_of cli_sock (
        if path_eq env_cfg.recall_sock defaults.recall_sock
        then cfg.recall_sock
        else env_cfg.recall_sock);
    user_name = if_some cfg.user_name env_cfg.user_name;
    timezone = if_some cfg.timezone env_cfg.timezone;
    child_lock = if env_cfg.child_lock then true else cfg.child_lock;
    api_key_env = cli_api_key_env;
  }

  unfoldable pub load_effective :
      Environment
      → Option Text
      → PathBuf
      → Option PathBuf
      → Text
      → Disk
      → Result BrainError (Config f)
  load_effective env unreadable path cli_sock cli_api_key_env d = do
    cfg ← load_from_file f toml env unreadable path d
    env_cfg ← from_env f env
    effective ← ok (overlaid cfg env_cfg (default_config f env) cli_sock cli_api_key_env)
    valid ← validate f effective
    ok effective

  abbrev save_changed :
      Calls
      → PathBuf
      → Disk
      → (Config f → Config f)
      → Result BrainError (Config f)
      → ExitCode × List Disk
  save_changed calls path d change (err e) = (failure, [])
  save_changed calls path d change (ok cfg) =
      exit_code (save_to_file f toml calls path d (change cfg))

  -- Load, change and save.
  unfoldable pub change_file :
      Environment
      → Option Text
      → Calls
      → PathBuf
      → Disk
      → (Config f → Config f)
      → ExitCode × List Disk
  change_file env unreadable calls path d change =
      save_changed calls path d change (load_from_file f toml env unreadable path d)

  abbrev pub when_valid : Result BrainError (Unit {0}) → ExitCode × List Disk → ExitCode × List Disk
  when_valid (ok valid) r = r
  when_valid (err e) r = (failure, [])

  abbrev pub swapped : Text → Config f → Config f
  swapped name cfg = record cfg { pending_tier = some name; pending_model = some name }

  unfoldable pub run_swap_model :
      Environment → Option Text → Calls → PathBuf → Disk → Text → ExitCode × List Disk
  unfolding change_file
  run_swap_model env unreadable calls path d name =
      when_valid (validate_model_name name) (change_file env unreadable calls path d (swapped name))

  abbrev pub defaulted : Text → Config f → Config f
  defaulted name cfg = record cfg { default_tier = name; default_model = name }

  unfoldable pub run_default_model :
      Environment → Option Text → Calls → PathBuf → Disk → Text → ExitCode × List Disk
  unfolding change_file
  run_default_model env unreadable calls path d name =
      when_valid (validate_model_name name)
        (change_file env unreadable calls path d (defaulted name))

  abbrev change_with :
      {A : Type 0}
      → (A → Config f → Config f)
      → ((Config f → Config f) → ExitCode × List Disk)
      → Option A
      → ExitCode × List Disk
  change_with set run none = (failure, [])
  change_with set run (some a) = run (set a)

  unfoldable pub run_persona_set_register :
      Environment → Option Text → Calls → PathBuf → Disk → Text → ExitCode × List Disk
  unfolding change_file
  run_persona_set_register env unreadable calls path d register =
      change_with (λ r cfg. record cfg { persona = record cfg.persona { register = r } })
        (change_file env unreadable calls path d) (parse_register register)

  unfoldable pub run_route_prefer :
      Environment → Option Text → Calls → PathBuf → Disk → Text → ExitCode × List Disk
  unfolding change_file
  run_route_prefer env unreadable calls path d preference =
      change_with (λ p cfg. record cfg { routing = record cfg.routing { prefer = p } })
        (change_file env unreadable calls path d) (parse_prefer preference)
