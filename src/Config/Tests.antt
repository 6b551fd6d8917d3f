-- ===== src/Config/Tests.antt =====
-- The configuration of src/lib.rs, src/persist.rs and src/main.rs on concrete environments and files.
use wintermute_brain.Prelude.Paths.{PathBuf, from, parent, split_slash, normal_parts}
use wintermute_brain.Prelude.{
  ◌≡◌, refl, sym, subst, ◌⊎◌, [], ◌∷◌, none, some, Text, codes, text_eq, Result, ok, err,
  if◌then◌else◌,
}
use wintermute_brain.Tiers.{any_eq}
use wintermute_brain.Config.{
  Float64, Environment, Config, BrainError, default_config, validate, validate_model_name,
}
use wintermute_brain.Config.Env.{from_env, text_var, bool_var, u64_var, f64_var}
use wintermute_brain.Config.Files.{
  Disk, Calls, Toml, raw_has_top_level_key, load_from_file, save_to_file,
}
use wintermute_brain.Config.Cli.{
  swapped, defaulted, run_swap_model, run_default_model, load_effective,
}
use wintermute_brain.Config.Atomic.{after, Atomic, save_to_file-Atomic}
use wintermute_brain.Config.Reload.{
  ReadsBack, Readable, Changes, no_failure, run_swap_model-Changes,
}
use wintermute_brain.Config.Resaved.{Reloads, save_to_file-load_from_file}
use wintermute_brain.Config.Overlay.{heeded, AgreeOn, load_effective-agree}

abbrev pub whole_numbers : Float64
whole_numbers = record { F64 = Text; one_half = codes "0.5"; parse_f64 = λ s. ok s }

abbrev pub bare_environment : Environment
bare_environment var = none

abbrev tier_environment : Environment
tier_environment var =
    if text_eq var (codes "WM_BRAIN_DEFAULT_TIER") then some (codes "opus") else none

abbrev pub Plain : Type 0
Plain = Config whole_numbers

abbrev pub first_config : Plain
first_config = default_config whole_numbers bare_environment

abbrev opus_config : Plain
opus_config = record first_config { default_tier = codes "opus"; default_model = codes "opus" }

abbrev pending_config : Plain
pending_config = record first_config {
  pending_tier = some (codes "opus");
  pending_model = some (codes "opus");
}

-- A text is the name of the default model.
abbrev pub named_toml : Toml Plain
named_toml = record {
  to_string_pretty = λ c. ok c.default_model;
  from_str = λ env raw. ok (if text_eq raw (codes "opus") then opus_config else pending_config);
  Value = Text;
  value_from_str = λ raw. ok raw;
  as_table = λ v. some (codes "default_tier" ∷ []);
}

abbrev pub config_path : PathBuf
config_path = from (codes "/etc/brain.toml")

abbrev pub no_files : Disk
no_files p = none

abbrev pub full_disk : Calls
full_disk = record {
  create_dir_all = none;
  create = none;
  written = 0 ∷ 2 ∷ [];
  write_all = some (codes "No space left on device");
  sync_all = none;
  rename = none;
}

save_to_file-Atomic_example :
    ((e : BrainError) × (save_to_file whole_numbers named_toml full_disk config_path no_files
          first_config
        ≡ (err e, [])))
    ⊎ (text : Text) × (validate whole_numbers first_config ≡ ok tt)
      × (named_toml.to_string_pretty first_config ≡ ok text)
      × Atomic config_path no_files text
          (save_to_file whole_numbers named_toml full_disk config_path no_files first_config)
save_to_file-Atomic_example =
    save_to_file-Atomic whole_numbers named_toml full_disk config_path no_files first_config

ok-same : (a b : Text) → ◌≡◌ {A = Result Text Text} (ok a) (ok b) → a ≡ b
ok-same a b h = cc

opus_config-ReadsBack : ReadsBack whole_numbers named_toml bare_environment opus_config
unfolding ReadsBack text_eq raw_has_top_level_key any_eq
opus_config-ReadsBack text printed = rw (sym (ok-same (codes "opus") text printed)) (refl, refl)

pending_config-ReadsBack : ReadsBack whole_numbers named_toml bare_environment pending_config
unfolding ReadsBack text_eq raw_has_top_level_key any_eq default_config
pending_config-ReadsBack text printed =
    rw (sym (ok-same first_config.default_model text printed)) (refl, refl)

opus_config-valid : validate whole_numbers opus_config ≡ ok tt
unfolding validate any_eq text_eq default_config
opus_config-valid = refl

config_path-parent : parent config_path ≡ some (from (codes "/etc"))
unfolding parent from split_slash normal_parts text_eq
config_path-parent = refl

opus_config-parsed : named_toml.from_str bare_environment (codes "opus") ≡ ok opus_config
unfolding text_eq
opus_config-parsed = refl

save_to_file-load_from_file_example :
    ((save_to_file whole_numbers named_toml
        (no_failure (0 ∷ 2 ∷ []))
        config_path
        no_files
        opus_config).0
      ≡ ok tt)
    × Reloads whole_numbers named_toml opus_config (codes "opus") (
        load_from_file whole_numbers named_toml bare_environment none config_path (
          after no_files
            (save_to_file whole_numbers named_toml
              (no_failure (0 ∷ 2 ∷ []))
              config_path
              no_files
              opus_config).1))
save_to_file-load_from_file_example =
    save_to_file-load_from_file whole_numbers named_toml bare_environment (0 ∷ 2 ∷ []) config_path
      (from (codes "/etc")) no_files opus_config (codes "opus") opus_config-valid refl
      config_path-parent opus_config-parsed

first_config-same :
    (cfg : Plain)
    → load_from_file whole_numbers named_toml bare_environment none config_path no_files ≡ ok cfg
    → first_config ≡ cfg
unfolding load_from_file
first_config-same cfg loaded = cc

swapped-Readable :
    Readable whole_numbers named_toml bare_environment none config_path no_files
      (swapped whole_numbers named_toml (codes "opus"))
swapped-Readable cfg loaded =
    subst
      (λ (c : Plain).
        ReadsBack whole_numbers named_toml bare_environment
          (swapped whole_numbers named_toml (codes "opus") c))
      (first_config-same cfg loaded) pending_config-ReadsBack

defaulted-Readable :
    Readable whole_numbers named_toml bare_environment none config_path no_files
      (defaulted whole_numbers named_toml (codes "opus"))
defaulted-Readable cfg loaded =
    subst
      (λ (c : Plain).
        ReadsBack whole_numbers named_toml bare_environment
          (defaulted whole_numbers named_toml (codes "opus") c))
      (first_config-same cfg loaded) opus_config-ReadsBack

run_swap_model-Changes_example :
    Changes whole_numbers named_toml bare_environment none config_path no_files
      (swapped whole_numbers named_toml (codes "opus"))
      (run_swap_model whole_numbers named_toml bare_environment none full_disk config_path no_files
        (codes "opus"))
    × Changes whole_numbers named_toml bare_environment none config_path no_files
        (defaulted whole_numbers named_toml (codes "opus"))
        (run_default_model whole_numbers named_toml bare_environment none full_disk config_path
          no_files
          (codes "opus"))
run_swap_model-Changes_example =
    run_swap_model-Changes whole_numbers named_toml bare_environment none full_disk config_path
      no_files (codes "opus") swapped-Readable defaulted-Readable

abbrev config_or : Plain → Result BrainError Plain → Plain
config_or c (ok d) = d
config_or c (err e) = c

abbrev accepted : Environment → Plain
accepted env = config_or first_config (from_env whole_numbers env)

tier_environment-accepted : from_env whole_numbers tier_environment ≡ ok (accepted tier_environment)
unfolding from_env validate_model_name text_var bool_var u64_var f64_var any_eq text_eq
tier_environment-accepted = refl

bare_environment-accepted : from_env whole_numbers bare_environment ≡ ok (accepted bare_environment)
unfolding from_env validate_model_name text_var bool_var u64_var f64_var any_eq text_eq
bare_environment-accepted = refl

heeded-agree : AgreeOn heeded tier_environment bare_environment
unfolding text_eq
heeded-agree = (refl, (refl, (refl, (refl, (refl, (refl, (refl, tt)))))))

load_effective-agree_example :
    load_effective whole_numbers named_toml tier_environment none config_path none
      (codes "KEY")
      no_files
    ≡ load_effective whole_numbers named_toml bare_environment none config_path none
        (codes "KEY")
        no_files
load_effective-agree_example =
    load_effective-agree whole_numbers tier_environment bare_environment heeded-agree named_toml
      (λ raw. refl) (accepted tier_environment) (accepted bare_environment)
      tier_environment-accepted bare_environment-accepted none config_path none (codes "KEY")
      no_files
