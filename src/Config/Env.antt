-- ===== src/Config/Env.antt =====
-- `BrainConfig::from_env` of src/lib.rs.
use wintermute_brain.Prelude.Paths.{PathBuf, from}
use wintermute_brain.Prelude.Numbers.{parse_unsigned}
use wintermute_brain.Prelude.Unicode.{to_ascii_lowercase, trim}
use wintermute_brain.Prelude.{
  ℕ, Bool, true, false, [], ◌∷◌, map, Option, none, some, Text, codes, Result, ok, err, ◌>>=◌,
  map_err, u64_max, if◌then◌else◌,
}
use wintermute_brain.Tiers.{unwrap_or, any_eq}
use wintermute_brain.Config.{
  Float64, BrainError, invalid_env, Environment, Config, env_string, default_config,
  default_recall_sock, validate_model_name,
}

unfoldable pub parse_bool_env : Text → Text → Result BrainError Bool
parse_bool_env var raw =
    let s = map to_ascii_lowercase (trim raw) in
    if any_eq (codes "1" ∷ codes "true" ∷ codes "yes" ∷ codes "on" ∷ []) s
    then ok true
    else if any_eq (codes "0" ∷ codes "false" ∷ codes "no" ∷ codes "off" ∷ []) s
    then ok false
    else err (invalid_env var raw (codes "expected one of: 1/0, true/false, yes/no, on/off"))

-- A variable that is set is parsed, and another one has its default.
abbrev pub or_default :
    {A : Type 0} → (Text → Result BrainError A) → A → Option Text → Result BrainError A
or_default parse other none = ok other
or_default parse other (some raw) = parse raw

abbrev pub as_env_error : {A : Type 0} → Text → Text → Result Text A → Result BrainError A
as_env_error var raw r = map_err (λ e. invalid_env var raw e) r

unfoldable pub parse_u64_env : Text → Text → Result BrainError ℕ
parse_u64_env var raw = as_env_error var raw (parse_unsigned u64_max (trim raw))

abbrev pub path_or : PathBuf → Option Text → PathBuf
path_or p none = p
path_or p (some s) = from s

module _ (f : Float64) (env : Environment) where
  open f use {F64, one_half, parse_f64}

  unfoldable pub bool_var : Text → Bool → Result BrainError Bool
  unfolding parse_bool_env env_string
  bool_var var other = or_default (parse_bool_env var) other (env_string env var)

  unfoldable pub u64_var : Text → ℕ → Result BrainError ℕ
  unfolding parse_u64_env env_string
  u64_var var other = or_default (parse_u64_env var) other (env_string env var)

  unfoldable pub f64_var : Text → F64 → Result BrainError F64
  unfolding env_string
  f64_var var other =
      or_default (λ raw. as_env_error var raw (parse_f64 (trim raw))) other (env_string env var)

  unfoldable pub text_var : Text → Text → Text
  unfolding env_string
  text_var var other = unwrap_or (env_string env var) other

  unfoldable pub from_env : Result BrainError (Config f)
  unfolding default_config
  from_env =
      let d = default_config f env in
      let default_model = text_var (codes "WM_BRAIN_DEFAULT_MODEL") d.default_model in
      do
        valid ← validate_model_name default_model
        child_lock ← bool_var (codes "WM_BRAIN_CHILD_LOCK") false
        almanac_speak ← bool_var (codes "WM_BRAIN_ALMANAC_SPEAK") d.almanac_speak
        writeback_auto_commit ← bool_var (codes "WM_BRAIN_WRITEBACK_AUTO_COMMIT") false
        writeback_confidence_floor ←
            f64_var (codes "WM_BRAIN_WRITEBACK_CONFIDENCE_FLOOR") d.writeback_confidence_floor
        idle_gap_ms ← u64_var (codes "WM_BRAIN_IDLE_GAP_MS") d.idle_gap_ms
        recap_max_memories ← u64_var (codes "WM_BRAIN_RECAP_MAX_MEMORIES") d.recap_max_memories
        recap_opener ← bool_var (codes "WM_BRAIN_RECAP_OPENER") false
        ok (record {
          default_model = default_model;
          pending_model = none;
          api_key_env = text_var (codes "WM_BRAIN_API_KEY_ENV") d.api_key_env;
          recall_sock =
              path_or (default_recall_sock env) (env_string env (codes "WM_BRAIN_RECALL_SOCK"));
          user_name = env_string env (codes "WM_USER_NAME");
          timezone = env_string env (codes "WM_TIMEZONE");
          child_lock = child_lock;
          default_tier = text_var (codes "WM_BRAIN_DEFAULT_TIER") d.default_tier;
          pending_tier = none;
          local_endpoint = text_var (codes "WM_BRAIN_LOCAL_ENDPOINT") d.local_endpoint;
          gpu_endpoint = env_string env (codes "WM_BRAIN_GPU_ENDPOINT");
          gpu_model = text_var (codes "WM_BRAIN_GPU_MODEL") d.gpu_model;
          local_llm_endpoint = env_string env (codes "WM_BRAIN_LOCAL_LLM_ENDPOINT");
          local_llm_model = text_var (codes "WM_BRAIN_LOCAL_LLM_MODEL") d.local_llm_model;
          history_turns = d.history_turns;
          almanac_speak = almanac_speak;
          writeback_auto_commit = writeback_auto_commit;
          writeback_model = text_var (codes "WM_BRAIN_WRITEBACK_MODEL") d.writeback_model;
          writeback_confidence_floor = writeback_confidence_floor;
          idle_gap_ms = idle_gap_ms;
          session_end_phrases = d.session_end_phrases;
          recap_max_memories = recap_max_memories;
          recap_opener = recap_opener;
          repair_repeat_phrases = [];
          repair_louder_phrases = [];
          persona = d.persona;
          routing = d.routing;
        })
