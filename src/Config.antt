-- ===== src/Config.antt =====
-- The configuration of src/lib.rs, with the persona, the routing section of src/router.rs and the modes
-- of src/greeting.rs and src/introduction.rs that it holds. `f64` is a parameter.
pub mod Env
pub mod Files
pub mod Cli
pub mod Atomic
pub mod Reload
pub mod Resaved
pub mod Overlay
pub mod Persona
pub mod Tests
use wintermute_brain.Prelude.Paths.{PathBuf, from, join}
use wintermute_brain.Prelude.Numbers.{parse_unsigned}
use wintermute_brain.Prelude.Decimal.{show}
use wintermute_brain.Prelude.{
  ℕ, Bool, true, false, ◌||◌, List, [], ◌∷◌, ◌++◌, Option, none, some, Text, codes, text_eq, Result,
  ok, err, ◌>>=◌, u32_max, if◌then◌else◌,
}
use wintermute_brain.Tiers.{unwrap_or, any_eq}
use wintermute_brain.Session.{default_end_phrases, default_idle_gap_ms}
use wintermute_brain.Redline.{RedlineAction}
use wintermute_brain.Router.{RoutePrefer, command_max_words_default}

pub data Register : Type 0 where
  warm_elder plain brisk : Register

pub data GreetingMode : Type 0 where
  off auto first_ever_always : GreetingMode

pub data IntroductionMode : Type 0 where
  off : IntroductionMode
  first_ever_boot explicit : (ack_timeout_secs : ℕ) → IntroductionMode

pub record PersonaConfig : Type 0 where
  pub self_name : Text
  pub register : Register
  pub addresses_user : Bool
  pub max_sentences : ℕ
  pub extra : Text
  pub greeting : GreetingMode
  pub wake_word : Text
  pub forbidden_terms : List Text
  pub introduction : IntroductionMode
  pub redline : RedlineAction
  pub strain_hash : Text

unfoldable pub default_persona_config : PersonaConfig
default_persona_config = record {
  self_name = codes "wintermute";
  register = warm_elder;
  addresses_user = true;
  max_sentences = 3;
  extra = [];
  greeting = GreetingMode.off;
  wake_word = codes "hey wintermute";
  forbidden_terms = [];
  introduction = IntroductionMode.off;
  redline = RedlineAction.off;
  strain_hash = [];
}

pub record RoutingConfig : Type 0 where
  pub local_model : Text
  pub cloud_model : Text
  pub ollama_endpoint : Text
  pub ollama_keep_alive : Text
  pub cloud_timeout_ms : ℕ
  pub reachability_ttl_s : ℕ
  pub command_max_words : ℕ
  pub prefer : RoutePrefer

unfoldable pub default_routing_config : RoutingConfig
default_routing_config = record {
  local_model = codes "qwen2.5:3b";
  cloud_model = codes "sonnet";
  ollama_endpoint = codes "http://localhost:11434";
  ollama_keep_alive = codes "-1";
  cloud_timeout_ms = 6000;
  reachability_ttl_s = 30;
  command_max_words = command_max_words_default;
  prefer = RoutePrefer.auto;
}

-- `f64`: its one number that is written out, and `str::parse` with the error's text.
pub record Float64 : Type 1 where
  pub F64 : Type 0
  pub one_half : F64
  pub parse_f64 : Text → Result Text F64

pub record BrainConfig (F64 : Type 0) : Type 0 where
  pub default_model : Text
  pub pending_model : Option Text
  pub api_key_env : Text
  pub recall_sock : PathBuf
  pub user_name : Option Text
  pub timezone : Option Text
  pub child_lock : Bool
  pub default_tier : Text
  pub pending_tier : Option Text
  pub local_endpoint : Text
  pub gpu_endpoint : Option Text
  pub gpu_model : Text
  pub local_llm_endpoint : Option Text
  pub local_llm_model : Text
  pub history_turns : ℕ
  pub almanac_speak : Bool
  pub writeback_auto_commit : Bool
  pub writeback_model : Text
  pub writeback_confidence_floor : F64
  pub idle_gap_ms : ℕ
  pub session_end_phrases : List Text
  pub recap_max_memories : ℕ
  pub recap_opener : Bool
  pub repair_repeat_phrases : List Text
  pub repair_louder_phrases : List Text
  pub persona : PersonaConfig
  pub routing : RoutingConfig

-- The error of an operation on a file is its text.
pub data BrainError : Type 0 where
  io : (path : PathBuf) (source : Text) → BrainError
  unknown_model : (name : Text) (allowed : List Text) → BrainError
  invalid_env : (var value reason : Text) → BrainError
  missing : Text → BrainError
  invalid_config : (path : PathBuf) (reason : Text) → BrainError

abbrev pub allowed_model_names : List Text
allowed_model_names =
    codes "haiku"
    ∷ codes "sonnet"
    ∷ codes "opus"
    ∷ codes "claude-haiku-4-5"
    ∷ codes "claude-sonnet-4-6"
    ∷ codes "claude-opus-4-8"
    ∷ codes "local-3b"
    ∷ codes "local-8b"
    ∷ codes "local-gpu"
    ∷ codes "local-llm"
    ∷ []

unfoldable pub validate_model_name : Text → Result BrainError (Unit {0})
validate_model_name name =
    if any_eq allowed_model_names name then ok tt else err (unknown_model name allowed_model_names)

unfoldable pub legacy_model_to_tier : Text → Option Text
legacy_model_to_tier model =
    if text_eq model (codes "haiku") || text_eq model (codes "claude-haiku-4-5")
    then some (codes "haiku")
    else if text_eq model (codes "sonnet") || text_eq model (codes "claude-sonnet-4-6")
    then some (codes "sonnet")
    else if text_eq model (codes "opus") || text_eq model (codes "claude-opus-4-8")
    then some (codes "opus")
    else none

-- `std::env::var(var).ok()`.
abbrev pub Environment : Type 0
Environment = Text → Option Text

abbrev non_empty : Option Text → Option Text
non_empty none = none
non_empty (some []) = none
non_empty (some (c ∷ s)) = some (c ∷ s)

unfoldable pub env_string : Environment → Text → Option Text
env_string env var = non_empty (env var)

abbrev ok_uid : Result Text ℕ → Option ℕ
ok_uid (ok uid) = some uid
ok_uid (err e) = none

abbrev parsed_uid : Option Text → Option ℕ
parsed_uid none = none
parsed_uid (some s) = ok_uid (parse_unsigned u32_max s)

unfoldable pub nix_uid : Environment → Option ℕ
nix_uid env = parsed_uid (env (codes "UID"))

abbrev run_user : Option ℕ → PathBuf
run_user none = from (codes "/tmp")
run_user (some uid) = from (codes "/run/user/" ++ show uid)

abbrev runtime_base : Option Text → Option ℕ → PathBuf
runtime_base none uid = run_user uid
runtime_base (some dir) uid = from dir

unfoldable pub default_recall_sock : Environment → PathBuf
unfolding env_string
default_recall_sock env =
    join (runtime_base (env_string env (codes "XDG_RUNTIME_DIR")) (nix_uid env))
      (codes "recall.sock" ∷ [])

module _ (f : Float64) where
  open f use {F64, one_half}

  abbrev pub Config : Type 0
  Config = BrainConfig F64

  unfoldable pub default_config : Environment → Config
  default_config env = record {
    default_model = codes "sonnet";
    pending_model = none;
    api_key_env = codes "WM_ANTHROPIC_API_KEY";
    recall_sock = default_recall_sock env;
    user_name = none;
    timezone = none;
    child_lock = false;
    default_tier = codes "local-3b";
    pending_tier = none;
    local_endpoint = codes "http://127.0.0.1:11434/v1";
    gpu_endpoint = none;
    gpu_model = codes "qwen2.5-7b-instruct:Q4_K_M";
    local_llm_endpoint = none;
    local_llm_model = codes "qwen2.5-8b-instruct:Q4_K_M";
    history_turns = 6;
    almanac_speak = true;
    writeback_auto_commit = false;
    writeback_model = codes "haiku";
    writeback_confidence_floor = one_half;
    idle_gap_ms = default_idle_gap_ms;
    session_end_phrases = default_end_phrases;
    recap_max_memories = 5;
    recap_opener = false;
    repair_repeat_phrases = [];
    repair_louder_phrases = [];
    persona = default_persona_config;
    routing = default_routing_config;
  }

  abbrev validate_pending : Option Text → Result BrainError (Unit {0})
  validate_pending none = ok tt
  validate_pending (some name) = validate_model_name name

  unfoldable pub validate : Config → Result BrainError (Unit {0})
  unfolding validate_model_name
  validate c = do
    model ← validate_model_name c.default_model
    pending ← validate_pending c.pending_model
    tier ← validate_model_name c.default_tier
    validate_pending c.pending_tier

  unfoldable pub effective_model : Config → Text
  effective_model c = unwrap_or c.pending_model c.default_model

  unfoldable pub consume_pending : Config → Config
  consume_pending c = record c { pending_model = none }

  abbrev with_tier : Option Text → Config → Config
  with_tier none c = c
  with_tier (some tier) c = record c { default_tier = tier }

  unfoldable pub apply_legacy_tier_backcompat : Bool → Config → Config
  unfolding legacy_model_to_tier
  apply_legacy_tier_backcompat true c = c
  apply_legacy_tier_backcompat false c =
      if text_eq c.default_tier (codes "local-3b")
      then with_tier (legacy_model_to_tier c.default_model) c
      else c

  unfoldable pub effective_tier : Config → Text
  effective_tier c = unwrap_or c.pending_tier c.default_tier

  unfoldable pub consume_pending_tier : Config → Config
  consume_pending_tier c = record c { pending_tier = none }
