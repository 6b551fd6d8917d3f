-- ===== src/Profile/Diff.antt =====
-- `diff_profile_vs_config` of src/profile.rs. `debug` is the rendering `{:?}` of a text, of the
-- standard library.
use wintermute_brain.Prelude.Decimal.{show}
use wintermute_brain.Prelude.Paths.{PathBuf, display}
use wintermute_brain.Anthropic.Sse.{join_lines}
use wintermute_brain.Config.{
  Float64, Config, BrainError, Environment, IntroductionMode, PersonaConfig,
}
use wintermute_brain.Config.Files.{Disk, Toml, load_from_file}
use wintermute_brain.Profile.{PersonaProfile, ProfileIntroduction, register_str, bool_str}
use wintermute_brain.Prelude.{
  ◌++◌, Bool, true, false, ◌&&◌, List, [], ◌∷◌, Option, none, some, Text, codes, text_eq, length,
  ◌==◌, Result, ok, err,
}

unfoldable pub terms_eq : List Text → List Text → Bool
terms_eq [] [] = true
terms_eq [] (t ∷ ts) = false
terms_eq (s ∷ ss) [] = false
terms_eq (s ∷ ss) (t ∷ ts) = text_eq s t && terms_eq ss ts

unfoldable pub bool_eq : Bool → Bool → Bool
bool_eq true b = b
bool_eq false true = false
bool_eq false false = true

unfoldable pub live_intro_str : IntroductionMode → Text
live_intro_str IntroductionMode.off = codes "Off"
live_intro_str (IntroductionMode.first_ever_boot secs) =
    codes "FirstEverBoot(" ++ show secs ++ codes "s)"
live_intro_str (IntroductionMode.explicit secs) = codes "Explicit(" ++ show secs ++ codes "s)"

unfoldable pub profile_intro_str : ProfileIntroduction → Text
profile_intro_str ProfileIntroduction.off = codes "Off"
profile_intro_str (ProfileIntroduction.first_ever_boot secs) =
    codes "FirstEverBoot(" ++ show secs ++ codes "s)"

-- `format!("{key}: {live} → {profile}")`, pushed when the two differ.
unfoldable pub changed : Bool → (key live profile : Text) → List Text → List Text
changed true key live profile rest = rest
changed false key live profile rest = (key ++ codes ": " ++ live ++ codes " → " ++ profile) ∷ rest

abbrev count : List Text → Text
count terms = show (length terms) ++ codes " terms"

unfoldable pub diffs : (Text → Text) → PersonaProfile → PersonaConfig → List Text
diffs debug p live =
    changed (text_eq (register_str p.register) (register_str live.register)) (codes "register")
      (debug (register_str live.register)) (debug (register_str p.register))
      (changed (text_eq p.self_name live.self_name) (codes "self_name") (debug live.self_name)
        (debug p.self_name)
        (changed (text_eq p.wake_word live.wake_word) (codes "wake_word") (debug live.wake_word)
          (debug p.wake_word)
          (changed (p.max_sentences == live.max_sentences) (codes "max_sentences")
            (show live.max_sentences) (show p.max_sentences)
            (changed (bool_eq p.addresses_user live.addresses_user) (codes "addresses_user")
              (bool_str live.addresses_user) (bool_str p.addresses_user)
              (changed (terms_eq p.forbidden_terms live.forbidden_terms) (codes "forbidden_terms")
                (count live.forbidden_terms) (count p.forbidden_terms)
                (changed
                  (text_eq (live_intro_str live.introduction) (profile_intro_str p.introduction))
                  (codes "introduction") (live_intro_str live.introduction)
                  (profile_intro_str p.introduction) []))))))

unfoldable pub report : List Text → Option Text
report [] = none
report (d ∷ ds) = some (join_lines (d ∷ ds))

-- The error's context, the text of the error behind it.
pub record Failed : Type 0 where
  pub context : Text
  pub source : BrainError

module _ (f : Float64) (toml : Toml (Config f)) (debug : Text → Text) where
  unfoldable pub diff_loaded :
      PersonaProfile → PathBuf → Result BrainError (Config f) → Result Failed (Option Text)
  unfolding report
  diff_loaded p path (ok cfg) = ok (report (diffs debug p cfg.persona))
  diff_loaded p path (err e) =
      err (record { context = codes "load config " ++ display path; source = e })

  unfoldable pub diff_profile_vs_config :
      Environment → Option Text → PersonaProfile → PathBuf → Disk → Result Failed (Option Text)
  diff_profile_vs_config env failure p path d =
      diff_loaded p path (load_from_file f toml env failure path d)
