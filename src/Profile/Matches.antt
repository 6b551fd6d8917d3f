-- ===== src/Profile/Matches.antt =====
-- When `diff_profile_vs_config` of src/profile.rs reports nothing.
use mathlib.Core.Bool.{false≢true}
use wintermute_brain.Prelude.Decimal.{show, show-IsDigit, show-injective, IsDigit}
use wintermute_brain.Prelude.Paths.{PathBuf}
use wintermute_brain.Config.{
  Float64, Config, Environment, BrainError, Register, warm_elder, plain, brisk, IntroductionMode,
  PersonaConfig,
}
use wintermute_brain.Config.Files.{Disk, Toml, load_from_file}
use wintermute_brain.Profile.{PersonaProfile, ProfileIntroduction, register_str}
use wintermute_brain.Profile.Diff.{
  terms_eq, bool_eq, live_intro_str, profile_intro_str, changed, diffs, report, diff_loaded,
  diff_profile_vs_config,
}
use wintermute_brain.Prelude.{
  ◌≡◌, refl, sym, ap, subst, ◌↔◌, ℕ, ◌<◌, Bool, true, false, List, [], ◌∷◌, ◌++◌, Option, none,
  Text, codes, text_eq, text_eq_iff, ◌==◌, Result, ok, err, arith, All,
}

register_str-injective : (a b : Register) → text_eq (register_str a) (register_str b) ≡ true → a ≡ b
unfolding text_eq
register_str-injective warm_elder warm_elder e = refl
register_str-injective warm_elder plain e = absurd (false≢true e)
register_str-injective warm_elder brisk e = absurd (false≢true e)
register_str-injective plain warm_elder e = absurd (false≢true e)
register_str-injective plain plain e = refl
register_str-injective plain brisk e = absurd (false≢true e)
register_str-injective brisk warm_elder e = absurd (false≢true e)
register_str-injective brisk plain e = absurd (false≢true e)
register_str-injective brisk brisk e = refl

terms_eq_iff : (ss ts : List Text) → (terms_eq ss ts ≡ true) ↔ (ss ≡ ts)
unfolding terms_eq
terms_eq_iff [] [] = ground arith
terms_eq_iff [] (t ∷ ts) = ground arith
terms_eq_iff (s ∷ ss) [] = ground arith
terms_eq_iff (s ∷ ss) (t ∷ ts) = ground (arith, text_eq_iff s t, terms_eq_iff ss ts)

bool_eq_iff : (a b : Bool) → (bool_eq a b ≡ true) ↔ (a ≡ b)
unfolding bool_eq
bool_eq_iff true true = ground arith
bool_eq_iff true false = ground arith
bool_eq_iff false true = ground arith
bool_eq_iff false false = ground arith

-- Two runs of digits before the same letter are the same run.
digits_before_letter :
    (s t r q : Text) (c : ℕ)
    → All IsDigit s
    → All IsDigit t
    → 57 < c
    → s ++ c ∷ r ≡ t ++ c ∷ q
    → s ≡ t
digits_before_letter [] [] r q c hs ht lt e = refl
digits_before_letter [] (y ∷ t) r q c hs ht lt e = absurd (ground arith)
digits_before_letter (x ∷ s) [] r q c hs ht lt e = absurd (ground arith)
digits_before_letter (x ∷ s) (y ∷ t) r q c hs ht lt e =
    ground (arith, digits_before_letter s t r q c hs.1 ht.1 lt)

-- The mode of the configuration that a profile's introduction stands for.
abbrev pub mode_of : ProfileIntroduction → IntroductionMode
mode_of ProfileIntroduction.off = IntroductionMode.off
mode_of (ProfileIntroduction.first_ever_boot secs) = IntroductionMode.first_ever_boot secs

seconds-injective : (m n : ℕ) → show m ++ codes "s)" ≡ show n ++ codes "s)" → m ≡ n
seconds-injective m n e = show-injective m n (
    digits_before_letter (show m) (show n) _ _ 115 (show-IsDigit m) (show-IsDigit n) (omega arith)
      e)

intro_str_iff :
    (live : IntroductionMode) (p : ProfileIntroduction)
    → (text_eq (live_intro_str live) (profile_intro_str p) ≡ true) ↔ (mode_of p ≡ live)
unfolding live_intro_str profile_intro_str text_eq
intro_str_iff IntroductionMode.off ProfileIntroduction.off = ((λ e. refl), (λ e. refl))
intro_str_iff IntroductionMode.off (ProfileIntroduction.first_ever_boot n) =
    ((λ e. absurd (false≢true e)), (λ e. absurd (ground arith)))
intro_str_iff (IntroductionMode.first_ever_boot m) ProfileIntroduction.off =
    ((λ e. absurd (false≢true e)), (λ e. absurd (ground arith)))
intro_str_iff (IntroductionMode.explicit m) ProfileIntroduction.off =
    ((λ e. absurd (false≢true e)), (λ e. absurd (ground arith)))
intro_str_iff (IntroductionMode.first_ever_boot m) (ProfileIntroduction.first_ever_boot n) = (
  (λ e. ap IntroductionMode.first_ever_boot (sym (seconds-injective m n ((text_eq_iff _ _).0 e)))),
  (λ e.
      let same : n ≡ m = ground arith in
      (text_eq_iff (show m ++ codes "s)") (show n ++ codes "s)")).1
        (ap (λ k. show k ++ codes "s)") (sym same))),
)
intro_str_iff (IntroductionMode.explicit m) (ProfileIntroduction.first_ever_boot n) =
    ((λ e. absurd (false≢true e)), (λ e. absurd (ground arith)))

changed-nil :
    (same : Bool) (key live profile : Text) (rest : List Text)
    → (changed same key live profile rest ≡ []) ↔ ((same ≡ true) × (rest ≡ []))
unfolding changed
changed-nil true key live profile rest = ground arith
changed-nil false key live profile rest = ground arith

report-none : (ds : List Text) → (report ds ≡ none) ↔ (ds ≡ [])
unfolding report
report-none [] = ground arith
report-none (d ∷ ds) = ground arith

-- What the profile and the section of a configuration have in common.
pub record Agrees (p : PersonaProfile) (live : PersonaConfig) : Type 0 where
  pub register : p.register ≡ live.register
  pub self_name : p.self_name ≡ live.self_name
  pub wake_word : p.wake_word ≡ live.wake_word
  pub max_sentences : p.max_sentences ≡ live.max_sentences
  pub addresses_user : p.addresses_user ≡ live.addresses_user
  pub forbidden_terms : p.forbidden_terms ≡ live.forbidden_terms
  pub introduction : mode_of p.introduction ≡ live.introduction

eq_iff : (m n : ℕ) → ((m == n) ≡ true) ↔ (m ≡ n)
eq_iff m n = ground arith

same_text : {s t : Text} → s ≡ t → text_eq s t ≡ true
same_text {s} {t} = (text_eq_iff s t).1

diffs-Agrees :
    (debug : Text → Text) (p : PersonaProfile) (live : PersonaConfig)
    → diffs debug p live ≡ []
    → Agrees p live
unfolding diffs
diffs-Agrees debug p live e =
    let (r, e1) = (changed-nil _ _ _ _ _).0 e in
    let (n, e2) = (changed-nil _ _ _ _ _).0 e1 in
    let (w, e3) = (changed-nil _ _ _ _ _).0 e2 in
    let (m, e4) = (changed-nil _ _ _ _ _).0 e3 in
    let (a, e5) = (changed-nil _ _ _ _ _).0 e4 in
    let (t, e6) = (changed-nil _ _ _ _ _).0 e5 in
    let (i, e7) = (changed-nil _ _ _ _ _).0 e6 in
    record {
      register = register_str-injective _ _ r;
      self_name = (text_eq_iff _ _).0 n;
      wake_word = (text_eq_iff _ _).0 w;
      max_sentences = (eq_iff _ _).0 m;
      addresses_user = (bool_eq_iff _ _).0 a;
      forbidden_terms = (terms_eq_iff _ _).0 t;
      introduction = (intro_str_iff _ _).0 i;
    }

Agrees-diffs :
    (debug : Text → Text) (p : PersonaProfile) (live : PersonaConfig)
    → Agrees p live
    → diffs debug p live ≡ []
unfolding diffs
Agrees-diffs debug p live a = (changed-nil _ _ _ _ _).1 (
  same_text (ap register_str a.register),
  (changed-nil _ _ _ _ _).1 (
    same_text a.self_name,
    (changed-nil _ _ _ _ _).1 (
      same_text a.wake_word,
      (changed-nil _ _ _ _ _).1 (
        (eq_iff _ _).1 a.max_sentences,
        (changed-nil _ _ _ _ _).1 (
          (bool_eq_iff _ _).1 a.addresses_user,
          (changed-nil _ _ _ _ _).1 (
            (terms_eq_iff _ _).1 a.forbidden_terms,
            (changed-nil _ _ _ _ _).1 ((intro_str_iff _ _).1 a.introduction, refl),
          ),
        ),
      ),
    ),
  ),
)

loaded-Agrees :
    (f : Float64) (toml : Toml (Config f)) (debug : Text → Text) (p : PersonaProfile)
    → (path : PathBuf) (r : Result BrainError (Config f))
    → (diff_loaded f toml debug p path r ≡ ok none)
      ↔ ((cfg : Config f) × (r ≡ ok cfg) × Agrees p cfg.persona)
unfolding diff_loaded
loaded-Agrees f toml debug p path (ok cfg) = (
  (λ e.
      let quiet : report (diffs debug p cfg.persona) ≡ none = ground arith in
      (cfg, refl, diffs-Agrees debug p cfg.persona ((report-none _).0 quiet))),
  (λ (c, same, a).
      let to : c ≡ cfg = ground arith in
      ap ok (
        (report-none _).1
          (Agrees-diffs debug p cfg.persona (subst (λ x. Agrees p x.persona) to a)))),
)
loaded-Agrees f toml debug p path (err e) =
    ((λ h. absurd (ground arith)), (λ (c, h, a). absurd (ground arith)))

-- For every profile and file: the diff reports no difference exactly when the file loads and its
-- persona has the profile's register, names, limit of sentences, address, forbidden terms in their
-- order, and introduction; a configuration whose introduction is explicit never agrees.
pub diff_profile_vs_config-Agrees :
    (f : Float64) (toml : Toml (Config f)) (debug : Text → Text) (env : Environment)
    → (failure : Option Text) (p : PersonaProfile) (path : PathBuf) (d : Disk)
    → (diff_profile_vs_config f toml debug env failure p path d ≡ ok none) ↔ (
        (cfg : Config f) × (load_from_file f toml env failure path d ≡ ok cfg)
        × Agrees p cfg.persona)
unfolding diff_profile_vs_config
diff_profile_vs_config-Agrees f toml debug env failure p path d =
    loaded-Agrees f toml debug p path (load_from_file f toml env failure path d)
