-- ===== src/Strain/Lint.antt =====
-- The verdict of `wmd persona lint` of src/main.rs on every outcome of the run of `inoculate`.
use mathlib.Core.Bool.{false≢true}
use wintermute_brain.Profile.{PersonaProfile, builtin}
use wintermute_brain.Config.Cli.{success, failure}
use wintermute_brain.Strain.{BaseFloor, has}
use wintermute_brain.Strain.Union.{apply_floor-union}
use wintermute_brain.Strain.Load.{
  StrainValues, ProcessOutput, IoError, load_base_floor, lint_profile, lint_found, run_persona_lint,
}
use wintermute_brain.Prelude.{
  ◌≡◌, refl, ◌↔◌, Bool, true, false, Option, none, some, Text, Result, ok, err, All, arith, subst,
  if◌then◌else◌,
}

-- Every term of the floor is one of the profile's.
abbrev pub Covers : PersonaProfile → BaseFloor → Type 0
Covers profile base = All (λ t. has profile.forbidden_terms t ≡ true) base.forbidden_terms

verdict-success : (b : Bool) → ((if b then success else failure) ≡ success) ↔ (b ≡ true)
verdict-success true = ((λ e. refl), (λ e. refl))
verdict-success false = ((λ e. absurd (ground arith)), (λ e. absurd (false≢true e)))

lint_profile-success :
    (debug : Text → Text) (r : Result IoError BaseFloor) (profile : PersonaProfile)
    → (lint_profile debug r profile ≡ success)
      ↔ ((base : BaseFloor) × (r ≡ ok base) × Covers profile base)
unfolding lint_profile
lint_profile-success debug (err e) profile =
    ((λ h. absurd (ground arith)), (λ (base, h, a). absurd (ground arith)))
lint_profile-success debug (ok base) profile =
    let covers = (apply_floor-union debug base profile.forbidden_terms).2 in
    (
      (λ h. (base, refl, covers.0 ((verdict-success _).0 h))),
      (λ (other, same, a).
          let to : other ≡ base = ground arith in
          (verdict-success _).1 (covers.1 (subst (Covers profile) to a))),
    )

module _ (v : StrainValues) (debug : Text → Text) where
  lint_found-success :
      (ran : Result IoError ProcessOutput) (p : Option PersonaProfile)
      → (lint_found v debug ran p ≡ success) ↔ (
          (profile : PersonaProfile) × (p ≡ some profile)
          × ((base : BaseFloor) × (load_base_floor v ran ≡ ok base) × Covers profile base))
  unfolding lint_found
  lint_found-success ran none = ((λ h. absurd (ground arith)), (λ (p, h, a). absurd (ground arith)))
  lint_found-success ran (some p) = (
    (λ h. (p, refl, (lint_profile-success debug (load_base_floor v ran) p).0 h)),
    (λ (q, same, (base, loads, a)).
        let to : q ≡ p = ground arith in
        (lint_profile-success debug (load_base_floor v ran) p).1
          (base, loads, subst (λ x. Covers x base) to a)),
  )

  -- For every outcome of the run of `inoculate`: the lint of a name succeeds exactly when the name is
  -- that of a built-in profile in any case of its letters, the floor loads, and the profile forbids
  -- every term of the floor.
  pub run_persona_lint-success :
      (ran : Result IoError ProcessOutput) (name : Text)
      → (run_persona_lint v debug ran name ≡ success) ↔ (
          (profile : PersonaProfile) × (builtin name ≡ some profile)
          × ((base : BaseFloor) × (load_base_floor v ran ≡ ok base) × Covers profile base))
  unfolding run_persona_lint
  run_persona_lint-success ran name = lint_found-success ran (builtin name)
