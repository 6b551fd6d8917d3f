-- ===== src/Strain.antt =====
-- src/floor.rs: the forbidden terms of the base strain as a floor under those of a persona. A `HashSet` of terms is a list with a test.
pub mod Union
pub mod Load
pub mod Lint
mod Tests
use wintermute_brain.Prelude.{
  Bool, true, false, not, ◌||◌, List, [], ◌∷◌, ◌++◌, Text, codes, text_eq, if◌then◌else◌,
}

pub record BaseFloor : Type 0 where
  pub forbidden_terms : List Text
  pub strain_hash : Text

pub record FloorViolation : Type 0 where
  pub rule : Text

pub record FlooredPolicy : Type 0 where
  pub effective_forbidden_terms : List Text
  pub strain_hash : Text
  pub violations : List FloorViolation

-- `HashSet::contains`.
unfoldable pub has : List Text → Text → Bool
has [] t = false
has (x ∷ xs) t = text_eq x t || has xs t

-- The rule of a dropped term; `debug` is the rendering `{term:?}` of the standard library.
abbrev pub violation : (Text → Text) → Text → FloorViolation
violation debug term = record { rule = codes "persona omits base-forbidden term " ++ debug term }

unfoldable pub dropped : (Text → Text) → List Text → List Text → List FloorViolation
dropped debug persona [] = []
dropped debug persona (t ∷ ts) =
    let rest = dropped debug persona ts in
    if not (has persona t) then violation debug t ∷ rest else rest

unfoldable pub check_floor_violations : (Text → Text) → BaseFloor → List Text → List FloorViolation
unfolding dropped
check_floor_violations debug base persona = dropped debug persona base.forbidden_terms

-- The loop over base and persona terms with its set of the terms that it has seen.
unfoldable pub keep_new : List Text → List Text → List Text
keep_new seen [] = []
keep_new seen (t ∷ ts) =
    let again = keep_new seen ts in
    let new = t ∷ keep_new (t ∷ seen) ts in if has seen t then again else new

unfoldable pub effective_forbidden_terms : BaseFloor → List Text → List Text
effective_forbidden_terms base persona = keep_new [] (base.forbidden_terms ++ persona)

unfoldable pub apply_floor : (Text → Text) → BaseFloor → List Text → FlooredPolicy
apply_floor debug base persona = record {
  effective_forbidden_terms = effective_forbidden_terms base persona;
  strain_hash = base.strain_hash;
  violations = check_floor_violations debug base persona;
}

-- `violations.is_empty()`.
unfoldable pub passes : List FloorViolation → Bool
passes [] = true
passes (v ∷ vs) = false
