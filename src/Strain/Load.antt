-- ===== src/Strain/Load.antt =====
-- src/floor.rs: the loading of the base strain, and `wmd persona lint` of src/main.rs. The run of
-- `inoculate`, its errors and `serde_json` are parameters.
use wintermute_brain.Prelude.Utf8.{from_utf8}
use wintermute_brain.Profile.{PersonaProfile, builtin}
use wintermute_brain.Config.Cli.{ExitCode, success, failure}
use wintermute_brain.Strain.{BaseFloor, apply_floor, passes}
use wintermute_brain.Prelude.{
  ℕ, Bool, List, [], ◌∷◌, Option, none, some, Text, codes, Result, ok, err, if◌then◌else◌,
}

-- What is read of `serde_json::Value`.
pub record StrainValues : Type 1 where
  pub Json : Type 0
  pub from_str : Text → Option Json
  pub get : Text → Json → Option Json
  pub pointer : Text → Json → Option Json
  pub as_str : Json → Option Text
  pub as_array : Json → Option (List Json)

-- `std::process::Output`: whether the exit status is a success, and what was printed.
pub record ProcessOutput : Type 0 where
  pub status_success : Bool
  pub stdout : List ℕ

-- `std::io::Error`, which tells whether its kind is `NotFound`.
pub data IoError : Type 0 where
  not_found : IoError
  unexpected : Text → IoError

unfoldable pub default_floor : BaseFloor
default_floor = record { forbidden_terms = []; strain_hash = [] }

-- `std::str::from_utf8` of all the bytes.
unfoldable pub whole_text : Text × List ℕ → Option Text
whole_text (s, []) = some s
whole_text (s, b ∷ bytes) = none

abbrev and_then : {A B : Type 0} → Option A → (A → Option B) → Option B
and_then none f = none
and_then (some a) f = f a

abbrev or_else : {A : Type 0} → A → Option A → A
or_else d none = d
or_else d (some a) = a

abbrev keep_some : {A : Type 0} → Option A → List A → List A
keep_some none rest = rest
keep_some (some a) rest = a ∷ rest

unfoldable pub lint_profile : (Text → Text) → Result IoError BaseFloor → PersonaProfile → ExitCode
lint_profile debug (err e) profile = failure
lint_profile debug (ok base) profile =
    if passes (apply_floor debug base profile.forbidden_terms).violations then success else failure

module _ (v : StrainValues) where
  open v use {Json, from_str, get, pointer, as_str, as_array}

  unfoldable pub strings : List Json → List Text
  strings [] = []
  strings (j ∷ js) = keep_some (as_str j) (strings js)

  unfoldable pub terms_of : Option (List Json) → List Text
  unfolding strings
  terms_of none = []
  terms_of (some js) = strings js

  unfoldable pub floor_of : Json → BaseFloor
  floor_of j = record {
    forbidden_terms =
        terms_of (and_then (pointer (codes "/boundaries/forbidden_terms") j) as_array);
    strain_hash = or_else [] (and_then (get (codes "strain_hash") j) as_str);
  }

  unfoldable pub parse_text : Option Text → BaseFloor
  parse_text none = default_floor
  parse_text (some s) = elim (from_str s) [ none ↦ default_floor | some j ↦ floor_of j ]

  unfoldable pub parse_strain_json : List ℕ → BaseFloor
  parse_strain_json bytes = parse_text (whole_text (from_utf8 bytes))

  unfoldable pub load_base_floor : Result IoError ProcessOutput → Result IoError BaseFloor
  load_base_floor (ok output) =
      if output.status_success then ok (parse_strain_json output.stdout) else ok default_floor
  load_base_floor (err not_found) = ok default_floor
  load_base_floor (err (unexpected e)) = err (unexpected e)

  unfoldable pub lint_found :
      (Text → Text) → Result IoError ProcessOutput → Option PersonaProfile → ExitCode
  lint_found debug ran none = failure
  lint_found debug ran (some profile) = lint_profile debug (load_base_floor ran) profile

  unfoldable pub run_persona_lint : (Text → Text) → Result IoError ProcessOutput → Text → ExitCode
  run_persona_lint debug ran profile_name = lint_found debug ran (builtin profile_name)
