-- ===== src/Profile/Tests.antt =====
-- The diff and the lint on concrete profiles.
use wintermute_brain.Prelude.{
  ◌≡◌, refl, true, [], ◌∷◌, none, some, Text, codes, text_eq, Result, ok,
}
use wintermute_brain.Prelude.Utf8.{from_utf8, from_utf8_held, utf8_of}
use wintermute_brain.Config.{default_persona_config, default_config}
use wintermute_brain.Config.Files.{load_from_file}
use wintermute_brain.Config.Tests.{
  whole_numbers, bare_environment, first_config, named_toml, config_path, no_files,
}
use wintermute_brain.Config.Cli.{success}
use wintermute_brain.Profile.{make_default, make_jocelyn, builtin, find_named}
use wintermute_brain.Profile.Diff.{diff_profile_vs_config}
use wintermute_brain.Profile.Matches.{diff_profile_vs_config-Agrees}
use wintermute_brain.Strain.{has}
use wintermute_brain.Strain.Load.{
  StrainValues, ProcessOutput, IoError, load_base_floor, parse_strain_json, parse_text, floor_of,
  terms_of, strings, whole_text, run_persona_lint,
}
use wintermute_brain.Strain.Lint.{run_persona_lint-success}

abbrev plain : Text → Text
plain t = t

first_config-loads :
    load_from_file whole_numbers named_toml bare_environment none config_path no_files
    ≡ ok first_config
unfolding load_from_file
first_config-loads = refl

-- A file that is missing has the default persona, which is the one of the profile `default`.
diff_profile_vs_config-Agrees_example :
    diff_profile_vs_config whole_numbers named_toml plain bare_environment none make_default
      config_path no_files
    ≡ ok none
unfolding default_config default_persona_config
diff_profile_vs_config-Agrees_example =
    (diff_profile_vs_config-Agrees whole_numbers named_toml plain bare_environment none make_default
        config_path no_files).1
      (
        first_config,
        first_config-loads,
        record {
          register = refl;
          self_name = refl;
          wake_word = refl;
          max_sentences = refl;
          addresses_user = refl;
          forbidden_terms = refl;
          introduction = refl;
        },
      )

-- The text of the output is the one term of the floor.
abbrev one_term : StrainValues
one_term = record {
  Json = Text;
  from_str = λ s. some s;
  get = λ key j. none;
  pointer = λ path j. some j;
  as_str = λ j. some j;
  as_array = λ j. some (j ∷ []);
}

abbrev printed : Result IoError ProcessOutput
printed = ok (record { status_success = true; stdout = codes "robot" })

robot_floor-loads :
    load_base_floor one_term printed
    ≡ ok (record { forbidden_terms = codes "robot" ∷ []; strain_hash = [] })
unfolding load_base_floor parse_strain_json parse_text floor_of terms_of strings whole_text
    from_utf8 from_utf8_held utf8_of
robot_floor-loads = refl

jocelyn-builtin : builtin (codes "Jocelyn") ≡ some make_jocelyn
unfolding builtin find_named text_eq
jocelyn-builtin = refl

run_persona_lint-success_example :
    run_persona_lint one_term plain printed (codes "Jocelyn") ≡ success
unfolding has text_eq
run_persona_lint-success_example =
    (run_persona_lint-success one_term plain printed (codes "Jocelyn")).1 (
      make_jocelyn,
      jocelyn-builtin,
      (
        record { forbidden_terms = codes "robot" ∷ []; strain_hash = [] },
        robot_floor-loads,
        (refl, tt),
      ),
    )
