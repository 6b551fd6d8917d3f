-- ===== src/Router/Tests.antt =====
-- The router on concrete turns.
use wintermute_brain.Prelude.Unicode.{
  is_empty, trim, trim_start, trim_end, trim_end_cons, is_whitespace,
}
use wintermute_brain.Prelude.{
  ◌≡◌, ◌≢◌, ◌↔◌, refl, true, none, Text, codes, starts_with, contains, text_eq,
}
use wintermute_brain.Router.{
  TurnKind, classify_turn, lowered, is_ascii_punctuation, is_ascii_whitespace, trim_end_matches,
  strip_cons, split_ascii_whitespace, ascii_words_from, any_prefix, any_within, is_one_of, local,
  cloud, canned, auto, PolicyInputs, apply_routing_policy,
}
use wintermute_brain.Router.Policy.{CloudAllowed, apply_routing_policy-CloudAllowed}

abbrev said : Text
said = codes "Why is the sky blue"

abbrev inputs : PolicyInputs
inputs = record {
  transcript = said;
  pending_tier_override = none;
  api_key_present = true;
  online = true;
  prefer = auto;
  command_max_words = 6;
}

apply_routing_policy-CloudAllowed_example :
    (((apply_routing_policy inputs).tier ≡ cloud) ↔ CloudAllowed inputs)
    × ((apply_routing_policy inputs).tier ≢ cloud → (apply_routing_policy inputs).tier ≡ local)
    × ((apply_routing_policy inputs).tier ≢ canned)
apply_routing_policy-CloudAllowed_example = apply_routing_policy-CloudAllowed inputs

short_command : classify_turn (codes "Volume up!") 6 ≡ TurnKind.command
unfolding classify_turn lowered trim trim_start trim_end trim_end_cons is_whitespace
    trim_end_matches strip_cons is_ascii_punctuation split_ascii_whitespace ascii_words_from
    is_ascii_whitespace is_empty any_prefix is_one_of any_within starts_with contains text_eq
short_command = refl

short_question : classify_turn said 6 ≡ TurnKind.conversational
unfolding classify_turn lowered trim trim_start trim_end trim_end_cons is_whitespace
    trim_end_matches strip_cons is_ascii_punctuation split_ascii_whitespace ascii_words_from
    is_ascii_whitespace is_empty any_prefix is_one_of any_within starts_with contains text_eq
short_question = refl
