-- ===== src/Repair/Tests.antt =====
-- The classifier on concrete utterances.

use wintermute_brain.Prelude.Unicode.{
  trim, trim_start, trim_end, trim_end_cons, is_whitespace, filter_text, split_whitespace, is_empty,
}
use wintermute_brain.Prelude.{◌≡◌, refl, List, [], ◌∷◌, Text, codes, text_eq}
use wintermute_brain.Repair.{
  no_repair, normalize, word_count, in_set, classify, default_repeat_phrases,
  default_louder_phrases,
}

abbrev repeats : List Text
repeats = codes "Pardon me?" ∷ []

abbrev louders : List Text
louders = codes "Speak up!" ∷ []

abbrev said : Text
said = codes "Speak up!"

-- The white space in front of a mark is kept, so this utterance is no request.
mark_apart : classify (codes "pardon ?") default_repeat_phrases default_louder_phrases ≡ no_repair
unfolding classify in_set text_eq trim trim_start trim_end trim_end_cons is_whitespace normalize
    filter_text word_count split_whitespace is_empty
mark_apart = refl
