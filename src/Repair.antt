-- ===== src/Repair.antt =====
-- src/repair.rs: the classifier of requests to say the last reply again. A `BTreeSet` of phrases is a
-- list with a test.
pub mod Phrases
mod Tests
use wintermute_brain.Prelude.Unicode.{to_ascii_lowercase, split_whitespace, trim, filter_text}
use wintermute_brain.Prelude.{
  ℕ, Bool, true, false, not, ◌||◌, List, [], ◌∷◌, map, Text, codes, text_eq, length, ltb, ◌==◌,
  if◌then◌else◌,
}

abbrev pub repair_word_limit : ℕ
repair_word_limit = 5

abbrev pub default_repeat_texts : List Text
default_repeat_texts =
    codes "say that again"
    ∷ codes "what did you say"
    ∷ codes "what did you just say"
    ∷ codes "come again"
    ∷ codes "pardon"
    ∷ codes "say it again"
    ∷ codes "repeat that"
    ∷ codes "can you repeat that"
    ∷ codes "sorry what"
    ∷ codes "what was that"
    ∷ codes "i didnt catch that"
    ∷ codes "i didn't catch that"
    ∷ []

abbrev pub default_louder_texts : List Text
default_louder_texts =
    codes "louder"
    ∷ codes "speak up"
    ∷ codes "say that louder"
    ∷ codes "say that again louder"
    ∷ codes "say it louder"
    ∷ codes "speak louder"
    ∷ codes "louder please"
    ∷ codes "can you speak up"
    ∷ codes "a bit louder"
    ∷ codes "a little louder"
    ∷ []

pub data Repair : Type 0 where
  repeat_last repeat_louder no_repair : Repair

-- The marks that `normalize` drops: . , ! ? ; : " ' - ( ) [ ] { }
unfoldable pub is_mark : ℕ → Bool
is_mark c =
    c == b'.'
    || c == b','
    || c == b'!'
    || c == b'?'
    || c == b';'
    || c == b':'
    || c == 34
    || c == 39
    || c == b'-'
    || c == b'('
    || c == b')'
    || c == b'['
    || c == b']'
    || c == b'{'
    || c == b'}'

unfoldable pub normalize : Text → Text
unfolding filter_text is_mark
normalize s = map to_ascii_lowercase (filter_text (λ c. not (is_mark c)) s)

unfoldable pub word_count : Text → ℕ
word_count s = length (split_whitespace s)

unfoldable pub in_set : List Text → Text → Bool
in_set [] t = false
in_set (x ∷ xs) t = text_eq x t || in_set xs t

unfoldable pub classify : Text → List Text → List Text → Repair
classify transcript repeat_phrases louder_phrases =
    let normalized = normalize (trim transcript) in
    if ltb repair_word_limit (word_count normalized)
    then no_repair
    else if in_set louder_phrases normalized
    then repeat_louder
    else if in_set repeat_phrases normalized
    then repeat_last
    else no_repair

-- `build_phrase_set`, and the two built-in sets.
abbrev pub build_phrase_set : List Text → List Text
build_phrase_set phrases = map normalize phrases

abbrev pub default_repeat_phrases : List Text
default_repeat_phrases = build_phrase_set default_repeat_texts

abbrev pub default_louder_phrases : List Text
default_louder_phrases = build_phrase_set default_louder_texts

-- `repair_phrase_sets` of src/daemon.rs, for one list of the configuration.
abbrev pub set_or_default : List Text → List Text → List Text
set_or_default defaults [] = defaults
set_or_default defaults (p ∷ phrases) = build_phrase_set (p ∷ phrases)

abbrev pub repair_phrase_sets : List Text → List Text → List Text × List Text
repair_phrase_sets repeat_phrases louder_phrases = (
  set_or_default default_repeat_phrases repeat_phrases,
  set_or_default default_louder_phrases louder_phrases,
)
