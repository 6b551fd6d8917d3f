-- ===== src/Prompts/Tests.antt =====
-- A destructive answer.
use wintermute_brain.Prelude.Unicode.{trim, trim_start, trim_end, is_empty, is_whitespace}
use wintermute_brain.Prelude.{
  ℕ, ◌≡◌, refl, inr, true, ◌∷◌, ◌++◌, none, some, codes, text_eq, ◌==◌, if◌then◌else◌,
}
use wintermute_brain.Prompts.{FromJson, text_field, fence, is_label, parse_destructive_intent}
use wintermute_brain.Prompts.Fence.{intent_with, parse_destructive_intent-fenced}

-- A value is a number: 0 for the object, and 1, 2, 3 for its texts.
abbrev from_json : FromJson ℕ
from_json = record {
  from_str = λ s. if text_eq s (codes "{}") then some 0 else none;
  get = λ key v.
      if text_eq key (codes "intent")
      then some 1
      else if text_eq key (codes "summary")
      then some 2
      else if text_eq key (codes "confirm_keyword")
      then some 3
      else none;
  as_str = λ v.
      if v == 1
      then some (codes "disk.wipe")
      else if v == 2
      then some (codes "Wipe the disk?")
      else if v == 3
      then some (codes "wipe")
      else none;
}

json-is_label : is_label (trim (codes "json")) ≡ true
unfolding is_label trim trim_start trim_end is_whitespace
json-is_label = refl

read_wipe : from_json.from_str (trim (codes "{}")) ≡ some 0
unfolding trim trim_start trim_end is_whitespace text_eq
read_wipe = refl

parse_destructive_intent-fenced_example :
    parse_destructive_intent from_json
      (codes "Sure. " ++ (fence ++ ((codes "json" ++ 10 ∷ codes "{}") ++ (fence ++ codes " Bye."))))
    ≡ some (
      intent_with none (codes "disk.wipe") (codes "Wipe the disk?") (codes "wipe"),
      trim_end (codes "Sure. "),
    )
unfolding is_empty text_field text_eq
parse_destructive_intent-fenced_example =
    parse_destructive_intent-fenced from_json (codes "Sure. ") (codes "json") (codes "{}")
      (codes " Bye.") 0 (codes "disk.wipe") (codes "Wipe the disk?") (codes "wipe") refl refl refl
      (inr json-is_label) read_wipe refl refl refl refl
