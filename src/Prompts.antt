-- ===== src/Prompts.antt =====
-- The requests of src/daemon.rs to the models (`compose_request` and the texts that it takes), and the
-- destructive intent in a model's answer (`parse_destructive_intent`).
pub mod Fence
mod Tests
use wintermute_brain.History.{Message, user}
use wintermute_brain.Tiers.{canonical_model}
use wintermute_brain.Ladder.{MessageRequest, blocks}
use wintermute_brain.Gate.{DestructiveIntent}
use wintermute_brain.Prelude.Decimal.{show}
use wintermute_brain.Prelude.Unicode.{is_ascii_alphabetic, is_ascii_digit, trim, trim_end, is_empty}
use wintermute_brain.Prelude.{
  ℕ, ◌+◌, Bool, true, not, ◌&&◌, ◌||◌, List, [], ◌∷◌, ◌++◌, Option, none, some, Text, codes,
  starts_with, length, drop, ◌==◌, if◌then◌else◌,
}

abbrev pub default_max_tokens : ℕ
default_max_tokens = 1024

-- A memory of recall, as far as the daemon reads it.
pub record QueryHit : Type 0 where
  pub id : Text
  pub subject : Text
  pub snippet : Text

-- A text that is there and not empty is one more block.
abbrev pub tail_block : Option Text → List Text
tail_block none = []
tail_block (some ctx) = if is_empty ctx then [] else ctx ∷ []

-- Of a block the ladder reads the text alone, so its cache mark is left out.
unfoldable pub compose_request :
    Text → Text → Option Text → Option Text → List Message → Text → MessageRequest
compose_request model stable_prefix recall_context recap_context history_msgs transcript = record {
  model = canonical_model model;
  max_tokens = default_max_tokens;
  system = some (blocks (stable_prefix ∷ (tail_block recall_context ++ tail_block recap_context)));
  messages = history_msgs ++ record { role = user; content = transcript } ∷ [];
  stream = true;
}

-- The two guards are texts of the program that the model is told; they are arguments here.
unfoldable pub compose_stable_prefix : (child_guard gate_guard base : Text) → Bool → Text
compose_stable_prefix child_guard gate_guard base child_lock =
    base ++ ((if child_lock then 10 ∷ 10 ∷ child_guard else []) ++ 10 ∷ 10 ∷ gate_guard)

-- The lines of the hits, each under its place in the list; an empty one is left out.
hit_lines : ℕ → List QueryHit → Text
hit_lines i [] = []
hit_lines i (hit ∷ hits) =
    let rest = hit_lines (i + 1) hits in
    let snippet = trim hit.snippet in
    if is_empty snippet then rest else (10 ∷ show (i + 1)) ++ (codes ". " ++ (snippet ++ rest))

unfoldable pub format_recall_context : List QueryHit → Option Text
unfolding hit_lines
format_recall_context [] = none
format_recall_context (hit ∷ hits) =
    some
      (codes "What you remember about the user (most relevant first):" ++ hit_lines 0 (hit ∷ hits))

-- `rfind` of a text: the text before its last occurrence and the text behind it.
unfoldable pub rsplit : Text → Text → Option (Text × Text)
rsplit p [] = if is_empty p then some ([], []) else none
rsplit p (c ∷ s) =
    let here : Option (Text × Text) =
      if starts_with (c ∷ s) p then some ([], drop (length p) (c ∷ s)) else none in
    elim (rsplit p s) [ some (before, after) ↦ some (c ∷ before, after) | none ↦ here ]

-- `split_once('\n')`.
unfoldable pub split_line : Text → Option (Text × Text)
split_line [] = none
split_line (c ∷ s) =
    let rest : Option (Text × Text) = elim (split_line s) [
      | none ↦ none
      | some (line, after) ↦ some (c ∷ line, after)
    ] in
    if c == 10 then some ([], s) else rest

unfoldable pub is_label : Text → Bool
is_label [] = true
is_label (c ∷ s) =
    (is_ascii_alphabetic c || is_ascii_digit c || c == b'-' || c == b'_') && is_label s

-- The payload of the fence without its language label.
unlabelled : Text → Option (Text × Text) → Text
unlabelled inside none = inside
unlabelled inside (some (label, rest)) =
    if not (is_empty label) && is_label (trim label) then rest else inside

abbrev pub fence : Text
fence = codes "```"

-- The texts before, inside and behind the last two fences.
unfoldable pub fenced : Text → Option (Text × Text)
fenced text = elim (rsplit fence text) [
  | none ↦ none
  | some (before_close, _) ↦ rsplit fence before_close
]

-- What is read of `serde_json::Value`.
pub record FromJson (Json : Type 0) : Type 0 where
  pub from_str : Text → Option Json
  pub get : Text → Json → Option Json
  pub as_str : Json → Option Text

-- `v.get(key)?.as_str()?`.
unfoldable pub text_field : {Json : Type 0} → FromJson Json → Text → Json → Option Text
text_field json key v = elim (json.get key v) [ none ↦ none | some field ↦ json.as_str field ]

-- The fields of an intent, in the order in which they are read.
intent_of :
    {Json : Type 0}
    → (args : Option Json) → (intent summary confirm_keyword : Option Text)
    → Option (DestructiveIntent Json)
intent_of args (some intent) (some summary) (some confirm_keyword) =
    some (record {
      intent = intent;
      summary = summary;
      confirm_keyword = confirm_keyword;
      args = args;
    })
intent_of args _ _ _ = none

unfoldable pub read_intent :
    {Json : Type 0} → FromJson Json → Text → Option (DestructiveIntent Json)
unfolding intent_of
read_intent json s = elim (json.from_str s) [
  | none ↦ none
  | some v ↦
      intent_of (json.get (codes "args") v) (text_field json (codes "intent") v)
        (text_field json (codes "summary") v) (text_field json (codes "confirm_keyword") v)
]

complete :
    {Json : Type 0}
    → Text
    → Option (DestructiveIntent Json)
    → Option (DestructiveIntent Json × Text)
complete spoken none = none
complete spoken (some i) =
    if is_empty i.intent || is_empty i.summary || is_empty i.confirm_keyword
    then none
    else some (i, trim_end spoken)

unfoldable pub parse_destructive_intent :
    {Json : Type 0} → FromJson Json → Text → Option (DestructiveIntent Json × Text)
unfolding complete unlabelled fenced
parse_destructive_intent from_json text = elim (fenced text) [
  | none ↦ none
  | some (spoken, inside) ↦
      complete spoken (read_intent from_json (trim (unlabelled inside (split_line inside))))
]
