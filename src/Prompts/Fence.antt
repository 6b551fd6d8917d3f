-- ===== src/Prompts/Fence.antt =====
-- The fenced block of a model's answer.
use wintermute_brain.Gate.{DestructiveIntent}
use wintermute_brain.Prelude.Unicode.{trim, trim_start, trim_end, is_empty, is_whitespace}
use wintermute_brain.Prelude.{
  ◌≡◌, ◌⊎◌, inl, inr, refl, sym, ap, ◌∙◌, Bool, true, false, not, ◌&&◌, ◌||◌, [], ◌∷◌, ◌++◌,
  append_assoc, none, some, Option, Text, codes, starts_with, ◌==◌, arith, ℕ,
}
use wintermute_brain.Prompts.{
  rsplit, split_line, is_label, fence, fenced, unlabelled, complete, FromJson, text_field,
  intent_of, read_intent, parse_destructive_intent,
}

-- A character does not stand in a text.
abbrev pub absent : ℕ → Text → Bool
absent c [] = true
absent c (d ∷ s) = not (d == c) && absent c s

rsplit-miss :
    (c : ℕ) (s : Text)
    → rsplit fence s ≡ none
    → starts_with (c ∷ s) fence ≡ false
    → rsplit fence (c ∷ s) ≡ none
unfolding rsplit
rsplit-miss c s e miss = rw (e, miss) refl

rsplit-later :
    (c : ℕ) (s before after : Text)
    → rsplit fence s ≡ some (before, after)
    → rsplit fence (c ∷ s) ≡ some (c ∷ before, after)
unfolding rsplit
rsplit-later c s before after e = rw e refl

no_tick : (c : ℕ) (s : Text) → absent 96 (c ∷ s) ≡ true → (c == 96) ≡ false
no_tick c s h = ground arith

-- Where a text has no backtick, no fence starts there or at backticks before it that are too few.
starts_with-ticks :
    (s : Text)
    → absent 96 s ≡ true
    → (starts_with s fence ≡ false)
      × (starts_with (96 ∷ s) fence ≡ false)
      × (starts_with (96 ∷ 96 ∷ s) fence ≡ false)
unfolding starts_with
starts_with-ticks [] h = (refl, refl, refl)
starts_with-ticks (c ∷ s) h = let e = no_tick c s h in (rw e refl, rw e refl, rw e refl)

rsplit-absent : (s : Text) → absent 96 s ≡ true → rsplit fence s ≡ none
unfolding rsplit is_empty
rsplit-absent [] h = refl
rsplit-absent (c ∷ s) h =
    rsplit-miss c s (rsplit-absent s (ground arith)) (starts_with-ticks (c ∷ s) h).0

rsplit-here :
    (t : Text) → rsplit fence (96 ∷ 96 ∷ t) ≡ none → rsplit fence (96 ∷ 96 ∷ 96 ∷ t) ≡ some ([], t)
unfolding rsplit starts_with
rsplit-here t e = rw (e, rsplit) refl

rsplit-fence : (s t : Text) → absent 96 t ≡ true → rsplit fence (s ++ (fence ++ t)) ≡ some (s, t)
rsplit-fence [] t h =
    let (_, one, two) = starts_with-ticks t h in
    let none' = rsplit-miss 96 (96 ∷ t) (rsplit-miss 96 t (rsplit-absent t h) one) two in
    rsplit-here t none'
rsplit-fence (c ∷ s) t h = rsplit-later c (s ++ (fence ++ t)) s t (rsplit-fence s t h)

fenced_lem :
    (spoken inside behind : Text)
    → absent 96 inside ≡ true
    → absent 96 behind ≡ true
    → fenced (spoken ++ (fence ++ (inside ++ (fence ++ behind)))) ≡ some (spoken, inside)
unfolding fenced
fenced_lem spoken inside behind h k =
    let close : rsplit fence (spoken ++ (fence ++ (inside ++ (fence ++ behind))))
        ≡ some (spoken ++ (fence ++ inside), behind) =
      ap (rsplit fence) (
        ap (λ x. spoken ++ x) (sym (append_assoc fence inside (fence ++ behind)))
        ∙ sym (append_assoc spoken (fence ++ inside) (fence ++ behind)))
      ∙ rsplit-fence (spoken ++ (fence ++ inside)) behind k in
    rw (close, fenced) (rsplit-fence spoken inside h)

split_line_lem :
    (label rest : Text)
    → absent 10 label ≡ true
    → split_line (label ++ 10 ∷ rest) ≡ some (label, rest)
unfolding split_line
split_line_lem [] rest h = refl
split_line_lem (c ∷ label) rest h =
    let e = split_line_lem label rest (ground arith) in
    let other : (c == 10) ≡ false = ground arith in rw (e, other) refl

trim-newline : (s : Text) → trim (10 ∷ s) ≡ trim s
unfolding trim trim_start is_whitespace
trim-newline s = refl

unlabelled_lem :
    (label payload : Text)
    → (is_empty label ≡ true) ⊎ (is_label (trim label) ≡ true)
    → trim (unlabelled (label ++ 10 ∷ payload) (some (label, payload))) ≡ trim payload
unfolding unlabelled is_empty
unlabelled_lem [] payload named = trim-newline payload
unlabelled_lem (c ∷ label) payload (inl e) = absurd cc
unlabelled_lem (c ∷ label) payload (inr e) = rw e refl

parsed :
    {Json : Type 0} (from_json : FromJson Json) (spoken label payload text : Text)
    (i : DestructiveIntent Json)
    → fenced text ≡ some (spoken, label ++ 10 ∷ payload)
    → absent 10 label ≡ true
    → (is_empty label ≡ true) ⊎ (is_label (trim label) ≡ true)
    → read_intent from_json (trim payload) ≡ some i
    → (is_empty i.intent || is_empty i.summary || is_empty i.confirm_keyword) ≡ false
    → parse_destructive_intent from_json text ≡ some (i, trim_end spoken)
unfolding parse_destructive_intent complete
parsed from_json spoken label payload text i e one_line named read full =
    rw (e, split_line_lem label payload one_line, parse_destructive_intent)
      (rw (unlabelled_lem label payload named, read, full) refl)

-- The intent with these texts.
abbrev pub intent_with :
    {Json : Type 0}
    → (args : Option Json) → (intent summary confirm_keyword : Text) → DestructiveIntent Json
intent_with args intent summary confirm_keyword = record {
  intent = intent;
  summary = summary;
  confirm_keyword = confirm_keyword;
  args = args;
}

read_intent_lem :
    {Json : Type 0} (json : FromJson Json) (s : Text) (v : Json)
    (intent summary confirm_keyword : Text)
    → json.from_str s ≡ some v
    → text_field json (codes "intent") v ≡ some intent
    → text_field json (codes "summary") v ≡ some summary
    → text_field json (codes "confirm_keyword") v ≡ some confirm_keyword
    → read_intent json s
      ≡ some (intent_with (json.get (codes "args") v) intent summary confirm_keyword)
unfolding read_intent intent_of
read_intent_lem json s v intent summary confirm_keyword read i m k =
    rw (read, read_intent) (rw (i, m, k) refl)

-- An answer with a fenced block, whose opening line is blank or a label, where the JSON parser reads the
-- rest of the block as a value with the texts `intent`, `summary` and `confirm_keyword`, none of them
-- empty: it is the intent with these texts and with the value's `args`; what is spoken is the text before
-- the block without the white space at its end. The block and the text behind it, which is dropped, hold
-- no backtick; the text before it may.
pub parse_destructive_intent-fenced :
    {Json : Type 0} (from_json : FromJson Json) (spoken label payload behind : Text) (v : Json)
    (intent summary confirm_keyword : Text)
    → absent 96 (label ++ 10 ∷ payload) ≡ true
    → absent 96 behind ≡ true
    → absent 10 label ≡ true
    → (is_empty label ≡ true) ⊎ (is_label (trim label) ≡ true)
    → from_json.from_str (trim payload) ≡ some v
    → text_field from_json (codes "intent") v ≡ some intent
    → text_field from_json (codes "summary") v ≡ some summary
    → text_field from_json (codes "confirm_keyword") v ≡ some confirm_keyword
    → (is_empty intent || is_empty summary || is_empty confirm_keyword) ≡ false
    → parse_destructive_intent from_json
        (spoken ++ (fence ++ ((label ++ 10 ∷ payload) ++ (fence ++ behind))))
      ≡ some (
        intent_with (from_json.get (codes "args") v) intent summary confirm_keyword,
        trim_end spoken,
      )
parse_destructive_intent-fenced from_json spoken label payload behind v intent summary
      confirm_keyword h k one_line named read has_intent has_summary has_keyword full =
    parsed from_json spoken label payload _
      (intent_with (from_json.get (codes "args") v) intent summary confirm_keyword)
      (fenced_lem spoken (label ++ 10 ∷ payload) behind h k) one_line named
      (read_intent_lem from_json (trim payload) v intent summary confirm_keyword read has_intent
        has_summary has_keyword)
      full
