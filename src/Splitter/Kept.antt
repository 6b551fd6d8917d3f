-- ===== src/Splitter/Kept.antt =====
-- What the splitter says against what it was given: only white space is dropped.
use mathlib.Core.List.{flatten, reverse, reverse-cons}
use wintermute_brain.Prelude.Unicode.{Unicode, is_whitespace, trim, trim_start, is_empty}
use wintermute_brain.Prelude.{
  ℕ, zero, suc, ◌<◌, ◌≡◌, refl, sym, ap, subst, ◌∙◌, inl, inr, Bool, false, List, [], ◌∷◌, ◌++◌,
  append_assoc, append-nil, none, some, Text, length, arith, Bool-cases, Option-cases, All-append,
  if◌then◌else◌,
}
use wintermute_brain.Splitter.{
  push, new, flush, find_sentence_end, push_sentence, drain_sentences, scan, may_end, skips,
  at_boundary, Cut,
}
use wintermute_brain.Splitter.Trim.{White, trim-splits, trim_start-splits, trim-trim}
use wintermute_brain.Splitter.Scan.{none≢some, some_pair, NoWhiteLetters}
use wintermute_brain.Splitter.Drain.{rest-shorter, drain_sentences-none, drain_sentences-some}
use wintermute_brain.Splitter.Chunks.{stream, stream-flatten, last_sentence}

at_boundary-splits :
    (before s sentence after : Text) (c : ℕ) (rest : Cut)
    → (rest ≡ some (sentence, after) → reverse (c ∷ before) ++ s ≡ sentence ++ after)
    → at_boundary before c s rest ≡ some (sentence, after)
    → reverse (c ∷ before) ++ s ≡ sentence ++ after
unfolding at_boundary
at_boundary-splits before [] sentence after c rest on e = absurd (none≢some e)
at_boundary-splits before (d ∷ s) sentence after c rest on e = elim (Bool-cases (is_whitespace d)) [
  | inl white ↦
      let parts : some (reverse (c ∷ before), d ∷ s) ≡ some (sentence, after) = rw white at e in
      let eqs : (reverse (c ∷ before) ≡ sentence) × (d ∷ s ≡ after) = some_pair parts in
      rw (eqs.0, eqs.1) refl
  | inr other ↦ on (rw other at e)
]

-- A sentence and what is left are the scanned text, cut in two.
scan-splits :
    (u : Unicode) (s : Text) (skipping : Bool) (before sentence after : Text)
    → scan u skipping before s ≡ some (sentence, after)
    → reverse before ++ s ≡ sentence ++ after
unfolding scan
scan-splits u [] skipping before sentence after e = absurd (none≢some e)
scan-splits u (c ∷ s) skipping before sentence after e =
    let moved : reverse (c ∷ before) ++ s ≡ reverse before ++ c ∷ s =
      ap (λ (r : Text). r ++ s) (reverse-cons c before)
      ∙ append_assoc (reverse before) (c ∷ []) s in
    let on = scan-splits u s (skips skipping before c s) (c ∷ before) sentence after in
    elim (Bool-cases (may_end u skipping before c s)) [
      | inl ends ↦ sym moved ∙ at_boundary-splits before s sentence after c _ on (rw ends at e)
      | inr goes ↦ sym moved ∙ on (rw goes at e)
    ]

-- A text that starts with white space and then a sentence, which is not empty and which neither starts
-- nor ends with white space.
pub record Opens (s t : Text) : Type 0 where
  pub before : Text
  pub rest : Text
  pub splits : t ≡ before ++ (s ++ rest)
  pub before_is_white : White before
  pub says : is_empty s ≡ false
  pub trimmed : trim s ≡ s

-- The text is these sentences in order, with white space alone before, between and behind them.
abbrev pub Spaced : List Text → Text → Type 0
Spaced [] t = White t
Spaced (s ∷ ss) t = (o : Opens s t) × Spaced ss o.rest

White-Spaced : (ss : List Text) (w t : Text) → White w → Spaced ss t → Spaced ss (w ++ t)
White-Spaced [] w t h k = All-append _ w t h k
White-Spaced (s ∷ ss) w t h (o, k) = (
  record {
    before = w ++ o.before;
    rest = o.rest;
    splits = ap (λ (r : Text). w ++ r) o.splits ∙ sym (append_assoc w o.before (s ++ o.rest));
    before_is_white = All-append _ w o.before h o.before_is_white;
    says = o.says;
    trimmed = o.trimmed;
  },
  k,
)

push_sentence-Spaced :
    (s v w : Text) (ss more : List Text) (after : Text)
    → White v
    → White w
    → trim s ≡ s
    → Spaced (ss ++ more) after
    → Spaced (push_sentence s ss ++ more) ((v ++ (s ++ w)) ++ after)
unfolding is_empty
push_sentence-Spaced [] v w ss more after h k trimmed rest =
    White-Spaced (ss ++ more) (v ++ w) after (All-append _ v w h k) rest
push_sentence-Spaced (c ∷ s) v w ss more after h k trimmed rest = (
  record {
    before = v;
    rest = w ++ after;
    splits =
        append_assoc v (c ∷ (s ++ w)) after
        ∙ ap (λ (r : Text). v ++ c ∷ r) (append_assoc s w after);
    before_is_white = h;
    says = refl;
    trimmed = trimmed;
  },
  White-Spaced (ss ++ more) w after k rest,
)

-- A cut sentence, in front of what is said behind it.
trimmed-Spaced :
    (s : Text) (ss more : List Text) (after : Text)
    → Spaced (ss ++ more) after
    → Spaced (push_sentence (trim s) ss ++ more) (s ++ after)
trimmed-Spaced s ss more after rest =
    let (v, w, h, k, e) = trim-splits s in
    subst (λ (r : Text). Spaced (push_sentence (trim s) ss ++ more) (r ++ after)) (sym e)
      (push_sentence-Spaced (trim s) v w ss more after h k (trim-trim s) rest)

drained_below :
    (u : Unicode) (k : ℕ) (s : Text) (more : List Text)
    → length s < k
    → Spaced more (drain_sentences u s).1
    → Spaced ((drain_sentences u s).0 ++ more) s
drained_below u zero s more h = absurd (omega arith)
drained_below u (suc k) s more h = elim (Option-cases (find_sentence_end u s)) [
  | inl e ↦ rw (drain_sentences-none u s e) (λ rest. rest)
  | inr (cut, e) ↦
      let shorter = rest-shorter u s cut.0 cut.1 e in
      let (w, white, after) = trim_start-splits cut.1 in
      let out = drain_sentences u (trim_start cut.1) in
      let behind : Spaced more out.1 → Spaced (out.0 ++ more) cut.1 = λ rest.
        subst (Spaced (out.0 ++ more)) (sym after) (
          White-Spaced (out.0 ++ more) w (trim_start cut.1) white
            (drained_below u k (trim_start cut.1) more (omega arith) rest)) in
      rw (drain_sentences-some u s cut.0 cut.1 e) (λ rest.
        subst (Spaced (push_sentence (trim cut.0) out.0 ++ more))
          (sym (scan-splits u s false [] cut.0 cut.1 e))
          (trimmed-Spaced cut.0 out.0 more cut.1 (behind rest)))
]

flush-Spaced : (s : Text) → Spaced (last_sentence (flush (record { buf = s })).1) s
unfolding flush
flush-Spaced s =
    let said : Spaced (push_sentence (trim s) [] ++ []) (s ++ []) = trimmed-Spaced s [] [] [] tt in
    subst (Spaced (last_sentence (flush (record { buf = s })).1)) (append-nil s)
      (subst (λ ss. Spaced ss (s ++ [])) (one (trim s)) said)
  where
    one :
        (t : Text) → push_sentence t [] ++ [] ≡ last_sentence (if is_empty t then none else some t)
    one t = elim (Bool-cases (is_empty t)) [ inl e ↦ rw e refl | inr e ↦ rw e refl ]

-- For an alphabet in which neither white space nor NUL is a letter, and however the text is cut into deltas: the
-- text of a stream is its sentences, in order and as they are said, with white space alone before,
-- between and behind them. No sentence is empty, and none starts or ends with white space.
pub stream-Spaced :
    (u : Unicode) (deltas : List Text)
    → NoWhiteLetters u
    → Spaced (stream u new deltas) (flatten deltas)
unfolding stream push
stream-Spaced u deltas n =
    let s = flatten deltas in
    let out = drain_sentences u s in
    subst (λ said. Spaced said s) (sym (stream-flatten u deltas n))
      (drained_below u (suc (length s)) s (last_sentence (flush (record { buf = out.1 })).1)
        (omega arith) (flush-Spaced out.1))
