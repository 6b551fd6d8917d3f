-- ===== src/Splitter/Chunks.antt =====
-- A stream of deltas against its text in one piece.
use mathlib.Core.List.{flatten}
use wintermute_brain.Prelude.Unicode.{Unicode, is_whitespace, trim, trim_start, is_empty}
use wintermute_brain.Prelude.{
  ℕ, zero, suc, ◌<◌, ◌≡◌, refl, sym, ap, ◌∙◌, inl, inr, false, List, [], ◌∷◌, ◌++◌, append_assoc,
  append-nil, Option, none, some, Text, length, arith, Bool-cases, Option-cases,
}
use wintermute_brain.Splitter.{
  scan, SentenceSplitter, new, push, flush, find_sentence_end, push_sentence, drain_sentences,
}
use wintermute_brain.Splitter.Scan.{scan-append, NoWhiteLetters}
use wintermute_brain.Splitter.Drain.{
  rest-shorter, drain_sentences-none, drain_sentences-some, outcome, outcome-trim_start,
}

-- The sentences of a whole stream: those of each `push`, and that of the `flush` at the end.
abbrev pub last_sentence : Option Text → List Text
last_sentence none = []
last_sentence (some s) = s ∷ []

unfoldable pub stream : Unicode → SentenceSplitter → List Text → List Text
stream u s [] = last_sentence (flush s).1
stream u s (delta ∷ deltas) = (push u delta s).1 ++ stream u (push u delta s).0 deltas

-- Two passes over a text that has come in two parts.
abbrev then_drain : Unicode → List Text × Text → Text → List Text × Text
then_drain u out t = (out.0 ++ (outcome u (out.1 ++ t)).0, (outcome u (out.1 ++ t)).1)

push_sentence-append :
    (s : Text) (xs ys : List Text) → push_sentence s (xs ++ ys) ≡ push_sentence s xs ++ ys
push_sentence-append s xs ys = elim (Bool-cases (is_empty s)) [
  | inl e ↦ rw e refl
  | inr e ↦ rw e refl
]

trim_start-append : (s t : Text) → trim_start (trim_start s ++ t) ≡ trim_start (s ++ t)
unfolding trim_start
trim_start-append [] t = refl
trim_start-append (c ∷ s) t = elim (Bool-cases (is_whitespace c)) [
  | inl white ↦ rw white (trim_start-append s t)
  | inr other ↦ rw other (rw other refl)
]

outcome-trim_start-append :
    (u : Unicode) (s t : Text)
    → NoWhiteLetters u
    → outcome u (trim_start s ++ t) ≡ outcome u (s ++ t)
outcome-trim_start-append u s t n =
    sym (outcome-trim_start u (trim_start s ++ t) n)
    ∙ ap (outcome u) (trim_start-append s t)
    ∙ outcome-trim_start u (s ++ t) n

outcome-some :
    (u : Unicode) (buf sentence after : Text)
    → find_sentence_end u buf ≡ some (sentence, after)
    → outcome u buf ≡ (
      push_sentence (trim sentence) (outcome u (trim_start after)).0,
      (outcome u (trim_start after)).1,
    )
outcome-some u buf sentence after e = rw (drain_sentences-some u buf sentence after e) refl

-- What a first piece that is `front` does to the pass over all the text.
abbrev pub in_order : Text → List Text × Text → List Text × Text
in_order sentence out = (push_sentence (trim sentence) out.0, out.1)

in_order-then_drain :
    (u : Unicode) (sentence t : Text) (out : List Text × Text)
    → in_order sentence (then_drain u out t) ≡ then_drain u (in_order sentence out) t
in_order-then_drain u sentence t out =
    let rest = outcome u (out.1 ++ t) in
    ap (λ (said : List Text). (said, rest.1)) (push_sentence-append (trim sentence) out.0 rest.0)

outcome-append_below :
    (u : Unicode) (k : ℕ) (s t : Text)
    → NoWhiteLetters u
    → length s < k
    → outcome u (s ++ t) ≡ then_drain u (outcome u s) t
outcome-append_below u zero s t n h = absurd (omega arith)
outcome-append_below u (suc k) s t n h = elim (Option-cases (find_sentence_end u s)) [
  | inl e ↦ rw (drain_sentences-none u s e) (sym (outcome-trim_start-append u s t n))
  | inr (cut, e) ↦
      let shorter = rest-shorter u s cut.0 cut.1 e in
      let on = outcome-append_below u k (trim_start cut.1) t n (omega arith) in
      outcome-some u (s ++ t) cut.0 (cut.1 ++ t) (scan-append u s t false [] cut.0 cut.1 e)
      ∙ ap (in_order cut.0)
          (outcome-trim_start u (cut.1 ++ t) n ∙ sym (outcome-trim_start-append u cut.1 t n) ∙ on)
      ∙ in_order-then_drain u cut.0 t (outcome u (trim_start cut.1))
      ∙ ap (λ out. then_drain u out t) (sym (outcome-some u s cut.0 cut.1 e))
]

-- A text that comes in two parts is cut as the whole is, up to the white space that is left first.
outcome-append :
    (u : Unicode) (s t : Text)
    → NoWhiteLetters u
    → outcome u (s ++ t) ≡ then_drain u (outcome u s) t
outcome-append u s t n = outcome-append_below u (suc (length s)) s t n (omega arith)

trim-trim_start : (s : Text) → trim (trim_start s) ≡ trim s
unfolding trim trim_start
trim-trim_start [] = refl
trim-trim_start (c ∷ s) = elim (Bool-cases (is_whitespace c)) [
  | inl white ↦ rw white (trim-trim_start s)
  | inr other ↦ rw other (rw other refl)
]

abbrev pub last_of : List Text × Text → List Text
last_of out = last_sentence (flush (record { buf = out.1 })).1

-- All that is said of a buffer: the sentences that are drained, and the rest as the last one.
abbrev pub said : Unicode → Text → List Text
said u buf = (outcome u buf).0 ++ last_of (outcome u buf)

flush-trim_start :
    (s : Text) → (flush (record { buf = trim_start s })).1 ≡ (flush (record { buf = s })).1
unfolding flush
flush-trim_start s = rw (trim-trim_start s) refl

drained_below :
    (u : Unicode) (k : ℕ) (s : Text)
    → length s < k
    → find_sentence_end u (drain_sentences u s).1 ≡ none
drained_below u zero s h = absurd (omega arith)
drained_below u (suc k) s h = elim (Option-cases (find_sentence_end u s)) [
  | inl e ↦ rw (drain_sentences-none u s e) e
  | inr (cut, e) ↦
      let shorter = rest-shorter u s cut.0 cut.1 e in
      rw (drain_sentences-some u s cut.0 cut.1 e)
        (drained_below u k (trim_start cut.1) (omega arith))
]

-- From a buffer with no end of a sentence in it, a stream says what one piece of text says.
stream-said :
    (u : Unicode) (buf : Text) (deltas : List Text)
    → NoWhiteLetters u
    → find_sentence_end u buf ≡ none
    → stream u (record { buf = buf }) deltas ≡ said u (buf ++ flatten deltas)
unfolding stream push flatten
stream-said u buf [] n h =
    rw (append-nil buf, drain_sentences-none u buf h)
      (ap last_sentence (sym (flush-trim_start buf)))
stream-said u buf (delta ∷ deltas) n h =
    let whole = buf ++ delta in
    let out = drain_sentences u whole in
    let rest = flatten deltas in
    let drained = drained_below u (suc (length whole)) whole (omega arith) in
    ap (λ (more : List Text). out.0 ++ more) (stream-said u out.1 deltas n drained)
    ∙ ap (λ (now : List Text × Text). out.0 ++ (now.0 ++ last_of now))
        (sym (outcome-trim_start-append u out.1 rest n))
    ∙ sym (append_assoc out.0 (outcome u (trim_start out.1 ++ rest)).0 _)
    ∙ ap (λ (now : List Text × Text). now.0 ++ last_of now) (sym (outcome-append u whole rest n))
    ∙ ap (said u) (append_assoc buf delta rest)

flatten-one : (s : Text) → flatten (s ∷ []) ≡ s
unfolding flatten
flatten-one s = append-nil s

scan-nothing : (u : Unicode) → find_sentence_end u [] ≡ none
unfolding scan
scan-nothing u = refl

-- However a stream is cut into deltas, the sentences and the last one are those of its whole text.
pub stream-flatten :
    (u : Unicode) (deltas : List Text)
    → NoWhiteLetters u
    → stream u new deltas ≡ stream u new (flatten deltas ∷ [])
stream-flatten u deltas n =
    stream-said u [] deltas n (scan-nothing u)
    ∙ ap (said u) (sym (flatten-one (flatten deltas)))
    ∙ sym (stream-said u [] (flatten deltas ∷ []) n (scan-nothing u))
