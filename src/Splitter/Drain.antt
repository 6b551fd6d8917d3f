-- ===== src/Splitter/Drain.antt =====
-- `drain_sentences`: its loop has enough fuel, and leading white space does not matter to it.
use wintermute_brain.Prelude.Unicode.{Unicode, is_whitespace, trim, trim_start}
use wintermute_brain.Prelude.{
  ℕ, zero, suc, ◌≤◌, ◌<◌, ◌≡◌, refl, sym, ap, ◌∙◌, inl, inr, true, false, List, [], ◌∷◌, none, some,
  Text, length, arith, Bool-cases, Option-cases,
}
use wintermute_brain.Splitter.{find_sentence_end, push_sentence, drain, drain_sentences}
use wintermute_brain.Splitter.Scan.{scan-shorter, scan-leading, NoWhiteLetters, in_front}

pub length-trim_start : (s : Text) → length (trim_start s) ≤ length s
unfolding trim_start
length-trim_start [] = omega arith
length-trim_start (c ∷ s) = elim (Bool-cases (is_whitespace c)) [
  | inl white ↦ rw white (omega (arith, length-trim_start s))
  | inr other ↦ rw other (omega arith)
]

pub rest-shorter :
    (u : Unicode) (buf sentence after : Text)
    → find_sentence_end u buf ≡ some (sentence, after)
    → length (trim_start after) < length buf
rest-shorter u buf sentence after e =
    omega (arith, length-trim_start after, scan-shorter u buf false [] sentence after e)

drain-none :
    (u : Unicode) (n : ℕ) (buf : Text)
    → find_sentence_end u buf ≡ none
    → drain u (suc n) buf ≡ ([], buf)
unfolding drain
drain-none u n buf e = rw (e, drain) refl

drain-some :
    (u : Unicode) (n : ℕ) (buf sentence after : Text)
    → find_sentence_end u buf ≡ some (sentence, after)
    → drain u (suc n) buf ≡ (
      push_sentence (trim sentence) (drain u n (trim_start after)).0,
      (drain u n (trim_start after)).1,
    )
unfolding drain
drain-some u n buf sentence after e = rw (e, drain) refl

drain_enough :
    (u : Unicode) (n m : ℕ) (buf : Text)
    → length buf < n
    → length buf < m
    → drain u n buf ≡ drain u m buf
drain_enough u zero m buf h k = absurd (omega arith)
drain_enough u (suc n) zero buf h k = absurd (omega arith)
drain_enough u (suc n) (suc m) buf h k = elim (Option-cases (find_sentence_end u buf)) [
  | inl e ↦ drain-none u n buf e ∙ sym (drain-none u m buf e)
  | inr (cut, e) ↦
      let shorter = rest-shorter u buf cut.0 cut.1 e in
      let same = drain_enough u n m (trim_start cut.1) (omega arith) (omega arith) in
      drain-some u n buf cut.0 cut.1 e
      ∙ ap (λ out. (push_sentence (trim cut.0) out.0, out.1)) same
      ∙ sym (drain-some u m buf cut.0 cut.1 e)
]

pub drain_sentences-none :
    (u : Unicode) (buf : Text) → find_sentence_end u buf ≡ none → drain_sentences u buf ≡ ([], buf)
unfolding drain_sentences
drain_sentences-none u buf e = drain-none u (length buf) buf e

pub drain_sentences-some :
    (u : Unicode) (buf sentence after : Text)
    → find_sentence_end u buf ≡ some (sentence, after)
    → drain_sentences u buf ≡ (
      push_sentence (trim sentence) (drain_sentences u (trim_start after)).0,
      (drain_sentences u (trim_start after)).1,
    )
unfolding drain_sentences
drain_sentences-some u buf sentence after e =
    let shorter = rest-shorter u buf sentence after e in
    drain-some u (length buf) buf sentence after e
    ∙ ap (λ out. (push_sentence (trim sentence) out.0, out.1))
        (drain_enough u (length buf) (suc (length (trim_start after))) (trim_start after)
          (omega arith) (omega arith))

-- The sentences, and what is left up to leading white space.
abbrev pub outcome : Unicode → Text → List Text × Text
outcome u buf = ((drain_sentences u buf).0, trim_start (drain_sentences u buf).1)

trim_start-white : (w : ℕ) (s : Text) → is_whitespace w ≡ true → trim_start (w ∷ s) ≡ trim_start s
unfolding trim_start
trim_start-white w s h = rw h refl

trim-white : (w : ℕ) (s : Text) → is_whitespace w ≡ true → trim (w ∷ s) ≡ trim s
unfolding trim
trim-white w s h = rw h refl

outcome-leading :
    (u : Unicode) (w : ℕ) (s : Text)
    → NoWhiteLetters u
    → is_whitespace w ≡ true
    → outcome u (w ∷ s) ≡ outcome u s
outcome-leading u w s n h = elim (Option-cases (find_sentence_end u s)) [
  | inl e ↦
      let front : find_sentence_end u (w ∷ s) ≡ none = scan-leading u w s n h ∙ ap (in_front w) e in
      rw (drain_sentences-none u (w ∷ s) front, drain_sentences-none u s e)
        (ap (λ (t : Text). ([], t)) (trim_start-white w s h))
  | inr (cut, e) ↦
      let front : find_sentence_end u (w ∷ s) ≡ some (w ∷ cut.0, cut.1) =
        scan-leading u w s n h ∙ ap (in_front w) e in
      rw
        (
          drain_sentences-some u (w ∷ s) (w ∷ cut.0) cut.1 front,
          drain_sentences-some u s cut.0 cut.1 e,
          trim-white w cut.0 h,
        )
        refl
]

pub outcome-trim_start :
    (u : Unicode) (s : Text) → NoWhiteLetters u → outcome u (trim_start s) ≡ outcome u s
unfolding trim_start
outcome-trim_start u [] n = refl
outcome-trim_start u (c ∷ s) n = elim (Bool-cases (is_whitespace c)) [
  | inl white ↦ rw white (outcome-trim_start u s n ∙ sym (outcome-leading u c s n white))
  | inr other ↦ rw other refl
]
