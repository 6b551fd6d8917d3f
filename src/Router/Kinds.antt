-- ===== src/Router/Kinds.antt =====
-- What makes no difference to the kind of a turn.
use mathlib.Core.Path.{ap₂}
use wintermute_brain.Prelude.Unicode.{
  to_ascii_lowercase, is_whitespace, trim, trim_start, trim_end, trim_end_cons,
}
use wintermute_brain.Prelude.{
  ℕ, ◌≡◌, refl, sym, ap, ◌∙◌, inl, inr, Bool, true, false, [], ◌∷◌, ◌++◌, map, Text, arith,
  Bool-cases,
}
use wintermute_brain.Router.{
  is_ascii_punctuation, trim_end_matches, strip_cons, lowered, classify_lowered, classify_turn,
}

white_lower : (c : ℕ) → is_whitespace (to_ascii_lowercase c) ≡ is_whitespace c
unfolding is_whitespace
white_lower c = ground arith

lower_lower : (c : ℕ) → to_ascii_lowercase (to_ascii_lowercase c) ≡ to_ascii_lowercase c
lower_lower c = ground arith

abbrev lower : Text → Text
lower s = map to_ascii_lowercase s

trim_start-lower : (s : Text) → trim_start (lower s) ≡ lower (trim_start s)
unfolding trim_start
trim_start-lower [] = refl
trim_start-lower (c ∷ s) = elim (Bool-cases (is_whitespace c)) [
  | inl white ↦ rw (white_lower c, white) (trim_start-lower s)
  | inr other ↦ rw (white_lower c, other) refl
]

trim_end_cons-lower :
    (c : ℕ) (s : Text) → trim_end_cons (to_ascii_lowercase c) (lower s) ≡ lower (trim_end_cons c s)
unfolding trim_end_cons
trim_end_cons-lower c [] = elim (Bool-cases (is_whitespace c)) [
  | inl white ↦ rw (white_lower c, white) refl
  | inr other ↦ rw (white_lower c, other) refl
]
trim_end_cons-lower c (d ∷ s) = refl

trim_end-lower : (s : Text) → trim_end (lower s) ≡ lower (trim_end s)
unfolding trim_end
trim_end-lower [] = refl
trim_end-lower (c ∷ s) =
    ap (trim_end_cons (to_ascii_lowercase c)) (trim_end-lower s)
    ∙ trim_end_cons-lower c (trim_end s)

lower-lower : (s : Text) → lower (lower s) ≡ lower s
lower-lower [] = refl
lower-lower (c ∷ s) = ap₂ (λ (d : ℕ) (t : Text). d ∷ t) (lower_lower c) (lower-lower s)

lowered-lower : (s : Text) → lowered (lower s) ≡ lowered s
unfolding lowered trim
lowered-lower s = ap (trim_end_matches is_ascii_punctuation) (
    ap (λ t. lower (trim_end t)) (trim_start-lower s)
    ∙ ap lower (trim_end-lower (trim_start s))
    ∙ lower-lower (trim_end (trim_start s)))

-- A mark of punctuation is no white space and no capital letter.
punctuation_plain :
    (p : ℕ) → is_ascii_punctuation p ≡ true → (is_whitespace p ≡ false) × (to_ascii_lowercase p ≡ p)
unfolding is_ascii_punctuation is_whitespace
punctuation_plain p h = (ground arith, ground arith)

trim_start-end :
    (s : Text) (p : ℕ) → is_whitespace p ≡ false → trim_start (s ++ p ∷ []) ≡ trim_start s ++ p ∷ []
unfolding trim_start
trim_start-end [] p h = rw h refl
trim_start-end (c ∷ s) p h = elim (Bool-cases (is_whitespace c)) [
  | inl white ↦ rw white (trim_start-end s p h)
  | inr other ↦ rw other refl
]

trim_end_cons-end : (c : ℕ) (s : Text) (p : ℕ) → trim_end_cons c (s ++ p ∷ []) ≡ c ∷ (s ++ p ∷ [])
unfolding trim_end_cons
trim_end_cons-end c [] p = refl
trim_end_cons-end c (d ∷ s) p = refl

trim_end-end : (s : Text) (p : ℕ) → is_whitespace p ≡ false → trim_end (s ++ p ∷ []) ≡ s ++ p ∷ []
unfolding trim_end trim_end_cons
trim_end-end [] p h = rw h refl
trim_end-end (c ∷ s) p h = ap (trim_end_cons c) (trim_end-end s p h) ∙ trim_end_cons-end c s p

trim_end_cons-eq : (c : ℕ) (s t : Text) → trim_end_cons c t ≡ c ∷ s → t ≡ s
unfolding trim_end_cons
trim_end_cons-eq c s [] e = elim (Bool-cases (is_whitespace c)) [
  | inl white ↦ absurd (ground arith)
  | inr other ↦ ground arith
]
trim_end_cons-eq c s (d ∷ t) e = ground arith

trim_end-trim_start : (s : Text) → trim_end s ≡ s → trim_end (trim_start s) ≡ trim_start s
unfolding trim_start trim_end
trim_end-trim_start [] e = refl
trim_end-trim_start (c ∷ s) e = elim (Bool-cases (is_whitespace c)) [
  | inl white ↦ rw white (trim_end-trim_start s (trim_end_cons-eq c s (trim_end s) e))
  | inr other ↦ rw other e
]

lower-end : (s : Text) (p : ℕ) → to_ascii_lowercase p ≡ p → lower (s ++ p ∷ []) ≡ lower s ++ p ∷ []
lower-end [] p h = ap (λ (c : ℕ). c ∷ []) h
lower-end (c ∷ s) p h = ap (λ (t : Text). to_ascii_lowercase c ∷ t) (lower-end s p h)

trim_end_matches-end :
    (test : ℕ → Bool) (s : Text) (p : ℕ)
    → test p ≡ true
    → trim_end_matches test (s ++ p ∷ []) ≡ trim_end_matches test s
unfolding trim_end_matches strip_cons
trim_end_matches-end test [] p h = rw h refl
trim_end_matches-end test (c ∷ s) p h = ap (strip_cons test c) (trim_end_matches-end test s p h)

lowered-end :
    (s : Text) (p : ℕ)
    → is_ascii_punctuation p ≡ true
    → trim_end s ≡ s
    → lowered (s ++ p ∷ []) ≡ lowered s
unfolding lowered trim
lowered-end s p h closed =
    let (black, small) = punctuation_plain p h in
    let start = trim_start s in
    ap (λ t. trim_end_matches is_ascii_punctuation (lower t))
      (ap trim_end (trim_start-end s p black) ∙ trim_end-end start p black)
    ∙ ap (trim_end_matches is_ascii_punctuation) (lower-end start p small)
    ∙ trim_end_matches-end is_ascii_punctuation (lower start) p h
    ∙ ap (λ t. trim_end_matches is_ascii_punctuation (lower t)) (sym (trim_end-trim_start s closed))

-- The case of its ASCII letters makes no difference to the kind of a turn; and when it does not end in
-- white space, neither does a mark of ASCII punctuation that is put behind it.
pub classify_turn-same :
    (transcript : Text) (mark max_words : ℕ)
    → is_ascii_punctuation mark ≡ true
    → trim_end transcript ≡ transcript
    → (classify_turn (map to_ascii_lowercase transcript) max_words
        ≡ classify_turn transcript max_words)
      × (classify_turn (transcript ++ mark ∷ []) max_words ≡ classify_turn transcript max_words)
unfolding classify_turn
classify_turn-same transcript mark max_words h closed = (
  ap (λ s. classify_lowered s max_words) (lowered-lower transcript),
  ap (λ s. classify_lowered s max_words) (lowered-end transcript mark h closed),
)
