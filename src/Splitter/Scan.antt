-- ===== src/Splitter/Scan.antt =====
-- The scan for the end of a sentence: what it reads beyond the end it finds, and what it does not.
use mathlib.Core.List.{reverse, reverse-append}
use mathlib.Core.Bool.{false≢true}
use wintermute_brain.Prelude.Unicode.{Unicode, is_whitespace, is_ascii_digit, is_ascii_uppercase}
use wintermute_brain.Prelude.{
  ℕ, suc, ◌≤◌, ◌<◌, ◌≡◌, ◌≢◌, refl, sym, ap, ◌∙◌, inl, inr, Bool, true, false, [], ◌∷◌, ◌++◌, none,
  some, Text, length, ◌==◌, arith, Bool-cases,
}
use wintermute_brain.Splitter.{
  dots, first_or_nul, is_terminator, is_ellipsis, is_decimal, is_initial, skips, may_end, Cut,
  at_boundary, scan,
}

dots-append : (s t : Text) → dots s ≢ length s → dots (s ++ t) ≡ dots s
unfolding dots
dots-append [] t h = absurd (h refl)
dots-append (c ∷ s) t h = elim (Bool-cases (c == b'.')) [
  | inl dot ↦ rw dot (ap suc (dots-append s t (λ e. h (rw dot (ap suc e)))))
  | inr other ↦ rw other refl
]

first_or_nul-append : (s t : Text) → dots s ≢ length s → first_or_nul (s ++ t) ≡ first_or_nul s
unfolding dots
first_or_nul-append [] t h = absurd (h refl)
first_or_nul-append (c ∷ s) t h = refl

dot_not_white : (c : ℕ) → (c == b'.') ≡ true → is_whitespace c ≡ false
unfolding is_whitespace
dot_not_white c h = let e : c ≡ b'.' = ground arith in rw e refl

all_dots-cons :
    (c : ℕ) (s : Text) → dots (c ∷ s) ≡ length (c ∷ s) → ((c == b'.') ≡ true) × (dots s ≡ length s)
unfolding dots
all_dots-cons c s h = ground arith

-- No end is found where only dots follow a character.
scan-dots :
    (u : Unicode) (s : Text) (skipping : Bool) (before : Text) (c : ℕ)
    → dots s ≡ length s
    → scan u skipping before (c ∷ s) ≡ none
unfolding scan at_boundary
scan-dots u [] skipping before c h = elim (Bool-cases (may_end u skipping before c [])) [
  | inl ends ↦ rw ends refl
  | inr goes ↦ rw goes refl
]
scan-dots u (d ∷ s) skipping before c h =
    let parts = all_dots-cons d s h in
    let rest = scan-dots u s (skips skipping before c (d ∷ s)) (c ∷ before) d parts.1 in
    elim (Bool-cases (may_end u skipping before c (d ∷ s))) [
      | inl ends ↦ rw (ends, dot_not_white d parts.0) rest
      | inr goes ↦ rw goes rest
    ]

may_end-append :
    (u : Unicode) (skipping : Bool) (before : Text) (c : ℕ) (s t : Text)
    → dots s ≢ length s
    → (skips skipping before c (s ++ t) ≡ skips skipping before c s)
      × (may_end u skipping before c (s ++ t) ≡ may_end u skipping before c s)
unfolding skips may_end is_ellipsis is_decimal
may_end-append u skipping before c s t h =
    (rw (dots-append s t h) refl, rw (dots-append s t h, first_or_nul-append s t h) refl)

pub none≢some {ℓ} : {A : Type ℓ} {a : A} → none ≢ some a
none≢some e = absurd (ground arith)

pub some_pair : {a b c d : Text} → ◌≡◌ {A = Cut} (some (a, b)) (some (c, d)) → (a ≡ c) × (b ≡ d)
some_pair e = (ground arith, ground arith)

-- With the same way on, a boundary that is found stays.
at_boundary-append :
    (before s t sentence after : Text) (c : ℕ) (rest rest' : Cut)
    → dots s ≢ length s
    → (rest ≡ some (sentence, after) → rest' ≡ some (sentence, after ++ t))
    → at_boundary before c s rest ≡ some (sentence, after)
    → at_boundary before c (s ++ t) rest' ≡ some (sentence, after ++ t)
unfolding at_boundary dots
at_boundary-append before [] t sentence after c rest rest' h on e = absurd (h refl)
at_boundary-append before (d ∷ s) t sentence after c rest rest' h on e =
    elim (Bool-cases (is_whitespace d)) [
      | inl white ↦
          let parts : ◌≡◌ {A = Cut} (some (reverse (c ∷ before), d ∷ s)) (some (sentence, after)) =
            rw white at e in
          let eqs : (reverse (c ∷ before) ≡ sentence) × (d ∷ s ≡ after) = some_pair parts in
          rw white (ap some (rw (sym eqs.0, sym eqs.1) refl))
      | inr other ↦ rw other (on (rw other at e))
    ]

-- An end that is found stays the end, whatever text comes after.
pub scan-append :
    (u : Unicode) (s t : Text) (skipping : Bool) (before sentence after : Text)
    → scan u skipping before s ≡ some (sentence, after)
    → scan u skipping before (s ++ t) ≡ some (sentence, after ++ t)
unfolding scan
scan-append u [] t skipping before sentence after e = absurd (ground arith)
scan-append u (c ∷ s) t skipping before sentence after e = elim (Bool-cases (dots s == length s)) [
  | inl all ↦
      let none_found = scan-dots u s skipping before c (ground arith) in
      absurd (none≢some (sym none_found ∙ e))
  | inr some_other ↦
      let h : dots s ≢ length s = λ k. absurd (ground arith) in
      let m = may_end-append u skipping before c s t h in
      let on = scan-append u s t (skips skipping before c s) (c ∷ before) sentence after in
      elim (Bool-cases (may_end u skipping before c s)) [
        | inl ends ↦
            rw (m.0, m.1, ends)
              (at_boundary-append before s t sentence after c _ _ h on (rw ends at e))
        | inr goes ↦ rw (m.0, m.1, goes) (on (rw goes at e))
      ]
]

-- White space in front of the scanned text moves into the sentence, and changes nothing else.
abbrev pub in_front : ℕ → Cut → Cut
in_front w none = none
in_front w (some (sentence, after)) = some (w ∷ sentence, after)

dots-white :
    (w : ℕ) (before : Text) → is_whitespace w ≡ true → dots (before ++ w ∷ []) ≡ dots before
unfolding dots
dots-white w [] h = elim (Bool-cases (w == b'.')) [
  | inl dot ↦ absurd (false≢true (sym (dot_not_white w dot) ∙ h))
  | inr other ↦ rw other refl
]
dots-white w (c ∷ before) h = rw (dots-white w before h) refl

white_not_digit : (w : ℕ) → is_whitespace w ≡ true → is_ascii_digit w ≡ false
unfolding is_whitespace
white_not_digit w h = ground arith

white_not_upper : (w : ℕ) → is_whitespace w ≡ true → is_ascii_uppercase w ≡ false
unfolding is_whitespace
white_not_upper w h = ground arith

-- What the documentation of `char::is_alphabetic` says of NUL and of white space.
abbrev pub NoWhiteLetters : Unicode → Type 0
NoWhiteLetters u =
    (u.is_alphabetic 0 ≡ false) × ((w : ℕ) → is_whitespace w ≡ true → u.is_alphabetic w ≡ false)

digit-white :
    (w : ℕ) (before : Text)
    → is_whitespace w ≡ true
    → is_ascii_digit (first_or_nul (before ++ w ∷ [])) ≡ is_ascii_digit (first_or_nul before)
digit-white w [] h = white_not_digit w h
digit-white w (c ∷ before) h = refl

alphabetic-white :
    (u : Unicode) (w : ℕ) (before : Text)
    → NoWhiteLetters u
    → is_whitespace w ≡ true
    → u.is_alphabetic (first_or_nul (before ++ w ∷ [])) ≡ u.is_alphabetic (first_or_nul before)
alphabetic-white u w [] n h = n.1 w h ∙ sym n.0
alphabetic-white u w (c ∷ before) n h = refl

is_initial-white :
    (u : Unicode) (w : ℕ) (before : Text) (c : ℕ)
    → NoWhiteLetters u
    → is_whitespace w ≡ true
    → is_initial u (before ++ w ∷ []) c ≡ is_initial u before c
unfolding is_initial
is_initial-white u w [] c n h = let e = white_not_upper w h in ground arith
is_initial-white u w (d ∷ before) c n h = rw (alphabetic-white u w before n h) refl

may_end-white :
    (u : Unicode) (w : ℕ) (skipping : Bool) (before : Text) (c : ℕ) (s : Text)
    → NoWhiteLetters u
    → is_whitespace w ≡ true
    → (skips skipping (before ++ w ∷ []) c s ≡ skips skipping before c s)
      × (may_end u skipping (before ++ w ∷ []) c s ≡ may_end u skipping before c s)
unfolding skips may_end is_ellipsis is_decimal
may_end-white u w skipping before c s n h = (
  rw (dots-white w before h) refl,
  rw (dots-white w before h, digit-white w before h, is_initial-white u w before c n h) refl,
)

at_boundary-white :
    (w : ℕ) (before s : Text) (c : ℕ) (rest rest' : Cut)
    → rest' ≡ in_front w rest
    → at_boundary (before ++ w ∷ []) c s rest' ≡ in_front w (at_boundary before c s rest)
unfolding at_boundary
at_boundary-white w before [] c rest rest' e = refl
at_boundary-white w before (d ∷ s) c rest rest' e = elim (Bool-cases (is_whitespace d)) [
  | inl white ↦
      rw white (ap (λ sentence. some (sentence, d ∷ s)) (reverse-append (c ∷ before) (w ∷ [])))
  | inr other ↦ rw other e
]

pub scan-white :
    (u : Unicode) (w : ℕ) (s : Text) (skipping : Bool) (before : Text)
    → NoWhiteLetters u
    → is_whitespace w ≡ true
    → scan u skipping (before ++ w ∷ []) s ≡ in_front w (scan u skipping before s)
unfolding scan
scan-white u w [] skipping before n h = refl
scan-white u w (c ∷ s) skipping before n h =
    let m = may_end-white u w skipping before c s n h in
    let rest = scan-white u w s (skips skipping before c s) (c ∷ before) n h in
    elim (Bool-cases (may_end u skipping before c s)) [
      | inl ends ↦ rw (m.0, m.1, ends) (at_boundary-white w before s c _ _ rest)
      | inr goes ↦ rw (m.0, m.1, goes) rest
    ]

white_not_end :
    (u : Unicode) (w : ℕ) (s : Text)
    → is_whitespace w ≡ true
    → (skips false [] w s ≡ false) × (may_end u false [] w s ≡ false)
unfolding is_whitespace skips may_end is_ellipsis is_terminator
white_not_end u w s h = (ground arith, ground arith)

-- White space at the very start is never an end, and the scan goes on behind it.
pub scan-leading :
    (u : Unicode) (w : ℕ) (s : Text)
    → NoWhiteLetters u
    → is_whitespace w ≡ true
    → scan u false [] (w ∷ s) ≡ in_front w (scan u false [] s)
unfolding scan
scan-leading u w s n h =
    let m = white_not_end u w s h in rw (m.0, m.1) (scan-white u w s false [] n h)

at_boundary-shorter :
    (before s sentence after : Text) (c : ℕ) (rest : Cut)
    → (rest ≡ some (sentence, after) → length after ≤ length s)
    → at_boundary before c s rest ≡ some (sentence, after)
    → length after ≤ length s
unfolding at_boundary
at_boundary-shorter before [] sentence after c rest on e = absurd (none≢some e)
at_boundary-shorter before (d ∷ s) sentence after c rest on e =
    elim (Bool-cases (is_whitespace d)) [
      | inl white ↦
          let parts : ◌≡◌ {A = Cut} (some (reverse (c ∷ before), d ∷ s)) (some (sentence, after)) =
            rw white at e in
          let eqs : (reverse (c ∷ before) ≡ sentence) × (d ∷ s ≡ after) = some_pair parts in
          let same : length (d ∷ s) ≡ length after = ap length eqs.1 in omega arith
      | inr other ↦ on (rw other at e)
    ]

-- What is left is shorter than what was scanned.
pub scan-shorter :
    (u : Unicode) (s : Text) (skipping : Bool) (before sentence after : Text)
    → scan u skipping before s ≡ some (sentence, after)
    → length after < length s
unfolding scan
scan-shorter u [] skipping before sentence after e = absurd (none≢some e)
scan-shorter u (c ∷ s) skipping before sentence after e =
    let on : scan u (skips skipping before c s) (c ∷ before) s ≡ some (sentence, after)
        → length after ≤ length s =
      λ k.
        let lt = scan-shorter u s (skips skipping before c s) (c ∷ before) sentence after k in
        omega arith in
    elim (Bool-cases (may_end u skipping before c s)) [
      | inl ends ↦
          let le = at_boundary-shorter before s sentence after c _ on (rw ends at e) in omega arith
      | inr goes ↦ let le = on (rw goes at e) in omega arith
    ]
