-- ===== src/Splitter/Trim.antt =====
-- What `trim` takes away from a text.
use wintermute_brain.Prelude.Unicode.{is_whitespace, trim, trim_start, trim_end, trim_end_cons}
use wintermute_brain.Prelude.{
  ℕ, ◌≡◌, refl, ap, ◌∙◌, inl, inr, true, false, [], ◌∷◌, ◌++◌, Text, Bool-cases, All,
}

abbrev pub White : Text → Type 0
White w = All (λ c. is_whitespace c ≡ true) w

pub trim_start-splits : (s : Text) → (w : Text) × White w × (s ≡ w ++ trim_start s)
unfolding trim_start
trim_start-splits [] = ([], tt, refl)
trim_start-splits (c ∷ s) = elim (Bool-cases (is_whitespace c)) [
  | inl white ↦
      let (w, h, e) = trim_start-splits s in
      rw white (c ∷ w, (white, h), ap (λ (r : Text). c ∷ r) e)
  | inr other ↦ rw other ([], tt, refl)
]

trim_end_cons-splits :
    (c : ℕ) (t w : Text) → White w → (v : Text) × White v × (c ∷ (t ++ w) ≡ trim_end_cons c t ++ v)
unfolding trim_end_cons
trim_end_cons-splits c [] w h = elim (Bool-cases (is_whitespace c)) [
  | inl white ↦ rw white (c ∷ w, (white, h), refl)
  | inr other ↦ rw other (w, h, refl)
]
trim_end_cons-splits c (d ∷ t) w h = (w, h, refl)

trim_end-splits : (s : Text) → (w : Text) × White w × (s ≡ trim_end s ++ w)
unfolding trim_end
trim_end-splits [] = ([], tt, refl)
trim_end-splits (c ∷ s) =
    let (w, h, e) = trim_end-splits s in
    let (v, k, e') = trim_end_cons-splits c (trim_end s) w h in
    (v, k, ap (λ (r : Text). c ∷ r) e ∙ e')

pub trim-splits : (s : Text) → (v w : Text) × White v × White w × (s ≡ v ++ (trim s ++ w))
unfolding trim
trim-splits s =
    let (v, h, e) = trim_start-splits s in
    let (w, k, e') = trim_end-splits (trim_start s) in
    (v, w, h, k, e ∙ ap (λ (r : Text). v ++ r) e')

trim_end_cons-twice :
    (c : ℕ) (t : Text) → trim_end t ≡ t → trim_end (trim_end_cons c t) ≡ trim_end_cons c t
unfolding trim_end trim_end_cons
trim_end_cons-twice c [] h = elim (Bool-cases (is_whitespace c)) [
  | inl white ↦ rw white refl
  | inr other ↦ rw other (rw other refl)
]
trim_end_cons-twice c (d ∷ t) h = ap (trim_end_cons c) h

trim_end-twice : (s : Text) → trim_end (trim_end s) ≡ trim_end s
unfolding trim_end
trim_end-twice [] = refl
trim_end-twice (c ∷ s) = trim_end_cons-twice c (trim_end s) (trim_end-twice s)

trim_start-trim_end_cons :
    (c : ℕ) (t : Text)
    → is_whitespace c ≡ false
    → trim_start (trim_end_cons c t) ≡ trim_end_cons c t
unfolding trim_start trim_end_cons
trim_start-trim_end_cons c [] other = rw other (rw other refl)
trim_start-trim_end_cons c (d ∷ t) other = rw other refl

trim_start-trim : (s : Text) → trim_start (trim_end (trim_start s)) ≡ trim_end (trim_start s)
unfolding trim_start trim_end
trim_start-trim [] = refl
trim_start-trim (c ∷ s) = elim (Bool-cases (is_whitespace c)) [
  | inl white ↦ rw white (trim_start-trim s)
  | inr other ↦ rw other (trim_start-trim_end_cons c (trim_end s) other)
]

-- A text that is trimmed stays as it is.
pub trim-trim : (s : Text) → trim (trim s) ≡ trim s
unfolding trim
trim-trim s = ap trim_end (trim_start-trim s) ∙ trim_end-twice (trim_start s)
