-- ===== src/Redline/Words.antt =====
-- The scan of src/redline.rs against words: a term that stands in a text with no letter or digit of
-- ASCII next to it.

use mathlib.Core.Bool.{false≢true}
use wintermute_brain.Prelude.{
  ℕ, zero, suc, ◌≡◌, ◌≢◌, ◌⊎◌, refl, sym, ap, subst, ◌∙◌, inl, inr, true, List, [], ◌∷◌, ◌++◌,
  Option, none, some, Text, length, ◌-◌, starts_with, ltb, arith, Bool-cases, All, All-map,
}
use wintermute_brain.Redline.{Hit, is_free, first, behind, is_word, with_hit, search_from}

-- The last character of a text, behind one before it.
abbrev pub last : Option ℕ → Text → Option ℕ
last prev [] = prev
last prev (c ∷ s) = last (some c) s

-- The term stands in the text as a word, the text standing behind the character `prev`.
pub record Word (term : Text) (prev : Option ℕ) (s : Text) : Type 0 where
  pub before : Text
  pub after : Text
  pub splits : s ≡ before ++ (term ++ after)
  pub free_before : is_free (last prev before) ≡ true
  pub free_after : is_free (first after) ≡ true

starts_with-append : (p s : Text) → starts_with (p ++ s) p ≡ true
unfolding starts_with
starts_with-append [] [] = refl
starts_with-append [] (c ∷ s) = refl
starts_with-append (c ∷ p) s = ground (arith, starts_with-append p s)

behind-append : (p s : Text) → behind p (p ++ s) ≡ s
behind-append [] s = refl
behind-append (c ∷ p) s = behind-append p s

starts_with-behind : (s p : Text) → starts_with s p ≡ true → s ≡ p ++ behind p s
unfolding starts_with
starts_with-behind s [] h = refl
starts_with-behind [] (p ∷ ps) h = absurd (ground arith)
starts_with-behind (c ∷ s) (p ∷ ps) h =
    let parts = both h in ground (arith, parts.0, starts_with-behind s ps parts.1)
  where
    both : starts_with (c ∷ s) (p ∷ ps) ≡ true → (c ≡ p) × (starts_with s ps ≡ true)
    both k = ground arith

-- A match at the front of the text, and what the search tests of it.
here :
    (term : Text) (prev : Option ℕ) (s : Text)
    → starts_with s term ≡ true
    → is_word term prev s ≡ true
    → Word term prev s
unfolding is_word
here term prev s m w = record {
  before = [];
  after = behind term s;
  splits = starts_with-behind s term m;
  free_before = ground arith;
  free_after = ground arith;
}

later :
    (term : Text) (prev : Option ℕ) (c : ℕ) (s : Text)
    → Word term (some c) s
    → Word term prev (c ∷ s)
later term prev c s w = record {
  before = c ∷ w.before;
  after = w.after;
  splits = ap (λ (r : Text). c ∷ r) w.splits;
  free_before = w.free_before;
  free_after = w.free_after;
}

cons_eq : {b c : ℕ} {s t : Text} → c ∷ s ≡ b ∷ t → (b ≡ c) × (s ≡ t)
cons_eq e = (ground arith, ground arith)

abbrev AtFront : Text → Option ℕ → Text → Type 0
AtFront term prev s = (starts_with s term ≡ true) × (is_word term prev s ≡ true)

front_or_later :
    (term : Text) (prev : Option ℕ) (c : ℕ) (s before after : Text)
    → c ∷ s ≡ before ++ (term ++ after)
    → is_free (last prev before) ≡ true
    → is_free (first after) ≡ true
    → AtFront term prev (c ∷ s) ⊎ Word term (some c) s
unfolding is_word
front_or_later term prev c s [] after e f g =
    inl (rw e (starts_with-append term after), rw (e, f, behind-append term after, g) refl)
front_or_later term prev c s (b ∷ before) after e f g =
    let parts = cons_eq e in
    let front : is_free (last (some b) before) ≡ true = f in
    inr (record {
      before = before;
      after = after;
      splits = parts.1;
      free_before = subst (λ x. is_free (last (some x) before) ≡ true) parts.0 front;
      free_after = g;
    })

-- A word is at the front, or later.
word-cases :
    (term : Text) (prev : Option ℕ) (c : ℕ) (s : Text)
    → Word term prev (c ∷ s)
    → AtFront term prev (c ∷ s) ⊎ Word term (some c) s
word-cases term prev c s w =
    front_or_later term prev c s w.before w.after w.splits w.free_before w.free_after

no_word-nil : (p : ℕ) (ps : Text) (prev : Option ℕ) → ¬ Word (p ∷ ps) prev []
no_word-nil p ps prev w = go w.before w.splits
  where
    go : (before : Text) → [] ≡ before ++ ((p ∷ ps) ++ w.after) → ⊥
    go [] e = cc
    go (b ∷ before) e = cc

pub nil_or_cons {ℓ} : {A : Type ℓ} {x : A} {xs : List A} → [] ≢ x ∷ xs
nil_or_cons e = absurd (ground arith)

pub none_or_some {ℓ} : {A : Type ℓ} {a : A} → none ≢ some a
none_or_some e = absurd (ground arith)

pub some_eq {ℓ} : {A : Type ℓ} {a b : A} → some a ≡ some b → a ≡ b
some_eq e = cc

-- Whatever the search steps over, each hit is a word; with no hit there is none.
with_hit-some :
    (h : Hit) (o : Option (List Hit)) (hits : List Hit)
    → with_hit h o ≡ some hits
    → (more : List Hit) × (o ≡ some more) × (hits ≡ h ∷ more)
with_hit-some h none hits e = absurd (ground arith)
with_hit-some h (some more) hits e = (more, refl, ground arith)

pub search_from-none :
    (p : ℕ) (ps : Text) (h : Hit) (prev : Option ℕ) (s : Text)
    → search_from (p ∷ ps) h 0 prev s ≡ some []
    → ¬ Word (p ∷ ps) prev s
unfolding search_from
search_from-none p ps h prev [] e w = no_word-nil p ps prev w
search_from-none p ps h prev (c ∷ s) e w =
    let on = search_from-none p ps h (some c) s in
    let cases = word-cases (p ∷ ps) prev c s w in
    elim (Bool-cases (starts_with (c ∷ s) (p ∷ ps))) [
      | inr differs ↦ elim cases [
        | inl front ↦ absurd (false≢true (sym differs ∙ front.0))
        | inr deeper ↦ on (rw differs at e) deeper
      ]
      | inl matches ↦ elim (Bool-cases (is_word (p ∷ ps) prev (c ∷ s))) [
        | inl word ↦
            let found = with_hit-some h _ [] (rw (matches, word) at e) in
            absurd (nil_or_cons found.2)
        | inr part ↦ elim cases [
          | inl front ↦ absurd (false≢true (sym part ∙ front.1))
          | inr deeper ↦ elim (Bool-cases (ltb c 128)) [
            | inl ascii ↦ on (rw (matches, part, ascii) at e) deeper
            | inr wide ↦ absurd (none_or_some (rw (matches, part, wide) at e))
          ]
        ]
      ]
    ]

All-later :
    (term : Text) (h : Hit) (prev : Option ℕ) (c : ℕ) (s : Text) (hits : List Hit)
    → All (λ hit. (hit ≡ h) × Word term (some c) s) hits
    → All (λ hit. (hit ≡ h) × Word term prev (c ∷ s)) hits
All-later term h prev c s hits a = All-map _ _ hits (λ hit x. (x.0, later term prev c s x.1)) a

pub search_from-All :
    (term : Text) (h : Hit) (skip : ℕ) (prev : Option ℕ) (s : Text) (hits : List Hit)
    → search_from term h skip prev s ≡ some hits
    → All (λ hit. (hit ≡ h) × Word term prev s) hits
unfolding search_from
search_from-All term h skip prev [] hits e = rw (sym (some_eq e)) tt
search_from-All term h (suc skip) prev (c ∷ s) hits e =
    All-later term h prev c s hits (search_from-All term h skip (some c) s hits e)
search_from-All term h zero prev (c ∷ s) hits e =
    let on = search_from-All term h 0 (some c) s in
    elim (Bool-cases (starts_with (c ∷ s) term)) [
      | inr differs ↦ All-later term h prev c s hits (on hits (rw differs at e))
      | inl matches ↦ elim (Bool-cases (is_word term prev (c ∷ s))) [
        | inl word ↦
            let (more, past, is) = with_hit-some h _ hits (rw (matches, word) at e) in
            let tail = search_from-All term h (length term - 1) (some c) s more past in
            rw is ((refl, here term prev (c ∷ s) matches word), All-later term h prev c s more tail)
        | inr part ↦ elim (Bool-cases (ltb c 128)) [
          | inl ascii ↦ All-later term h prev c s hits (on hits (rw (matches, part, ascii) at e))
          | inr wide ↦ absurd (none_or_some (rw (matches, part, wide) at e))
        ]
      ]
    ]
