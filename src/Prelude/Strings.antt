-- ===== src/Prelude/Strings.antt =====
-- Text that the program walks: a `&str` as the list of its code points (its `chars()`).
use Prim.Native.Nat.{ℕ}
use Prim.Native.Char.{code}
use Prim.Native.String.{String}
use mathlib.Core.Path.{◌≡◌, refl, ap}
use mathlib.Core.Logic.{◌↔◌, inl, inr}
use mathlib.Core.Bool.{Bool, true, false, ◌&&◌, ◌||◌}
use mathlib.Core.List.{List, [], ◌∷◌, ◌++◌}
use native.Mathlib.Omega.{arith}
use wintermute_brain.Prelude.Tests.{◌==◌, Bool-cases}

abbrev pub Text : Type 0
Text = List ℕ

-- The code points of a literal.
abbrev pub codes : String → Text
codes String.[] = []
codes (String.◌∷◌ c s) = code c ∷ codes s

unfoldable pub text_eq : Text → Text → Bool
text_eq [] [] = true
text_eq (a ∷ s) (b ∷ t) = a == b && text_eq s t
text_eq _ _ = false

pub text_eq_iff : (s t : Text) → (text_eq s t ≡ true) ↔ (s ≡ t)
unfolding text_eq
text_eq_iff (a ∷ s) (b ∷ t) = ground (arith, text_eq_iff s t)
text_eq_iff _ _ = ground arith

pub text_eq_refl : (s : Text) → text_eq s s ≡ true
text_eq_refl s = (text_eq_iff s s).1 refl

-- `str::starts_with`, `str::contains`.
unfoldable pub starts_with : Text → Text → Bool
starts_with s [] = true
starts_with [] (p ∷ ps) = false
starts_with (c ∷ s) (p ∷ ps) = c == p && starts_with s ps

unfoldable pub contains : Text → Text → Bool
unfolding starts_with
contains [] p = starts_with [] p
contains (c ∷ s) p = starts_with (c ∷ s) p || contains s p

-- `p` stands somewhere in `s`.
pub record Within (p s : Text) : Type 0 where
  pub before : Text
  pub after : Text
  pub splits : s ≡ before ++ (p ++ after)

starts_with-split : (s p : Text) → starts_with s p ≡ true → (after : Text) × (s ≡ p ++ after)
unfolding starts_with
starts_with-split s [] h = (s, refl)
starts_with-split [] (p ∷ ps) h = cc
starts_with-split (c ∷ s) (p ∷ ps) h =
    let (same, rest) = both h in
    let (after, e) = starts_with-split s ps rest in (after, ground (arith, e))
  where
    both : (c == p && starts_with s ps) ≡ true → ((c == p) ≡ true) × (starts_with s ps ≡ true)
    both k = ground arith

starts_with-append : (p after : Text) → starts_with (p ++ after) p ≡ true
unfolding starts_with
starts_with-append [] [] = refl
starts_with-append [] (c ∷ after) = refl
starts_with-append (c ∷ p) after = ground (arith, starts_with-append p after)

contains-here : (s p : Text) → starts_with s p ≡ true → contains s p ≡ true
unfolding contains
contains-here [] p h = h
contains-here (c ∷ s) p h = ground arith

contains-append : (before p after : Text) → contains (before ++ (p ++ after)) p ≡ true
unfolding contains
contains-append [] p after = contains-here (p ++ after) p (starts_with-append p after)
contains-append (b ∷ before) p after = ground (arith, contains-append before p after)

pub Within-contains : (s p : Text) → Within p s → contains s p ≡ true
Within-contains s p w = rw w.splits (contains-append w.before p w.after)

pub contains-Within : (s p : Text) → contains s p ≡ true → Within p s
unfolding contains
contains-Within [] p h =
    let (after, e) = starts_with-split [] p h in record { before = []; after = after; splits = e }
contains-Within (c ∷ s) p h = elim (Bool-cases (starts_with (c ∷ s) p)) [
  | inl here ↦
      let (after, e) = starts_with-split (c ∷ s) p here in
      record { before = []; after = after; splits = e }
  | inr later ↦
      let w = contains-Within s p (rw later at h) in
      record { before = c ∷ w.before; after = w.after; splits = ap (◌∷◌ c) w.splits }
]
