-- ===== src/Prelude/Decimal.antt =====
-- `format!("{n}")` of an unsigned number: its decimal digits, most significant first.
use Prim.Native.Nat.{ℕ, zero, suc, ◌+◌, ◌-◌, ◌*◌, ◌/◌, ◌%◌, ◌≤◌, ◌<◌}
use mathlib.Core.Path.{◌≡◌, refl, sym, ap, ◌∙◌}
use mathlib.Core.List.{[], ◌∷◌, ◌++◌}
use native.Mathlib.Omega.{arith}
use mathlib.Core.Logic.{inl, inr}
use wintermute_brain.Prelude.Tests.{ltb, if◌then◌else◌, Bool-cases}
use wintermute_brain.Prelude.Lists.{All, All-append}
use wintermute_brain.Prelude.Strings.{Text}

-- The digits with fuel; a number below the fuel never uses it up.
digits_on : ℕ → ℕ → Text
digits_on zero n = []
digits_on (suc f) n =
    let rest = digits_on f (n / 10) ++ (48 + n % 10) ∷ [] in
    if ltb n 10 then (48 + n) ∷ [] else rest

unfoldable pub show : ℕ → Text
unfolding digits_on
show n = digits_on (suc n) n

abbrev value_from : ℕ → Text → ℕ
value_from acc [] = acc
value_from acc (c ∷ cs) = value_from (acc * 10 + (c - 48)) cs

value_from-append :
    (acc : ℕ) (s t : Text) → value_from acc (s ++ t) ≡ value_from (value_from acc s) t
value_from-append acc [] t = refl
value_from-append acc (c ∷ s) t = value_from-append (acc * 10 + (c - 48)) s t

value-digits_on : (f n : ℕ) → n < f → value_from 0 (digits_on f n) ≡ n
unfolding digits_on
value-digits_on zero n h = elim h [ ]
value-digits_on (suc f) n h = elim (Bool-cases (ltb n 10)) [
  | inl small ↦ rw small (omega arith)
  | inr large ↦ rw large (
      value_from-append 0 (digits_on f (n / 10)) ((48 + n % 10) ∷ [])
      ∙ ground (arith, value-digits_on f (n / 10)))
]

-- Distinct numbers are printed differently.
pub show-injective : (m n : ℕ) → show m ≡ show n → m ≡ n
unfolding show
show-injective m n e =
    sym (value-digits_on (suc m) m (omega arith))
    ∙ ap (value_from 0) e
    ∙ value-digits_on (suc n) n (omega arith)

abbrev pub IsDigit : ℕ → Type 0
IsDigit c = (48 ≤ c) × (c < 58)

digits_on-IsDigit : (f n : ℕ) → All IsDigit (digits_on f n)
unfolding digits_on
digits_on-IsDigit zero n = tt
digits_on-IsDigit (suc f) n = elim (Bool-cases (ltb n 10)) [
  | inl small ↦ rw small (ground arith)
  | inr large ↦ rw large (
      All-append IsDigit (digits_on f (n / 10)) ((48 + n % 10) ∷ []) (digits_on-IsDigit f (n / 10))
        (ground arith))
]

pub show-IsDigit : (n : ℕ) → All IsDigit (show n)
unfolding show
show-IsDigit n = digits_on-IsDigit (suc n) n

-- Two runs of digits that end before the same separator are the same run.
pub digits_before :
    (s t r q : Text) (c : ℕ)
    → All IsDigit s
    → All IsDigit t
    → c < 48
    → s ++ c ∷ r ≡ t ++ c ∷ q
    → (s ≡ t) × (r ≡ q)
digits_before [] [] r q c hs ht lt e = (refl, ground arith)
digits_before [] (y ∷ t) r q c hs ht lt e = absurd (ground arith)
digits_before (x ∷ s) [] r q c hs ht lt e = absurd (ground arith)
digits_before (x ∷ s) (y ∷ t) r q c hs ht lt e =
    ground (arith, digits_before s t r q c hs.1 ht.1 lt)
