-- ===== src/Strain/Union.antt =====
-- The effective policy is the union of the floor and the persona; the lint finds what a persona drops.
use mathlib.Core.Bool.{false≢true}
use wintermute_brain.Prelude.Unicode.{Unicode}
use wintermute_brain.Redline.{scan}
use wintermute_brain.Prelude.{
  ◌≡◌, ◌↔◌, refl, ap, subst, ◌∙◌, inl, inr, Bool, true, false, not, ◌&&◌, ◌||◌, List, [], ◌∷◌, ◌++◌,
  some, Text, text_eq, text_eq_iff, text_eq_refl, arith, Bool-cases, All,
}
use wintermute_brain.Redline.Reports.{Absent, scan-Word}
use wintermute_brain.Strain.{
  BaseFloor, FloorViolation, has, dropped, check_floor_violations, keep_new,
  effective_forbidden_terms, apply_floor, passes,
}

has-append : (xs ys : List Text) (t : Text) → has (xs ++ ys) t ≡ (has xs t || has ys t)
unfolding has
has-append [] ys t = refl
has-append (x ∷ xs) ys t = ground (arith, has-append xs ys t)

has-keep_new :
    (seen ts : List Text) (t : Text) → has (keep_new seen ts) t ≡ (not (has seen t) && has ts t)
unfolding has keep_new
has-keep_new seen [] t = ground arith
has-keep_new seen (x ∷ ts) t =
    ground (arith, text_eq_iff x t, has-keep_new seen ts t, has-keep_new (x ∷ seen) ts t)

-- No term of the list stands in it again.
abbrev pub Distinct : List Text → Type 0
Distinct [] = Unit
Distinct (t ∷ ts) = (has ts t ≡ false) × Distinct ts

keep_new-Distinct : (seen ts : List Text) → Distinct (keep_new seen ts)
unfolding keep_new has
keep_new-Distinct seen [] = tt
keep_new-Distinct seen (t ∷ ts) = elim (Bool-cases (has seen t)) [
  | inl old ↦ rw old (keep_new-Distinct seen ts)
  | inr new ↦ rw new (
    ground (arith, has-keep_new (t ∷ seen) ts t, text_eq_refl t),
    keep_new-Distinct (t ∷ seen) ts,
  )
]

dropped-none :
    (debug : Text → Text) (persona ts : List Text)
    → (dropped debug persona ts ≡ []) ↔ All (λ t. has persona t ≡ true) ts
unfolding dropped
dropped-none debug persona [] = ((λ _. tt), (λ _. refl))
dropped-none debug persona (t ∷ ts) = elim (Bool-cases (has persona t)) [
  | inl kept ↦ rw kept (
    (λ e. (refl, (dropped-none debug persona ts).0 e)),
    (λ a. (dropped-none debug persona ts).1 a.1),
  )
  | inr lost ↦ rw lost ((λ e. absurd (ground arith)), (λ a. absurd (ground arith)))
]

passes_nil : (vs : List FloorViolation) → passes vs ≡ true → vs ≡ []
unfolding passes
passes_nil [] h = refl
passes_nil (v ∷ vs) h = absurd (false≢true h)

nil_passes : (vs : List FloorViolation) → vs ≡ [] → passes vs ≡ true
unfolding passes
nil_passes vs e = rw e refl

-- The effective terms are those of the floor and those of the persona, each once; and there is
-- no violation exactly when the persona has every term of the floor.
pub apply_floor-union :
    (debug : Text → Text) (base : BaseFloor) (persona : List Text)
    → ((t : Text)
        → has (apply_floor debug base persona).effective_forbidden_terms t
          ≡ (has base.forbidden_terms t || has persona t))
      × Distinct (apply_floor debug base persona).effective_forbidden_terms
      × ((passes (apply_floor debug base persona).violations ≡ true)
          ↔ All (λ t. has persona t ≡ true) base.forbidden_terms)
unfolding apply_floor effective_forbidden_terms check_floor_violations has passes
apply_floor-union debug base persona = (
  (λ t.
      has-keep_new [] (base.forbidden_terms ++ persona) t
      ∙ has-append base.forbidden_terms persona t),
  keep_new-Distinct [] (base.forbidden_terms ++ persona),
  (
    (λ ok. (dropped-none debug persona base.forbidden_terms).0 (passes_nil _ ok)),
    (λ all. nil_passes _ ((dropped-none debug persona base.forbidden_terms).1 all)),
  ),
)

has-All {ℓ} : (P : Text → Type ℓ) (ts : List Text) (t : Text) → has ts t ≡ true → All P ts → P t
unfolding has
has-All P [] t h a = absurd (false≢true h)
has-All P (x ∷ ts) t h a = elim (Bool-cases (text_eq x t)) [
  | inl same ↦ subst P ((text_eq_iff x t).0 same) a.0
  | inr other ↦ has-All P ts t (rw other at h) a.1
]

or_true : (b : Bool) → (b || true) ≡ true
or_true true = refl
or_true false = refl

All-has {ℓ} : (P : Text → Type ℓ) (ts : List Text) → ((t : Text) → has ts t ≡ true → P t) → All P ts
unfolding has
All-has P [] f = tt
All-has P (x ∷ ts) f =
    (f x (rw (text_eq_refl x) refl), All-has P ts (λ t h. f t (rw h (or_true (text_eq x t)))))

-- Whatever the terms of the persona: in a reply that the scan finds clean under the effective policy
-- no term of the floor stands as a word.
pub scan-apply_floor :
    (u : Unicode) (debug : Text → Text) (base : BaseFloor) (persona : List Text) (reply : Text)
    → scan u reply (apply_floor debug base persona).effective_forbidden_terms ≡ some []
    → All (Absent u reply) base.forbidden_terms
scan-apply_floor u debug base persona reply clean =
    let absent = (scan-Word u reply _ [] clean).1.0 refl in
    let union = (apply_floor-union debug base persona).0 in
    All-has (Absent u reply) base.forbidden_terms
      (λ t h. has-All (Absent u reply) _ t (union t ∙ ap (λ b. b || has persona t) h) absent)
