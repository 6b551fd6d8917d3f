-- ===== src/Redline/Reports.antt =====
-- What `scan` of src/redline.rs reports of a reply.
use mathlib.Core.List.{Memᴰ}
use wintermute_brain.Prelude.Unicode.{Unicode, is_empty}
use wintermute_brain.Prelude.{
  ℕ, ◌≡◌, ◌≢◌, ◌⊎◌, ◌↔◌, refl, sym, ap, subst, ◌∙◌, inl, inr, List, [], ◌∷◌, ◌++◌, Option, none,
  some, Text, All, All-append, All-map,
}
use wintermute_brain.Redline.{Hit, search_from, both_hits, normalise, scan, locate_in_original}
use wintermute_brain.Redline.Words.{
  Word, nil_or_cons, none_or_some, some_eq, search_from-none, search_from-All,
}

-- What the scan reports, for one term: its word stands in the reply.
abbrev pub Stands : Unicode → Text → Text → Type 0
Stands u reply term = Word (normalise u term) none (normalise u reply)

abbrev pub Absent : Unicode → Text → Text → Type 0
Absent u reply term = normalise u term ≢ [] → ¬ Stands u reply term

abbrev pub Found : Unicode → Text → List Text → Hit → Type 0
Found u reply forbidden hit =
    Memᴰ hit.term forbidden × (normalise u hit.term ≢ []) × Stands u reply hit.term

both_hits-some :
    (o o' : Option (List Hit)) (hits : List Hit)
    → both_hits o o' ≡ some hits
    → (found more : List Hit) × (o ≡ some found) × (o' ≡ some more) × (hits ≡ found ++ more)
both_hits-some none o' hits e = absurd (none_or_some e)
both_hits-some (some found) none hits e = absurd (none_or_some e)
both_hits-some (some found) (some more) hits e = (found, more, refl, refl, sym (some_eq e))

pub Text-cases : (s : Text) → (s ≡ []) ⊎ ((p : ℕ) × (ps : Text) × (s ≡ p ∷ ps))
Text-cases [] = inl refl
Text-cases (p ∷ ps) = inr (p, ps, refl)

abbrev pub hit_for : Unicode → Text → Text → Hit
hit_for u reply term = record { term = term; byte_range = locate_in_original u reply term }

-- The scan for the first term, where that is not empty, and for the rest.
record Parts (u : Unicode) (reply term : Text) (forbidden : List Text) (hits : List Hit)
    : Type 0 where
  p : ℕ
  ps : Text
  found : List Hit
  more : List Hit
  normal : normalise u term ≡ p ∷ ps
  finds : search_from (p ∷ ps) (hit_for u reply term) 0 none (normalise u reply) ≡ some found
  rest : scan u reply forbidden ≡ some more
  hits_are : hits ≡ found ++ more

scan-cons :
    (u : Unicode) (reply term : Text) (forbidden : List Text) (hits : List Hit)
    → scan u reply (term ∷ forbidden) ≡ some hits
    → ((normalise u term ≡ []) × (scan u reply forbidden ≡ some hits))
      ⊎ Parts u reply term forbidden hits
unfolding scan is_empty
scan-cons u reply term forbidden hits e = elim (Text-cases (normalise u term)) [
  | inl none' ↦ inl (none', rw none' at e)
  | inr (p, ps, n) ↦
      let (found, more, f, m, h) = both_hits-some _ _ hits (rw n at e) in
      inr (record {
        p = p;
        ps = ps;
        found = found;
        more = more;
        normal = n;
        finds = f;
        rest = m;
        hits_are = h;
      })
]

Found-hit :
    (u : Unicode) (reply term : Text) (forbidden : List Text) (p : ℕ) (ps : Text)
    → normalise u term ≡ p ∷ ps
    → (h : Hit) → (h ≡ hit_for u reply term) × Word (p ∷ ps) none (normalise u reply)
    → Found u reply (term ∷ forbidden) h
Found-hit u reply term forbidden p ps n h x = subst (Found u reply (term ∷ forbidden)) (sym x.0) (
  Memᴰ.head refl,
  (λ e. nil_or_cons (sym e ∙ n)),
  subst (λ t. Word t none (normalise u reply)) (sym n) x.1,
)

Found-tail :
    (u : Unicode) (reply term : Text) (forbidden : List Text) (h : Hit)
    → Found u reply forbidden h
    → Found u reply (term ∷ forbidden) h
Found-tail u reply term forbidden h x = (Memᴰ.tail x.0, x.1, x.2)

scan-Found :
    (u : Unicode) (reply : Text) (forbidden : List Text) (hits : List Hit)
    → scan u reply forbidden ≡ some hits
    → All (Found u reply forbidden) hits
unfolding scan
scan-Found u reply [] hits e = rw (sym (some_eq e)) tt
scan-Found u reply (term ∷ forbidden) hits e = elim (scan-cons u reply term forbidden hits e) [
  | inl (n, rest) ↦
      All-map _ _ hits (Found-tail u reply term forbidden) (scan-Found u reply forbidden hits rest)
  | inr parts ↦
      let found = search_from-All (parts.p ∷ parts.ps) _ 0 none _ parts.found parts.finds in
      let more = scan-Found u reply forbidden parts.more parts.rest in
      rw parts.hits_are (
        All-append _ parts.found parts.more
          (All-map _ _ parts.found (Found-hit u reply term forbidden parts.p parts.ps parts.normal)
            found)
          (All-map _ _ parts.more (Found-tail u reply term forbidden) more))
]

nil-append : {A : Type 0} (xs ys : List A) → [] ≡ xs ++ ys → (xs ≡ []) × (ys ≡ [])
nil-append [] ys e = (refl, sym e)
nil-append (x ∷ xs) ys e = absurd (nil_or_cons e)

scan-Absent :
    (u : Unicode) (reply : Text) (forbidden : List Text)
    → scan u reply forbidden ≡ some []
    → All (Absent u reply) forbidden
scan-Absent u reply [] e = tt
scan-Absent u reply (term ∷ forbidden) e = elim (scan-cons u reply term forbidden [] e) [
  | inl (n, rest) ↦ ((λ some_term w. some_term n), scan-Absent u reply forbidden rest)
  | inr parts ↦
      let (no_found, no_more) = nil-append parts.found parts.more parts.hits_are in
      let none_found =
        search_from-none parts.p parts.ps _ none (normalise u reply)
          (parts.finds ∙ ap some no_found) in
      (
        (λ some_term w. none_found (subst (λ t. Word t none (normalise u reply)) parts.normal w)),
        scan-Absent u reply forbidden (parts.rest ∙ ap some no_more),
      )
]

All-at {ℓ κ} : {A : Type ℓ} (P : A → Type κ) {x : A} {xs : List A} → Memᴰ x xs → All P xs → P x
All-at P (Memᴰ.head e) h = subst P (sym e) h.0
All-at P (Memᴰ.tail m) h = All-at P m h.1

Absent-no_hits :
    (u : Unicode) (reply : Text) (forbidden : List Text) (hits : List Hit)
    → All (Absent u reply) forbidden
    → All (Found u reply forbidden) hits
    → hits ≡ []
Absent-no_hits u reply forbidden [] a f = refl
Absent-no_hits u reply forbidden (h ∷ hits) a f =
    absurd (All-at (Absent u reply) f.0.0 a f.0.1 f.0.2)

-- Where the scan does not panic, each hit is a forbidden term that stands in the normal form of the
-- reply as a word; and there is no hit exactly when no forbidden term with a normal form stands there
-- so.
pub scan-Word :
    (u : Unicode) (reply : Text) (forbidden : List Text) (hits : List Hit)
    → scan u reply forbidden ≡ some hits
    → All (Found u reply forbidden) hits × ((hits ≡ []) ↔ All (Absent u reply) forbidden)
scan-Word u reply forbidden hits e =
    let found = scan-Found u reply forbidden hits e in
    (
      found,
      (
        (λ none'. scan-Absent u reply forbidden (e ∙ ap some none')),
        (λ absent. Absent-no_hits u reply forbidden hits absent found),
      ),
    )
