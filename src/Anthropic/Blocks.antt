-- ===== src/Anthropic/Blocks.antt =====
-- The blocks of a buffered text, and what `pop_event` makes of them.
use wintermute_brain.Prelude.{
  Result, ok, err, ℕ, suc, ◌<◌, ◌≡◌, refl, sym, ap, ◌∙◌, subst, inl, inr, List, [], ◌∷◌, ◌++◌,
  append_assoc, Option, none, some, Option-cases, Text, starts_with, length, arith,
}
use wintermute_brain.Anthropic.{StreamEvent, ClientError, SerdeJson}
use wintermute_brain.Anthropic.Sse.{
  behind_delimiter, longer, find_block_boundary, parse_event_block, Item,
}

delimiter-append :
    (s t rest : Text)
    → behind_delimiter s ≡ some rest
    → behind_delimiter (s ++ t) ≡ some (rest ++ t)
unfolding behind_delimiter starts_with
delimiter-append [] t rest h = cc
delimiter-append (a ∷ []) t rest h = ground arith
delimiter-append (a ∷ b ∷ []) t rest h = ground arith
delimiter-append (a ∷ b ∷ c ∷ []) t rest h = ground arith
delimiter-append (a ∷ b ∷ c ∷ d ∷ s) t rest h = ground arith

no_delimiter :
    (c : ℕ) (s t block rest : Text)
    → behind_delimiter (c ∷ s) ≡ none
    → find_block_boundary s ≡ some (block, rest)
    → behind_delimiter (c ∷ (s ++ t)) ≡ none
unfolding behind_delimiter starts_with find_block_boundary
no_delimiter c [] t block rest h found = cc
no_delimiter c (a ∷ []) t block rest h found = ground arith
no_delimiter c (a ∷ b ∷ []) t block rest h found = ground arith
no_delimiter c (a ∷ b ∷ d ∷ s) t block rest h found = ground arith

longer-some :
    (c : ℕ) (o : Option (Text × Text)) (block rest : Text)
    → longer c o ≡ some (block, rest)
    → (block' : Text) × (o ≡ some (block', rest)) × (block ≡ c ∷ block')
longer-some c none block rest h = cc
longer-some c (some (b, r)) block rest h = (
  b,
  ap (λ (x : Text). some (b, x)) (ap (λ (o : Option (Text × Text)). second rest o) h),
  ap (λ (o : Option (Text × Text)). first block o) (sym h),
)
  where
    second : Text → Option (Text × Text) → Text
    second d none = d
    second d (some p) = p.1

    first : Text → Option (Text × Text) → Text
    first d none = d
    first d (some p) = p.0

-- What follows a block makes no difference to it.
pub find_block_boundary-append :
    (s t block rest : Text)
    → find_block_boundary s ≡ some (block, rest)
    → find_block_boundary (s ++ t) ≡ some (block, rest ++ t)
unfolding find_block_boundary
find_block_boundary-append [] t block rest h = cc
find_block_boundary-append (c ∷ s) t block rest h = elim (Option-cases (behind_delimiter (c ∷ s))) [
  | inr (r, e) ↦
      let at_once : some ([], r) ≡ some (block, rest) = rw (e, find_block_boundary) at h in
      rw (delimiter-append (c ∷ s) t r e, find_block_boundary)
        (ap (λ (o : Option (Text × Text)). with_more t o) at_once)
  | inl e ↦
      let later : longer c (find_block_boundary s) ≡ some (block, rest) =
        rw (e, find_block_boundary) at h in
      let (block', found, is) = longer-some c (find_block_boundary s) block rest later in
      let ih = find_block_boundary-append s t block' rest found in
      rw (no_delimiter c s t block' rest e found, find_block_boundary) (rw ih (rw is refl))
]
  where
    with_more : Text → Option (Text × Text) → Option (Text × Text)
    with_more u none = none
    with_more u (some (b, r)) = some (b, r ++ u)

behind_delimiter-shorter : (s rest : Text) → behind_delimiter s ≡ some rest → length rest < length s
unfolding behind_delimiter starts_with
behind_delimiter-shorter [] rest h = cc
behind_delimiter-shorter (a ∷ []) rest h = ground arith
behind_delimiter-shorter (a ∷ b ∷ []) rest h = ground arith
behind_delimiter-shorter (a ∷ b ∷ c ∷ []) rest h = ground arith
behind_delimiter-shorter (a ∷ b ∷ c ∷ d ∷ s) rest h = ground arith

pub find_block_boundary-shorter :
    (s block rest : Text) → find_block_boundary s ≡ some (block, rest) → length rest < length s
unfolding find_block_boundary
find_block_boundary-shorter [] block rest h = cc
find_block_boundary-shorter (c ∷ s) block rest h = elim (Option-cases (behind_delimiter (c ∷ s))) [
  | inr (r, e) ↦
      let at_once : some ([], r) ≡ some (block, rest) = rw (e, find_block_boundary) at h in
      let same : r ≡ rest = cc in
      subst (λ (x : Text). length x < suc (length s)) same (behind_delimiter-shorter (c ∷ s) r e)
  | inl e ↦
      let later : longer c (find_block_boundary s) ≡ some (block, rest) =
        rw (e, find_block_boundary) at h in
      let (block', found, is) = longer-some c (find_block_boundary s) block rest later in
      let ih = find_block_boundary-shorter s block' rest found in omega arith
]

module _ (j : SerdeJson) where
  -- What a block yields.
  abbrev pub items_of : Result ClientError (Option StreamEvent) → List (Item j)
  items_of (ok none) = []
  items_of (ok (some ev)) = ok ev ∷ []
  items_of (err e) = err e ∷ []

  -- A text, the items of its blocks, and what is left behind the last one.
  pub data Yields : Text → List (Item j) → Text → Type 0 where
    no_block : (text : Text) → find_block_boundary text ≡ none → Yields text [] text
    block :
        (text b rest : Text) (items : List (Item j)) (left : Text) (all : List (Item j))
        → find_block_boundary text ≡ some (b, rest)
        → Yields rest items left
        → all ≡ items_of (parse_event_block j b) ++ items
        → Yields text all left

  -- The text may come in two parts: what is left of the first stands before the second.
  pub Yields-append :
      (s t : Text) (items : List (Item j)) (left : Text) (more : List (Item j)) (left' : Text)
      → Yields s items left
      → Yields (left ++ t) more left'
      → Yields (s ++ t) (items ++ more) left'
  Yields-append s t _ _ more left' (no_block _ e) y = y
  Yields-append s t all left more left' (block _ b rest items _ _ e r is) y =
      block (s ++ t) b (rest ++ t) (items ++ more) left' (all ++ more)
        (find_block_boundary-append s t b rest e) (Yields-append rest t items left more left' r y)
        (ap (λ (l : List (Item j)). l ++ more) is
          ∙ append_assoc (items_of (parse_event_block j b)) items more)
