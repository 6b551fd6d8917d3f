-- ===== src/Redline.antt =====
-- src/redline.rs: the scan of a reply for forbidden terms, and what is said in its place. A position in
-- the normalised reply is the character before it and the text after it. `none` stands for a panic:
-- the scan goes on one byte behind a match that is not a word, which is inside a character unless the
-- match starts with an ASCII character.
pub mod Words
pub mod Reports
pub mod Enforce
mod Tests
use wintermute_brain.Prelude.Unicode.{
  Unicode, is_ascii_alphabetic, is_ascii_digit, is_empty, byte_len, len_utf8,
}
use wintermute_brain.Prelude.{
  ℕ, zero, suc, ◌+◌, ◌-◌, ◌%◌, max, Bool, true, false, not, ◌&&◌, ◌||◌, List, [], ◌∷◌, ◌++◌, Option,
  none, some, Text, codes, text_eq, starts_with, length, ltb, ◌==◌, if◌then◌else◌, u64_max,
}

pub record Hit : Type 0 where
  pub term : Text
  pub byte_range : ℕ × ℕ

pub data RedlineAction : Type 0 where
  off : RedlineAction
  safe_phrase : Option Text → RedlineAction
  regenerate : (max_attempts : ℕ) (fallback : Option Text) → RedlineAction

unfoldable pub is_active : RedlineAction → Bool
is_active off = false
is_active (safe_phrase phrase) = true
is_active (regenerate max_attempts fallback) = true

abbrev pub default_safe_phrase : Text
default_safe_phrase = codes "Let me put that a different way — everything's fine."

abbrev pub phrase_or_default : Option Text → Text
phrase_or_default none = default_safe_phrase
phrase_or_default (some phrase) = phrase

-- The tests of `normalise` on the neighbours of a character; past the ends there is no letter.
abbrev pub letter_at : ℕ → Text → Bool
letter_at i [] = false
letter_at zero (c ∷ s) = is_ascii_alphabetic c
letter_at (suc i) (c ∷ s) = letter_at i s

-- The dot of an abbreviation, with one letter on each side; `before` is reversed.
unfoldable pub abbreviation_dot : Text → ℕ → Text → Bool
abbreviation_dot before c after =
    c == b'.'
    && (letter_at 0 before && letter_at 0 after)
    && (not (letter_at 1 before) && not (letter_at 1 after))

unfoldable pub without_dots : Text → Text → Text
without_dots before [] = []
without_dots before (c ∷ after) =
    let rest = without_dots (c ∷ before) after in
    if abbreviation_dot before c after then rest else c ∷ rest

unfoldable pub normalise : Unicode → Text → Text
unfolding without_dots abbreviation_dot
normalise u s = u.to_lowercase (without_dots [] s)

-- `str::find`, with its index in bytes.
unfoldable pub find : Text → Text → Option ℕ
find p [] = if is_empty p then some 0 else none
find p (c ∷ s) =
    let rest : Option ℕ = elim (find p s) [ none ↦ none | some i ↦ some (len_utf8 c + i) ] in
    if starts_with (c ∷ s) p then some 0 else rest

unfoldable pub locate_in_original : Unicode → Text → Text → ℕ × ℕ
locate_in_original u original term =
    let lowered = u.to_lowercase term in
    let normal = normalise u term in
    elim (find lowered (u.to_lowercase original)) [
      | some pos ↦ (pos, pos + byte_len lowered)
      | none ↦ elim (find normal (normalise u original)) [
        | some pos ↦ (pos, pos + byte_len normal)
        | none ↦ (0, 0)
      ]
    ]

-- No letter or digit of ASCII stands next to the match on this side.
abbrev pub is_free : Option ℕ → Bool
is_free none = true
is_free (some c) = not (is_ascii_alphabetic c || is_ascii_digit c)

abbrev pub first : Text → Option ℕ
first [] = none
first (c ∷ s) = some c

-- What follows the match: the rest behind the term.
abbrev pub behind : Text → Text → Text
behind [] s = s
behind (p ∷ ps) [] = []
behind (p ∷ ps) (c ∷ s) = behind ps s

unfoldable pub is_word : Text → Option ℕ → Text → Bool
is_word term prev s = is_free prev && is_free (first (behind term s))

abbrev pub with_hit : Hit → Option (List Hit) → Option (List Hit)
with_hit hit none = none
with_hit hit (some hits) = some (hit ∷ hits)

-- The search for one term from a position on; `skip` characters of the last match are still to pass.
unfoldable pub search_from : Text → Hit → ℕ → Option ℕ → Text → Option (List Hit)
search_from term hit skip prev [] = some []
search_from term hit (suc skip) prev (c ∷ s) = search_from term hit skip (some c) s
search_from term hit zero prev (c ∷ s) =
    let step = search_from term hit zero (some c) s in
    let past = search_from term hit (length term - 1) (some c) s in
    if not (starts_with (c ∷ s) term)
    then step
    else if is_word term prev (c ∷ s)
    then with_hit hit past
    else if ltb c 128
    then step
    else none

abbrev pub both_hits : Option (List Hit) → Option (List Hit) → Option (List Hit)
both_hits none more = none
both_hits (some hits) none = none
both_hits (some hits) (some more) = some (hits ++ more)

unfoldable pub scan : Unicode → Text → List Text → Option (List Hit)
scan u reply [] = some []
scan u reply (term ∷ forbidden) =
    let term_norm = normalise u term in
    let hit : Hit = record { term = term; byte_range = locate_in_original u reply term } in
    let found = search_from term_norm hit 0 none (normalise u reply) in
    if is_empty term_norm then scan u reply forbidden else both_hits found (scan u reply forbidden)

-- The terms of the hits, each at its first place.
abbrev pub seen_before : List Text → Text → Bool
seen_before [] t = false
seen_before (x ∷ xs) t = text_eq x t || seen_before xs t

unfoldable pub distinct_terms : List Text → List Hit → List Text
distinct_terms seen [] = []
distinct_terms seen (h ∷ hits) =
    let again = distinct_terms seen hits in
    let new = h.term ∷ distinct_terms (h.term ∷ seen) hits in
    if seen_before seen h.term then again else new

join_commas : List Text → Text
join_commas [] = []
join_commas (t ∷ []) = t
join_commas (t ∷ v ∷ ts) = t ++ (codes ", " ++ join_commas (v ∷ ts))

unfoldable pub hardened_addendum : List Hit → Text
unfolding join_commas distinct_terms
hardened_addendum [] = []
hardened_addendum (h ∷ hits) =
    codes "Do not use these words in your reply: "
    ++ (join_commas (distinct_terms [] (h ∷ hits)) ++ codes ". Rephrase as a warm friend would.")

-- What `enforce` says in place of a reply with hits.
abbrev pub replacement : RedlineAction → Option Text
replacement off = none
replacement (safe_phrase phrase) = some (phrase_or_default phrase)
replacement (regenerate max_attempts fallback) = some (phrase_or_default fallback)

abbrev pub no_terms : List Text → Bool
no_terms [] = true
no_terms (t ∷ ts) = false

abbrev pub no_hits : List Hit → Bool
no_hits [] = true
no_hits (h ∷ hits) = false

-- The replacement, if there is one, and the counter of enforcements.
unfoldable pub enforce : Unicode → Text → List Text → RedlineAction → ℕ → Option (Option Text × ℕ)
enforce u reply forbidden action counter =
    let scanned : Option (Option Text × ℕ) = elim (scan u reply forbidden) [
      | none ↦ none
      | some hits ↦ some (
          if no_hits hits
          then (none, counter)
          else (replacement action, (counter + 1) % (u64_max + 1)))
    ] in
    if not (is_active action) || no_terms forbidden then some (none, counter) else scanned

-- The closure `model_fn` as a state with a step; the loop counts the attempts that are left.
module _ {S : Type 0} (u : Unicode) (forbidden : List Text) (model_fn : S → Text → Text × S) where
  unfoldable pub attempts_from : ℕ → Option Text → List Hit → S → Option (Text × S)
  attempts_from zero fallback hits s = some (phrase_or_default fallback, s)
  attempts_from (suc n) fallback hits s =
      let (candidate, s') = model_fn s (hardened_addendum hits) in
      elim (scan u candidate forbidden) [
        | none ↦ none
        | some new_hits ↦ elim (no_hits new_hits) [
          | true ↦ some (candidate, s')
          | false ↦ attempts_from n fallback new_hits s'
        ]
      ]

  unfoldable pub enforce_with_regenerate : Text → ℕ → Option Text → S → Option (Text × S)
  unfolding attempts_from
  enforce_with_regenerate original_reply max_attempts fallback s =
      elim (scan u original_reply forbidden) [
        | none ↦ none
        | some hits ↦ attempts_from (max max_attempts 1) fallback hits s
      ]
