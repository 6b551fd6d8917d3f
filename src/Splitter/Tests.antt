-- ===== src/Splitter/Tests.antt =====
-- The splitter on concrete streams.
use mathlib.Core.List.{flatten}
use wintermute_brain.Prelude.Unicode.{ascii, is_whitespace, is_empty, trim}
use wintermute_brain.Prelude.{ℕ, ◌≡◌, refl, true, false, List, [], ◌∷◌, Text, codes, arith}
use wintermute_brain.Splitter.{
  new, push, flush, drain_sentences, drain, scan, may_end, skips, is_ellipsis, is_terminator, dots,
  is_decimal, is_initial, at_boundary,
}
use wintermute_brain.Splitter.Scan.{NoWhiteLetters}
use wintermute_brain.Splitter.Chunks.{stream, stream-flatten}
use wintermute_brain.Splitter.Kept.{Spaced, stream-Spaced}

white_not_letter : (w : ℕ) → is_whitespace w ≡ true → ascii.is_alphabetic w ≡ false
unfolding is_whitespace
white_not_letter w h = ground arith

ascii-NoWhiteLetters : NoWhiteLetters ascii
ascii-NoWhiteLetters = (refl, white_not_letter)

abbrev deltas : List Text
deltas = codes "It is 3." ∷ codes "14 now, J. S" ∷ codes ". Wait... Really" ∷ codes "? Yes." ∷ []

deltas_said :
    stream ascii new deltas ≡ codes "It is 3.14 now, J. S. Wait... Really?" ∷ codes "Yes." ∷ []
unfolding stream push flush drain_sentences drain scan may_end skips is_ellipsis is_terminator dots
    is_decimal is_initial at_boundary is_whitespace is_empty trim
deltas_said = refl

stream-flatten_example : stream ascii new deltas ≡ stream ascii new (flatten deltas ∷ [])
stream-flatten_example = stream-flatten ascii deltas ascii-NoWhiteLetters

stream-Spaced_example : Spaced (stream ascii new deltas) (flatten deltas)
stream-Spaced_example = stream-Spaced ascii deltas ascii-NoWhiteLetters
