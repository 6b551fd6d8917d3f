-- ===== src/Splitter.antt =====
-- src/sentence_splitter.rs: sentences cut from a stream of text. The index `i` of the scan stands
-- between `before`, the characters before it in reverse order, and those after it. What the source
-- returns as a byte index is here the text up to it and the text after it.
pub mod Scan
pub mod Drain
pub mod Chunks
pub mod Trim
pub mod Kept
mod Tests
use mathlib.Core.List.{reverse}
use wintermute_brain.Prelude.Unicode.{
  Unicode, is_whitespace, is_ascii_digit, is_ascii_uppercase, trim, trim_start, is_empty,
}
use wintermute_brain.Prelude.{
  ℕ, zero, suc, ◌+◌, Bool, true, false, not, ◌&&◌, ◌||◌, List, [], ◌∷◌, ◌++◌, Option, none, some,
  Text, length, leb, ◌==◌, if◌then◌else◌,
}

pub record SentenceSplitter : Type 0 where
  pub buf : Text

abbrev pub new : SentenceSplitter
new = record { buf = [] }

unfoldable pub is_terminator : ℕ → Bool
is_terminator ch = ch == b'.' || ch == b'!' || ch == b'?'

-- How many dots a text starts with.
unfoldable pub dots : Text → ℕ
dots [] = 0
dots (c ∷ s) = if c == b'.' then suc (dots s) else 0

-- The next character on a side, or NUL.
abbrev pub first_or_nul : Text → ℕ
first_or_nul [] = 0
first_or_nul (c ∷ s) = c

unfoldable pub is_ellipsis : Text → ℕ → Text → Bool
is_ellipsis before ch after = ch == b'.' && leb 3 (dots before + 1 + dots after)

unfoldable pub is_decimal : Text → ℕ → Text → Bool
is_decimal before ch after =
    ch == b'.' && is_ascii_digit (first_or_nul before) && is_ascii_digit (first_or_nul after)

unfoldable pub is_initial : Unicode → Text → ℕ → Bool
is_initial u [] ch = false
is_initial u (left ∷ more) ch =
    ch == b'.' && is_ascii_uppercase left && not (u.is_alphabetic (first_or_nul more))

-- The character is passed over as part of an ellipsis: it is in one, or the loop over a run goes on.
unfoldable pub skips : Bool → Text → ℕ → Text → Bool
skips skipping before ch after = (skipping && ch == b'.') || is_ellipsis before ch after

-- The character may end a sentence, if white space comes next.
unfoldable pub may_end : Unicode → Bool → Text → ℕ → Text → Bool
may_end u skipping before ch after =
    not (skips skipping before ch after)
    && is_terminator ch
    && not (ch == b'.' && (is_decimal before ch after || is_initial u before ch))

abbrev pub Cut : Type 0
Cut = Option (Text × Text)

unfoldable pub at_boundary : Text → ℕ → Text → Cut → Cut
at_boundary before ch [] rest = none
at_boundary before ch (d ∷ after) rest =
    if is_whitespace d then some (reverse (ch ∷ before), d ∷ after) else rest

-- The loop of `find_sentence_end`; the flag holds inside the run of an ellipsis.
unfoldable pub scan : Unicode → Bool → Text → Text → Cut
scan u skipping before [] = none
scan u skipping before (ch ∷ after) =
    let rest = scan u (skips skipping before ch after) (ch ∷ before) after in
    if may_end u skipping before ch after then at_boundary before ch after rest else rest

abbrev pub find_sentence_end : Unicode → Text → Cut
find_sentence_end u s = scan u false [] s

abbrev pub push_sentence : Text → List Text → List Text
push_sentence sentence more = if is_empty sentence then more else sentence ∷ more

-- The loop of `drain_sentences` on fuel; a pass shortens the buffer, so its length is enough.
unfoldable pub drain : Unicode → ℕ → Text → List Text × Text
drain u zero buf = ([], buf)
drain u (suc n) buf = elim (find_sentence_end u buf) [
  | none ↦ ([], buf)
  | some cut ↦
      let (more, left) = drain u n (trim_start cut.1) in (push_sentence (trim cut.0) more, left)
]

unfoldable pub drain_sentences : Unicode → Text → List Text × Text
drain_sentences u buf = drain u (suc (length buf)) buf

unfoldable pub push : Unicode → Text → SentenceSplitter → SentenceSplitter × List Text
push u delta s =
    let (sentences, left) = drain_sentences u (s.buf ++ delta) in (record { buf = left }, sentences)

unfoldable pub flush : SentenceSplitter → SentenceSplitter × Option Text
flush s =
    let trimmed = trim s.buf in
    (record { buf = [] }, if is_empty trimmed then none else some trimmed)
