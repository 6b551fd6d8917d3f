-- ===== src/Prelude/Unicode.antt =====
-- What the program uses of `char` and `str` beyond ASCII. White space is the short list of the
-- White_Space property; the larger tables (letters, lower case) are a parameter.
use Prim.Native.Nat.{ℕ, ◌+◌}
use mathlib.Core.Bool.{Bool, true, false, ◌&&◌, ◌||◌}
use mathlib.Core.List.{List, [], ◌∷◌, ◌++◌, map}
use wintermute_brain.Prelude.Tests.{leb, ltb, ◌==◌, if◌then◌else◌}
use wintermute_brain.Prelude.Strings.{Text}

-- `char::is_whitespace`.
unfoldable pub is_whitespace : ℕ → Bool
is_whitespace c =
    (leb 9 c && leb c 13)
    || c == 32
    || c == 133
    || c == 160
    || c == 5760
    || (leb 8192 c && leb c 8202)
    || c == 8232
    || c == 8233
    || c == 8239
    || c == 8287
    || c == 12288

-- `char::is_ascii_uppercase`, `is_ascii_digit`, `is_ascii_alphabetic`, `to_ascii_lowercase`.
abbrev pub is_ascii_uppercase : ℕ → Bool
is_ascii_uppercase c = leb b'A' c && leb c b'Z'

abbrev pub is_ascii_digit : ℕ → Bool
is_ascii_digit c = leb b'0' c && leb c b'9'

abbrev pub is_ascii_alphabetic : ℕ → Bool
is_ascii_alphabetic c = is_ascii_uppercase c || (leb b'a' c && leb c b'z')

abbrev pub to_ascii_lowercase : ℕ → ℕ
to_ascii_lowercase c = if is_ascii_uppercase c then c + 32 else c

-- `str::trim_start`, `trim_end` and `trim`.
unfoldable pub trim_start : Text → Text
trim_start [] = []
trim_start (c ∷ s) = if is_whitespace c then trim_start s else c ∷ s

-- A character in front of a text that is trimmed already.
unfoldable pub trim_end_cons : ℕ → Text → Text
trim_end_cons c [] = if is_whitespace c then [] else c ∷ []
trim_end_cons c (d ∷ t) = c ∷ d ∷ t

unfoldable pub trim_end : Text → Text
unfolding trim_end_cons
trim_end [] = []
trim_end (c ∷ s) = trim_end_cons c (trim_end s)

unfoldable pub trim : Text → Text
unfolding trim_start trim_end
trim s = trim_end (trim_start s)

unfoldable pub is_empty : Text → Bool
is_empty [] = true
is_empty (_ ∷ _) = false

-- The tables of the Unicode version that the standard library carries.
pub record Unicode : Type 0 where
  pub is_alphanumeric : ℕ → Bool
  pub is_alphabetic : ℕ → Bool
  pub to_lowercase : Text → Text

-- ASCII read alone: the least that a table holds.
abbrev pub ascii : Unicode
ascii = record {
  is_alphanumeric = λ c. is_ascii_alphabetic c || is_ascii_digit c;
  is_alphabetic = is_ascii_alphabetic;
  to_lowercase = map to_ascii_lowercase;
}

-- `str::split_whitespace`: the maximal runs without white space; `word` is the run being read.
split_from : Text → Text → List Text
split_from word [] = if is_empty word then [] else word ∷ []
split_from word (c ∷ s) =
    let stop = if is_empty word then split_from [] s else word ∷ split_from [] s in
    let go = split_from (word ++ c ∷ []) s in if is_whitespace c then stop else go

unfoldable pub split_whitespace : Text → List Text
unfolding split_from is_whitespace is_empty
split_whitespace s = split_from [] s

-- `join(" ")`.
unfoldable pub join_words : List Text → Text
join_words [] = []
join_words (w ∷ []) = w
join_words (w ∷ v ∷ ws) = w ++ b' ' ∷ join_words (v ∷ ws)

unfoldable pub filter_text : (ℕ → Bool) → Text → Text
filter_text p [] = []
filter_text p (c ∷ s) = let rest = filter_text p s in if p c then c ∷ rest else rest

-- `char::len_utf8` and `str::len`.
unfoldable pub len_utf8 : ℕ → ℕ
len_utf8 c = if ltb c 128 then 1 else if ltb c 2048 then 2 else if ltb c 65536 then 3 else 4

unfoldable pub byte_len : Text → ℕ
unfolding len_utf8
byte_len [] = 0
byte_len (c ∷ s) = len_utf8 c + byte_len s
