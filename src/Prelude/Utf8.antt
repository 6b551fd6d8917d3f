-- ===== src/Prelude/Utf8.antt =====
-- `str::from_utf8` and `str::as_bytes`: a text as bytes.
use Prim.Native.Nat.{ℕ, ◌+◌, ◌-◌, ◌*◌, ◌/◌, ◌%◌}
use mathlib.Core.Bool.{Bool, ◌&&◌}
use mathlib.Core.List.{List, [], ◌∷◌, ◌++◌}
use wintermute_brain.Prelude.Tests.{leb, ltb, ◌==◌, if◌then◌else◌}
use wintermute_brain.Prelude.Strings.{Text}

-- What the first bytes of a character are: a whole character, a start of one, or no such thing.
pub data Utf8 : Type 0 where
  whole : ℕ → Utf8
  partial invalid : Utf8

abbrev in_range : ℕ → ℕ → ℕ → Bool
in_range lo hi b = leb lo b && leb b hi

-- The second byte behind the first one, without overlong forms, surrogates and what is past U+10FFFF.
abbrev second_ok : ℕ → ℕ → Bool
second_ok a b =
    if a == 224
    then in_range 160 191 b
    else if a == 237
    then in_range 128 159 b
    else if a == 240
    then in_range 144 191 b
    else if a == 244
    then in_range 128 143 b
    else in_range 128 191 b

unfoldable pub utf8_of : List ℕ → Utf8
utf8_of (a ∷ []) = if ltb a 128 then whole a else if in_range 194 244 a then partial else invalid
utf8_of (a ∷ b ∷ []) =
    if second_ok a b
    then (if ltb a 224 then whole ((a - 192) * 64 + (b - 128)) else partial)
    else invalid
utf8_of (a ∷ b ∷ c ∷ []) =
    if in_range 128 191 c
    then (if ltb a 240 then whole (((a - 224) * 64 + (b - 128)) * 64 + (c - 128)) else partial)
    else invalid
utf8_of (a ∷ b ∷ c ∷ d ∷ []) =
    if in_range 128 191 d
    then whole ((((a - 240) * 64 + (b - 128)) * 64 + (c - 128)) * 64 + (d - 128))
    else invalid
utf8_of _ = invalid

abbrev with_char : ℕ → Text × List ℕ → Text × List ℕ
with_char c (s, rest) = (c ∷ s, rest)

-- The text of the longest valid prefix, up to `valid_up_to`, and the bytes behind it. `held` is the
-- start of the character that is being read.
unfoldable pub from_utf8_held : List ℕ → List ℕ → Text × List ℕ
from_utf8_held held [] = ([], held)
from_utf8_held held (b ∷ bytes) = elim (utf8_of (held ++ b ∷ [])) [
  | whole c ↦ with_char c (from_utf8_held [] bytes)
  | partial ↦ from_utf8_held (held ++ b ∷ []) bytes
  | invalid ↦ ([], held ++ b ∷ bytes)
]

unfoldable pub from_utf8 : List ℕ → Text × List ℕ
unfolding from_utf8_held
from_utf8 bytes = from_utf8_held [] bytes

unfoldable pub encode_char : ℕ → List ℕ
encode_char c =
    if ltb c 128
    then c ∷ []
    else if ltb c 2048
    then (192 + c / 64) ∷ (128 + c % 64) ∷ []
    else if ltb c 65536
    then (224 + c / 4096) ∷ (128 + c / 64 % 64) ∷ (128 + c % 64) ∷ []
    else (240 + c / 262144) ∷ (128 + c / 4096 % 64) ∷ (128 + c / 64 % 64) ∷ (128 + c % 64) ∷ []

unfoldable pub as_bytes : Text → List ℕ
as_bytes [] = []
as_bytes (c ∷ s) = encode_char c ++ as_bytes s
