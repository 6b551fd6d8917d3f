-- ===== src/Prelude/Numbers.antt =====
-- `str::parse` of an unsigned integer that is at most a bound.
use Prim.Native.Nat.{ℕ, ◌+◌, ◌-◌, ◌*◌}
use mathlib.Core.Bool.{◌&&◌}
use mathlib.Core.List.{[], ◌∷◌}
use wintermute_brain.Prelude.Tests.{leb, ◌==◌, if◌then◌else◌}
use wintermute_brain.Prelude.Strings.{Text, codes}
use wintermute_brain.Prelude.Results.{Result, ok, err}

-- The digits from left to right: a character that is no digit ends it, and so does a digit that takes
-- the number over the bound.
unfoldable pub parse_digits : ℕ → ℕ → Text → Result Text ℕ
parse_digits bound n [] = ok n
parse_digits bound n (c ∷ s) =
    let next = n * 10 + (c - 48) in
    let rest = parse_digits bound next s in
    if leb 48 c && leb c 57
    then (if leb next bound then rest else err (codes "number too large to fit in target type"))
    else err (codes "invalid digit found in string")

-- A sign in front may be a plus.
unfoldable pub parse_unsigned : ℕ → Text → Result Text ℕ
unfolding parse_digits
parse_unsigned bound [] = err (codes "cannot parse integer from empty string")
parse_unsigned bound (c ∷ []) = parse_digits bound 0 (c ∷ [])
parse_unsigned bound (c ∷ d ∷ s) =
    if c == 43 then parse_digits bound 0 (d ∷ s) else parse_digits bound 0 (c ∷ d ∷ s)
