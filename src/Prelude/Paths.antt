-- ===== src/Prelude/Paths.antt =====
-- `PathBuf`: whether it starts at the root, and its components.
use Prim.Native.Nat.{ℕ}
use native.Mathlib.Omega.{arith}
use mathlib.Core.Path.{◌≡◌, refl}
use mathlib.Core.Logic.{inl, inr}
use mathlib.Core.Bool.{Bool, true, false, not, ◌&&◌, ◌||◌}
use mathlib.Core.List.{List, [], ◌∷◌, ◌++◌}
use mathlib.Core.Option.{Option, none, some}
use wintermute_brain.Prelude.Tests.{◌==◌, if◌then◌else◌, Bool-cases}
use wintermute_brain.Prelude.Strings.{Text, codes, text_eq, text_eq_refl}
use wintermute_brain.Prelude.Unicode.{is_empty}

pub record PathBuf : Type 0 where
  pub has_root : Bool
  pub components : List Text

-- The parts between the slashes.
unfoldable pub split_slash : Text → Text → List Text
split_slash part [] = part ∷ []
split_slash part (c ∷ s) =
    let next = part ∷ split_slash [] s in
    let on = split_slash (part ++ c ∷ []) s in if c == b'/' then next else on

abbrev with_part : Bool → Text → List Text → List Text
with_part kept part parts = if kept then part ∷ parts else parts

-- Empty parts and single dots are no components.
unfoldable pub normal_parts : List Text → List Text
unfolding is_empty
normal_parts [] = []
normal_parts (p ∷ ps) = with_part (not (is_empty p || text_eq p (codes "."))) p (normal_parts ps)

-- A single dot is one in front of a path without root.
unfoldable pub parts_of : List Text → List Text
unfolding normal_parts
parts_of [] = []
parts_of (p ∷ ps) = if text_eq p (codes ".") then p ∷ normal_parts ps else normal_parts (p ∷ ps)

unfoldable pub from : Text → PathBuf
unfolding parts_of split_slash
from [] = record { has_root = false; components = [] }
from (c ∷ s) =
    if c == b'/'
    then record { has_root = true; components = normal_parts (split_slash [] s) }
    else record { has_root = false; components = parts_of (split_slash [] (c ∷ s)) }

-- `join` of a relative path.
unfoldable pub join : PathBuf → List Text → PathBuf
join p parts = record { has_root = p.has_root; components = p.components ++ parts }

unfoldable pub parts_eq : List Text → List Text → Bool
parts_eq [] [] = true
parts_eq [] (t ∷ ts) = false
parts_eq (s ∷ ss) [] = false
parts_eq (s ∷ ss) (t ∷ ts) = text_eq s t && parts_eq ss ts

abbrev bool_eq : Bool → Bool → Bool
bool_eq true b = b
bool_eq false b = not b

unfoldable pub path_eq : PathBuf → PathBuf → Bool
unfolding parts_eq
path_eq p q = bool_eq p.has_root q.has_root && parts_eq p.components q.components

-- All but the last component, and the last one.
unfoldable pub init : Text → List Text → List Text
init t [] = []
init t (u ∷ us) = t ∷ init u us

unfoldable pub last_part : Text → List Text → Text
last_part t [] = t
last_part t (u ∷ us) = last_part u us

unfoldable pub parent : PathBuf → Option PathBuf
unfolding init
parent p = elim p.components [
  | [] ↦ none
  | t ∷ ts ↦ some (record { has_root = p.has_root; components = init t ts })
]

-- `with_file_name` of the file name and a suffix. Dots are no file name: nothing is taken away then.
unfoldable pub suffixed : Text → List Text → List Text
unfolding init last_part
suffixed suffix [] = suffix ∷ []
suffixed suffix (t ∷ ts) =
    let name = last_part t ts in
    if text_eq name (codes "..") || text_eq name (codes ".")
    then (t ∷ ts) ++ suffix ∷ []
    else init t ts ++ (name ++ suffix) ∷ []

unfoldable pub with_suffix : Text → PathBuf → PathBuf
unfolding suffixed
with_suffix suffix p = record { has_root = p.has_root; components = suffixed suffix p.components }

unfoldable pub join_slash : List Text → Text
join_slash [] = []
join_slash (p ∷ []) = p
join_slash (p ∷ q ∷ ps) = p ++ b'/' ∷ join_slash (q ∷ ps)

unfoldable pub display : PathBuf → Text
unfolding join_slash
display p = if p.has_root then b'/' ∷ join_slash p.components else join_slash p.components

parts_eq_refl : (ps : List Text) → parts_eq ps ps ≡ true
unfolding parts_eq
parts_eq_refl [] = refl
parts_eq_refl (p ∷ ps) = rw (text_eq_refl p) (parts_eq_refl ps)

pub path_eq_refl : (p : PathBuf) → path_eq p p ≡ true
unfolding path_eq
path_eq_refl p =
    rw (parts_eq_refl p.components) (elim (Bool-cases p.has_root) [
      | inl rooted ↦ rw rooted refl
      | inr relative ↦ rw relative refl
    ])

text_longer : (t : Text) (c : ℕ) (s : Text) → text_eq (t ++ c ∷ s) t ≡ false
unfolding text_eq
text_longer [] c s = refl
text_longer (a ∷ t) c s = rw (text_longer t c s) (ground arith)

parts_longer : (ps : List Text) (q : Text) → parts_eq (ps ++ q ∷ []) ps ≡ false
unfolding parts_eq
parts_longer [] q = refl
parts_longer (p ∷ ps) q = rw (text_eq_refl p) (parts_longer ps q)

last_longer :
    (t : Text) (ts : List Text) (c : ℕ) (s : Text)
    → parts_eq (init t ts ++ (last_part t ts ++ c ∷ s) ∷ []) (t ∷ ts) ≡ false
unfolding parts_eq init last_part
last_longer t [] c s = rw (text_longer t c s) refl
last_longer t (u ∷ us) c s = rw (text_eq_refl t) (last_longer u us c s)

suffixed-other : (c : ℕ) (s : Text) (ps : List Text) → parts_eq (suffixed (c ∷ s) ps) ps ≡ false
unfolding suffixed parts_eq
suffixed-other c s [] = refl
suffixed-other c s (t ∷ ts) =
    elim (Bool-cases
      (text_eq (last_part t ts) (codes "..") || text_eq (last_part t ts) (codes "."))) [
        | inl dots ↦ rw dots (parts_longer (t ∷ ts) (c ∷ s))
        | inr name ↦ rw name (last_longer t ts c s)
      ]

-- No path is the one with a suffix.
pub with_suffix-other : (c : ℕ) (s : Text) (p : PathBuf) → path_eq (with_suffix (c ∷ s) p) p ≡ false
unfolding path_eq with_suffix
with_suffix-other c s p =
    rw (suffixed-other c s p.components) (elim (Bool-cases p.has_root) [
      | inl rooted ↦ rw rooted refl
      | inr relative ↦ rw relative refl
    ])
