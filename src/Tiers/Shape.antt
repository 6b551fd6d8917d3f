-- ===== src/Tiers/Shape.antt =====
-- Where the rungs of a start-up ladder stand: the local ones first, then the cloud ones.
use wintermute_brain.Prelude.{
  ℕ, zero, suc, ◌+◌, ◌-◌, ◌≤◌, ◌≡◌, refl, ap, subst, ◌⊎◌, inl, inr, Bool, true, false, List, [],
  ◌∷◌, Option, none, some, Text, codes, text_eq, take, drop, drop-drop, All, arith, Bool-cases,
  Option-cases,
}
use wintermute_brain.Prelude.Unicode.{is_empty, trim}
use wintermute_brain.Tiers.{
  local, anthropic, Tier, with_endpoint, default_ladder, is_anthropic, position,
  insert_before_cloud, ladder_with, ladder_with_gpu, truncate_at, cap_tiers, filter, skip_tiers,
  capped_ladder,
}

abbrev pub IsCloud : Tier → Type 0
IsCloud t = t.backend ≡ anthropic

-- A local rung has neither name that the ladder looks for by itself.
abbrev pub IsLocal : Tier → Type 0
IsLocal t =
    (is_anthropic t ≡ false)
    × (text_eq t.name (codes "sonnet") ≡ false)
    × (text_eq t.name (codes "haiku") ≡ false)

abbrev pub IsSplit : List Tier → Type 0
IsSplit [] = Unit
IsSplit (t ∷ ts) = (IsLocal t × IsSplit ts) ⊎ All IsCloud (t ∷ ts)

All-IsSplit : (ts : List Tier) → All IsCloud ts → IsSplit ts
All-IsSplit [] a = tt
All-IsSplit (t ∷ ts) a = inr a

insert_before_cloud-IsSplit :
    (t : Tier) (ts : List Tier) → IsLocal t → IsSplit ts → IsSplit (insert_before_cloud t ts)
unfolding insert_before_cloud
insert_before_cloud-IsSplit t [] l s = inl (l, tt)
insert_before_cloud-IsSplit t (u ∷ us) l (inl (first, rest)) =
    rw (first.0) (inl (first, insert_before_cloud-IsSplit t us l rest))
insert_before_cloud-IsSplit t (u ∷ us) l (inr all) =
    let cloud : is_anthropic u ≡ true =
      ap (λ k. elim k [ anthropic ↦ true | local ↦ false ]) all.0 in
    rw cloud (inl (l, inr all))

default_ladder-IsSplit : IsSplit default_ladder
unfolding text_eq
default_ladder-IsSplit =
    inl ((refl, refl, refl), inl ((refl, refl, refl), inr (refl, (refl, (refl, tt)))))

ladder_with_gpu-IsSplit :
    (endpoint : Option Text) (model : Text) → IsSplit (ladder_with_gpu endpoint model)
unfolding ladder_with_gpu ladder_with text_eq
ladder_with_gpu-IsSplit none model = default_ladder-IsSplit
ladder_with_gpu-IsSplit (some e) model = elim (Bool-cases (is_empty e)) [
  | inl blank ↦ rw blank default_ladder-IsSplit
  | inr set ↦ rw set (
      insert_before_cloud-IsSplit (with_endpoint (codes "local-gpu") local model e) default_ladder
        (refl, refl, refl) default_ladder-IsSplit)
]

take-All : (n : ℕ) (ts : List Tier) → All IsCloud ts → All IsCloud (take n ts)
take-All zero ts a = tt
take-All (suc n) [] a = tt
take-All (suc n) (t ∷ ts) a = (a.0, take-All n ts a.1)

take-IsSplit : (n : ℕ) (ts : List Tier) → IsSplit ts → IsSplit (take n ts)
take-IsSplit zero ts s = tt
take-IsSplit (suc n) [] s = tt
take-IsSplit (suc n) (t ∷ ts) (inl (first, rest)) = inl (first, take-IsSplit n ts rest)
take-IsSplit (suc n) (t ∷ ts) (inr all) = inr (all.0, take-All n ts all.1)

filter-All : (test : Tier → Bool) (ts : List Tier) → All IsCloud ts → All IsCloud (filter test ts)
filter-All test [] a = tt
filter-All test (t ∷ ts) a = elim (Bool-cases (test t)) [
  | inl kept ↦ rw kept (a.0, filter-All test ts a.1)
  | inr gone ↦ rw gone (filter-All test ts a.1)
]

filter-IsSplit : (test : Tier → Bool) (ts : List Tier) → IsSplit ts → IsSplit (filter test ts)
filter-IsSplit test [] s = tt
filter-IsSplit test (t ∷ ts) (inl (first, rest)) = elim (Bool-cases (test t)) [
  | inl kept ↦ rw kept (inl (first, filter-IsSplit test ts rest))
  | inr gone ↦ rw gone (filter-IsSplit test ts rest)
]
filter-IsSplit test (t ∷ ts) (inr all) =
    All-IsSplit (filter test (t ∷ ts)) (filter-All test (t ∷ ts) all)

truncate_at-IsSplit : (pos : Option ℕ) (ts : List Tier) → IsSplit ts → IsSplit (truncate_at pos ts)
unfolding truncate_at
truncate_at-IsSplit none ts s = s
truncate_at-IsSplit (some pos) ts s = take-IsSplit (pos + 1) ts s

cap_tiers-IsSplit : (cap : Option Text) (ts : List Tier) → IsSplit ts → IsSplit (cap_tiers cap ts)
unfolding cap_tiers
cap_tiers-IsSplit none ts s = s
cap_tiers-IsSplit (some cap) ts s = elim (Bool-cases (is_empty (trim cap))) [
  | inl blank ↦ rw blank s
  | inr set ↦ rw set (truncate_at-IsSplit (position (λ t. text_eq t.name (trim cap)) ts) ts s)
]

skip_tiers-IsSplit :
    (skip : Option Text) (ts : List Tier) → IsSplit ts → IsSplit (skip_tiers skip ts)
unfolding skip_tiers
skip_tiers-IsSplit none ts s = s
skip_tiers-IsSplit (some names) ts s = filter-IsSplit _ ts s

pub capped_ladder-IsSplit :
    (gpu_endpoint : Option Text) (gpu_model : Text) (cap skip : Option Text)
    → IsSplit (capped_ladder gpu_endpoint gpu_model cap skip)
unfolding capped_ladder
capped_ladder-IsSplit gpu_endpoint gpu_model cap skip =
    skip_tiers-IsSplit skip (cap_tiers cap (ladder_with_gpu gpu_endpoint gpu_model)) (
      cap_tiers-IsSplit cap (ladder_with_gpu gpu_endpoint gpu_model)
        (ladder_with_gpu-IsSplit gpu_endpoint gpu_model))

drop-All : (n : ℕ) (ts : List Tier) → All IsCloud ts → All IsCloud (drop n ts)
drop-All zero ts a = a
drop-All (suc n) [] a = tt
drop-All (suc n) (t ∷ ts) a = drop-All n ts a.1

pub drop-All_later :
    (m n : ℕ) (ts : List Tier) → m ≤ n → All IsCloud (drop m ts) → All IsCloud (drop n ts)
drop-All_later m n ts h a =
    let e : m + (n - m) ≡ n = omega arith in
    subst (λ k. All IsCloud (drop k ts)) e
      (subst (All IsCloud) (drop-drop (n - m) m ts) (drop-All (n - m) (drop m ts) a))

-- From a rung that passes a test which no local rung passes, all rungs are cloud rungs.
pub drop-position :
    (test : Tier → Bool) (ts : List Tier) (i : ℕ)
    → ((t : Tier) → IsLocal t → test t ≡ false)
    → IsSplit ts
    → position test ts ≡ some i
    → All IsCloud (drop i ts)
unfolding position
drop-position test [] i l s e = drop-All i [] tt
drop-position test (t ∷ ts) i l (inr all) e = drop-All i (t ∷ ts) all
drop-position test (t ∷ ts) i l (inl (first, rest)) e = elim (Option-cases (position test ts)) [
  | inl absent ↦ absurd (ground (arith, l t first))
  | inr (j, found) ↦
      let k : i ≡ suc j = ground (arith, l t first) in rw k (drop-position test ts j l rest found)
]
