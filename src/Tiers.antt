-- ===== src/Tiers.antt =====
-- The tier ladder of src/lib.rs, and the cut of it that src/daemon.rs makes at start-up. What
-- `capped_ladder` reads of the environment is an argument, `none` for a variable that is not set.
pub mod Shape
use wintermute_brain.Prelude.Unicode.{trim, is_empty}
use wintermute_brain.Prelude.{
  ℕ, suc, ◌+◌, Bool, true, false, not, List, [], ◌∷◌, ◌++◌, map, Option, none, some, Text, codes,
  text_eq, length, take, if◌then◌else◌, ◌||◌,
}

pub data Backend : Type 0 where
  local anthropic : Backend

pub record Tier : Type 0 where
  pub name : Text
  pub backend : Backend
  pub model : Text
  pub endpoint_override : Option Text

abbrev pub new : Text → Backend → Text → Tier
new name backend model = record {
  name = name;
  backend = backend;
  model = model;
  endpoint_override = none;
}

abbrev pub with_endpoint : Text → Backend → Text → Text → Tier
with_endpoint name backend model endpoint = record {
  name = name;
  backend = backend;
  model = model;
  endpoint_override = some endpoint;
}

abbrev pub default_ladder : List Tier
default_ladder =
    new (codes "local-3b") local (codes "qwen2.5:3b")
    ∷ new (codes "local-8b") local (codes "qwen3:8b")
    ∷ new (codes "haiku") anthropic (codes "haiku")
    ∷ new (codes "sonnet") anthropic (codes "sonnet")
    ∷ new (codes "opus") anthropic (codes "opus")
    ∷ []

abbrev pub is_anthropic : Tier → Bool
is_anthropic t = elim t.backend [ anthropic ↦ true | local ↦ false ]

-- `iter().position(test)`.
unfoldable pub position {ℓ} : {A : Type ℓ} → (A → Bool) → List A → Option ℕ
position test [] = none
position test (x ∷ xs) =
    if test x then some 0 else elim (position test xs) [ none ↦ none | some i ↦ some (suc i) ]

-- `Option::unwrap_or`.
abbrev pub unwrap_or {ℓ} : {A : Type ℓ} → Option A → A → A
unwrap_or none other = other
unwrap_or (some a) other = a

-- `Vec::insert` at the place of the first cloud rung, or at the end.
unfoldable pub insert_before_cloud : Tier → List Tier → List Tier
insert_before_cloud t [] = t ∷ []
insert_before_cloud t (u ∷ us) = if is_anthropic u then t ∷ u ∷ us else u ∷ insert_before_cloud t us

unfoldable pub ladder_with : Text → List Tier → Option Text → Text → List Tier
ladder_with name base none model = base
ladder_with name base (some endpoint) model =
    if is_empty endpoint
    then base
    else insert_before_cloud (with_endpoint name local model endpoint) base

unfoldable pub ladder_with_gpu : Option Text → Text → List Tier
ladder_with_gpu gpu_endpoint gpu_model =
    ladder_with (codes "local-gpu") default_ladder gpu_endpoint gpu_model

unfoldable pub ladder_with_local_llm : List Tier → Option Text → Text → List Tier
ladder_with_local_llm base local_llm_endpoint local_llm_model =
    ladder_with (codes "local-llm") base local_llm_endpoint local_llm_model

-- `WM_BRAIN_MAX_TIER`: keep the rungs up to the named one.
truncate_at : Option ℕ → List Tier → List Tier
truncate_at none tiers = tiers
truncate_at (some pos) tiers = take (pos + 1) tiers

unfoldable pub cap_tiers : Option Text → List Tier → List Tier
unfolding truncate_at
cap_tiers none tiers = tiers
cap_tiers (some max_tier) tiers =
    let cap = trim max_tier in
    if is_empty cap then tiers else truncate_at (position (λ t. text_eq t.name cap) tiers) tiers

abbrev filter {ℓ} : {A : Type ℓ} → (A → Bool) → List A → List A
filter test [] = []
filter test (x ∷ xs) = if test x then x ∷ filter test xs else filter test xs

-- `split(',')`: never empty.
split_comma : Text → Text → List Text
split_comma word [] = word ∷ []
split_comma word (c ∷ s) =
    let same = split_comma (word ++ c ∷ []) s in
    let next = split_comma [] s in if text_eq (c ∷ []) (codes ",") then word ∷ next else same

unfoldable pub any_eq : List Text → Text → Bool
any_eq [] name = false
any_eq (s ∷ ss) name = text_eq s name || any_eq ss name

-- `WM_BRAIN_SKIP_TIERS`: drop the named rungs. With no name left, `retain` keeps all of them.
unfoldable pub skip_tiers : Option Text → List Tier → List Tier
unfolding split_comma
skip_tiers none tiers = tiers
skip_tiers (some names) tiers =
    let skip = filter (λ s. not (is_empty s)) (map trim (split_comma [] names)) in
    filter (λ t. not (any_eq skip t.name)) tiers

unfoldable pub capped_ladder : Option Text → Text → Option Text → Option Text → List Tier
capped_ladder gpu_endpoint gpu_model max_tier skip =
    skip_tiers skip (cap_tiers max_tier (ladder_with_gpu gpu_endpoint gpu_model))

unfoldable pub canonical_model : Text → Text
canonical_model name =
    if text_eq name (codes "haiku") || text_eq name (codes "claude-haiku-4-5")
    then codes "claude-haiku-4-5"
    else if text_eq name (codes "opus") || text_eq name (codes "claude-opus-4-8")
    then codes "claude-opus-4-8"
    else codes "claude-sonnet-4-6"
