-- ===== src/Router/Policy.antt =====
-- When the policy recommends the cloud.
use wintermute_brain.Prelude.{◌≡◌, ◌≢◌, ◌⊎◌, ◌↔◌, true, none, arith}
use wintermute_brain.Router.{
  TurnKind, classify_turn, local, cloud, canned, auto, cloud_only, PolicyInputs,
  apply_routing_policy,
}

-- The inputs on which a turn may start in the cloud.
abbrev pub CloudAllowed : PolicyInputs → Type 0
CloudAllowed i =
    (i.pending_tier_override ≡ none)
    × ((i.prefer ≡ cloud_only)
        ⊎ (i.prefer ≡ auto)
          × (classify_turn i.transcript i.command_max_words ≡ TurnKind.conversational)
          × (i.online ≡ true)
          × (i.api_key_present ≡ true))

-- The policy recommends the cloud exactly when no override is set and either the deployment prefers the
-- cloud, or it has no preference and the turn is conversational, the cloud reachable and the key
-- present. In every other case it recommends the local tier; it never recommends the canned one.
pub apply_routing_policy-CloudAllowed :
    (i : PolicyInputs)
    → (((apply_routing_policy i).tier ≡ cloud) ↔ CloudAllowed i)
      × ((apply_routing_policy i).tier ≢ cloud → (apply_routing_policy i).tier ≡ local)
      × ((apply_routing_policy i).tier ≢ canned)
unfolding apply_routing_policy
apply_routing_policy-CloudAllowed i = (
  ((λ h. (ground arith, ground arith)), (λ h. ground arith)),
  (λ h. ground arith),
  (λ h. ground arith),
)
