-- ===== src/Gate/Once.antt =====
-- No intent id calls its tool twice.
use wintermute_brain.Prelude.Assoc.{lookup}
use wintermute_brain.Prelude.{
  ℕ, ◌+◌, ◌<◌, ◌≡◌, List, [], ◌∷◌, Option, none, some, Text, text_eq, if◌then◌else◌,
}
use wintermute_brain.Bus.{Sink}
use wintermute_brain.Gate.{PendingIntent, Intents, Router, intent_id_for}
use wintermute_brain.Gate.Steps.{Step, grant, step}

abbrev count_found : {A : Type 0} → Option A → ℕ
count_found none = 0
count_found (some a) = 1

module _ {Json : Type 0} (empty_object : Json) (router : Router Json) where
  -- 1 where the step is a grant of `id` that finds its intent, and so goes on to call the tool.
  abbrev redeems : Text → Step Json → Intents Json → ℕ
  redeems id (grant c now_ms) g =
      if text_eq c.intent_id id then count_found (lookup c.intent_id g.pending) else 0
  redeems id _ g = 0

  -- How many grants of `id` find an intent over a list of steps.
  unfoldable pub redeemed : Text → List (Step Json) → Intents Json → Sink Json → ℕ
  redeemed id [] g sink = 0
  redeemed id (s ∷ ss) g sink =
      let (g', sink', ok) = step empty_object router s g sink in
      redeems id s g + redeemed id ss g' sink'

  -- The id was minted by a counter value below the present one.
  abbrev IsMinted : Text → Intents Json → Type 0
  IsMinted id g = (ms seq : ℕ) × (id ≡ intent_id_for ms seq) × (seq < g.intent_counter)

  -- Every id that waits was minted.
  abbrev AllMinted : Intents Json → Type 0
  AllMinted g =
      (id : Text) (pi : PendingIntent Json) → lookup id g.pending ≡ some pi → IsMinted id g
