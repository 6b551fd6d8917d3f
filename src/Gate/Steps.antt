-- ===== src/Gate/Steps.antt =====
-- The gate driven by any order of proposals, grants and denials.
use wintermute_brain.Prelude.Assoc.{lookup, lookup-insert, lookup-remove}
use wintermute_brain.Prelude.{
  ℕ, ◌+◌, ◌%◌, ◌≡◌, refl, ap, ◌∙◌, List, [], ◌∷◌, Option, none, some, Text, Bool, text_eq,
  if◌then◌else◌, u64_max,
}
use wintermute_brain.Bus.{Sink}
use wintermute_brain.Gate.{
  DestructiveIntent, PendingIntent, ConfirmGrantedEvent, ConfirmDeniedEvent, Intents, Router,
  intent_id_for, publish_destructive, handle_confirm_granted, handle_confirm_denied,
}

-- A reply of the model that proposes an intent, or an answer of the dialog.
pub data Step (Json : Type 0) : Type 0 where
  propose : DestructiveIntent Json → Text → ℕ → Option Text → Step Json
  grant : ConfirmGrantedEvent → ℕ → Step Json
  deny : ConfirmDeniedEvent → ℕ → Step Json

-- The gate and the bus of a daemon that starts.
abbrev pub fresh : {Json : Type 0} → Intents Json
fresh = record { pending = []; intent_counter = 0 }

abbrev pub quiet : {Json : Type 0} → (accepts rejects : ℕ → Bool) → Sink Json
quiet accepts rejects = record {
  log = [];
  on_bus = [];
  attempts = 0;
  accepts = accepts;
  rejects = rejects;
}

module _ {Json : Type 0} (empty_object : Json) (router : Router Json) where
  unfoldable pub step : Step Json → Intents Json → Sink Json → Intents Json × Sink Json × Bool
  step (propose intent spoken now_ms turn_id) g sink =
      publish_destructive empty_object intent spoken now_ms turn_id g sink
  step (grant c now_ms) g sink = handle_confirm_granted empty_object router c now_ms g sink
  step (deny c now_ms) g sink = handle_confirm_denied c now_ms g sink

  -- The subscribe loop goes on after an error, so the flags are dropped.
  unfoldable pub run : List (Step Json) → Intents Json → Sink Json → Intents Json × Sink Json
  run [] g sink = (g, sink)
  run (s ∷ ss) g sink = let (g', sink', ok) = step s g sink in run ss g' sink'

-- What the steps so far, newest first, say of the gate by themselves: how many ids were minted, and
-- which intent an id waits for.
module _ {Json : Type 0} where
  abbrev pub minted : List (Step Json) → ℕ
  minted [] = 0
  minted (propose intent spoken now_ms turn_id ∷ older) = (minted older + 1) % (u64_max + 1)
  minted (grant c now_ms ∷ older) = minted older
  minted (deny c now_ms ∷ older) = minted older

  abbrev pub waiting : List (Step Json) → Text → Option (PendingIntent Json)
  waiting [] id = none
  waiting (propose intent spoken now_ms turn_id ∷ older) id =
      if text_eq (intent_id_for now_ms (minted older)) id
      then some (record { intent = intent; published_ts = now_ms })
      else waiting older id
  waiting (grant c now_ms ∷ older) id = if text_eq c.intent_id id then none else waiting older id
  waiting (deny c now_ms ∷ older) id = if text_eq c.intent_id id then none else waiting older id

-- The gate agrees with what the steps say.
pub record Tracks {Json : Type 0} (history : List (Step Json)) (g : Intents Json) : Type 0 where
  pub counter : g.intent_counter ≡ minted history
  pub agrees : (id : Text) → lookup id g.pending ≡ waiting history id

module _ {Json : Type 0} (empty_object : Json) (router : Router Json) where
  pub step-Tracks :
      (s : Step Json) (history : List (Step Json)) (g : Intents Json) (sink : Sink Json)
      → Tracks history g
      → Tracks (s ∷ history) (step empty_object router s g sink).0
  unfolding step publish_destructive handle_confirm_granted handle_confirm_denied
  step-Tracks (propose intent spoken now_ms turn_id) history g sink t = record {
    counter = ap (λ n. (n + 1) % (u64_max + 1)) t.counter;
    agrees = λ id.
        lookup-insert (intent_id_for now_ms g.intent_counter) id _ g.pending
        ∙ rw (t.counter, t.agrees id) refl;
  }
  step-Tracks (grant c now_ms) history g sink t = record {
    counter = t.counter;
    agrees = λ id. lookup-remove c.intent_id id g.pending ∙ rw (t.agrees id) refl;
  }
  step-Tracks (deny c now_ms) history g sink t = record {
    counter = t.counter;
    agrees = λ id. lookup-remove c.intent_id id g.pending ∙ rw (t.agrees id) refl;
  }
