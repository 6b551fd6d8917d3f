-- ===== src/Turn.antt =====
-- The turn of a user in src/daemon.rs: `handle_turn_user`, `handle_turn_user_ladder`, `handle_repair` and
-- what they call. `Brain` is the part of `DaemonState` that a turn changes, with the bus; `World` is
-- what a turn is told from outside. Logging, and the touching of recalled memories, are left out.
pub mod Redlined
pub mod Ladder
pub mod Dispatch
pub mod Recorded
pub mod Steps
pub mod Spoken
pub mod Heard
pub mod Enforced
pub mod Ordered
pub mod Tests
use wintermute_brain.History
use wintermute_brain.History.{History, Turn, trimmed_messages}
use wintermute_brain.Bus.{
  Event, Sink, publish, reply, reply_partial, error, route, context, ReplyEvent, RecallHitDigest,
}
use wintermute_brain.Gate.{DestructiveIntent, Intents, publish_destructive, publish_error_at}
use wintermute_brain.Cache.{Float, SemanticCache, Faults}
use wintermute_brain.Writeback.{Writeback, record_turn_for_writeback}
use wintermute_brain.Redline.{RedlineAction}
use wintermute_brain.Router.{RoutePrefer, RouteTier, canned, RouteEvent, canned_phrase}
use wintermute_brain.Ladder.{LadderClient, FloorState, MessageRequest, Reply, Output, filler, delta}
use wintermute_brain.Prompts.{QueryHit, FromJson}
use wintermute_brain.Prelude.Unicode.{Unicode, is_empty}
use wintermute_brain.Prelude.{
  ℕ, ◌/◌, Bool, true, false, not, ◌&&◌, ◌||◌, List, [], ◌∷◌, ◌++◌, map, Option, none, some, Text,
  codes, length, if◌then◌else◌,
}

-- `TurnUserEvent`; the confidence is only logged.
pub record TurnUserEvent : Type 0 where
  pub transcript : Text
  pub ts : ℕ
  pub turn_id : Option Text

-- What a turn reads of `BrainConfig`.
pub record TurnConfig : Type 0 where
  pub prefer : RoutePrefer
  pub command_max_words : ℕ
  pub pending_tier : Option Text
  pub forbidden_terms : List Text
  pub redline : RedlineAction
  pub repair_repeat_phrases : List Text
  pub repair_louder_phrases : List Text
  pub idle_gap_ms : ℕ
  pub persona : Text
  pub child_guard : Text
  pub gate_guard : Text
  pub recap_context : Option Text

module _ (Json : Type 0) (f : Float) where
  open f use {F32}

  pub record Brain : Type 0 where
    pub history : History
    pub writeback : Writeback
    pub floor : FloorState
    pub cache : Option (SemanticCache f)
    pub intents : Intents Json
    pub redline_counter : ℕ
    pub sink : Sink Json

  -- The models, recall, the embedder, the clock, the key and the other libraries, as they are during one
  -- turn. `ladder` and `recall_up` are given for the call of the turn, 0, and for the attempts
  -- behind it. `cache_json` builds the JSON of a cache event.
  pub record World : Type 0 where
    pub u : Unicode
    pub empty_object : Json
    pub from_json : FromJson Json
    pub fetch : Text → Option (List QueryHit)
    pub ladder : Option (ℕ → LadderClient)
    pub recall_up : ℕ → Bool
    pub llm : Option (MessageRequest → Reply)
    pub has_extractor : Bool
    pub key_structurally_present : Bool
    pub key_healthy : Bool
    pub minted_turn_id : Text
    pub cache_disabled : Bool
    pub embed : Text → Option (List F32)
    pub cache_panics : Bool
    pub lookup_faults : Faults
    pub insert_faults : Faults
    pub cache_json : Option F32 → ℕ → Json
    pub insert_panics : Bool
    pub cache_now_ms : ℕ
    pub insert_now_ms : ℕ
    pub cache_latency_ms : ℕ
    pub latency_ms : ℕ

-- How a handler ends: `Ok(())`, the error of a publish, or a panic of the scan for forbidden terms.
pub data Done : Type 0 where
  finished publish_failed panicked : Done

abbrev pub done_of : Bool → Done
done_of true = finished
done_of false = publish_failed

-- `resolve_turn_id`, with the id that it would mint.
abbrev pub resolve_turn_id : Text → Option Text → Text
resolve_turn_id minted none = minted
resolve_turn_id minted (some id) = if is_empty id then minted else id

abbrev pub fillers_of : List Output → List Text
fillers_of [] = []
fillers_of (filler t ∷ out) = t ∷ fillers_of out
fillers_of (delta t ∷ out) = fillers_of out

abbrev pub deltas_of : List Output → List Text
deltas_of [] = []
deltas_of (filler t ∷ out) = deltas_of out
deltas_of (delta t ∷ out) = t ∷ deltas_of out

abbrev pub reply_of : {Json : Type 0} → Text → ℕ → Text → Event Json
reply_of text now_ms turn_corr =
    reply (record { text = text; ts = now_ms; loudness = none; turn_id = some turn_corr })

abbrev pub partial_of : {Json : Type 0} → ℕ → Text → Text → Event Json
partial_of now_ms turn_corr text =
    reply_partial (record { text = text; ts = now_ms; turn_id = some turn_corr })

abbrev pub digest : QueryHit → RecallHitDigest
digest hit = record { id = hit.id; subject = hit.subject }

module _ {Json : Type 0} {f : Float} where
  -- `?` behind a publish: the rest runs if it succeeded.
  abbrev pub and_then :
      Brain Json f × Done → (Brain Json f → Brain Json f × Done) → Brain Json f × Done
  and_then (b, finished) rest = rest b
  and_then (b, publish_failed) rest = (b, publish_failed)
  and_then (b, panicked) rest = (b, panicked)

  abbrev pub with_sink : Brain Json f → Sink Json × Bool → Brain Json f × Done
  with_sink b (sink, ok) = (record b { sink = sink }, done_of ok)

  unfoldable pub say : Event Json → Brain Json f → Brain Json f × Done
  say event b = with_sink b (publish event b.sink)

  -- A publish whose error is logged.
  unfoldable pub try_say : Event Json → Brain Json f → Brain Json f
  try_say event b = record b { sink = (publish event b.sink).0 }

  -- The fillers: an error ends the turn.
  unfoldable pub say_fillers : List Text → ℕ → Text → Brain Json f → Brain Json f × Done
  say_fillers [] now_ms turn_corr b = (b, finished)
  say_fillers (t ∷ ts) now_ms turn_corr b =
      and_then (say (reply_of t now_ms turn_corr) b) (say_fillers ts now_ms turn_corr)

  -- The partial sentences of the two paths: on the ladder's an error is logged.
  unfoldable pub try_partials : List Text → ℕ → Text → Brain Json f → Brain Json f
  try_partials [] now_ms turn_corr b = b
  try_partials (t ∷ ts) now_ms turn_corr b =
      try_partials ts now_ms turn_corr (try_say (partial_of now_ms turn_corr t) b)

  unfoldable pub say_partials : List Text → ℕ → Text → Brain Json f → Brain Json f × Done
  say_partials [] now_ms turn_corr b = (b, finished)
  say_partials (t ∷ ts) now_ms turn_corr b =
      and_then (say (partial_of now_ms turn_corr t) b) (say_partials ts now_ms turn_corr)

  unfoldable pub say_error : Text → Text → ℕ → Brain Json f → Brain Json f × Done
  say_error kind message now_ms b = with_sink b (publish_error_at kind message now_ms b.sink)

  -- `history.push`, and the turn of the writeback's session.
  unfoldable pub push_history : Text → Text → ℕ → Brain Json f → Brain Json f
  push_history user assistant now_ms b = record b {
    history = History.push (record { user = user; assistant = assistant; ts = now_ms }) b.history;
  }

  unfoldable pub remember : Text → Text → ℕ → Brain Json f → Brain Json f
  unfolding push_history
  remember user assistant now_ms b =
      let pushed = push_history user assistant now_ms b in
      record pushed { writeback = record_turn_for_writeback user assistant now_ms pushed.writeback }

  unfoldable pub publish_context_event : List QueryHit → Bool → ℕ → ℕ → Brain Json f → Brain Json f
  unfolding try_say
  publish_context_event hits child_lock history_turns ts b =
      try_say
        (context (record {
          turn_id = ts;
          recall_hits = map digest hits;
          persona_tier = if child_lock then codes "child_lock" else codes "default";
          history_turns = history_turns;
          ts = ts;
        }))
        b

  -- A destructive answer is proposed, and the text before its fence is remembered.
  unfoldable pub propose :
      World Json f
      → DestructiveIntent Json
      → Text
      → Text
      → ℕ
      → Text
      → Brain Json f
      → Brain Json f × Done
  unfolding remember
  propose w intent spoken transcript now_ms turn_corr b =
      let (intents, sink, ok) =
        publish_destructive w.empty_object intent spoken now_ms (some turn_corr) b.intents b.sink in
      and_then (record b { intents = intents; sink = sink }, done_of ok)
        (λ b'. (remember transcript spoken now_ms b', finished))
