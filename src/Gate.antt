-- ===== src/Gate.antt =====
-- src/daemon.rs: destructive intents. An intent waits in `pending` until the dialog grants or denies
-- it; only a grant calls its tool.
pub mod Ids
pub mod Steps
pub mod Authority
pub mod Once
mod Tests
use wintermute_brain.Prelude.Assoc.{lookup, insert, remove}
use wintermute_brain.Prelude.Decimal.{show}
use wintermute_brain.Prelude.Unicode.{trim, is_empty}
use wintermute_brain.Bus.{
  Event, reply, reply_destructive, tool_call, tool_result, error, ReplyEvent, ReplyDestructiveEvent,
  ToolCallEvent, ToolResultEvent, ErrorEvent, Sink, publish,
}
use wintermute_brain.Prelude.{
  ℕ, ◌+◌, ◌%◌, Bool, true, false, List, [], ◌∷◌, ◌++◌, Option, none, some, Text, codes,
  if◌then◌else◌, u64_max,
}

pub record DestructiveIntent (Json : Type 0) : Type 0 where
  pub intent : Text
  pub summary : Text
  pub confirm_keyword : Text
  pub args : Option Json

pub record PendingIntent (Json : Type 0) : Type 0 where
  pub intent : DestructiveIntent Json
  pub published_ts : ℕ

pub record ConfirmGrantedEvent : Type 0 where
  pub intent_id : Text
  pub ts : ℕ

pub record ConfirmDeniedEvent : Type 0 where
  pub intent_id : Text
  pub reason : Text
  pub ts : ℕ

-- What `ToolRouter::dispatch` returns.
pub record ToolResultBody (Json : Type 0) : Type 0 where
  pub ok : Bool
  pub body : Json

-- The part of `DaemonState` that these handlers use.
pub record Intents (Json : Type 0) : Type 0 where
  pub pending : List (Text × PendingIntent Json)
  pub intent_counter : ℕ  -- AtomicU64

abbrev pub cancellation_reply : Text
cancellation_reply = codes "Okay, I won't do that."

abbrev pub intent_id_for : ℕ → ℕ → Text
intent_id_for now_ms seq = codes "int-" ++ (show now_ms ++ (codes "-" ++ show seq))

-- `fetch_add` wraps.
unfoldable pub mint_intent_id : {Json : Type 0} → ℕ → Intents Json → Text × Intents Json
mint_intent_id now_ms g = (
  intent_id_for now_ms g.intent_counter,
  record g { intent_counter = (g.intent_counter + 1) % (u64_max + 1) },
)

-- `args.unwrap_or_else(|| json!({}))`.
abbrev pub args_or : {Json : Type 0} → Json → Option Json → Json
args_or empty_object none = empty_object
args_or empty_object (some args) = args

-- `ToolRouter::dispatch`, as one answer for each tool and its arguments.
abbrev pub Router : Type 0 → Type 0
Router Json = Text → Json → ToolResultBody Json

-- Where a handler returns a flag, `true` stands for `Ok(())` and `false` for the error of a publish.
module _ {Json : Type 0} where
  unfoldable pub publish_error_at : Text → Text → ℕ → Sink Json → Sink Json × Bool
  publish_error_at kind message ts sink =
      publish (error (record { kind = kind; message = message; ts = ts })) sink

  -- The spoken text, or the summary where the model gave the JSON alone.
  abbrev pub spoken_or_summary : DestructiveIntent Json → Text → Text
  spoken_or_summary intent spoken = if is_empty (trim spoken) then intent.summary else spoken

  unfoldable pub publish_destructive :
      Json
      → DestructiveIntent Json
      → Text
      → ℕ
      → Option Text
      → Intents Json
      → Sink Json
      → Intents Json × Sink Json × Bool
  unfolding mint_intent_id
  publish_destructive empty_object intent spoken now_ms turn_id g sink =
      let (intent_id, minted) = mint_intent_id now_ms g in
      let (sink', ok) =
        publish
          (reply_destructive (record {
            text = spoken_or_summary intent spoken;
            intent_id = intent_id;
            summary = intent.summary;
            confirm_keyword = intent.confirm_keyword;
            action_tool = intent.intent;
            action_args = args_or empty_object intent.args;
            ts = now_ms;
            turn_id = turn_id;
          }))
          sink in
      (
        record minted {
          pending =
              insert intent_id (record { intent = intent; published_ts = now_ms }) minted.pending;
        },
        sink',
        ok,
      )

  -- Publish the call; only then dispatch it, and publish its result.
  call_tool : Router Json → Text → Json → ℕ → Sink Json → Sink Json × Bool
  call_tool router tool args now_ms sink =
      let (called, sent) =
        publish (tool_call (record { tool = tool; args = args; ts = now_ms; turn_id = none }))
          sink in
      let result = router tool args in
      if sent
      then publish
          (tool_result (record {
            tool = tool;
            ok = result.ok;
            body = result.body;
            ts = now_ms;
            turn_id = none;
          }))
          called
      else (called, false)

  redeem :
      Option (PendingIntent Json)
      → Json
      → Router Json
      → ConfirmGrantedEvent
      → ℕ
      → Sink Json
      → Sink Json × Bool
  unfolding call_tool publish_error_at
  redeem none empty_object router c now_ms sink =
      publish_error_at (codes "confirm") (codes "unknown intent_id: " ++ c.intent_id) now_ms sink
  redeem (some pi) empty_object router c now_ms sink =
      call_tool router pi.intent.intent (args_or empty_object pi.intent.args) now_ms sink

  unfoldable pub handle_confirm_granted :
      Json
      → Router Json
      → ConfirmGrantedEvent
      → ℕ
      → Intents Json
      → Sink Json
      → Intents Json × Sink Json × Bool
  unfolding redeem
  handle_confirm_granted empty_object router c now_ms g sink =
      let found = lookup c.intent_id g.pending in
      let (sink', ok) = redeem found empty_object router c now_ms sink in
      (record g { pending = remove c.intent_id g.pending }, sink', ok)

  cancel : Option (PendingIntent Json) → ℕ → Sink Json → Sink Json × Bool
  cancel none now_ms sink = (sink, true)
  cancel (some removed) now_ms sink =
      publish
        (reply (record { text = cancellation_reply; ts = now_ms; loudness = none; turn_id = none }))
        sink

  unfoldable pub handle_confirm_denied :
      ConfirmDeniedEvent → ℕ → Intents Json → Sink Json → Intents Json × Sink Json × Bool
  unfolding cancel
  handle_confirm_denied c now_ms g sink =
      let (sink', ok) = cancel (lookup c.intent_id g.pending) now_ms sink in
      (record g { pending = remove c.intent_id g.pending }, sink', ok)
