-- ===== src/Bus.antt =====
-- src/bus.rs and the `EventSink` of src/daemon.rs: the events that the daemon publishes, and a bus
-- on which a publish may fail. `Json` stands for `serde_json::Value`.
pub mod Log
use wintermute_brain.Session.{SessionStartPayload, SessionEndPayload}
use wintermute_brain.Router.{RouteEvent}
use wintermute_brain.Prelude.{
  ℕ, ◌+◌, Bool, true, false, List, [], ◌∷◌, ◌++◌, Option, none, some, Text, codes, if◌then◌else◌,
}

pub record ReplyEvent : Type 0 where
  pub text : Text
  pub ts : ℕ
  pub loudness : Option Text
  pub turn_id : Option Text

pub record ReplyPartialEvent : Type 0 where
  pub text : Text
  pub ts : ℕ
  pub turn_id : Option Text

pub record ReplyDestructiveEvent (Json : Type 0) : Type 0 where
  pub text : Text
  pub intent_id : Text
  pub summary : Text
  pub confirm_keyword : Text
  pub action_tool : Text  -- the two fields of the JSON object `action`
  pub action_args : Json
  pub ts : ℕ
  pub turn_id : Option Text

pub record ToolCallEvent (Json : Type 0) : Type 0 where
  pub tool : Text
  pub args : Json
  pub ts : ℕ
  pub turn_id : Option Text

pub record ToolResultEvent (Json : Type 0) : Type 0 where
  pub tool : Text
  pub ok : Bool
  pub body : Json
  pub ts : ℕ
  pub turn_id : Option Text

pub record ErrorEvent : Type 0 where
  pub kind : Text
  pub message : Text
  pub ts : ℕ

-- `almanac::AlmanacAckEvent` and `AlmanacSnoozeEvent`.
pub record AlmanacAckEvent : Type 0 where
  pub id : Text
  pub state : Text
  pub ts : ℕ

pub record AlmanacSnoozeEvent : Type 0 where
  pub id : Text
  pub resume_ts : ℕ
  pub ts : ℕ

pub record RecallHitDigest : Type 0 where
  pub id : Text
  pub subject : Text

pub record BrainContextEvent : Type 0 where
  pub turn_id : ℕ
  pub recall_hits : List RecallHitDigest
  pub persona_tier : Text
  pub history_turns : ℕ
  pub ts : ℕ

-- The JSON object that is published on `wm.persona.redline`.
pub record RedlineEvent : Type 0 where
  pub ts : ℕ
  pub turn_id : Text
  pub action : Text
  pub attempts : ℕ
  pub outcome : Text

-- One constructor for each topic that the modelled code publishes on.
pub data Event (Json : Type 0) : Type 0 where
  reply : ReplyEvent → Event Json
  reply_partial : ReplyPartialEvent → Event Json
  reply_destructive : ReplyDestructiveEvent Json → Event Json
  tool_call : ToolCallEvent Json → Event Json
  tool_result : ToolResultEvent Json → Event Json
  error : ErrorEvent → Event Json
  session_start : SessionStartPayload → Event Json
  session_end : SessionEndPayload → Event Json
  almanac_ack : AlmanacAckEvent → Event Json
  almanac_snooze : AlmanacSnoozeEvent → Event Json
  route : RouteEvent → Event Json
  context : BrainContextEvent → Event Json
  cache : Json → Event Json
  persona_redline : RedlineEvent → Event Json

-- The bus as the daemon sees it. `log` holds the events that it has answered, in order, and `on_bus`
-- those of them that it has taken. The two tests tell of the publishes to come, by their number, which
-- ones it answers, and to which of these it answers with `reply.ok` false.
pub record Sink (Json : Type 0) : Type 0 where
  pub log : List (Event Json)
  pub on_bus : List (Event Json)
  pub attempts : ℕ
  pub accepts : ℕ → Bool
  pub rejects : ℕ → Bool

-- `publish` of `AgoraSink`: the flag is `true` for `Ok(())`, which a publish that the bus rejects has too,
-- with a warning. A publish without an answer is an error, and leaves no event.
unfoldable pub publish : {Json : Type 0} → Event Json → Sink Json → Sink Json × Bool
publish event s =
    if s.accepts s.attempts
    then (
      record s {
        log = s.log ++ event ∷ [];
        on_bus = if s.rejects s.attempts then s.on_bus else s.on_bus ++ event ∷ [];
        attempts = s.attempts + 1;
      },
      true,
    )
    else (record s { attempts = s.attempts + 1 }, false)
