-- ===== src/Daemon.antt =====
-- `dispatch` of src/daemon.rs: one request through the session tracker, the pending choices of the
-- configuration, the turn and the file. `DaemonState` is the state that a request changes, with the bus and
-- the disk; `Outside` is what a request is told from outside. Logging is left out.
pub mod Kept
pub mod Pending
pub mod Sessions
pub mod Restart
mod Tests
use wintermute_brain.History
use wintermute_brain.Session
use wintermute_brain.Session.{
  SessionTracker, SessionStartPayload, SessionEndPayload, AdvanceOutcome, new_session, extended,
  explicit, advance, is_explicit_close, close,
}
use wintermute_brain.Bus.{publish, reply, session_start, session_end}
use wintermute_brain.Gate.{
  Router, ConfirmGrantedEvent, ConfirmDeniedEvent, Intents, handle_confirm_granted,
  handle_confirm_denied,
}
use wintermute_brain.Bus.{Sink}
use wintermute_brain.Cache.{Float}
use wintermute_brain.Writeback.{new_writeback}
use wintermute_brain.Ladder.{new_floor}
use wintermute_brain.Prompts.{QueryHit}
use wintermute_brain.Config.{
  Float64, Environment, Config, effective_model, consume_pending, consume_pending_tier,
}
use wintermute_brain.Config.Persona.{compose_base}
use wintermute_brain.Config.Files.{Disk, Calls, Saved, Toml, save_to_file}
use wintermute_brain.Config.Atomic.{after}
use wintermute_brain.Turn.{
  Brain, World, TurnConfig, TurnUserEvent, Done, finished, publish_failed, panicked, done_of,
  try_say,
}
use wintermute_brain.Turn.Dispatch.{handle_turn_user}
use wintermute_brain.Prelude.Paths.{PathBuf}
use wintermute_brain.Prelude.Unicode.{trim, is_empty, Unicode}
use wintermute_brain.Prelude.Decimal.{show}
use wintermute_brain.Prelude.{
  ℕ, ◌+◌, Bool, true, false, not, ◌&&◌, ◌||◌, List, [], ◌∷◌, ◌++◌, map, Option, none, some, Text,
  codes, starts_with, take, ◌==◌, if◌then◌else◌,
}

pub data Request : Type 0 where
  turn_user : TurnUserEvent → Request
  confirm_granted : ConfirmGrantedEvent → Request
  confirm_denied : ConfirmDeniedEvent → Request

-- The snippets that are not blank, and their lines.
unfoldable pub snippets_of : List QueryHit → List Text
snippets_of [] = []
snippets_of (h ∷ hs) =
    let rest = snippets_of hs in
    let snippet = trim h.snippet in if is_empty snippet then rest else snippet ∷ rest

unfoldable pub numbered : ℕ → List Text → Text
numbered i [] = []
numbered i (s ∷ ss) = 10 ∷ show (i + 1) ++ codes ". " ++ s ++ numbered (i + 1) ss

abbrev recap_of : List Text → Option Text
recap_of [] = none
recap_of (s ∷ ss) = some (codes "Recent conversations (most recent first):" ++ numbered 0 (s ∷ ss))

unfoldable pub format_recap_context : List QueryHit → Option Text
unfolding snippets_of numbered
format_recap_context hits = recap_of (snippets_of hits)

abbrev thread_subject_prefix : Text
thread_subject_prefix = codes "wintermute-thread-"

unfoldable pub threads : List QueryHit → List QueryHit
threads [] = []
threads (h ∷ hs) =
    let rest = threads hs in if starts_with h.subject thread_subject_prefix then h ∷ rest else rest

module _ (Json : Type 0) (f : Float) (g : Float64) where
  pub record DaemonState : Type 0 where
    pub brain : Brain Json f
    pub session_tracker : SessionTracker
    pub config : Config g
    pub config_path : Option PathBuf
    pub disk : Disk
    pub persona : Text
    pub recap_context : Option Text
    pub session_thread_query_count : ℕ

  -- `search` is the query of recall for the threads, with its limit; it may fail.
  pub record Outside : Type 1 where
    pub w : World Json f
    pub toml : Toml (Config g)
    pub calls : Calls
    pub search : ℕ → Option (List QueryHit)
    pub router : Router Json
    pub child_guard : Text
    pub gate_guard : Text

abbrev say_end :
    {Json : Type 0} {f : Float} → Option SessionEndPayload → Brain Json f → Brain Json f
say_end none b = b
say_end (some payload) b = try_say (session_end payload) b

abbrev is_some : Option Text → Bool
is_some none = false
is_some (some t) = true

-- A pending choice is cleared before the turn.
unfoldable pub consumed : (g : Float64) → Config g → Config g
unfolding consume_pending consume_pending_tier
consumed g c = consume_pending_tier g (consume_pending g c)

unfoldable pub had_pending : (g : Float64) → Config g → Bool
had_pending g c = is_some c.pending_model || is_some c.pending_tier

module _ {Json : Type 0} {f : Float} {g : Float64} where
  -- `DaemonState::new`, on a bus.
  unfoldable pub new : Unicode → Config g → Disk → Sink Json → DaemonState Json f g
  new u config disk sink = record {
    brain = record {
      history = History.new config.history_turns;
      writeback = new_writeback;
      floor = new_floor;
      cache = none;
      intents = record { pending = []; intent_counter = 0 };
      redline_counter = 0;
      sink = sink;
    };
    session_tracker = Session.new u config.idle_gap_ms config.session_end_phrases;
    config = config;
    config_path = none;
    disk = disk;
    persona = compose_base config.persona config.user_name;
    recap_context = none;
    session_thread_query_count = 0;
  }

  abbrev quietly : Brain Json f → DaemonState Json f g → DaemonState Json f g
  quietly b s = record s { brain = b }

  abbrev with_recap : Option Text → DaemonState Json f g → DaemonState Json f g
  with_recap recap s = record s { recap_context = recap }

  abbrev opened_with : Text → ℕ → DaemonState Json f g → DaemonState Json f g × Bool
  opened_with snippet now_ms s =
      let (sink, published) =
        publish
          (reply (record {
            text = codes "Earlier you mentioned: " ++ snippet;
            ts = now_ms;
            loudness = none;
            turn_id = none;
          }))
          s.brain.sink in
      (record s { brain = record s.brain { sink = sink } }, published)

  -- The opener, on a context that is there.
  opener : Option Text → List QueryHit → ℕ → DaemonState Json f g → DaemonState Json f g × Bool
  opener (some context) (h ∷ hs) now_ms s =
      if s.config.recap_opener && not (is_empty (trim h.snippet))
      then opened_with (trim h.snippet) now_ms s
      else (s, false)
  opener recap hits now_ms s = (s, false)

  recapped : ℕ → Option (List QueryHit) → ℕ → DaemonState Json f g → DaemonState Json f g × Bool
  unfolding opener
  recapped recap_max none now_ms s = (with_recap none s, false)
  recapped recap_max (some hits) now_ms s =
      let thread_hits = take recap_max (threads hits) in
      let recap = format_recap_context thread_hits in
      opener recap thread_hits now_ms (with_recap recap s)

  unfoldable pub handle_session_start :
      Outside Json f g → ℕ → DaemonState Json f g → DaemonState Json f g × Bool
  unfolding recapped
  handle_session_start o now_ms s =
      let recap_max = s.config.recap_max_memories in
      let counted = record s { session_thread_query_count = s.session_thread_query_count + 1 } in
      if recap_max == 0
      then (with_recap none counted, false)
      else recapped recap_max (o.search recap_max) now_ms counted

  -- The start of a turn: the events of a new session, its empty history and its recap.
  unfoldable pub on_outcome :
      Outside Json f g → AdvanceOutcome → ℕ → DaemonState Json f g → DaemonState Json f g
  unfolding handle_session_start
  on_outcome o extended now_ms s = s
  on_outcome o (new_session closed opened) now_ms s =
      let told = try_say (session_start opened) (say_end closed s.brain) in
      let reset = record told { history = History.new s.config.history_turns } in
      (handle_session_start o now_ms (record s { brain = reset })).0

  -- What a turn reads of the configuration.
  unfoldable pub turn_config : Outside Json f g → DaemonState Json f g → TurnConfig
  turn_config o s = record {
    prefer = s.config.routing.prefer;
    command_max_words = s.config.routing.command_max_words;
    pending_tier = s.config.pending_tier;
    forbidden_terms = s.config.persona.forbidden_terms;
    redline = s.config.persona.redline;
    repair_repeat_phrases = s.config.repair_repeat_phrases;
    repair_louder_phrases = s.config.repair_louder_phrases;
    idle_gap_ms = s.config.idle_gap_ms;
    persona = s.persona;
    child_guard = o.child_guard;
    gate_guard = o.gate_guard;
    recap_context = s.recap_context;
  }

  abbrev saved_disk : DaemonState Json f g → Saved → DaemonState Json f g
  saved_disk s (r, ds) = record s { disk = after s.disk ds }

  persist_at : Outside Json f g → Option PathBuf → DaemonState Json f g → DaemonState Json f g
  persist_at o none s = s
  persist_at o (some path) s = saved_disk s (save_to_file g o.toml o.calls path s.disk s.config)

  -- The result of the save is only logged.
  unfoldable pub persist_after_pending_consume :
      Outside Json f g → DaemonState Json f g → DaemonState Json f g
  unfolding persist_at
  persist_after_pending_consume o s = persist_at o s.config_path s

  -- The explicit close of a session, behind the answer.
  unfoldable pub close_explicit : ℕ → DaemonState Json f g → DaemonState Json f g
  close_explicit now_ms s =
      let (tracker, closed) = close s.session_tracker now_ms explicit in
      record s { session_tracker = tracker; brain = say_end closed s.brain }

  -- What is done behind a turn that succeeded.
  unfoldable pub behind_turn :
      Outside Json f g → Bool → Bool → ℕ → DaemonState Json f g → DaemonState Json f g
  unfolding persist_after_pending_consume close_explicit
  behind_turn o consumed_pending explicit_close now_ms s =
      let persisted = if consumed_pending then persist_after_pending_consume o s else s in
      if explicit_close then close_explicit now_ms persisted else persisted

  abbrev ended :
      Outside Json f g
      → Bool
      → Bool
      → ℕ
      → DaemonState Json f g
      → Brain Json f × Done
      → DaemonState Json f g × Done
  ended o consumed_pending explicit_close now_ms s (b, finished) =
      (behind_turn o consumed_pending explicit_close now_ms (quietly b s), finished)
  ended o consumed_pending explicit_close now_ms s (b, publish_failed) =
      (quietly b s, publish_failed)
  ended o consumed_pending explicit_close now_ms s (b, panicked) = (quietly b s, panicked)

  -- The turn on the state behind the session boundary.
  unfoldable pub take_turn :
      Outside Json f g
      → Bool
      → TurnUserEvent
      → ℕ
      → DaemonState Json f g
      → DaemonState Json f g × Done
  unfolding behind_turn
  take_turn o explicit_close t now_ms s =
      let s' = record s { config = consumed g s.config } in
      ended o (had_pending g s.config) explicit_close now_ms s' (
        handle_turn_user o.w (turn_config o s') s.config.child_lock (effective_model g s.config) t
          now_ms s'.brain)

  unfoldable pub dispatch_turn :
      Outside Json f g → TurnUserEvent → ℕ → DaemonState Json f g → DaemonState Json f g × Done
  unfolding take_turn on_outcome
  dispatch_turn o t now_ms s =
      let explicit_close = is_explicit_close o.w.u s.session_tracker t.transcript in
      let (tracker, outcome) = advance s.session_tracker now_ms in
      take_turn o explicit_close t now_ms
        (on_outcome o outcome now_ms (record s { session_tracker = tracker }))

  abbrev with_intents :
      DaemonState Json f g → Intents Json × Sink Json × Bool → DaemonState Json f g × Done
  with_intents s (intents, sink, published) =
      (record s { brain = record s.brain { intents = intents; sink = sink } }, done_of published)

  unfoldable pub dispatch :
      Outside Json f g → Request → ℕ → DaemonState Json f g → DaemonState Json f g × Done
  unfolding dispatch_turn
  dispatch o (turn_user t) now_ms s = dispatch_turn o t now_ms s
  dispatch o (confirm_granted c) now_ms s =
      with_intents s
        (handle_confirm_granted o.w.empty_object o.router c now_ms s.brain.intents s.brain.sink)
  dispatch o (confirm_denied c) now_ms s =
      with_intents s (handle_confirm_denied c now_ms s.brain.intents s.brain.sink)
