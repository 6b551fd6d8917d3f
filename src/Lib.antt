-- ===== src/Lib.antt =====
-- Verification of wintermute-brain, the daemon that answers the user's turns.
--
-- The daemon (src/daemon.rs) reads events from a bus and publishes events on it. A turn passes through
-- the session tracker and the history, goes to a model, and comes back as a reply or as a proposal
-- of a destructive action, which waits for a confirmation. Reminders and error events have handlers
-- of their own.
--
-- - Prelude: texts as lists of code points, decimal numerals, association lists, and the arithmetic
--   of machine integers with its saturation written out. What the program uses of the Unicode tables
--   is the record `Unicode`, a parameter.
-- - Session: src/session.rs, `SessionTracker`.
-- - History: src/history.rs, the ring `History` and `trimmed_messages`.
-- - Degrade: src/degrade.rs, the limiter, the health table and `process_error_envelope`.
-- - Bus: the records of src/bus.rs, and `EventSink` of src/daemon.rs as a log of the events that
--   the bus has answered, with a choice of the publishes that get no answer and of those that the bus
--   rejects; a rejected one is `Ok(())` too.
-- - Gate: the destructive intents of src/daemon.rs (`publish_destructive`, `handle_confirm_granted`,
--   `handle_confirm_denied`).
-- - Almanac: src/almanac.rs and its handlers in src/daemon.rs (`handle_stt_final_for_ack`,
--   `tick_almanac_timeout`, `handle_almanac_due`, `handle_speak_almanac_due`).
-- - Tiers: the tier ladder of src/lib.rs, and `capped_ladder` of src/daemon.rs.
-- - Ladder: src/ladder.rs, one turn through the ladder (`run_turn`, `run_turn_sticky`) and the session
--   floor. The backends, the check of an answer, the stakes and the state of recall are parameters.
-- - Splitter: src/sentence_splitter.rs, `SentenceSplitter`, with its buffer as a text and its scan
--   on the characters before and after a position.
-- - Router: src/router.rs, `classify_turn` and `apply_routing_policy`.
-- - Redline: src/redline.rs, `scan`, `enforce` and `enforce_with_regenerate`; a slice that is not
--   at a character boundary panics, and the result is then `none`.
-- - Strain: src/floor.rs, the loading of the floor and `apply_floor`, and `wmd persona lint` of
--   src/main.rs. The run of `inoculate` and `serde_json` are parameters.
-- - Cache: src/cache.rs, `SemanticCache`, from its opening on: the table of SQLite is the list of
--   its rows by id, a statement may fail, and `f32` and the embedder are parameters.
-- - Writeback: the session that collects turns in src/daemon.rs (`advance_writeback_session`,
--   `record_turn_for_writeback`) and src/writeback.rs, the guard and the task that extracts facts.
-- - Repair: src/repair.rs, `classify` and its phrase sets.
-- - Prompts: src/daemon.rs, `compose_request`, `format_recall_context` and
--   `parse_destructive_intent`; `serde_json` is a parameter.
-- - Turn: src/daemon.rs, `handle_turn_user` and what it calls, as one function on the state, the
--   bus included, and on what a turn is told from outside; a turn ends with `Ok`, with the error of a
--   publish or with a panic of the scan.
-- - KeyHealth: src/key_health.rs, `check` and the loop of `spawn_background`; a slice inside a
--   character panics and ends the loop.
-- - Anthropic: src/anthropic.rs, the parser of an event (`parse_sse_event`) and the decoder of a
--   stream (`SseDecoder`, `EventStream`, `decode_sse_body`); a pop has the length of the text as
--   fuel, since each round takes two characters at least. `serde_json` is a parameter.
-- - Config: src/lib.rs, `BrainConfig` with its environment and the text of its persona,
--   src/persist.rs, its file, and src/main.rs, the commands that load and change it. `f64`, `toml`
--   and the failures of the operating system are parameters; a file holds a text.
-- - Daemon: src/daemon.rs, `dispatch`: the session boundary with its events and its recap, the
--   pending choices, the turn, the save of the configuration and the explicit close; `DaemonState`
--   with the bus and the disk.
-- - Recall: src/recall_client.rs, the frames of the socket to recall; a socket is the bytes that it
--   has taken and those that come in.
-- - Tools: src/daemon.rs, `NoToolsRouter` and `RecallToolsRouter`, and `decode_request` of
--   src/bus.rs; `serde_json::Value` is a parameter.
-- - Ceremony: src/introduction.rs and src/greeting.rs, and the steps of the name ceremony in the
--   loop of `run` in src/daemon.rs.
-- - Profile: src/profile.rs, the built-in profiles, their TOML fragment and
--   `diff_profile_vs_config`. The editing of a TOML document by `apply_profile_to_config` is left
--   out.
--
-- Each component that has state is a record, and each method that changes it returns the new record.
-- A handler that publishes takes the bus and returns it with the result. `Json` stands for
-- `serde_json::Value` and the tool router is a function of the tool and its arguments. The loops
-- are structural but for those of Anthropic, whose fuel is the length of the text.
--
-- Not modelled: the network, the sockets, the logging, the locks (each handler is one step), and the
-- texts of prompts.
pub mod Prelude
pub mod Session
pub mod History
pub mod Degrade
pub mod Bus
pub mod Gate
pub mod Almanac
pub mod Tiers
pub mod Ladder
pub mod Splitter
pub mod Router
pub mod Cache
pub mod Writeback
pub mod Repair
pub mod Prompts
pub mod Turn
pub mod Redline
pub mod Profile
pub mod Strain
pub mod KeyHealth
pub mod Anthropic
pub mod Config
pub mod Daemon
pub mod Recall
pub mod Tools
pub mod Ceremony
