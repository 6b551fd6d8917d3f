-- ===== src/Turn/Dispatch.antt =====
-- `handle_turn_user` of src/daemon.rs: the idle gap of the writeback, the repair requests, and a turn
-- on the tier ladder or, without one, through the single client.
use wintermute_brain.Bus.{reply}
use wintermute_brain.Cache.{Float}
use wintermute_brain.Gate.{DestructiveIntent}
use wintermute_brain.History.{Turn, last}
use wintermute_brain.Writeback.{advance_writeback_session}
use wintermute_brain.Repair.{
  Repair, repeat_last, repeat_louder, no_repair, classify, repair_phrase_sets,
}
use wintermute_brain.Ladder.{
  StreamEvent, text_delta, other_event, MessageRequest, LadderClient, Reply, events, failed,
  extract_assistant_text,
}
use wintermute_brain.Prompts.{parse_destructive_intent}
use wintermute_brain.Splitter
use wintermute_brain.Splitter.Chunks.{stream}
use wintermute_brain.Prelude.Unicode.{trim, is_empty}
use wintermute_brain.Prelude.{
  ℕ, ◌/◌, Bool, List, [], ◌∷◌, Option, none, some, Text, codes, length, if◌then◌else◌,
}
use wintermute_brain.Turn.{
  Brain, World, TurnConfig, TurnUserEvent, Done, finished, resolve_turn_id, and_then, say, reply_of,
  say_partials, say_error, remember, publish_context_event, propose,
}
use wintermute_brain.Turn.Ladder.{fetched, history_msgs, request_of, handle_turn_user_ladder}

abbrev pub repair_empty_history_reply : Text
repair_empty_history_reply = codes "I haven't said anything yet."

-- The text and the loudness of a replay.
abbrev pub loudness_of : Repair → Option Text
loudness_of repeat_last = none
loudness_of repeat_louder = some (codes "loud")
loudness_of no_repair = none

unfoldable pub replay : Option Turn → Repair → Text × Option Text
replay none _ = (repair_empty_history_reply, none)
replay (some turn) r = (turn.assistant, loudness_of r)

text_deltas : List StreamEvent → List Text
text_deltas [] = []
text_deltas (text_delta t ∷ es) = t ∷ text_deltas es
text_deltas (other_event ∷ es) = text_deltas es

module _ {Json : Type 0} {f : Float} where
  unfoldable pub handle_repair : Repair → ℕ → Brain Json f → Brain Json f × Done
  unfolding replay
  handle_repair r now_ms b =
      let (text, loudness) = replay (last b.history) r in
      say (reply (record { text = text; ts = now_ms; loudness = loudness; turn_id = none })) b

  unfoldable pub publish_partial_sentences :
      World Json f → List StreamEvent → Text → Text → ℕ → Brain Json f → Brain Json f × Done
  unfolding text_deltas
  publish_partial_sentences w es full_text turn_id now_ms b =
      if is_empty (trim full_text)
      then (b, finished)
      else say_partials (stream w.u Splitter.new (text_deltas es)) now_ms turn_id b

  -- An answer of the single client.
  unfoldable pub answer_with :
      World Json f
      → Option (DestructiveIntent Json × Text)
      → List StreamEvent
      → (transcript text : Text) → ℕ
      → Text
      → Brain Json f
      → Brain Json f × Done
  answer_with w (some (intent, spoken)) es transcript text now_ms turn_corr b =
      propose w intent spoken transcript now_ms turn_corr b
  answer_with w none es transcript text now_ms turn_corr b =
      and_then (publish_partial_sentences w es text turn_corr now_ms b) (λ b1.
        and_then (say (reply_of text now_ms turn_corr) b1)
          (λ b2. (remember transcript text now_ms b2, finished)))

  unfoldable pub collected :
      World Json f → Reply → Text → ℕ → Text → Brain Json f → Brain Json f × Done
  unfolding answer_with
  collected w (failed err) transcript now_ms turn_corr b =
      say_error (codes "anthropic") err now_ms b
  collected w (events es) transcript now_ms turn_corr b =
      let text = extract_assistant_text es in
      if is_empty text
      then say_error (codes "anthropic") (codes "no text in response") now_ms b
      else answer_with w (parse_destructive_intent w.from_json text) es transcript text now_ms
          turn_corr b

  -- A turn behind the check for a repair request; without a client it is dropped.
  module _ (w : World Json f) (cfg : TurnConfig) (child_lock : Bool) (model : Text)
      (turn : TurnUserEvent) (now_ms : ℕ) where
    unfoldable pub single_client :
        Option (MessageRequest → Reply) → Brain Json f → Brain Json f × Done
    unfolding collected
    single_client none b = (b, finished)
    single_client (some collect_messages) b =
        let req = request_of w cfg child_lock model turn.transcript b in
        let hits = fetched w cfg child_lock turn.transcript in
        let turns = length (history_msgs w cfg child_lock b) / 2 in
        collected w (collect_messages req) turn.transcript now_ms
          (resolve_turn_id w.minted_turn_id turn.turn_id)
          (publish_context_event hits child_lock turns now_ms b)

    unfoldable pub dispatch : Option (ℕ → LadderClient) → Brain Json f → Brain Json f × Done
    unfolding single_client
    dispatch none b = single_client w.llm b
    dispatch (some client) b = handle_turn_user_ladder w cfg child_lock client model turn now_ms b

    unfoldable pub repaired_or : Repair → Brain Json f → Brain Json f × Done
    unfolding dispatch
    repaired_or no_repair b = dispatch w.ladder b
    repaired_or repeat_last b = handle_repair repeat_last now_ms b
    repaired_or repeat_louder b = handle_repair repeat_louder now_ms b

    unfoldable pub handle_turn_user : Brain Json f → Brain Json f × Done
    unfolding repaired_or
    handle_turn_user b =
        let (session_id, writeback) =
          advance_writeback_session cfg.idle_gap_ms w.has_extractor now_ms b.writeback in
        let (repeat_set, louder_set) =
          repair_phrase_sets cfg.repair_repeat_phrases cfg.repair_louder_phrases in
        repaired_or (classify turn.transcript repeat_set louder_set)
          (record b { writeback = writeback })
