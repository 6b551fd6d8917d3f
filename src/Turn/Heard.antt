-- ===== src/Turn/Heard.antt =====
-- The end of every turn of a user.
use wintermute_brain.Cache.{Float}
use wintermute_brain.Gate.{DestructiveIntent}
use wintermute_brain.Repair.{Repair, repeat_last, repeat_louder, no_repair}
use wintermute_brain.Ladder.{
  StreamEvent, MessageRequest, LadderClient, Reply, events, failed, extract_assistant_text,
}
use wintermute_brain.Prompts.{parse_destructive_intent}
use wintermute_brain.Prelude.Unicode.{trim, is_empty}
use wintermute_brain.Prelude.{
  ℕ, ◌≡◌, refl, sym, subst, Bool, Bool-cases, inl, inr, List, Option, none, some, Text,
}
use wintermute_brain.Turn.{
  Brain, World, TurnConfig, TurnUserEvent, finished, and_then, publish_context_event, remember,
  push_history, say, reply_of,
}
use wintermute_brain.Turn.Dispatch.{
  handle_repair, publish_partial_sentences, answer_with, collected, single_client, dispatch,
  repaired_or, handle_turn_user,
}
use wintermute_brain.Turn.Recorded.{
  Ended, Quiet, Quiet-refl, try_say-Quiet, Quiet-Ended, and_then-Ended, say-Heard, say-recorded,
  by_reply, heard_reply,
}
use wintermute_brain.Turn.Steps.{say_partials-Quiet, same-Quiet}
use wintermute_brain.Turn.Spoken.{say_error-Ended, propose-Ended, handle_turn_user_ladder-Ended}

module _ {Json : Type 0} {f : Float} where
  handle_repair-Ended :
      (transcript : Text) (r : Repair) (now_ms : ℕ) (b : Brain Json f)
      → Ended transcript now_ms b (handle_repair r now_ms b)
  unfolding handle_repair
  handle_repair-Ended transcript r now_ms b = say-Heard transcript now_ms _ b (heard_reply _)

  publish_partial_sentences-Quiet :
      (w : World Json f) (es : List StreamEvent) (full_text turn_id : Text) (now_ms : ℕ)
      (b : Brain Json f)
      → Quiet b (publish_partial_sentences w es full_text turn_id now_ms b).0
  unfolding publish_partial_sentences
  publish_partial_sentences-Quiet w es full_text turn_id now_ms b =
      elim (Bool-cases (is_empty (trim full_text))) [
        | inl e ↦ rw e (Quiet-refl b)
        | inr e ↦ rw e (say_partials-Quiet _ now_ms turn_id b)
      ]

  module _ (w : World Json f) (cfg : TurnConfig) (child_lock : Bool) (now_ms : ℕ)
      (turn_corr : Text) where
    answer_with-Ended :
        (parsed : Option (DestructiveIntent Json × Text)) (es : List StreamEvent)
        (transcript text : Text) (b : Brain Json f)
        → Ended transcript now_ms b (answer_with w parsed es transcript text now_ms turn_corr b)
    unfolding answer_with remember push_history
    answer_with-Ended (some (intent, spoken)) es transcript text b =
        propose-Ended w cfg child_lock now_ms turn_corr intent spoken transcript b
    answer_with-Ended none es transcript text b =
        let partials = publish_partial_sentences-Quiet w es text turn_corr now_ms b in
        and_then-Ended transcript now_ms b (publish_partial_sentences w es text turn_corr now_ms b)
          (λ c.
            and_then (say (reply_of text now_ms turn_corr) c)
              (λ c'. (remember transcript text now_ms c', finished)))
          partials
          (λ d. Quiet-Ended transcript now_ms b _ _ partials (
            say-recorded transcript now_ms text (reply_of text now_ms turn_corr) _
              (remember transcript text now_ms) (by_reply _ refl) (λ c. refl) (λ c. refl)))

    collected-Ended :
        (r : Reply) (transcript : Text) (b : Brain Json f)
        → Ended transcript now_ms b (collected w r transcript now_ms turn_corr b)
    unfolding collected
    collected-Ended (failed err) transcript b =
        say_error-Ended w cfg child_lock now_ms turn_corr transcript _ err b
    collected-Ended (events es) transcript b =
        elim (Bool-cases (is_empty (extract_assistant_text es))) [
          | inl e ↦ rw e (say_error-Ended w cfg child_lock now_ms turn_corr transcript _ _ b)
          | inr e ↦ rw e (
              answer_with-Ended (parse_destructive_intent w.from_json (extract_assistant_text es))
                es transcript (extract_assistant_text es) b)
        ]

  module _ (w : World Json f) (cfg : TurnConfig) (child_lock : Bool) (model : Text)
      (turn : TurnUserEvent) (now_ms : ℕ) where
    single_client-Ended :
        (collect_messages : MessageRequest → Reply) (b : Brain Json f)
        → Ended turn.transcript now_ms b
            (single_client w cfg child_lock model turn now_ms (some collect_messages) b)
    unfolding single_client publish_context_event
    single_client-Ended collect_messages b =
        Quiet-Ended turn.transcript now_ms b _ _ (try_say-Quiet _ b)
          (collected-Ended w cfg child_lock now_ms _ _ turn.transcript _)

    dispatch-Ended :
        (ladder : Option (ℕ → LadderClient)) (llm : Option (MessageRequest → Reply))
        → w.llm ≡ llm
        → ¬ ((ladder ≡ none) × (llm ≡ none))
        → (b : Brain Json f)
        → Ended turn.transcript now_ms b (dispatch w cfg child_lock model turn now_ms ladder b)
    unfolding dispatch
    dispatch-Ended none none l k b = absurd (k (refl, refl))
    dispatch-Ended none (some collect_messages) l k b =
        subst
          (λ o.
            Ended turn.transcript now_ms b (single_client w cfg child_lock model turn now_ms o b))
          (sym l) (single_client-Ended collect_messages b)
    dispatch-Ended (some client) llm l k b =
        handle_turn_user_ladder-Ended w cfg child_lock client model turn now_ms b

    repaired_or-Ended :
        (r : Repair) (b : Brain Json f)
        → ¬ ((w.ladder ≡ none) × (w.llm ≡ none))
        → Ended turn.transcript now_ms b (repaired_or w cfg child_lock model turn now_ms r b)
    unfolding repaired_or
    repaired_or-Ended no_repair b k = dispatch-Ended w.ladder w.llm refl k b
    repaired_or-Ended repeat_last b k = handle_repair-Ended turn.transcript repeat_last now_ms b
    repaired_or-Ended repeat_louder b k = handle_repair-Ended turn.transcript repeat_louder now_ms b

-- With a ladder or a single client, whatever the models, the cache and recall do, whichever publishes
-- fail and whichever events the bus rejects, a turn only adds to what the bus has answered. Either it
-- leaves the history, and if it succeeds then the bus has answered a reply, a proposal or an error of
-- it; or it succeeds, and puts one turn in the history, with the transcript and with a text that the bus
-- has answered as a reply, or as a proposal, which says the summary instead where the text is blank. Of
-- the events that the bus has answered it takes a part, in their order, and all of them if it rejects
-- none: a turn that succeeds has then published one of these events, and otherwise perhaps nothing.
pub handle_turn_user-Ended :
    {Json : Type 0} {f : Float} (w : World Json f) (cfg : TurnConfig) (child_lock : Bool)
    (model : Text) (turn : TurnUserEvent) (now_ms : ℕ) (b : Brain Json f)
    → ¬ ((w.ladder ≡ none) × (w.llm ≡ none))
    → Ended turn.transcript now_ms b (handle_turn_user w cfg child_lock model turn now_ms b)
unfolding handle_turn_user
handle_turn_user-Ended w cfg child_lock model turn now_ms b k =
    Quiet-Ended turn.transcript now_ms b _ _ (same-Quiet b _ refl refl)
      (repaired_or-Ended w cfg child_lock model turn now_ms _ _ k)
