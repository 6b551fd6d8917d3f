-- ===== src/Turn/Spoken.antt =====
-- The end of a turn on the tier ladder, over all its branches.
use wintermute_brain.History
use wintermute_brain.Cache.{Float, CacheHit}
use wintermute_brain.Gate.{DestructiveIntent, publish_destructive, publish_error_at}
use wintermute_brain.Ladder.{
  MessageRequest, LadderClient, LadderOutcome, answer, degraded, run_turn_sticky,
}
use wintermute_brain.Prompts.{parse_destructive_intent}
use wintermute_brain.Prelude.Unicode.{is_empty}
use wintermute_brain.Prelude.{
  ℕ, ◌/◌, refl, ap, length, Bool, Bool-cases, inl, inr, List, Option, none, some, Text,
}
use wintermute_brain.Turn.{
  Brain, World, TurnConfig, TurnUserEvent, Done, fillers_of, deltas_of, say, say_fillers, say_error,
  push_history, remember, publish_context_event, propose,
}
use wintermute_brain.Turn.Redlined.{kept_floor}
use wintermute_brain.Turn.Ladder.{
  fetched, history_msgs, request_of, said, answered_with, served, run_ladder, say_canned, from_tier,
  cached_or, look_up, handle_turn_user_ladder,
}
use wintermute_brain.Turn.Recorded.{
  Ended, unrecorded, Quiet-refl, Quiet-trans, try_say-Quiet, Quiet-Ended, and_then-Ended, say-Heard,
  say-unrecorded, say-recorded, by_reply, by_proposal, heard_reply, heard_error,
}
use wintermute_brain.Turn.Steps.{
  say_fillers-Quiet, try_partials-Quiet, same-Quiet, redlined-Quiet, look_up-Quiet, store-same,
}

module _ {Json : Type 0} {f : Float} (w : World Json f) (cfg : TurnConfig) (child_lock : Bool)
    (now_ms : ℕ) (turn_corr : Text) where
  pub say_error-Ended :
      (transcript kind message : Text) (b : Brain Json f)
      → Ended transcript now_ms b (say_error kind message now_ms b)
  unfolding say_error publish_error_at say
  say_error-Ended transcript kind message b = say-Heard transcript now_ms _ b (heard_error _)

  say_canned-Ended :
      (transcript reason : Text) (latency_ms : ℕ) (b : Brain Json f)
      → Ended transcript now_ms b (say_canned w cfg child_lock reason latency_ms now_ms turn_corr b)
  unfolding say_canned
  say_canned-Ended transcript reason latency_ms b =
      say-unrecorded transcript now_ms _ b _ (heard_reply _) (λ c. try_say-Quiet _ c)

  pub propose-Ended :
      (intent : DestructiveIntent Json) (spoken transcript : Text) (b : Brain Json f)
      → Ended transcript now_ms b (propose w intent spoken transcript now_ms turn_corr b)
  unfolding propose publish_destructive say remember push_history
  propose-Ended intent spoken transcript b =
      let proposed : Brain Json f = record b {
        intents =
            (publish_destructive w.empty_object intent spoken now_ms (some turn_corr) b.intents
              b.sink).0;
      } in
      Quiet-Ended transcript now_ms b proposed _ (same-Quiet b proposed refl refl) (
        say-recorded transcript now_ms spoken _ proposed (remember transcript spoken now_ms)
          (by_proposal _ refl) (λ c. refl) (λ c. refl))

  said-Ended :
      (reply : Option Text) (transcript tier : Text) (deltas : List Text) (b : Brain Json f)
      → Ended transcript now_ms b
          (said w cfg child_lock reply transcript tier deltas now_ms turn_corr b)
  unfolding said remember push_history
  said-Ended none transcript tier deltas b =
      unrecorded (Quiet-refl b).new (Quiet-refl b).adds (Quiet-refl b).history_is (λ d. cc)
  said-Ended (some text) transcript tier deltas b =
      Quiet-Ended transcript now_ms b _ _ (try_partials-Quiet _ now_ms turn_corr b) (
        say-recorded transcript now_ms text _ _ _ (by_reply _ refl)
          (λ c. (store-same w cfg child_lock transcript text tier c).0)
          (λ c.
            ap (History.push (record { user = transcript; assistant = text; ts = now_ms }))
              (store-same w cfg child_lock transcript text tier c).1))

  answered_with-Ended :
      (parsed : Option (DestructiveIntent Json × Text)) (client : ℕ → LadderClient)
      (req : MessageRequest) (transcript text tier : Text) (deltas : List Text) (b : Brain Json f)
      → Ended transcript now_ms b (
          answered_with w cfg child_lock parsed client req transcript text tier deltas now_ms
            turn_corr b)
  unfolding answered_with
  answered_with-Ended (some (intent, spoken)) client req transcript text tier deltas b =
      propose-Ended intent spoken transcript b
  answered_with-Ended none client req transcript text tier deltas b =
      Quiet-Ended transcript now_ms b _ _
        (redlined-Quiet w client cfg.forbidden_terms cfg.redline transcript req tier now_ms
          turn_corr text b)
        (said-Ended _ transcript tier deltas _)

  served-Ended :
      (outcome : LadderOutcome) (client : ℕ → LadderClient) (req : MessageRequest)
      (transcript : Text) (deltas : List Text) (b : Brain Json f)
      → Ended transcript now_ms b
          (served w cfg child_lock outcome client req transcript deltas now_ms turn_corr b)
  unfolding served
  served-Ended (degraded reason) client req transcript deltas b =
      say_canned-Ended transcript _ w.latency_ms b
  served-Ended (answer text tier) client req transcript deltas b =
      elim (Bool-cases (is_empty text)) [
        | inl e ↦ rw e (say_error-Ended transcript _ _ b)
        | inr e ↦ rw e (
            Quiet-Ended transcript now_ms b _ _ (try_say-Quiet _ b) (
              answered_with-Ended (parse_destructive_intent w.from_json text) client req transcript
                text tier deltas _))
      ]

  run_ladder-Ended :
      (client : ℕ → LadderClient) (model start_tier transcript : Text) (b : Brain Json f)
      → Ended transcript now_ms b
          (run_ladder w cfg child_lock client model start_tier transcript now_ms turn_corr b)
  unfolding run_ladder publish_context_event
  run_ladder-Ended client model start_tier transcript b =
      let req = request_of w cfg child_lock model transcript b in
      let context =
        publish_context_event (fetched w cfg child_lock transcript) child_lock
          (length (history_msgs w cfg child_lock b) / 2) now_ms b in
      let (output, outcome, floor) =
        run_turn_sticky (client 0) w.u transcript req start_tier (w.recall_up 0) context.floor in
      let run : Brain Json f = record context { floor = kept_floor floor context.floor } in
      let fillers = say_fillers-Quiet (fillers_of output) now_ms turn_corr run in
      Quiet-Ended transcript now_ms b run _
        (Quiet-trans b context run (try_say-Quiet _ b) (same-Quiet context run refl refl))
        (and_then-Ended transcript now_ms run (say_fillers (fillers_of output) now_ms turn_corr run)
          _ fillers
          (λ d.
            Quiet-Ended transcript now_ms run _ _ fillers
              (served-Ended outcome client req transcript (deltas_of output) _)))

  cached_or-Ended :
      (r : Brain Json f × Option (CacheHit f)) (rest : Brain Json f → Brain Json f × Done)
      (transcript : Text)
      → ((c : Brain Json f) → Ended transcript now_ms c (rest c))
      → Ended transcript now_ms r.0 (cached_or w cfg child_lock r rest transcript now_ms turn_corr)
  unfolding cached_or push_history
  cached_or-Ended (b, none) rest transcript k = k b
  cached_or-Ended (b, some hit) rest transcript k =
      say-recorded transcript now_ms hit.reply _ b _ (by_reply _ refl) (λ c. refl) (λ c. refl)

  from_tier-Ended :
      (start : Option Text) (client : ℕ → LadderClient) (model transcript : Text) (b : Brain Json f)
      → Ended transcript now_ms b
          (from_tier w cfg child_lock start client model transcript now_ms turn_corr b)
  unfolding from_tier
  from_tier-Ended none client model transcript b = say_canned-Ended transcript _ 0 b
  from_tier-Ended (some start_tier) client model transcript b =
      Quiet-Ended transcript now_ms b _ _ (look_up-Quiet w cfg child_lock transcript b) (
        cached_or-Ended (look_up w cfg child_lock transcript b) _ transcript
          (run_ladder-Ended client model start_tier transcript))

pub handle_turn_user_ladder-Ended :
    {Json : Type 0} {f : Float} (w : World Json f) (cfg : TurnConfig) (child_lock : Bool)
    (client : ℕ → LadderClient) (model : Text) (turn : TurnUserEvent) (now_ms : ℕ)
    (b : Brain Json f)
    → Ended turn.transcript now_ms b
        (handle_turn_user_ladder w cfg child_lock client model turn now_ms b)
unfolding handle_turn_user_ladder
handle_turn_user_ladder-Ended w cfg child_lock client model turn now_ms b =
    from_tier-Ended w cfg child_lock now_ms _ _ client model turn.transcript b
