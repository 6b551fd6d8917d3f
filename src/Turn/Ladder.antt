-- ===== src/Turn/Ladder.antt =====
-- `handle_turn_user_ladder` of src/daemon.rs: a turn through the routing policy, the cache and the tier ladder.
use wintermute_brain.Bus.{Event, cache, route}
use wintermute_brain.Gate.{DestructiveIntent}
use wintermute_brain.Cache.{
  Float, SemanticCache, CacheHit, DbResult, done, db_error, cache_unsafe, insert,
}
use wintermute_brain.Cache
use wintermute_brain.History.{trimmed_messages, Message}
use wintermute_brain.Router.{
  RouteTier, RouteDecision, local, cloud, canned, total_failure, canned_phrase,
  apply_routing_policy, reason_as_str,
}
use wintermute_brain.Ladder.{
  MessageRequest, LadderClient, LadderOutcome, answer, degraded, run_turn_sticky,
}
use wintermute_brain.Prompts.{
  QueryHit, default_max_tokens, compose_request, compose_stable_prefix, format_recall_context,
  parse_destructive_intent,
}
use wintermute_brain.Splitter
use wintermute_brain.Splitter.Chunks.{stream}
use wintermute_brain.Prelude.Unicode.{is_empty}
use wintermute_brain.Prelude.{
  ℕ, ◌/◌, Bool, not, ◌&&◌, List, [], Option, none, some, Text, codes, length, if◌then◌else◌,
}
use wintermute_brain.Turn.{
  Brain, World, TurnConfig, TurnUserEvent, Done, finished, panicked, resolve_turn_id, fillers_of,
  deltas_of, and_then, say, try_say, reply_of, say_fillers, try_partials, say_error, push_history,
  remember, publish_context_event, propose,
}
use wintermute_brain.Turn.Redlined.{kept_floor, redlined}

abbrev pub hits_or_none : Option (List QueryHit) → List QueryHit
hits_or_none none = []
hits_or_none (some hits) = hits

module _ {Json : Type 0} {f : Float} (w : World Json f) (cfg : TurnConfig) (child_lock : Bool) where
  abbrev pub fetched : Text → List QueryHit
  fetched transcript = hits_or_none (w.fetch transcript)

  abbrev pub history_msgs : Brain Json f → List Message
  history_msgs b = trimmed_messages default_max_tokens b.history

  abbrev pub request_of : Text → Text → Brain Json f → MessageRequest
  request_of model transcript b =
      compose_request model
        (compose_stable_prefix cfg.child_guard cfg.gate_guard cfg.persona child_lock)
        (format_recall_context (fetched transcript)) cfg.recap_context (history_msgs b) transcript

  abbrev pub route_event : RouteTier → Text → Option ℕ → Text → ℕ → Text → Event Json
  route_event tier reason latency_ms model now_ms turn_corr = route (record {
    turn_id = now_ms;
    turn_corr = some turn_corr;
    tier = tier;
    reason = reason;
    latency_ms = latency_ms;
    model = model;
    ts = now_ms;
  })

  unfoldable pub route_decision : Text → RouteDecision
  route_decision transcript =
      let key_present = w.key_structurally_present && w.key_healthy in
      apply_routing_policy (record {
        transcript = transcript;
        pending_tier_override = cfg.pending_tier;
        api_key_present = key_present;
        online = key_present;
        prefer = cfg.prefer;
        command_max_words = cfg.command_max_words;
      })

  -- A canned phrase in the place of an answer.
  unfoldable pub say_canned : Text → ℕ → ℕ → Text → Brain Json f → Brain Json f × Done
  say_canned reason latency_ms now_ms turn_corr b =
      and_then (say (reply_of (canned_phrase b.intents.intent_counter) now_ms turn_corr) b) (λ b'. (
        try_say (route_event canned reason (some latency_ms) (codes "canned") now_ms turn_corr) b',
        finished,
      ))

  abbrev pub cache_usable : Text → Bool
  cache_usable transcript = not w.cache_disabled && not (cache_unsafe w.u transcript)

  abbrev pub with_cache : Brain Json f → SemanticCache f → Brain Json f
  with_cache b c = record b { cache = some c }

  abbrev pub cache_event : Option f.F32 → Event Json
  cache_event similarity = cache (w.cache_json similarity w.cache_latency_ms)

  unfoldable pub looked_up :
      SemanticCache f × DbResult (Option (CacheHit f))
      → Brain Json f
      → Brain Json f × Option (CacheHit f)
  looked_up (c, done (some hit)) b =
      (try_say (cache_event (some hit.similarity)) (with_cache b c), some hit)
  looked_up (c, done none) b = (try_say (cache_event none) (with_cache b c), none)
  looked_up (c, db_error) b = (with_cache b c, none)

  -- The lookup of the cache, with its event; no hit after an error or a panic.
  unfoldable pub look_up_in :
      Option (SemanticCache f) → Text → Brain Json f → Brain Json f × Option (CacheHit f)
  unfolding looked_up
  look_up_in none transcript b = (b, none)
  look_up_in (some c) transcript b =
      if cache_usable transcript && not w.cache_panics
      then looked_up (Cache.lookup f (w.embed transcript) w.lookup_faults w.cache_now_ms c) b
      else (b, none)

  unfoldable pub look_up : Text → Brain Json f → Brain Json f × Option (CacheHit f)
  unfolding look_up_in
  look_up transcript b = look_up_in b.cache transcript b

  unfoldable pub store_in :
      Option (SemanticCache f) → (transcript reply served : Text) → Brain Json f → Brain Json f
  store_in none transcript reply served b = b
  store_in (some c) transcript reply served b =
      if cache_usable transcript && not w.insert_panics
      then with_cache b
          (Cache.insert f (w.embed transcript) reply served w.insert_faults w.insert_now_ms c).0
      else b

  unfoldable pub store : (transcript reply served : Text) → Brain Json f → Brain Json f
  unfolding store_in
  store transcript reply served b = store_in b.cache transcript reply served b

  -- The end of an answer: its partial sentences, the reply, the cache and the history.
  unfoldable pub said :
      Option Text → Text → Text → List Text → ℕ → Text → Brain Json f → Brain Json f × Done
  said none transcript served deltas now_ms turn_corr b = (b, panicked)
  said (some text) transcript served deltas now_ms turn_corr b =
      and_then
        (say (reply_of text now_ms turn_corr)
          (try_partials (stream w.u Splitter.new deltas) now_ms turn_corr b))
        (λ b'. (remember transcript text now_ms (store transcript text served b'), finished))

  unfoldable pub answered_with :
      Option (DestructiveIntent Json × Text)
      → (ℕ → LadderClient)
      → MessageRequest
      → (transcript text served : Text) → List Text
      → ℕ
      → Text
      → Brain Json f
      → Brain Json f × Done
  unfolding said
  answered_with (some (intent, spoken)) client req transcript text served deltas now_ms turn_corr
        b =
      propose w intent spoken transcript now_ms turn_corr b
  answered_with none client req transcript text served deltas now_ms turn_corr b =
      let (b', reply) =
        redlined w client cfg.forbidden_terms cfg.redline transcript req served now_ms turn_corr
          text b in
      said reply transcript served deltas now_ms turn_corr b'

  -- The `match outcome`, behind the fillers.
  unfoldable pub served :
      LadderOutcome
      → (ℕ → LadderClient)
      → MessageRequest
      → Text
      → List Text
      → ℕ
      → Text
      → Brain Json f
      → Brain Json f × Done
  unfolding answered_with
  served (degraded reason) client req transcript deltas now_ms turn_corr b =
      say_canned (reason_as_str total_failure) w.latency_ms now_ms turn_corr b
  served (answer text tier) client req transcript deltas now_ms turn_corr b =
      let decision = route_decision transcript in
      if is_empty text
      then say_error (codes "ladder") (codes "no text in response") now_ms b
      else answered_with (parse_destructive_intent w.from_json text) client req transcript text tier
          deltas now_ms turn_corr
          (try_say
            (route_event decision.tier (reason_as_str decision.reason) (some w.latency_ms) tier
              now_ms turn_corr)
            b)

  -- The turn from the recall fetch on.
  unfoldable pub run_ladder :
      (ℕ → LadderClient)
      → (model start_tier transcript : Text) → ℕ
      → Text
      → Brain Json f
      → Brain Json f × Done
  unfolding served
  run_ladder client model start_tier transcript now_ms turn_corr b =
      let req = request_of model transcript b in
      let b1 =
        publish_context_event (fetched transcript) child_lock (length (history_msgs b) / 2) now_ms
          b in
      let (output, outcome, floor) =
        run_turn_sticky (client 0) w.u transcript req start_tier (w.recall_up 0) b1.floor in
      and_then
        (say_fillers (fillers_of output) now_ms turn_corr
          (record b1 { floor = kept_floor floor b1.floor }))
        (served outcome client req transcript (deltas_of output) now_ms turn_corr)

  unfoldable pub cached_or :
      Brain Json f × Option (CacheHit f)
      → (Brain Json f → Brain Json f × Done)
      → Text
      → ℕ
      → Text
      → Brain Json f × Done
  cached_or (b, none) rest transcript now_ms turn_corr = rest b
  cached_or (b, some hit) rest transcript now_ms turn_corr =
      and_then (say (reply_of hit.reply now_ms turn_corr) b)
        (λ b'. (push_history transcript hit.reply now_ms b', finished))

  -- The tier that a turn starts at, or none for a canned answer.
  unfoldable pub start_tier_of : RouteTier → Option Text
  start_tier_of local = some (codes "local-3b")
  start_tier_of cloud = some (codes "sonnet")
  start_tier_of canned = none

  unfoldable pub from_tier :
      Option Text → (ℕ → LadderClient) → Text → Text → ℕ → Text → Brain Json f → Brain Json f × Done
  unfolding cached_or
  from_tier none client model transcript now_ms turn_corr b =
      say_canned (reason_as_str (route_decision transcript).reason) 0 now_ms turn_corr b
  from_tier (some start_tier) client model transcript now_ms turn_corr b =
      cached_or (look_up transcript b)
        (run_ladder client model start_tier transcript now_ms turn_corr) transcript now_ms turn_corr

  unfoldable pub handle_turn_user_ladder :
      (ℕ → LadderClient) → Text → TurnUserEvent → ℕ → Brain Json f → Brain Json f × Done
  unfolding from_tier start_tier_of
  handle_turn_user_ladder client model turn now_ms b =
      from_tier (start_tier_of (route_decision turn.transcript).tier) client model turn.transcript
        now_ms (resolve_turn_id w.minted_turn_id turn.turn_id) b
