-- ===== src/Ladder/Tests.antt =====
-- The ladder of src/ladder.rs on concrete turns.
use wintermute_brain.Prelude.Unicode.{ascii}
use wintermute_brain.Prelude.{
  ◌≡◌, ◌⊎◌, refl, inl, true, List, [], ◌∷◌, Option, none, some, Text, codes, text_eq, drop,
  if◌then◌else◌, arith,
}
use wintermute_brain.Tiers.{
  default_ladder, capped_ladder, ladder_with_gpu, ladder_with, cap_tiers, skip_tiers, position, new,
  local,
}
use wintermute_brain.Ladder.{
  LadderClient, Backends, MessageRequest, events, text_delta, LocalMessage, LocalOutcome, answered,
  escalate, accept, reject, ordinary, high_stakes, FloorState, new_floor, run_turn_inner,
  run_turn_sticky, applied, topic_tokens, start_index, tier_index, apply, run_from, run_rung,
  run_by, run_local_rung, local_result, verified, after_rung, raise_to,
}
use wintermute_brain.Ladder.Climb.{Served, Failed, Ended, run_turn_inner-Ended}
use wintermute_brain.Ladder.Cloud.{with_local, run_turn_inner-guarded}
use wintermute_brain.Ladder.Total.{Fits, run_turn_inner-total}

-- The small local model escalates, the other one answers; the cloud echoes its model's name.
abbrev generate : Option Text → Text → List LocalMessage → List Text × LocalOutcome
generate endpoint model prompt =
    if text_eq model (codes "qwen2.5:3b")
    then ([], escalate (codes "timeout"))
    else (codes "Noon." ∷ [], answered (codes "Noon."))

abbrev backends : Backends
backends = record {
  generate = generate;
  cloud = some (λ request. events (text_delta request.model ∷ []));
  verify = λ text said. accept;
}

abbrev client : LadderClient
client = record {
  ladder = default_ladder;
  backends = backends;
  stakes = λ said.
      if text_eq said (codes "my chest hurts") then high_stakes (codes "medical") else ordinary;
}

abbrev request : MessageRequest
request = record {
  model = codes "haiku";
  max_tokens = 100;
  system = none;
  messages = [];
  stream = true;
}

run_turn_inner-Ended_example :
    Ended client
      (codes "what time is it")
      request
      0
      0
      default_ladder
      none
      (run_turn_inner client ascii (codes "what time is it") request (codes "local-3b") true none)
unfolding start_index tier_index position text_eq
run_turn_inner-Ended_example =
    run_turn_inner-Ended client ascii (codes "what time is it") request (codes "local-3b") true none

run_turn_inner-guarded_example :
    run_turn_inner
      (with_local generate (λ text said. reject said) client)
      ascii
      (codes "my chest hurts")
      request
      (codes "local-3b")
      true
      none
    ≡ run_turn_inner client ascii (codes "my chest hurts") request (codes "local-3b") true none
unfolding capped_ladder ladder_with_gpu ladder_with cap_tiers skip_tiers position text_eq
run_turn_inner-guarded_example =
    run_turn_inner-guarded client none [] none none generate (λ text said. reject said) ascii
      (codes "my chest hurts") request (codes "local-3b") true none refl
      (λ e. absurd (ground arith)) (inl (codes "medical", refl))

run_turn_inner-total_example :
    let end =
      run_turn_inner client ascii
        (codes "what time is it")
        request
        (codes "local-3b")
        true
        (some new_floor) in
    let floor = (applied ascii (codes "what time is it") (some new_floor)).0 in
    (Served client (codes "what time is it") request 0 0 default_ladder floor end
      ⊎ Failed client (codes "what time is it") request 0 0 default_ladder floor end)
    × Fits default_ladder end.2
unfolding start_index tier_index apply position text_eq
run_turn_inner-total_example =
    run_turn_inner-total client ascii (codes "what time is it") request (codes "local-3b") true
      (some new_floor) (omega arith) (omega arith)

abbrev question : Text
question = codes "what time is it"

abbrev follow_up : Text
follow_up = codes "what time is lunch"

-- The floor after the second rung answered the question.
abbrev at_second : FloorState
at_second = record { floor_idx = 1; prev_tokens = topic_tokens ascii question; seen = true }

abbrev answered_by_second :
    Served client question request 0 0 default_ladder
      (applied ascii question (some new_floor)).0
      (run_turn_sticky client ascii question request (codes "local-3b") true new_floor)
unfolding run_turn_sticky run_turn_inner start_index tier_index apply position text_eq run_from
    run_rung run_by run_local_rung local_result verified after_rung raise_to topic_tokens
answered_by_second = record {
  below = new (codes "local-3b") local (codes "qwen2.5:3b") ∷ [];
  server = new (codes "local-8b") local (codes "qwen3:8b");
  above = drop 2 default_ladder;
  text = codes "Noon.";
  splits = refl;
  climbed = (refl, tt);
  serves = refl;
  fillers_are = refl;
  outcome_is = refl;
  floor_is = refl;
}
