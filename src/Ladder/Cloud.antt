-- ===== src/Ladder/Cloud.antt =====
-- Turns that no local model may see: those of high stakes, and those whose stakes are not known while
-- recall is down.
use wintermute_brain.Tiers.{Tier, is_anthropic, position, unwrap_or, capped_ladder}
use wintermute_brain.Tiers.Shape.{
  IsCloud, IsLocal, IsSplit, capped_ladder-IsSplit, drop-position, drop-All_later,
}
use wintermute_brain.Prelude.Unicode.{Unicode}
use wintermute_brain.Prelude.{
  ℕ, ◌+◌, ◌≡◌, ◌≢◌, refl, sym, subst, ◌⊎◌, inl, inr, Bool, true, false, List, [], ◌∷◌, Option, none,
  Text, codes, text_eq, arith, Option-cases, length, drop, leb, All,
}
use wintermute_brain.Ladder.{
  LadderClient, MessageRequest, Stakes, ordinary, high_stakes, LocalMessage, LocalOutcome, Verdict,
  FloorState, tier_index, first_cloud_index, start_index, run_rung, run_by, run_anthropic_rung,
  run_from, applied, run_turn_inner,
}
use wintermute_brain.Ladder.Climb.{start_of}

-- The same client with other local models and another check of their answers.
abbrev pub with_local :
    (Option Text → Text → List LocalMessage → List Text × LocalOutcome)
    → (Text → Text → Verdict)
    → LadderClient
    → LadderClient
with_local generate verify c = record c {
  backends = record c.backends { generate = generate; verify = verify };
}

-- The turn is of high stakes, or recall is down.
abbrev pub IsGuarded : LadderClient → Text → Bool → Type 0
IsGuarded c transcript recall_up =
    ((class : Text) × (c.stakes transcript ≡ high_stakes class)) ⊎ (recall_up ≡ false)

first_named-IsCloud :
    (ladder : List Tier) (name : Text)
    → IsSplit ladder
    → position is_anthropic ladder ≢ none
    → ((t : Tier) → IsLocal t → text_eq t.name name ≡ false)
    → All IsCloud (drop (unwrap_or (tier_index name ladder) (first_cloud_index ladder)) ladder)
unfolding tier_index first_cloud_index
first_named-IsCloud ladder name s some_cloud l =
    elim (Option-cases (position (λ t. text_eq t.name name) ladder)) [
      | inr (i, found) ↦ rw found (drop-position (λ t. text_eq t.name name) ladder i l s found)
      | inl absent ↦ elim (Option-cases (position is_anthropic ladder)) [
        | inl no_cloud ↦ absurd (some_cloud no_cloud)
        | inr (i, found) ↦
            rw (absent, found) (drop-position is_anthropic ladder i (λ t k. k.0) s found)
      ]
    ]

start_index-IsCloud :
    (start_tier : Text) (stakes : Stakes) (recall_up : Bool) (ladder : List Tier)
    → IsSplit ladder
    → position is_anthropic ladder ≢ none
    → ((class : Text) × (stakes ≡ high_stakes class)) ⊎ (recall_up ≡ false)
    → All IsCloud (drop (start_index start_tier stakes recall_up ladder) ladder)
unfolding start_index
start_index-IsCloud start_tier (high_stakes class) recall_up ladder s some_cloud g =
    first_named-IsCloud ladder (codes "sonnet") s some_cloud (λ t k. k.1)
start_index-IsCloud start_tier ordinary false ladder s some_cloud g =
    drop-All_later (unwrap_or (tier_index (codes "haiku") ladder) (first_cloud_index ladder)) _
      ladder (omega arith) (first_named-IsCloud ladder (codes "haiku") s some_cloud (λ t k. k.2))
start_index-IsCloud start_tier ordinary true ladder s some_cloud (inl (class, e)) =
    absurd (ground arith)
start_index-IsCloud start_tier ordinary true ladder s some_cloud (inr e) = absurd (ground arith)

run_rung-with_local :
    (c : LadderClient)
    (generate : Option Text → Text → List LocalMessage → List Text × LocalOutcome)
    (verify : Text → Text → Verdict) (tier : Tier) (transcript : Text) (request : MessageRequest)
    (at_top : Bool)
    → IsCloud tier
    → run_rung (with_local generate verify c).backends tier transcript request at_top
      ≡ run_rung c.backends tier transcript request at_top
unfolding run_rung run_by run_anthropic_rung
run_rung-with_local c generate verify tier transcript request at_top h = rw h refl

run_from-with_local :
    (c : LadderClient)
    (generate : Option Text → Text → List LocalMessage → List Text × LocalOutcome)
    (verify : Text → Text → Verdict) (transcript : Text) (request : MessageRequest) (idx : ℕ)
    (climbed : Bool) (tiers : List Tier) (floor : Option FloorState)
    → All IsCloud tiers
    → run_from (with_local generate verify c) transcript request idx climbed tiers floor
      ≡ run_from c transcript request idx climbed tiers floor
unfolding run_from
run_from-with_local c generate verify transcript request idx climbed [] floor a = refl
run_from-with_local c generate verify transcript request idx climbed (tier ∷ above) floor a =
    rw
      (
        run_rung-with_local c generate verify tier transcript request
            (leb (length c.ladder) (idx + 1)) a.0,
        run_from-with_local c generate verify transcript request (idx + 1) true above floor a.1,
      )
      refl

-- On every ladder that the daemon builds and that still has a cloud rung, a turn of high stakes, or any
-- turn while recall is down, ends the same whatever the local models answer and however their
-- answers are checked, with a session floor or without: it never goes to a local model.
pub run_turn_inner-guarded :
    (c : LadderClient) (gpu_endpoint : Option Text) (gpu_model : Text) (cap skip : Option Text)
    (generate : Option Text → Text → List LocalMessage → List Text × LocalOutcome)
    (verify : Text → Text → Verdict) (u : Unicode) (transcript : Text) (request : MessageRequest)
    (start_tier : Text) (recall_up : Bool) (floor : Option FloorState)
    → c.ladder ≡ capped_ladder gpu_endpoint gpu_model cap skip
    → position is_anthropic c.ladder ≢ none
    → IsGuarded c transcript recall_up
    → run_turn_inner (with_local generate verify c) u transcript request start_tier recall_up floor
      ≡ run_turn_inner c u transcript request start_tier recall_up floor
unfolding run_turn_inner
run_turn_inner-guarded c gpu_endpoint gpu_model cap skip generate verify u transcript request
      start_tier recall_up floor e some_cloud g =
    let start = start_of c u transcript start_tier recall_up floor in
    let split : IsSplit c.ladder =
      subst IsSplit (sym e) (capped_ladder-IsSplit gpu_endpoint gpu_model cap skip) in
    run_from-with_local c generate verify transcript request start false (drop start c.ladder)
      (applied u transcript floor).0
      (drop-All_later (start_index start_tier (c.stakes transcript) recall_up c.ladder) start
        c.ladder (omega arith)
        (start_index-IsCloud start_tier (c.stakes transcript) recall_up c.ladder split some_cloud
          g))
