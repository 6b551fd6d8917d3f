-- ===== src/Ladder/Rungs.antt =====
-- What one rung can end in, and what it sends.
use wintermute_brain.Tiers.{Tier, Backend, local, anthropic, canonical_model}
use wintermute_brain.Prelude.Unicode.{is_empty, trim}
use wintermute_brain.Prelude.{
  ℕ, suc, ◌+◌, ◌≡◌, refl, Bool, true, false, List, [], ◌∷◌, ◌++◌, map, Option, none, some, Text,
  arith, Bool-cases, inl, inr,
}
use wintermute_brain.Ladder.{
  Output, filler, delta, answer, degraded, RungResult, stop_answer, stop_degraded, climb, Verdict,
  accept, reject, LocalOutcome, answered, escalate, Reply, events, failed, StreamEvent, text_delta,
  other_event, forwarded, Backends, MessageRequest, climb_or_degrade, verified, local_result,
  cloud_result, cloud_rung, run_local_rung, run_anthropic_rung, run_by, run_rung,
  prompt_from_request, extract_assistant_text, with_model,
}

-- An answer carries the rung's name; only the top rung degrades the turn, and only the others climb.
abbrev pub RungEnd : Bool → Tier → RungResult → Type 0
RungEnd at_top tier (stop_answer out) = (text : Text) × (out ≡ answer text tier.name)
RungEnd at_top tier (stop_degraded out) =
    (at_top ≡ true) × ((reason : Text) × (out ≡ degraded reason))
RungEnd at_top tier climb = at_top ≡ false

climb_or_degrade-RungEnd :
    (at_top : Bool) (tier : Tier) (reason : Text)
    → RungEnd at_top tier (climb_or_degrade at_top reason)
climb_or_degrade-RungEnd true tier reason = (refl, (reason, refl))
climb_or_degrade-RungEnd false tier reason = refl

verified-RungEnd :
    (v : Verdict) (text : Text) (tier : Tier) (at_top : Bool)
    → RungEnd at_top tier (verified v text tier at_top)
unfolding verified
verified-RungEnd accept text tier at_top = (text, refl)
verified-RungEnd (reject reason) text tier true = (text, refl)
verified-RungEnd (reject reason) text tier false = refl

local_result-RungEnd :
    (o : LocalOutcome) (b : Backends) (tier : Tier) (transcript : Text) (at_top : Bool)
    → RungEnd at_top tier (local_result o b tier transcript at_top)
unfolding local_result
local_result-RungEnd (answered text) b tier transcript at_top =
    verified-RungEnd (b.verify text transcript) text tier at_top
local_result-RungEnd (escalate reason) b tier transcript at_top =
    climb_or_degrade-RungEnd at_top tier _

cloud_result-RungEnd :
    (r : Reply) (tier : Tier) (at_top : Bool) → RungEnd at_top tier (cloud_result r tier at_top).1
unfolding cloud_result
cloud_result-RungEnd (events es) tier at_top =
    elim (Bool-cases (is_empty (trim (extract_assistant_text es)))) [
      | inl blank ↦ rw blank (climb_or_degrade-RungEnd at_top tier _)
      | inr said ↦ rw said (extract_assistant_text es, refl)
    ]
cloud_result-RungEnd (failed err) tier at_top = climb_or_degrade-RungEnd at_top tier _

cloud_rung-RungEnd :
    (cloud : Option (MessageRequest → Reply)) (tier : Tier) (request : MessageRequest)
    (at_top : Bool)
    → RungEnd at_top tier (cloud_rung cloud tier request at_top).1
unfolding cloud_rung
cloud_rung-RungEnd none tier request at_top = climb_or_degrade-RungEnd at_top tier _
cloud_rung-RungEnd (some collect) tier request at_top =
    cloud_result-RungEnd (collect (with_model request (canonical_model tier.model))) tier at_top

run_by-RungEnd :
    (k : Backend) (b : Backends) (tier : Tier) (transcript : Text) (request : MessageRequest)
    (at_top : Bool)
    → RungEnd at_top tier (run_by k b tier transcript request at_top).1
unfolding run_by run_local_rung run_anthropic_rung
run_by-RungEnd local b tier transcript request at_top =
    local_result-RungEnd
      (b.generate tier.endpoint_override tier.model (prompt_from_request request transcript)).1 b
      tier transcript at_top
run_by-RungEnd anthropic b tier transcript request at_top =
    cloud_rung-RungEnd b.cloud tier request at_top

pub run_rung-RungEnd :
    (b : Backends) (tier : Tier) (transcript : Text) (request : MessageRequest) (at_top : Bool)
    → RungEnd at_top tier (run_rung b tier transcript request at_top).1
unfolding run_rung
run_rung-RungEnd b tier transcript request at_top =
    run_by-RungEnd tier.backend b tier transcript request at_top

-- How many fillers an output has.
abbrev pub fillers : List Output → ℕ
fillers [] = 0
fillers (filler phrase ∷ out) = suc (fillers out)
fillers (delta text ∷ out) = fillers out

pub fillers-append : (xs ys : List Output) → fillers (xs ++ ys) ≡ fillers xs + fillers ys
fillers-append [] ys = omega arith
fillers-append (filler phrase ∷ xs) ys = omega (arith, fillers-append xs ys)
fillers-append (delta text ∷ xs) ys = fillers-append xs ys

fillers-deltas : (ds : List Text) → fillers (map delta ds) ≡ 0
fillers-deltas [] = refl
fillers-deltas (d ∷ ds) = fillers-deltas ds

fillers-forwarded : (es : List StreamEvent) → fillers (forwarded es) ≡ 0
unfolding forwarded
fillers-forwarded [] = refl
fillers-forwarded (text_delta t ∷ es) = fillers-forwarded es
fillers-forwarded (other_event ∷ es) = fillers-forwarded es

fillers-cloud_result :
    (r : Reply) (tier : Tier) (at_top : Bool) → fillers (cloud_result r tier at_top).0 ≡ 0
unfolding cloud_result
fillers-cloud_result (events es) tier at_top = fillers-forwarded es
fillers-cloud_result (failed err) tier at_top = refl

fillers-cloud_rung :
    (cloud : Option (MessageRequest → Reply)) (tier : Tier) (request : MessageRequest)
    (at_top : Bool)
    → fillers (cloud_rung cloud tier request at_top).0 ≡ 0
unfolding cloud_rung
fillers-cloud_rung none tier request at_top = refl
fillers-cloud_rung (some collect) tier request at_top =
    fillers-cloud_result (collect (with_model request (canonical_model tier.model))) tier at_top

fillers-run_by :
    (k : Backend) (b : Backends) (tier : Tier) (transcript : Text) (request : MessageRequest)
    (at_top : Bool)
    → fillers (run_by k b tier transcript request at_top).0 ≡ 0
unfolding run_by run_local_rung run_anthropic_rung
fillers-run_by local b tier transcript request at_top =
    fillers-deltas
      (b.generate tier.endpoint_override tier.model (prompt_from_request request transcript)).0
fillers-run_by anthropic b tier transcript request at_top =
    fillers-cloud_rung b.cloud tier request at_top

pub fillers-run_rung :
    (b : Backends) (tier : Tier) (transcript : Text) (request : MessageRequest) (at_top : Bool)
    → fillers (run_rung b tier transcript request at_top).0 ≡ 0
unfolding run_rung
fillers-run_rung b tier transcript request at_top =
    fillers-run_by tier.backend b tier transcript request at_top
