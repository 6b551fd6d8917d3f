-- ===== src/Ladder.antt =====
-- src/ladder.rs: one turn through the tier ladder. The local backends, the cloud client, `wm_verify`,
-- the stakes provider and the probe of recall are parameters. A turn's output is the list of what it
-- sends to its `LadderSink`, in order.
pub mod Rungs
pub mod Climb
pub mod Cloud
pub mod Floor
pub mod Total
mod Tests
use wintermute_brain.History.{Role, user, assistant, Message}
use wintermute_brain.Tiers.{
  Backend, local, anthropic, Tier, is_anthropic, position, unwrap_or, canonical_model, any_eq,
}
use wintermute_brain.Prelude.Unicode.{Unicode, trim, is_empty}
use wintermute_brain.Prelude.{
  ℕ, suc, ◌+◌, ◌-◌, ◌*◌, max, Bool, true, false, not, ◌&&◌, ◌||◌, List, [], ◌∷◌, ◌++◌, map, Option,
  none, some, Text, codes, text_eq, length, drop, ltb, leb, if◌then◌else◌,
}

abbrev pub escalation_filler : Text
escalation_filler = codes "Let me think about that for a moment."

-- `wm_router::Stakes`, with the name of the class.
pub data Stakes : Type 0 where
  ordinary : Stakes
  high_stakes : Text → Stakes

-- `wm_local_llm::LocalOutcome` and `wm_verify::Verdict`, with the reasons as they are shown.
pub data LocalOutcome : Type 0 where
  answered escalate : Text → LocalOutcome

pub data Verdict : Type 0 where
  accept : Verdict
  reject : Text → Verdict

pub data SystemField : Type 0 where
  plain : Text → SystemField
  blocks : List Text → SystemField

pub record MessageRequest : Type 0 where
  pub model : Text
  pub max_tokens : ℕ
  pub system : Option SystemField
  pub messages : List Message
  pub stream : Bool

-- Of `StreamEvent`, the ladder reads the text deltas alone.
pub data StreamEvent : Type 0 where
  text_delta : Text → StreamEvent
  other_event : StreamEvent

-- `wm_local_llm::Prompt`: messages, each with its role.
pub data LocalRole : Type 0 where
  local_system local_user local_assistant : LocalRole

pub record LocalMessage : Type 0 where
  pub role : LocalRole
  pub content : Text

pub data LadderOutcome : Type 0 where
  answer : (text tier : Text) → LadderOutcome
  degraded : (reason : Text) → LadderOutcome

pub data Output : Type 0 where
  filler delta : Text → Output

-- What `collect_messages` returns, the error as it is shown.
pub data Reply : Type 0 where
  events : List StreamEvent → Reply
  failed : Text → Reply

-- The two kinds of backend and the check of an answer. A local backend is known by its endpoint, `none`
-- for the default one, and returns the deltas that it streams and its outcome. The cloud client is
-- missing without an API key.
pub record Backends : Type 0 where
  pub generate : Option Text → Text → List LocalMessage → List Text × LocalOutcome
  pub cloud : Option (MessageRequest → Reply)
  pub verify : Text → Text → Verdict

pub data RungResult : Type 0 where
  stop_answer stop_degraded : LadderOutcome → RungResult
  climb : RungResult

pub record FloorState : Type 0 where
  pub floor_idx : ℕ
  pub prev_tokens : List Text
  pub seen : Bool

abbrev pub new_floor : FloorState
new_floor = record { floor_idx = 0; prev_tokens = []; seen = false }

pub record LadderClient : Type 0 where
  pub ladder : List Tier
  pub backends : Backends
  pub stakes : Text → Stakes

-- `wm_router::Route`, and what `RouterStakes` makes of it.
pub data Route : Type 0 where
  brain : Stakes → Route
  skill : Text → Route
  cache_lookup : Route

unfoldable pub router_stakes : Route → Stakes
router_stakes (brain stakes) = stakes
router_stakes (skill name) = ordinary
router_stakes cache_lookup = ordinary

-- `split(test)`, the empty pieces left out.
split_words : (ℕ → Bool) → Text → Text → List Text
split_words test word [] = if is_empty word then [] else word ∷ []
split_words test word (c ∷ s) =
    let next = split_words test [] s in
    let longer = split_words test (word ++ c ∷ []) s in
    if test c then (if is_empty word then next else word ∷ next) else longer

unfoldable pub topic_tokens : Unicode → Text → List Text
unfolding split_words
topic_tokens u s = map u.to_lowercase (split_words (λ c. not (u.is_alphanumeric c)) [] s)

-- A `BTreeSet` of tokens, as a list without repetitions.
unfoldable pub distinct : List Text → List Text
distinct [] = []
distinct (t ∷ ts) = if any_eq (distinct ts) t then distinct ts else t ∷ distinct ts

unfoldable pub count_in : List Text → List Text → ℕ
count_in [] b = 0
count_in (t ∷ ts) b = if any_eq b t then suc (count_in ts b) else count_in ts b

-- `inter as f32 / union as f32 < 0.2`. The quotient of two numbers below 2^22 is below the `f32`
-- nearest to a fifth exactly when it is below a fifth.
unfoldable pub topic_changed : List Text → List Text → Bool
topic_changed prev cur =
    let a = distinct prev in
    let b = distinct cur in
    let inter = count_in a b in
    let union = length a + length b - inter in
    leb (length a) 0 || leb (length b) 0 || ltb (5 * inter) union

unfoldable pub apply : Unicode → Text → FloorState → FloorState × ℕ
apply u transcript st =
    let tokens = topic_tokens u transcript in
    let idx = if st.seen && topic_changed st.prev_tokens tokens then 0 else st.floor_idx in
    (record { floor_idx = idx; prev_tokens = tokens; seen = true }, idx)

unfoldable pub raise_to : ℕ → FloorState → FloorState
raise_to idx st = if ltb st.floor_idx idx then record st { floor_idx = idx } else st

unfoldable pub tier_index : Text → List Tier → Option ℕ
tier_index name ladder = position (λ t. text_eq t.name name) ladder

unfoldable pub first_cloud_index : List Tier → ℕ
first_cloud_index ladder = unwrap_or (position is_anthropic ladder) (length ladder - 1)

unfoldable pub start_index : Text → Stakes → Bool → List Tier → ℕ
start_index start_tier (high_stakes class) recall_up ladder =
    unwrap_or (tier_index (codes "sonnet") ladder) (first_cloud_index ladder)
start_index start_tier ordinary recall_up ladder =
    let requested = unwrap_or (tier_index start_tier ladder) 0 in
    let floor = unwrap_or (tier_index (codes "haiku") ladder) (first_cloud_index ladder) in
    if recall_up then requested else max requested floor

join_blocks : List Text → Text
join_blocks [] = []
join_blocks (b ∷ []) = b
join_blocks (b ∷ c ∷ bs) = b ++ 10 ∷ 10 ∷ join_blocks (c ∷ bs)

system_text : SystemField → Text
unfolding join_blocks
system_text (plain s) = s
system_text (blocks bs) = join_blocks bs

local_role : Role → LocalRole
local_role user = local_user
local_role assistant = local_assistant

system_messages : Option SystemField → List LocalMessage
unfolding system_text
system_messages none = []
system_messages (some f) = record { role = local_system; content = system_text f } ∷ []

turn_messages : List Message → Text → List LocalMessage
unfolding local_role
turn_messages [] transcript = record { role = local_user; content = transcript } ∷ []
turn_messages (m ∷ ms) transcript =
    map (λ m. record { role = local_role m.role; content = m.content }) (m ∷ ms)

unfoldable pub prompt_from_request : MessageRequest → Text → List LocalMessage
unfolding system_messages turn_messages
prompt_from_request request transcript =
    system_messages request.system ++ turn_messages request.messages transcript

unfoldable pub with_model : MessageRequest → Text → MessageRequest
with_model request model = record request { model = model }

-- `extract_assistant_text` of src/daemon.rs, and the deltas that a cloud rung forwards.
unfoldable pub extract_assistant_text : List StreamEvent → Text
extract_assistant_text [] = []
extract_assistant_text (text_delta t ∷ es) = t ++ extract_assistant_text es
extract_assistant_text (other_event ∷ es) = extract_assistant_text es

unfoldable pub forwarded : List StreamEvent → List Output
forwarded [] = []
forwarded (text_delta t ∷ es) = delta t ∷ forwarded es
forwarded (other_event ∷ es) = forwarded es

-- A rung that is not the top climbs where the top gives up.
abbrev pub climb_or_degrade : Bool → Text → RungResult
climb_or_degrade at_top reason = if at_top then stop_degraded (degraded reason) else climb

verified : Verdict → Text → Tier → Bool → RungResult
verified accept text tier at_top = stop_answer (answer text tier.name)
verified (reject reason) text tier at_top =
    if at_top then stop_answer (answer text tier.name) else climb

local_result : LocalOutcome → Backends → Tier → Text → Bool → RungResult
unfolding verified
local_result (answered text) b tier transcript at_top =
    verified (b.verify text transcript) text tier at_top
local_result (escalate reason) b tier transcript at_top =
    climb_or_degrade at_top (codes "top tier escalated: " ++ reason)

unfoldable pub run_local_rung :
    Backends → Tier → Text → List LocalMessage → Bool → List Output × RungResult
unfolding local_result
run_local_rung b tier transcript prompt at_top =
    let (deltas, outcome) = b.generate tier.endpoint_override tier.model prompt in
    (map delta deltas, local_result outcome b tier transcript at_top)

cloud_result : Reply → Tier → Bool → List Output × RungResult
cloud_result (events es) tier at_top =
    let text = extract_assistant_text es in
    (
      forwarded es,
      if is_empty (trim text)
          then climb_or_degrade at_top (codes "top tier returned no text")
          else stop_answer (answer text tier.name),
    )
cloud_result (failed err) tier at_top =
    ([], climb_or_degrade at_top (codes "top tier error: " ++ err))

cloud_rung :
    Option (MessageRequest → Reply) → Tier → MessageRequest → Bool → List Output × RungResult
unfolding cloud_result
cloud_rung none tier request at_top =
    ([], climb_or_degrade at_top (codes "no api key for tier " ++ tier.name))
cloud_rung (some collect_messages) tier request at_top =
    cloud_result (collect_messages (with_model request (canonical_model tier.model))) tier at_top

unfoldable pub run_anthropic_rung :
    Backends → Tier → MessageRequest → Bool → List Output × RungResult
unfolding cloud_rung
run_anthropic_rung b tier request at_top = cloud_rung b.cloud tier request at_top

-- The `match tier.backend` of the loop.
run_by : Backend → Backends → Tier → Text → MessageRequest → Bool → List Output × RungResult
run_by local b tier transcript request at_top =
    run_local_rung b tier transcript (prompt_from_request request transcript) at_top
run_by anthropic b tier transcript request at_top = run_anthropic_rung b tier request at_top

unfoldable pub run_rung : Backends → Tier → Text → MessageRequest → Bool → List Output × RungResult
unfolding run_by
run_rung b tier transcript request at_top = run_by tier.backend b tier transcript request at_top

-- What a turn leaves: its output, its outcome and the session floor, if there is one.
abbrev pub TurnEnd : Type 0
TurnEnd = List Output × LadderOutcome × Option FloorState

abbrev pub raised : ℕ → Option FloorState → Option FloorState
raised idx none = none
raised idx (some st) = some (raise_to idx st)

-- The end of one pass of the loop: `next` is the rest of the loop, one rung up.
after_rung : RungResult → ℕ → Option FloorState → TurnEnd → TurnEnd
after_rung (stop_answer out) idx floor next = ([], out, raised idx floor)
after_rung (stop_degraded out) idx floor next = ([], out, floor)
after_rung climb idx floor next = next

module _ (c : LadderClient) (transcript : Text) (request : MessageRequest) where
  -- The loop of `run_turn_inner` at rung `idx`; `rest` is the ladder from there on.
  unfoldable pub run_from : ℕ → Bool → List Tier → Option FloorState → TurnEnd
  unfolding after_rung
  run_from idx climbed [] floor = ([], degraded (codes "ladder exhausted"), floor)
  run_from idx climbed (tier ∷ above) floor =
      let at_top = leb (length c.ladder) (idx + 1) in
      let (output, rung) = run_rung c.backends tier transcript request at_top in
      let next = run_from (idx + 1) true above floor in
      let (later, outcome, floor') = after_rung rung idx floor next in
      ((if climbed then filler escalation_filler ∷ [] else []) ++ output ++ later, outcome, floor')

abbrev applied : Unicode → Text → Option FloorState → Option FloorState × ℕ
applied u transcript none = (none, 0)
applied u transcript (some st) = let (st', idx) = apply u transcript st in (some st', idx)

unfoldable pub run_turn_inner :
    LadderClient → Unicode → Text → MessageRequest → Text → Bool → Option FloorState → TurnEnd
run_turn_inner c u transcript request start_tier recall_up floor =
    let (floor', least) = applied u transcript floor in
    let start = max (start_index start_tier (c.stakes transcript) recall_up c.ladder) least in
    run_from c transcript request start false (drop start c.ladder) floor'

unfoldable pub run_turn :
    LadderClient → Unicode → Text → MessageRequest → Text → Bool → List Output × LadderOutcome
run_turn c u transcript request start_tier recall_up =
    let (output, outcome, floor) =
      run_turn_inner c u transcript request start_tier recall_up none in
    (output, outcome)

unfoldable pub run_turn_sticky :
    LadderClient → Unicode → Text → MessageRequest → Text → Bool → FloorState → TurnEnd
run_turn_sticky c u transcript request start_tier recall_up floor =
    run_turn_inner c u transcript request start_tier recall_up (some floor)
