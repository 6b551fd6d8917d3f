-- ===== src/Writeback.antt =====
-- src/writeback.rs, and the writeback session of src/daemon.rs: the turns of a session are collected, and
-- handed to the extractor of facts once the session has been idle. The extractor, `save_fact`, the
-- date and the `f64` numbers are parameters; a task that is spawned is its session's id and turns.
pub mod Lossless
mod Tests
use wintermute_brain.History.{Turn}
use wintermute_brain.Prelude.Decimal.{show}
use wintermute_brain.Prelude.Unicode.{trim, is_empty}
use wintermute_brain.Prelude.{
  ℕ, suc, ◌+◌, ◌-◌, Bool, true, false, not, ◌&&◌, ◌||◌, List, [], ◌∷◌, ◌++◌, Option, none, some,
  Text, codes, text_eq, starts_with, length, ltb, leb, ◌==◌, if◌then◌else◌, saturating_sub,
}

abbrev pub min_turns_for_writeback : ℕ
min_turns_for_writeback = 1

-- `f64`: `str::parse`, `clamp(0.0, 1.0)` and `<`.
pub record Float64 : Type 1 where
  pub F64 : Type 0
  pub parse : Text → Option F64
  pub clamp : F64 → F64
  pub lt : F64 → F64 → Bool

-- `str::lines`, with the line being read: a line ends at a line feed, and a carriage return before that
-- is dropped; no empty line stands behind the last line feed.
drop_return : Text → Text
drop_return [] = []
drop_return (c ∷ []) = if c == 13 then [] else c ∷ []
drop_return (c ∷ d ∷ s) = c ∷ drop_return (d ∷ s)

lines_from : Text → Text → List Text
unfolding drop_return
lines_from line [] = if is_empty line then [] else line ∷ []
lines_from line (c ∷ s) =
    let next = drop_return line ∷ lines_from [] s in
    let longer = lines_from (line ++ c ∷ []) s in if c == 10 then next else longer

unfoldable pub lines : Text → List Text
unfolding lines_from
lines s = lines_from [] s

-- `splitn(n, '|')`, with the part being read.
splitn_from : ℕ → Text → Text → List Text
splitn_from n part [] = part ∷ []
splitn_from n part (c ∷ s) =
    let next = part ∷ splitn_from (n - 1) [] s in
    let longer = splitn_from n (part ++ c ∷ []) s in if c == b'|' && ltb 1 n then next else longer

unfoldable pub splitn : ℕ → Text → List Text
unfolding splitn_from
splitn n s = splitn_from n [] s

module _ (f : Float64) where
  open f use {F64, parse, clamp, lt}

  pub record ExtractedFact : Type 0 where
    pub subject_hint : Text
    pub body : Text
    pub confidence : F64

  -- The end of a line's body in the loop, for its confidence.
  kept : Text → Text → Option F64 → F64 → Option ExtractedFact
  kept subject body none floor = none
  kept subject body (some parsed) floor =
      if lt (clamp parsed) floor
      then none
      else some (record { subject_hint = subject; body = body; confidence = clamp parsed })

  parts_fact : List Text → F64 → Option ExtractedFact
  unfolding kept
  parts_fact (_ ∷ subject ∷ body ∷ conf ∷ _) floor =
      if is_empty (trim subject) || is_empty (trim body)
      then none
      else kept (trim subject) (trim body) (parse (trim conf)) floor
  parts_fact _ floor = none

  unfoldable pub line_fact : Text → F64 → Option ExtractedFact
  unfolding parts_fact
  line_fact line floor =
      let trimmed = trim line in
      if starts_with trimmed (codes "FACT |") then parts_fact (splitn 4 trimmed) floor else none

  unfoldable pub add_fact : Option ExtractedFact → List ExtractedFact → List ExtractedFact
  add_fact none facts = facts
  add_fact (some fact) facts = fact ∷ facts

  unfoldable pub facts_of : List Text → F64 → List ExtractedFact
  unfolding add_fact line_fact
  facts_of [] floor = []
  facts_of (line ∷ rest) floor = add_fact (line_fact line floor) (facts_of rest floor)

  unfoldable pub parse_extraction_response : Text → F64 → List ExtractedFact
  unfolding facts_of lines
  parse_extraction_response raw floor = facts_of (lines raw) floor

unfoldable pub render_transcript : List Turn → Text
render_transcript [] = []
render_transcript (t ∷ turns) =
    codes "User: "
    ++ (trim t.user
        ++ (10 ∷ codes "Assistant: " ++ (trim t.assistant ++ (10 ∷ render_transcript turns))))

abbrev pub thread_subject_for : Text → Text
thread_subject_for date = codes "wintermute-thread-" ++ date

unfoldable pub recall_subject_for : Text → Text → Text
recall_subject_for subject_hint date =
    if text_eq subject_hint (codes "thread") || is_empty subject_hint
    then thread_subject_for date
    else codes "wintermute-" ++ subject_hint

-- `WritebackGuard`: the ids that are written. `try_claim` is `HashSet::insert`.
unfoldable pub was_written : List Text → Text → Bool
was_written [] id = false
was_written (x ∷ xs) id = text_eq x id || was_written xs id

unfoldable pub try_claim : Text → List Text → Bool × List Text
try_claim session_id written =
    if was_written written session_id then (false, written) else (true, session_id ∷ written)

pub record WritebackSession : Type 0 where
  pub session_id : Text
  pub last_turn_ms : ℕ
  pub turns : List Turn

-- The part of `DaemonState` that the writeback uses, and the tasks that it has spawned.
pub record Writeback : Type 0 where
  pub session : Option WritebackSession
  pub written : List Text
  pub spawned : List (Text × List Turn)

abbrev pub new_writeback : Writeback
new_writeback = record { session = none; written = []; spawned = [] }

abbrev pub session_id_at : ℕ → Text
session_id_at now_ms = codes "wmd-sess-" ++ show now_ms

abbrev pub opened_at : ℕ → WritebackSession
opened_at now_ms = record { session_id = session_id_at now_ms; last_turn_ms = now_ms; turns = [] }

-- The writeback of a session that closes, where there is an extractor.
unfoldable pub spawn_writeback : Bool → WritebackSession → Writeback → Writeback
spawn_writeback has_extractor s w =
    let (claimed, written) = try_claim s.session_id w.written in
    if has_extractor
    then (if claimed
        then record w { written = written; spawned = w.spawned ++ (s.session_id, s.turns) ∷ [] }
        else record w { written = written })
    else w

advance_from : Option WritebackSession → ℕ → Bool → ℕ → Writeback → Text × Writeback
unfolding spawn_writeback
advance_from none idle_gap_ms has_extractor now_ms w =
    (session_id_at now_ms, record w { session = some (opened_at now_ms) })
advance_from (some s) idle_gap_ms has_extractor now_ms w =
    if leb idle_gap_ms (saturating_sub now_ms s.last_turn_ms)
    then (
      session_id_at now_ms,
      record (spawn_writeback has_extractor s w) { session = some (opened_at now_ms) },
    )
    else (s.session_id, record w { session = some (record s { last_turn_ms = now_ms }) })

unfoldable pub advance_writeback_session : ℕ → Bool → ℕ → Writeback → Text × Writeback
unfolding advance_from
advance_writeback_session idle_gap_ms has_extractor now_ms w =
    advance_from w.session idle_gap_ms has_extractor now_ms w

record_in : Option WritebackSession → Turn → Option WritebackSession
record_in none turn = none
record_in (some s) turn = some (record s { turns = s.turns ++ turn ∷ [] })

unfoldable pub record_turn_for_writeback : Text → Text → ℕ → Writeback → Writeback
unfolding record_in
record_turn_for_writeback user assistant ts w = record w {
  session = record_in w.session (record { user = user; assistant = assistant; ts = ts });
}

-- The calls of `save_fact` for the facts, in order: a subject and a body each. A call that fails is
-- logged, and the next one is made all the same.
module _ (f : Float64) (date : Text) (floor : f.F64) where
  unfoldable pub saves_of : List (ExtractedFact f) → List (Text × Text)
  saves_of [] = []
  saves_of (fact ∷ facts) = (recall_subject_for fact.subject_hint date, fact.body) ∷ saves_of facts

  extracted : Option Text → List (Text × Text)
  extracted none = []
  extracted (some raw) = saves_of (parse_extraction_response f raw floor)

  -- `extract` is `none` where the call fails.
  unfoldable pub trigger_writeback_inner : (Text → Option Text) → List Turn → List (Text × Text)
  unfolding extracted
  trigger_writeback_inner extract turns =
      if ltb (length turns) min_turns_for_writeback
      then []
      else extracted (extract (render_transcript turns))

  unfoldable pub trigger_writeback :
      (Text → Option Text) → Text → List Turn → List Text → List Text × List (Text × Text)
  trigger_writeback extract session_id turns written =
      let (claimed, written') = try_claim session_id written in
      (written', if claimed then trigger_writeback_inner extract turns else [])
