-- ===== src/Turn/Redlined.antt =====
-- The redline block of `handle_turn_user_ladder` in src/daemon.rs, which stands there in the place of a
-- call of `redline::enforce`.
use wintermute_brain.Bus.{persona_redline}
use wintermute_brain.Cache.{Float}
use wintermute_brain.Redline.{
  Hit, RedlineAction, off, safe_phrase, regenerate, is_active, no_terms, phrase_or_default, scan,
  hardened_addendum,
}
use wintermute_brain.Ladder.{
  SystemField, plain, blocks, MessageRequest, LadderClient, FloorState, answer, degraded,
  run_turn_sticky,
}
use wintermute_brain.Prelude.{
  ℕ, zero, suc, ◌+◌, ◌%◌, u64_max, max, not, ◌&&◌, List, [], ◌∷◌, ◌++◌, Option, none, some, Text,
  codes, if◌then◌else◌,
}
use wintermute_brain.Turn.{Brain, World, try_say}

-- The system blocks of a request, and the request with one more block.
abbrev pub blocks_of : Option SystemField → List Text
blocks_of none = []
blocks_of (some (plain s)) = s ∷ []
blocks_of (some (blocks bs)) = bs

unfoldable pub with_addendum : MessageRequest → Text → MessageRequest
with_addendum req addendum = record req {
  system = some (blocks (blocks_of req.system ++ addendum ∷ []));
}

abbrev pub kept_floor : Option FloorState → FloorState → FloorState
kept_floor none floor = floor
kept_floor (some floor') floor = floor'

-- What the attempts come to: a clean answer, none, or a panic of the scan.
pub data Candidate : Type 0 where
  clean : Text → Candidate
  given_up scan_panicked : Candidate

module _ {Json : Type 0} {f : Float} (w : World Json f) (client : ℕ → LadderClient)
    (forbidden : List Text) where
  -- The attempts that are left, and those made.
  unfoldable pub attempts_of :
      Text → MessageRequest → Text → ℕ → ℕ → List Hit → Brain Json f → Brain Json f × ℕ × Candidate
  attempts_of transcript req served zero attempt hits b = (b, attempt, given_up)
  attempts_of transcript req served (suc left) attempt hits b =
      let (_, outcome, floor) =
        run_turn_sticky (client (attempt + 1)) w.u transcript
          (with_addendum req (hardened_addendum hits)) served (w.recall_up (attempt + 1)) b.floor in
      let b' : Brain Json f = record b { floor = kept_floor floor b.floor } in
      elim outcome [
        | degraded reason ↦ (b', attempt + 1, given_up)
        | answer text tier ↦ elim (scan w.u text forbidden) [
          | none ↦ (b', attempt + 1, scan_panicked)
          | some [] ↦ (b', attempt + 1, clean text)
          | some (h ∷ hs) ↦ attempts_of transcript req served left (attempt + 1) (h ∷ hs) b'
        ]
      ]

  abbrev pub redline_said : Text → ℕ → Text → ℕ → Text → Brain Json f → Brain Json f
  redline_said action attempts outcome now_ms turn_corr b =
      try_say
        (persona_redline (record {
          ts = now_ms;
          turn_id = turn_corr;
          action = action;
          attempts = attempts;
          outcome = outcome;
        }))
        b

  unfoldable pub regenerated :
      Option Text → ℕ → Text → Brain Json f × ℕ × Candidate → Brain Json f × Option Text
  regenerated fallback now_ms turn_corr (b, attempt, clean text) = (
    redline_said (codes "regenerate") attempt (codes "regenerated") now_ms turn_corr b,
    some text,
  )
  regenerated fallback now_ms turn_corr (b, attempt, given_up) = (
    redline_said (codes "regenerate") attempt (codes "fellback") now_ms turn_corr b,
    some (phrase_or_default fallback),
  )
  regenerated fallback now_ms turn_corr (b, attempt, scan_panicked) = (b, none)

  unfoldable pub by_action :
      RedlineAction
      → Text
      → MessageRequest
      → Text
      → ℕ
      → Text
      → Text
      → List Hit
      → Brain Json f
      → Brain Json f × Option Text
  unfolding regenerated
  by_action off transcript req served now_ms turn_corr text hits b = (b, some text)
  by_action (safe_phrase phrase) transcript req served now_ms turn_corr text hits b = (
    redline_said (codes "safe_phrase") 0 (codes "safe_phrase") now_ms turn_corr b,
    some (phrase_or_default phrase),
  )
  by_action (regenerate max_attempts fallback) transcript req served now_ms turn_corr text hits b =
      regenerated fallback now_ms turn_corr
        (attempts_of transcript req served (max max_attempts 1) 0 hits b)

  -- What is said in place of an answer; `none` for a panic.
  unfoldable pub redlined :
      RedlineAction
      → Text
      → MessageRequest
      → Text
      → ℕ
      → Text
      → Text
      → Brain Json f
      → Brain Json f × Option Text
  unfolding by_action
  redlined action transcript req served now_ms turn_corr text b =
      let found : Option (List Hit) =
        if is_active action && not (no_terms forbidden) then scan w.u text forbidden else some [] in
      elim found [
        | none ↦ (b, none)
        | some [] ↦ (b, some text)
        | some (h ∷ hs) ↦
            by_action action transcript req served now_ms turn_corr text (h ∷ hs)
              (record b { redline_counter = (b.redline_counter + 1) % (u64_max + 1) })
      ]
