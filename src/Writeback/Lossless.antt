-- ===== src/Writeback/Lossless.antt =====
-- Every recorded turn goes to one writeback, or is in the session that is still open.
use wintermute_brain.History.{Turn}
use wintermute_brain.Prelude.{
  ℕ, ◌≤◌, ◌<◌, ◌≡◌, true, List, [], ◌∷◌, ◌++◌, Option, none, some, Text, All,
}
use wintermute_brain.Writeback.{
  WritebackSession, Writeback, session_id_at, advance_writeback_session, record_turn_for_writeback,
}

-- What a user turn does to the writeback: the session advances, and the turn is recorded if it is
-- answered.
pub record UserTurn : Type 0 where
  pub now_ms : ℕ
  pub answered : Option (Text × Text)

unfoldable pub record_answer : Option (Text × Text) → ℕ → Writeback → Writeback
record_answer none now_ms w = w
record_answer (some (user, assistant)) now_ms w = record_turn_for_writeback user assistant now_ms w

abbrev pub after_turn : ℕ → Writeback → UserTurn → Writeback
after_turn idle_gap_ms w t =
    record_answer t.answered t.now_ms (advance_writeback_session idle_gap_ms true t.now_ms w).1

unfoldable pub after_turns : ℕ → Writeback → List UserTurn → Writeback
after_turns idle_gap_ms w [] = w
after_turns idle_gap_ms w (t ∷ ts) = after_turns idle_gap_ms (after_turn idle_gap_ms w t) ts

abbrev pub answer_of : UserTurn → Option (Text × Text) → List Turn
answer_of t none = []
answer_of t (some (user, assistant)) =
    record { user = user; assistant = assistant; ts = t.now_ms } ∷ []

-- The turns that were answered, in order.
unfoldable pub answered_turns : List UserTurn → List Turn
answered_turns [] = []
answered_turns (t ∷ ts) = answer_of t t.answered ++ answered_turns ts

-- The turns of the tasks, in order, and those of the open session.
abbrev pub spawned_turns : List (Text × List Turn) → List Turn
spawned_turns [] = []
spawned_turns (task ∷ tasks) = task.1 ++ spawned_turns tasks

abbrev pub open_turns : Option WritebackSession → List Turn
open_turns none = []
open_turns (some s) = s.turns

abbrev pub all_turns : Writeback → List Turn
all_turns w = spawned_turns w.spawned ++ open_turns w.session

-- The time does not go back.
abbrev pub Later : ℕ → List UserTurn → Type 0
Later now [] = Unit
Later now (t ∷ ts) = (now ≤ t.now_ms) × Later t.now_ms ts

-- The ids in the set are those of sessions that were opened before the time.
abbrev OpenedBefore : ℕ → Text → Type 0
OpenedBefore time id = (opened : ℕ) × (opened < time) × (id ≡ session_id_at opened)

-- The open session was opened after those that are written, and not after its last turn.
abbrev SessionFits : ℕ → List Text → Option WritebackSession → Type 0
SessionFits now written none = written ≡ []
SessionFits now written (some s) =
    (opened : ℕ) × (s.session_id ≡ session_id_at opened)
    × (opened ≤ s.last_turn_ms)
    × (s.last_turn_ms ≤ now)
    × All (OpenedBefore opened) written

abbrev Kept : ℕ → Writeback → Writeback → Type 0
Kept now w w' = SessionFits now w'.written w'.session × (all_turns w' ≡ all_turns w)
