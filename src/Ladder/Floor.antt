-- ===== src/Ladder/Floor.antt =====
-- The session floor from one turn to the next.
use wintermute_brain.Prelude.Unicode.{Unicode}
use wintermute_brain.Prelude.{ℕ, ◌≤◌, ◌≡◌, true, Option, some, Text}
use wintermute_brain.Ladder.{FloorState, topic_tokens}

-- The floor remembers the turn, and stands at `idx` or above.
record Remembers (u : Unicode) (transcript : Text) (idx : ℕ) (floor : Option FloorState)
    : Type 0 where
  state : FloorState
  held : floor ≡ some state
  tokens : state.prev_tokens ≡ topic_tokens u transcript
  saw : state.seen ≡ true
  above : idx ≤ state.floor_idx
