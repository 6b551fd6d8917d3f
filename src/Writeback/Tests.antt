-- ===== src/Writeback/Tests.antt =====
-- The writeback on concrete turns.

use wintermute_brain.Prelude.{ℕ, List, [], ◌∷◌, none, some, Text, codes}
use wintermute_brain.Writeback.Lossless.{UserTurn}

abbrev said : ℕ → Text → UserTurn
said now_ms text = record { now_ms = now_ms; answered = some (text, codes "Yes.") }

-- Two turns in one session, one that is not answered, and one in the next session.
abbrev turns : List UserTurn
turns =
    said 100 (codes "Hello")
    ∷ said 150 (codes "Are you there")
    ∷ record { now_ms = 160; answered = none }
    ∷ said 400 (codes "Good morning")
    ∷ []
