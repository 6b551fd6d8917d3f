-- ===== src/Turn/Ordered.antt =====
-- The order of what an answer publishes.
use wintermute_brain.Cache.{Float}
use wintermute_brain.Splitter
use wintermute_brain.Prelude.{ℕ, ◌≡◌, true}
use wintermute_brain.Turn.{Brain}

module _ {Json : Type 0} {f : Float} where
  -- Each publish to come succeeds.
  abbrev pub Open : Brain Json f → Type 0
  Open b = (n : ℕ) → b.sink.accepts n ≡ true
