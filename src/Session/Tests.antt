-- ===== src/Session/Tests.antt =====
-- The tracker of src/session.rs on concrete turns.

use wintermute_brain.Prelude.{ℕ, ◌≡◌, refl, List, [], ◌∷◌, map, none, codes}
use wintermute_brain.Session.{SessionTracker}
use wintermute_brain.Session.Bursts.{
  bursts, start_of, idle_ends, advance_all, started, ended, advance_all-bursts,
}

abbrev tracker : SessionTracker
tracker = record { current = none; idle_gap_ms = 1000; end_phrases = codes "goodbye" ∷ [] }

-- Two turns close together, then two more after a long silence.
abbrev turn_times : List ℕ
turn_times = 5000 ∷ 5400 ∷ 9000 ∷ 9999 ∷ []

advance_all-bursts_example :
    (started (advance_all tracker turn_times).1 ≡ map start_of (bursts 1000 turn_times))
    × (ended (advance_all tracker turn_times).1 ≡ idle_ends (bursts 1000 turn_times))
advance_all-bursts_example = advance_all-bursts tracker turn_times refl
