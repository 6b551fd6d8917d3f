-- ===== src/Almanac/Tests.antt =====
-- The reminder of src/almanac.rs on concrete answers.
use wintermute_brain.Prelude.Unicode.{ascii}
use wintermute_brain.Prelude.{ℕ, ◌*◌, ◌+◌, ◌≤◌, true, false, List, [], ◌∷◌, none, codes}
use wintermute_brain.Bus.{Sink}
use wintermute_brain.Almanac.{
  Reminders, default_entry_config, normalise, classify_ack_response, handle_almanac_due,
}
use wintermute_brain.Almanac.Answers.{ByTokens, classify_ack_response-Holds}
use wintermute_brain.Almanac.Lifecycle.{Input, heard, ticked, fired_in, fired_in-handle_almanac_due}

classify_ack_response-Holds_example :
    ByTokens
      (normalise ascii (codes "Not yet, give me a minute!"))
      (classify_ack_response ascii (codes "Not yet, give me a minute!"))
classify_ack_response-Holds_example =
    classify_ack_response-Holds ascii (codes "Not yet, give me a minute!")

abbrev idle_reminders : Reminders
idle_reminders = record { pending_ack = none; almanac_patience_ms = 30000; almanac_speak = true }

abbrev open_bus : Sink ℕ
open_bus = record { log = []; on_bus = []; attempts = 0; accepts = λ n. true; rejects = λ n. false }

abbrev inputs : List Input
inputs = heard (codes "later") 2000 ∷ ticked 40000 ∷ heard (codes "done") 41000 ∷ []

fired_in-handle_almanac_due_example :
    fired_in ascii inputs
      (handle_almanac_due (codes "pill-1") (codes "pills") default_entry_config 1000 idle_reminders)
      open_bus
    ≤ 2 * 2 + 2
fired_in-handle_almanac_due_example =
    fired_in-handle_almanac_due ascii inputs (codes "pill-1") (codes "pills") default_entry_config
      1000 idle_reminders open_bus
