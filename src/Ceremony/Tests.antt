-- ===== src/Ceremony/Tests.antt =====
-- A ceremony of src/introduction.rs that is acknowledged, and one that times out.
use wintermute_brain.Config.{first_ever_boot, default_persona_config, IntroductionMode}
use wintermute_brain.Prelude.Unicode.{ascii}
use wintermute_brain.Prelude.{◌≤◌, true, List, [], ◌∷◌, some, codes}
use wintermute_brain.Ceremony.{Setting, idle}
use wintermute_brain.Ceremony.Greetings.{
  Input, booted, heard, woken, all_published, greetings, introductions, greetings-le-introductions,
}

abbrev setting : Setting
setting = record { persona = default_persona_config; user_name = some (codes "Mom") }

abbrev mode : IntroductionMode
mode = first_ever_boot 25

abbrev inputs : List Input
inputs =
    booted true 1000 true
    ∷ heard (codes "what") 90000
    ∷ woken
    ∷ woken
    ∷ heard (codes "hello") 91000
    ∷ []

greetings-le-introductions_example :
    greetings (all_published ascii setting mode inputs idle)
    ≤ introductions (all_published ascii setting mode inputs idle)
greetings-le-introductions_example = greetings-le-introductions setting ascii mode inputs
