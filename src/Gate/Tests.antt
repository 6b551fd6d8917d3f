-- ===== src/Gate/Tests.antt =====
-- The gate of src/daemon.rs on a concrete conversation.
use mathlib.Core.List.{reverse}
use wintermute_brain.Prelude.{ℕ, true, false, List, [], ◌∷◌, none, some, codes, All}
use wintermute_brain.Gate.{DestructiveIntent, Router, intent_id_for}
use wintermute_brain.Gate.Steps.{Step, propose, grant, deny, fresh, quiet, run}
use wintermute_brain.Gate.Authority.{Justified, run-Justified}

-- The JSON values of these runs are numbers, and each tool answers with its arguments.
abbrev echo : Router ℕ
echo tool args = record { ok = true; body = args }

abbrev delete_note : DestructiveIntent ℕ
delete_note = record {
  intent = codes "notes.delete";
  confirm_keyword = codes "confirm delete";
  summary = codes "Delete the note.";
  args = some 7;
}

abbrev now_ms : ℕ
now_ms = 1000

abbrev seq : ℕ
seq = 3

-- The dialog confirms twice, and answers an id that no one minted.
abbrev steps : List (Step ℕ)
steps =
    propose delete_note (codes "Shall I?") now_ms none
    ∷ grant (record { intent_id = intent_id_for now_ms 0; ts = 1 }) 2000
    ∷ grant (record { intent_id = intent_id_for now_ms 0; ts = 1 }) 2500
    ∷ deny (record { intent_id = codes "int-9"; reason = codes "no"; ts = 2 }) 3000
    ∷ []

run-Justified_example :
    All
      (Justified 0 (reverse steps))
      (run 0 echo steps fresh (quiet (λ n. true) (λ n. false))).1.log
run-Justified_example = run-Justified 0 echo steps (λ n. true) (λ n. false)
