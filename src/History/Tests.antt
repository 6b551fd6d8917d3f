-- ===== src/History/Tests.antt =====
-- The ring of src/history.rs on concrete turns.
use wintermute_brain.Prelude.{◌≡◌, [], ◌∷◌, ◌++◌, codes, drop, arith, ◌*◌}
use wintermute_brain.Prelude.Unicode.{byte_len}
use wintermute_brain.History.{Turn, History, new, push, trimmed_messages}
use wintermute_brain.History.Ring.{push_all, turns-push, push_all-newest}
use wintermute_brain.History.Trim.{Trimmed, trimmed_messages-Trimmed}

abbrev first_turn : Turn
first_turn = record { user = codes "hello"; assistant = codes "hi there"; ts = 1 }

abbrev second_turn : Turn
second_turn = record { user = codes "what time is it"; assistant = codes "noon"; ts = 2 }

abbrev third_turn : Turn
third_turn = record { user = codes "thanks"; assistant = codes "sure"; ts = 3 }

abbrev full : History
full = record { turns = first_turn ∷ second_turn ∷ []; max_turns = 2 }

turns-push_example :
    (push third_turn full).turns ≡ drop 1 (first_turn ∷ second_turn ∷ []) ++ third_turn ∷ []
turns-push_example = turns-push third_turn full (omega arith)

push_all-newest_example :
    (push_all (first_turn ∷ second_turn ∷ third_turn ∷ []) (new 2)).turns
    ≡ drop 1 (first_turn ∷ second_turn ∷ third_turn ∷ [])
push_all-newest_example = push_all-newest 2 (first_turn ∷ second_turn ∷ third_turn ∷ [])

trimmed_messages-Trimmed_example :
    Trimmed (7 * 4) (first_turn ∷ second_turn ∷ []) (trimmed_messages 7 full)
unfolding byte_len
trimmed_messages-Trimmed_example = trimmed_messages-Trimmed 7 full (omega arith)
