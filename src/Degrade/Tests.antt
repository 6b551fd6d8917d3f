-- ===== src/Degrade/Tests.antt =====
-- The aggregator of src/degrade.rs on concrete envelopes.

use wintermute_brain.Prelude.{ℕ, List, [], ◌∷◌, none, some, codes}
use wintermute_brain.Degrade.{Aggregator, new_health}
use wintermute_brain.Degrade.Limiter.{Envelope, spoken, IsSpaced, spoken-IsSpaced}

abbrev started : Aggregator
started = record { rate = []; health = new_health 100 }

abbrev network_down : ℕ → Envelope
network_down now_ms = record {
  topic = codes "wm.brain.error";
  kind_field = some (codes "network_down");
  now_ms = now_ms;
}

abbrev deaf : Envelope
deaf = record { topic = codes "wm.stt.error"; kind_field = none; now_ms = 45000 }

abbrev envelopes : List Envelope
envelopes = network_down 1000 ∷ network_down 2000 ∷ deaf ∷ network_down 31000 ∷ []

spoken-IsSpaced_example : IsSpaced (spoken started envelopes)
spoken-IsSpaced_example = spoken-IsSpaced started envelopes
