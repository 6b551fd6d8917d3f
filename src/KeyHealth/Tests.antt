-- ===== src/KeyHealth/Tests.antt =====
-- Some passes of the probe, and a body that it cannot cut.
use wintermute_brain.Prelude.Unicode.{byte_len, len_utf8}
use wintermute_brain.Prelude.{
  ℕ, zero, suc, ◌≡◌, refl, true, false, List, [], ◌∷◌, ◌++◌, none, some, Text, codes, arith,
}
use wintermute_brain.KeyHealth.{
  status, transport_error, take_bytes, truncated, check, Pass, Probe, spawn_background,
}
use wintermute_brain.KeyHealth.Latest.{last_works, statuses, spawn_background-latest}

abbrev passes : List Pass
passes =
    record { response = status 200 (some (codes "{}")); ts = 1; publish_ok = true }
    ∷ record { response = status 401 none; ts = 2; publish_ok = false }
    ∷ record { response = transport_error (codes "refused"); ts = 3; publish_ok = true }
    ∷ record { response = status 503 (some (codes "busy")); ts = 4; publish_ok = true }
    ∷ []

abbrev started : Probe
started = record { key_healthy = true; running = true; published = [] }

spawn_background-latest_example :
    ((spawn_background passes started).running ≡ true)
    × ((spawn_background passes started).key_healthy ≡ last_works true passes)
    × ((spawn_background passes started).published ≡ [] ++ statuses passes)
spawn_background-latest_example =
    spawn_background-latest passes started
      (
        (omega arith, (omega arith, tt)),
        (tt, (tt, ((omega arith, (omega arith, (omega arith, (omega arith, tt)))), tt))),
      )
      refl

abbrev times : ℕ → Text → Text
times zero s = []
times (suc n) s = s ++ times n s

abbrev page : Text
page = times 255 (codes "x") ++ codes "ä!"

-- Byte 256 of this body is inside a character, so the probe panics, and its loop ends.
check-page : check (status 503 (some page)) ≡ none
unfolding check truncated take_bytes byte_len len_utf8
check-page = refl
