-- ===== src/Recall/Tests.antt =====
-- Two frames of src/recall_client.rs on a socket.
use wintermute_brain.Recall.{UnixStream}
use wintermute_brain.Recall.Frames.{fitting, write_frames, read_frames, read_frames-write_frames}
use wintermute_brain.Prelude.{ℕ, ◌≡◌, refl, List, [], ◌∷◌, ◌++◌, map, none, length, ok}

abbrev socket : UnixStream
socket = record { sent = []; takes = none; incoming = [] }

abbrev bodies : List (List ℕ)
bodies = (123 ∷ 125 ∷ []) ∷ [] ∷ (7 ∷ []) ∷ []

read_frames-write_frames_example :
    read_frames (length (fitting bodies)) ((write_frames bodies socket).1.sent ++ 9 ∷ [])
    ≡ (map ok (fitting bodies), 9 ∷ [])
read_frames-write_frames_example = read_frames-write_frames bodies socket (9 ∷ []) refl refl
