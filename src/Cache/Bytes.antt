-- ===== src/Cache/Bytes.antt =====
-- The blob of a key vector.
use mathlib.Core.Path.{ap₂}
use wintermute_brain.Prelude.{◌≡◌, refl, List, [], ◌∷◌}
use wintermute_brain.Cache.{Float, f32_vec_to_bytes, bytes_to_f32_vec}

-- When each number is read back from its four bytes, a vector is read back from its blob.
pub bytes_to_f32_vec-f32_vec_to_bytes :
    (f : Float)
    → ((x : f.F32) → f.from_le_bytes (f.to_le_bytes x) ≡ x)
    → (v : List f.F32) → (bytes_to_f32_vec f (f32_vec_to_bytes f v) ≡ v)
unfolding bytes_to_f32_vec f32_vec_to_bytes
bytes_to_f32_vec-f32_vec_to_bytes f back [] = refl
bytes_to_f32_vec-f32_vec_to_bytes f back (x ∷ v) =
    ap₂ (λ (y : f.F32) (t : List f.F32). y ∷ t) (back x)
      (bytes_to_f32_vec-f32_vec_to_bytes f back v)
