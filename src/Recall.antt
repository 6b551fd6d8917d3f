-- ===== src/Recall.antt =====
-- src/recall_client.rs: the frames of a request and of its response. A socket is the bytes that it has
-- taken and those that come in before its other end closes; `serde_json` is a parameter.
pub mod Frames
mod Tests
use wintermute_brain.Prelude.{
  ℕ, ◌+◌, ◌-◌, ◌*◌, ◌/◌, ◌%◌, Bool, List, [], ◌∷◌, ◌++◌, Option, none, some, Text, codes, length,
  take, drop, ltb, leb, u32_max, Result, ok, err, map_err, if◌then◌else◌,
}

abbrev pub max_frame_bytes : ℕ
max_frame_bytes = 4194304

-- An error of the connection or of `serde_json` is its text.
pub data ClientError : Type 0 where
  io serde : Text → ClientError
  frame_too_large : (len cap : ℕ) → ClientError
  remote : (code message : Text) → ClientError

-- A write fails, with a text, when it takes the bytes over what the socket takes.
pub record UnixStream : Type 0 where
  pub sent : List ℕ
  pub takes : Option (ℕ × Text)
  pub incoming : List ℕ

unfoldable pub to_be_bytes : ℕ → List ℕ
to_be_bytes n = n / 16777216 % 256 ∷ n / 65536 % 256 ∷ n / 256 % 256 ∷ n % 256 ∷ []

unfoldable pub from_be_bytes : ℕ → List ℕ → ℕ
from_be_bytes n [] = n
from_be_bytes n (b ∷ bytes) = from_be_bytes (n * 256 + b) bytes

written : Option (ℕ × Text) → List ℕ → UnixStream → Result ClientError (Unit {0}) × UnixStream
written none bytes s = (ok tt, record s { sent = s.sent ++ bytes })
written (some (room, cause)) bytes s =
    if leb (length bytes) room
    then (ok tt, record s { sent = s.sent ++ bytes; takes = some (room - length bytes, cause) })
    else (err (io cause), record s { sent = s.sent ++ take room bytes; takes = some (0, cause) })

unfoldable pub write_all : List ℕ → UnixStream → Result ClientError (Unit {0}) × UnixStream
unfolding written
write_all bytes s = written s.takes bytes s

abbrev pub behind_write :
    Result ClientError (Unit {0}) × UnixStream
    → (UnixStream → Result ClientError (Unit {0}) × UnixStream)
    → Result ClientError (Unit {0}) × UnixStream
behind_write (ok done, s) rest = rest s
behind_write (err e, s) rest = (err e, s)

unfoldable pub write_frame : List ℕ → UnixStream → Result ClientError (Unit {0}) × UnixStream
write_frame body s =
    let len = length body in
    if ltb u32_max len
    then (err (frame_too_large u32_max max_frame_bytes), s)
    else if ltb max_frame_bytes len
    then (err (frame_too_large len max_frame_bytes), s)
    else behind_write (write_all (to_be_bytes len) s) (write_all body)

unfoldable pub read_exact : ℕ → List ℕ → Result ClientError (List ℕ) × List ℕ
read_exact n incoming =
    if leb n (length incoming)
    then (ok (take n incoming), drop n incoming)
    else (err (io (codes "early eof")), [])

abbrev sized : Result ClientError (List ℕ) × List ℕ → Result ClientError (List ℕ) × List ℕ
sized (err e, rest) = (err e, rest)
sized (ok len_buf, rest) =
    let len = from_be_bytes 0 len_buf in
    if ltb max_frame_bytes len
    then (err (frame_too_large len max_frame_bytes), rest)
    else read_exact len rest

unfoldable pub read_frame : List ℕ → Result ClientError (List ℕ) × List ℕ
unfolding read_exact from_be_bytes
read_frame incoming = sized (read_exact 4 incoming)

-- `WireResponse`, and `serde_json` on the two shapes.
pub data WireResponse (R : Type 0) : Type 0 where
  success : R → WireResponse R
  failure : (code message : Text) → WireResponse R

pub record Wire (A R : Type 0) : Type 0 where
  pub to_vec : Text → A → Result Text (List ℕ)
  pub from_slice : List ℕ → Result Text (WireResponse R)

module _ {A R : Type 0} (wire : Wire A R) where
  abbrev response : Result Text (WireResponse R) → Result ClientError R
  response (ok (success r)) = ok r
  response (ok (failure code message)) = err (remote code message)
  response (err e) = err (serde e)

  abbrev answered :
      Result ClientError (List ℕ) × List ℕ → UnixStream → Result ClientError R × UnixStream
  answered (ok bytes, rest) s = (response (wire.from_slice bytes), record s { incoming = rest })
  answered (err e, rest) s = (err e, record s { incoming = rest })

  abbrev asked : Result ClientError (Unit {0}) × UnixStream → Result ClientError R × UnixStream
  asked (ok done, s) = answered (read_frame s.incoming) s
  asked (err e, s) = (err e, s)

  abbrev sent_as : Result Text (List ℕ) → UnixStream → Result ClientError R × UnixStream
  sent_as (ok body) s = asked (write_frame body s)
  sent_as (err e) s = (err (serde e), s)

  unfoldable pub roundtrip : Text → A → UnixStream → Result ClientError R × UnixStream
  roundtrip op args s = sent_as (wire.to_vec op args) s
