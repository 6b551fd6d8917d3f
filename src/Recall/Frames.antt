-- ===== src/Recall/Frames.antt =====
-- Frames of src/recall_client.rs that are written one after the other, and read at the other end.
use wintermute_brain.Recall.{
  ClientError, max_frame_bytes, UnixStream, to_be_bytes, from_be_bytes, write_all, written,
  write_frame, read_exact, read_frame,
}
use wintermute_brain.Prelude.{
  ℕ, zero, suc, ◌+◌, ◌≤◌, ◌≡◌, refl, sym, ap, ◌∙◌, inl, inr, false, Bool-cases, List, [], ◌∷◌, ◌++◌,
  append-nil, append_assoc, map, none, length, take, drop, ltb, le→leb, u32_max, Result, ok, arith,
  if◌then◌else◌,
}

from_be_bytes-to_be_bytes : (n : ℕ) → n ≤ 4194304 → from_be_bytes 0 (to_be_bytes n) ≡ n
unfolding from_be_bytes to_be_bytes
from_be_bytes-to_be_bytes n h = omega arith

length-append : (xs ys : List ℕ) → length (xs ++ ys) ≡ length xs + length ys
length-append [] ys = omega arith
length-append (x ∷ xs) ys = rw (length-append xs ys) (omega arith)

take-append : (xs ys : List ℕ) → take (length xs) (xs ++ ys) ≡ xs
take-append [] ys = refl
take-append (x ∷ xs) ys = ap (λ (l : List ℕ). x ∷ l) (take-append xs ys)

drop-append : (xs ys : List ℕ) → drop (length xs) (xs ++ ys) ≡ ys
drop-append [] ys = refl
drop-append (x ∷ xs) ys = drop-append xs ys

read_exact-append : (xs ys : List ℕ) → read_exact (length xs) (xs ++ ys) ≡ (ok xs, ys)
unfolding read_exact
read_exact-append xs ys =
    rw (le→leb (length xs) (length (xs ++ ys)) (rw (length-append xs ys) (omega arith)))
      (rw (take-append xs ys) (rw (drop-append xs ys) refl))

-- A frame is its length and its body.
frame : List ℕ → List ℕ
frame body = to_be_bytes (length body) ++ body

ltb-le : (a b : ℕ) → ltb a b ≡ false → b ≤ a
ltb-le a b h = ground arith

read_frame-frame :
    (body rest : List ℕ)
    → ltb max_frame_bytes (length body) ≡ false
    → read_frame (frame body ++ rest) ≡ (ok body, rest)
unfolding read_frame frame to_be_bytes
read_frame-frame body rest fits =
    let n = length body in
    let header : read_exact 4 (to_be_bytes n ++ (body ++ rest))
        ≡ (ok (to_be_bytes n), body ++ rest) =
      read_exact-append (to_be_bytes n) (body ++ rest) in
    rw header (
      rw (from_be_bytes-to_be_bytes n (ltb-le max_frame_bytes n fits))
        (rw fits (read_exact-append body rest)))

-- The bodies that fit into a frame.
pub fitting : List (List ℕ) → List (List ℕ)
fitting [] = []
fitting (body ∷ bodies) =
    let rest = fitting bodies in if ltb max_frame_bytes (length body) then rest else body ∷ rest

-- Frames that are written one after the other, with what each write returns.
pub write_frames : List (List ℕ) → UnixStream → List (Result ClientError (Unit {0})) × UnixStream
write_frames [] s = ([], s)
write_frames (body ∷ bodies) s =
    let (r, s') = write_frame body s in let (rs, s'') = write_frames bodies s' in (r ∷ rs, s'')

-- A number of frames that are read.
pub read_frames : ℕ → List ℕ → List (Result ClientError (List ℕ)) × List ℕ
read_frames zero incoming = ([], incoming)
read_frames (suc n) incoming =
    let (r, rest) = read_frame incoming in let (rs, rest') = read_frames n rest in (r ∷ rs, rest')

frames : List (List ℕ) → List ℕ
frames [] = []
frames (body ∷ bodies) = frame body ++ frames bodies

ltb-u32 : (n : ℕ) → ltb max_frame_bytes n ≡ false → ltb u32_max n ≡ false
ltb-u32 n h = ground arith

write_frame-sent :
    (body : List ℕ) (s : UnixStream)
    → s.takes ≡ none
    → (write_frame body s).1
      ≡ (if ltb max_frame_bytes (length body) then s else record s { sent = s.sent ++ frame body })
unfolding write_frame write_all written frame
write_frame-sent body s open' = elim (Bool-cases (ltb max_frame_bytes (length body))) [
  | inl large ↦ elim (Bool-cases (ltb u32_max (length body))) [
    | inl huge ↦ rw huge (rw large refl)
    | inr word ↦ rw word (rw large refl)
  ]
  | inr fits ↦ rw (ltb-u32 (length body) fits) (
      rw fits (
        rw open' (
          ap (λ (l : List ℕ). record s { sent = l; takes = none })
            (append_assoc s.sent (to_be_bytes (length body)) body))))
]

write_frames-sent :
    (bodies : List (List ℕ)) (s : UnixStream)
    → s.takes ≡ none
    → (write_frames bodies s).1.sent ≡ s.sent ++ frames (fitting bodies)
unfolding write_frames frames fitting
write_frames-sent [] s open' = sym (append-nil s.sent)
write_frames-sent (body ∷ bodies) s open' = elim (Bool-cases (ltb max_frame_bytes (length body))) [
  | inl large ↦
      rw large (rw (write_frame-sent body s open') (rw large (write_frames-sent bodies s open')))
  | inr fits ↦ rw fits (
      rw (write_frame-sent body s open') (
        rw fits (
          write_frames-sent bodies (record s { sent = s.sent ++ frame body }) open'
          ∙ append_assoc s.sent (frame body) (frames (fitting bodies)))))
]

read_frames-frames :
    (bodies : List (List ℕ)) (rest : List ℕ)
    → read_frames (length (fitting bodies)) (frames (fitting bodies) ++ rest)
      ≡ (map ok (fitting bodies), rest)
unfolding read_frames frames fitting
read_frames-frames [] rest = refl
read_frames-frames (body ∷ bodies) rest = elim (Bool-cases (ltb max_frame_bytes (length body))) [
  | inl large ↦ rw large (read_frames-frames bodies rest)
  | inr fits ↦ rw fits (
      rw (append_assoc (frame body) (frames (fitting bodies)) rest) (
        rw (read_frame-frame body (frames (fitting bodies) ++ rest) fits)
          (rw (read_frames-frames bodies rest) refl)))
]

-- Of bodies that are written one after the other on a socket that takes all bytes, those of up to 4 MiB are
-- read at the other end, in order and each whole, and what comes behind them is left; a larger one sends
-- nothing.
pub read_frames-write_frames :
    (bodies : List (List ℕ)) (s : UnixStream) (rest : List ℕ)
    → s.takes ≡ none
    → s.sent ≡ []
    → read_frames (length (fitting bodies)) ((write_frames bodies s).1.sent ++ rest)
      ≡ (map ok (fitting bodies), rest)
read_frames-write_frames bodies s rest open' fresh =
    rw (write_frames-sent bodies s open') (rw fresh (read_frames-frames bodies rest))
