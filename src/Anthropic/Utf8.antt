-- ===== src/Anthropic/Utf8.antt =====
-- Bytes that come in parts are read as the same text.
use wintermute_brain.Prelude.Utf8.{
  whole, partial, invalid, Utf8, utf8_of, from_utf8_held, from_utf8,
}
use wintermute_brain.Anthropic.Sse.{SseDecoder, feed}
use wintermute_brain.Prelude.{
  ℕ, ◌≡◌, refl, sym, ap, ◌∙◌, ◌⊎◌, inl, inr, List, [], ◌∷◌, ◌++◌, append_assoc,
}

-- Bytes each of whose first parts is the start of a character.
pub data Held : List ℕ → Type 0 where
  nothing_held : Held []
  one_more :
      (held : List ℕ) (b : ℕ) (held' : List ℕ)
      → Held held
      → utf8_of (held ++ b ∷ []) ≡ partial
      → held' ≡ held ++ b ∷ []
      → Held held'

Utf8-cases : (u : Utf8) → ((c : ℕ) × (u ≡ whole c)) ⊎ ((u ≡ partial) ⊎ (u ≡ invalid))
Utf8-cases (whole c) = inl (c, refl)
Utf8-cases partial = inr (inl refl)
Utf8-cases invalid = inr (inr refl)

from_utf8_held-whole :
    (held : List ℕ) (b c : ℕ) (bytes : List ℕ)
    → utf8_of (held ++ b ∷ []) ≡ whole c
    → from_utf8_held held (b ∷ bytes)
      ≡ (c ∷ (from_utf8_held [] bytes).0, (from_utf8_held [] bytes).1)
unfolding from_utf8_held
from_utf8_held-whole held b c bytes e = rw (e, from_utf8_held) refl

from_utf8_held-partial :
    (held : List ℕ) (b : ℕ) (bytes : List ℕ)
    → utf8_of (held ++ b ∷ []) ≡ partial
    → from_utf8_held held (b ∷ bytes) ≡ from_utf8_held (held ++ b ∷ []) bytes
unfolding from_utf8_held
from_utf8_held-partial held b bytes e = rw (e, from_utf8_held) refl

from_utf8_held-invalid :
    (held : List ℕ) (b : ℕ) (bytes : List ℕ)
    → utf8_of (held ++ b ∷ []) ≡ invalid
    → from_utf8_held held (b ∷ bytes) ≡ ([], held ++ b ∷ bytes)
unfolding from_utf8_held
from_utf8_held-invalid held b bytes e = rw (e, from_utf8_held) refl

-- Reading the held bytes again brings the reader where it was.
again :
    (held bytes : List ℕ)
    → Held held
    → from_utf8_held [] (held ++ bytes) ≡ from_utf8_held held bytes
again held bytes nothing_held = refl
again held bytes (one_more before b _ h p e) =
    ap (λ l. from_utf8_held [] (l ++ bytes)) e
    ∙ ap (from_utf8_held []) (append_assoc before (b ∷ []) bytes)
    ∙ again before (b ∷ bytes) h
    ∙ from_utf8_held-partial before b bytes p
    ∙ ap (λ l. from_utf8_held l bytes) (sym e)

from_utf8_held-append :
    (held xs ys : List ℕ)
    → Held held
    → from_utf8_held held (xs ++ ys) ≡ (
      (from_utf8_held held xs).0 ++ (from_utf8_held [] ((from_utf8_held held xs).1 ++ ys)).0,
      (from_utf8_held [] ((from_utf8_held held xs).1 ++ ys)).1,
    )
unfolding from_utf8_held
from_utf8_held-append held [] ys h = sym (again held ys h)
from_utf8_held-append held (b ∷ xs) ys h = elim (Utf8-cases (utf8_of (held ++ b ∷ []))) [
  | inl (c, e) ↦
      rw
        (
          from_utf8_held-whole held b c (xs ++ ys) e,
          from_utf8_held-whole held b c xs e,
          from_utf8_held-append [] xs ys nothing_held,
        )
        refl
  | inr (inl e) ↦
      rw (from_utf8_held-partial held b (xs ++ ys) e, from_utf8_held-partial held b xs e)
        (from_utf8_held-append (held ++ b ∷ []) xs ys (one_more held b _ h e refl))
  | inr (inr e) ↦
      let stuck : from_utf8_held [] ((held ++ b ∷ xs) ++ ys) ≡ ([], held ++ b ∷ (xs ++ ys)) =
        ap (from_utf8_held []) (append_assoc held (b ∷ xs) ys)
        ∙ again held (b ∷ (xs ++ ys)) h
        ∙ from_utf8_held-invalid held b (xs ++ ys) e in
      rw (from_utf8_held-invalid held b (xs ++ ys) e, from_utf8_held-invalid held b xs e, stuck)
        refl
]

-- A chunk in two parts is the same chunk, wherever it is cut.
pub feed-append : (xs ys : List ℕ) (d : SseDecoder) → feed (xs ++ ys) d ≡ feed ys (feed xs d)
unfolding feed from_utf8
feed-append xs ys d =
    rw (← append_assoc d.incomplete_utf8 xs ys) (
      rw (from_utf8_held-append [] (d.incomplete_utf8 ++ xs) ys nothing_held)
        (rw append_assoc refl))
