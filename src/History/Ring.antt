-- ===== src/History/Ring.antt =====
-- The ring holds the newest turns, in order.
use wintermute_brain.Prelude.{
  append-nil, drop-drop, drop-append, ℕ, zero, suc, ◌+◌, ◌-◌, ◌<◌, ◌≡◌, refl, sym, ap, ◌∙◌, false,
  List, [], ◌∷◌, ◌++◌, append_assoc, length, length-append, drop, length-drop, leb, ◌==◌, arith,
  Bool-cases, inl, inr,
}
use wintermute_brain.History.{Turn, History, evict, push, new}

-- The pushes of a list of turns, in order.
unfoldable pub push_all : List Turn → History → History
push_all [] h = h
push_all (t ∷ ts) h = push_all ts (push t h)

evict-drop : (m : ℕ) (ts : List Turn) → 0 < m → evict m ts ≡ drop (suc (length ts) - m) ts
unfolding evict
evict-drop m [] h = let e : suc 0 - m ≡ 0 = omega arith in rw e refl
evict-drop m (t ∷ ts) h = elim (Bool-cases (leb m (length (t ∷ ts)))) [
  | inl full ↦
      let e : suc (suc (length ts)) - m ≡ suc (suc (length ts) - m) = ground arith in
      rw (full, e) (evict-drop m ts h)
  | inr free ↦ let e : suc (suc (length ts)) - m ≡ 0 = ground arith in rw (free, e) refl
]

-- A push on a ring that is not disabled keeps the newest `max_turns - 1` turns and adds the new one.
pub turns-push :
    (t : Turn) (h : History)
    → 0 < h.max_turns
    → (push t h).turns ≡ drop (suc (length h.turns) - h.max_turns) h.turns ++ t ∷ []
unfolding push
turns-push t h p =
    let off : (h.max_turns == 0) ≡ false = ground arith in
    rw off (rw (evict-drop h.max_turns h.turns p) refl)

turns-push_zero : (t : Turn) (h : History) → h.max_turns ≡ 0 → push t h ≡ h
unfolding push
turns-push_zero t h e = ground arith

max_turns-push : (t : Turn) (h : History) → (push t h).max_turns ≡ h.max_turns
unfolding push
max_turns-push t h = ground arith

-- One push moves the window of the newest `m` turns by one.
window-step :
    (m : ℕ) (seen : List Turn) (t : Turn)
    → 0 < m
    → drop (suc (length (drop (length seen - m) seen)) - m) (drop (length seen - m) seen) ++ t ∷ []
      ≡ drop (length (seen ++ t ∷ []) - m) (seen ++ t ∷ [])
window-step m seen t h =
    let size : length (drop (length seen - m) seen) ≡ length seen - (length seen - m) =
      length-drop (length seen - m) seen in
    let after : length (seen ++ t ∷ []) ≡ length seen + 1 = length-append seen (t ∷ []) in
    let same : length seen - m + (suc (length seen - (length seen - m)) - m) ≡ length seen + 1 - m =
      omega arith in
    rw (size, after)
      (ap (λ xs. xs ++ t ∷ [])
          (drop-drop (suc (length seen - (length seen - m)) - m) (length seen - m) seen)
        ∙ rw same (sym (drop-append (length seen + 1 - m) seen (t ∷ []) (omega arith))))

push_all-window :
    (m : ℕ) (ts seen : List Turn) (h : History)
    → 0 < m
    → h.max_turns ≡ m
    → h.turns ≡ drop (length seen - m) seen
    → (push_all ts h).turns ≡ drop (length (seen ++ ts) - m) (seen ++ ts)
unfolding push_all
push_all-window m [] seen h p e w = rw append-nil w
push_all-window m (t ∷ ts) seen h p e w =
    push_all-window m ts (seen ++ t ∷ []) (push t h) p (max_turns-push t h ∙ e)
      (turns-push t h (omega arith) ∙ rw (w, e) (window-step m seen t p))
    ∙ rw append_assoc refl

push_all-zero : (ts : List Turn) (h : History) → h.max_turns ≡ 0 → push_all ts h ≡ h
unfolding push_all
push_all-zero [] h e = refl
push_all-zero (t ∷ ts) h e = rw (turns-push_zero t h e) (push_all-zero ts h e)

drop-length {ℓ} : {A : Type ℓ} (xs : List A) → drop (length xs) xs ≡ []
drop-length [] = refl
drop-length (x ∷ xs) = drop-length xs

-- After any pushes on a new ring of `m` turns, the ring holds the last `m` of them, oldest first;
-- with `m` 0 it holds none.
pub push_all-newest :
    (m : ℕ) (ts : List Turn) → (push_all ts (new m)).turns ≡ drop (length ts - m) ts
unfolding new
push_all-newest zero ts =
    let e : length ts - 0 ≡ length ts = omega arith in
    rw (push_all-zero ts (new 0) refl, e) (sym (drop-length ts))
push_all-newest (suc m) ts =
    let e : 0 - suc m ≡ 0 = omega arith in
    push_all-window (suc m) ts [] (new (suc m)) (omega arith) refl (rw e refl)
