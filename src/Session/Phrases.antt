-- ===== src/Session/Phrases.antt =====
-- The explicit close of a session by a phrase.
use mathlib.Core.List.{Memᴰ}
use wintermute_brain.Prelude.{
  ℕ, ◌≡◌, refl, ap, Bool, true, false, ◌||◌, List, [], ◌∷◌, ◌++◌, map, Text, text_eq_refl, arith,
}
use wintermute_brain.Prelude.Unicode.{
  Unicode, is_whitespace, filter_text, join_words, split_whitespace,
}
use wintermute_brain.Session.{normalize_phrase, new, any_phrase, is_explicit_close, SessionTracker}

any_phrase-map :
    (u : Unicode) (ps : List Text) (p : Text)
    → Memᴰ p ps
    → any_phrase (map (normalize_phrase u) ps) (normalize_phrase u p) ≡ true
unfolding any_phrase
any_phrase-map u [] p m = elim m [ ]
any_phrase-map u (q ∷ ps) p (Memᴰ.head e) = rw e (rw text_eq_refl refl)
any_phrase-map u (q ∷ ps) p (Memᴰ.tail m) = ground (arith, any_phrase-map u ps p m)

-- Every phrase that a tracker is built with closes the session, when it is said as it is written.
pub is_explicit_close-new :
    (u : Unicode) (gap : ℕ) (ps : List Text) (p : Text)
    → Memᴰ p ps
    → is_explicit_close u (new u gap ps) p ≡ true
unfolding is_explicit_close new
is_explicit_close-new u gap ps p m = any_phrase-map u ps p m

filter_text-punctuation :
    (p : ℕ → Bool) (before after : Text) (c : ℕ)
    → p c ≡ false
    → filter_text p (before ++ c ∷ after) ≡ filter_text p (before ++ after)
unfolding filter_text
filter_text-punctuation p [] after c h = rw h
filter_text-punctuation p (b ∷ before) after c h =
    ground (arith, filter_text-punctuation p before after c h)

-- A character that is neither a letter, a digit nor white space makes no difference, wherever it
-- stands in what is said.
pub is_explicit_close-punctuation :
    (u : Unicode) (t : SessionTracker) (before after : Text) (c : ℕ)
    → u.is_alphanumeric c ≡ false
    → is_whitespace c ≡ false
    → is_explicit_close u t (before ++ c ∷ after) ≡ is_explicit_close u t (before ++ after)
unfolding is_explicit_close normalize_phrase
is_explicit_close-punctuation u t before after c a w =
    ap (λ kept. any_phrase t.end_phrases (u.to_lowercase (join_words (split_whitespace kept))))
      (filter_text-punctuation (λ c. u.is_alphanumeric c || is_whitespace c) before after c
        (rw (a, w)))
