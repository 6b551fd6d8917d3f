-- ===== src/Redline/Tests.antt =====
-- The scan and the enforcement on concrete replies.
use wintermute_brain.Prelude.Unicode.{ascii, is_empty, byte_len, len_utf8}
use wintermute_brain.Prelude.{
  ℕ, suc, ◌+◌, ◌≤◌, ◌≡◌, ◌↔◌, refl, subst, true, List, [], ◌∷◌, some, Text, codes, starts_with, All,
  max,
}
use wintermute_brain.Redline.{
  Hit, safe_phrase, replacement, find, normalise, is_word, search_from, scan, locate_in_original,
  enforce, is_active, enforce_with_regenerate,
}
use wintermute_brain.Redline.Words.{some_eq}
use wintermute_brain.Redline.Reports.{Absent, Found, scan-Word}
use wintermute_brain.Redline.Enforce.{
  Clean, starts_ascii, Published, enforce-Clean, enforce_with_regenerate-Clean,
}

abbrev forbidden : List Text
forbidden = codes "AI" ∷ codes "robot" ∷ []

abbrev dirty_reply : Text
dirty_reply = codes "As an A.I. I said it."

abbrev hits : List Hit
hits = record { term = codes "AI"; byte_range = (14, 16) } ∷ []

dirty_reply-scan : scan ascii dirty_reply forbidden ≡ some hits
unfolding scan normalise is_empty search_from starts_with is_word locate_in_original find byte_len
    len_utf8
dirty_reply-scan = refl

scan-Word_example :
    All (Found ascii dirty_reply forbidden) hits
    × ((hits ≡ []) ↔ All (Absent ascii dirty_reply) forbidden)
scan-Word_example = scan-Word ascii dirty_reply forbidden hits dirty_reply-scan

abbrev phrase : Text
phrase = codes "Well then."

phrase-Clean : Clean ascii forbidden phrase
unfolding scan normalise is_empty search_from starts_with is_word
phrase-Clean = refl

only_phrase :
    (safe : Text) → replacement (safe_phrase (some phrase)) ≡ some safe → Clean ascii forbidden safe
only_phrase safe e = subst (Clean ascii forbidden) (some_eq e) phrase-Clean

dirty_reply-enforce :
    enforce ascii dirty_reply forbidden (safe_phrase (some phrase)) 4 ≡ some (some phrase, 5)
unfolding enforce is_active
dirty_reply-enforce = rw (dirty_reply-scan) refl

enforce-Clean_example :
    Published ascii dirty_reply forbidden (safe_phrase (some phrase)) 4 (some phrase, 5)
unfolding is_active
enforce-Clean_example =
    enforce-Clean ascii dirty_reply forbidden (safe_phrase (some phrase)) 4 (some phrase, 5) refl
      only_phrase dirty_reply-enforce

-- A model that leaks a forbidden term each time; its state counts the calls.
abbrev model_fn : ℕ → Text → Text × ℕ
model_fn calls addendum = (codes "I am a robot", suc calls)

starts : All (λ term. starts_ascii (normalise ascii term) ≡ true) forbidden
unfolding normalise
starts = (refl, (refl, tt))

enforce_with_regenerate-Clean_example :
    (text : Text) × (s' : ℕ) × (enforce_with_regenerate ascii forbidden model_fn dirty_reply 2
        (some phrase)
        0
      ≡ some (text, s'))
    × Clean ascii forbidden text
    × (s' ≤ 0 + max 2 1)
enforce_with_regenerate-Clean_example =
    enforce_with_regenerate-Clean ascii forbidden model_fn (λ calls. calls) (λ s addendum. refl)
      dirty_reply 2 (some phrase) 0 starts phrase-Clean
