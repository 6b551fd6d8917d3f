-- ===== src/Repair/Phrases.antt =====
-- Which utterances ask for the last reply again.
use mathlib.Core.List.{Memᴰ}
use wintermute_brain.Prelude.Unicode.{trim}
use wintermute_brain.Prelude.{
  ◌<◌, ◌≤◌, ◌≡◌, refl, Bool, true, false, ◌||◌, List, [], ◌∷◌, Text, text_eq_refl, arith,
}
use wintermute_brain.Repair.{
  repeat_last, repeat_louder, no_repair, repair_word_limit, normalize, word_count, in_set, classify,
  build_phrase_set,
}

or_true : (b : Bool) → (b || true) ≡ true
or_true true = refl
or_true false = refl

in_set-build :
    (phrases : List Text) (p : Text)
    → Memᴰ p phrases
    → in_set (build_phrase_set phrases) (normalize p) ≡ true
unfolding in_set
in_set-build [] p m = elim m [ ]
in_set-build (q ∷ phrases) p (Memᴰ.head e) = rw (e, text_eq_refl (normalize q)) refl
in_set-build (q ∷ phrases) p (Memᴰ.tail m) = rw (in_set-build phrases p m) (or_true _)

-- A phrase that a set is built from is a request when it is said as it is written, with no white space
-- around it and at most five words long: a louder one if it stands in that set, whatever the other
-- set holds, and a plain one if it stands in the other set alone. A longer utterance never is.
pub classify-build_phrase_set :
    (repeat louder : List Text) (said : Text)
    → trim said ≡ said
    → (word_count (normalize said) ≤ repair_word_limit
        → (Memᴰ said louder
            → classify said (build_phrase_set repeat) (build_phrase_set louder) ≡ repeat_louder)
          × (Memᴰ said repeat
              → in_set (build_phrase_set louder) (normalize said) ≡ false
              → classify said (build_phrase_set repeat) (build_phrase_set louder) ≡ repeat_last))
      × (repair_word_limit < word_count (normalize said)
          → classify said (build_phrase_set repeat) (build_phrase_set louder) ≡ no_repair)
unfolding classify
classify-build_phrase_set repeat louder said t = (
  (λ short. (
    (λ m. rw t (ground (arith, in_set-build louder said m))),
    (λ m other. rw t (ground (arith, in_set-build repeat said m))),
  )),
  (λ long. rw t (ground arith)),
)
