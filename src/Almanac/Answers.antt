-- ===== src/Almanac/Answers.antt =====
-- How an answer is read.
use mathlib.Core.List.{Memᴰ}
use mathlib.Core.Bool.{false≢true}
use wintermute_brain.Prelude.Unicode.{Unicode}
use wintermute_brain.Prelude.{
  ◌≡◌, refl, sym, subst, ◌∙◌, true, false, ◌||◌, ◌⊎◌, inl, inr, List, [], ◌∷◌, append-nil, Text,
  contains, text_eq, text_eq_iff, Within, Within-contains, contains-Within, arith, Bool-cases,
}
use wintermute_brain.Almanac.{
  AckClass, done, snooze, unrelated, done_tokens, snooze_tokens, any_token, class_of, normalise,
  classify_ack_response,
}

-- One of the tokens stands in the text, as a word or inside one.
pub record Holds (tokens : List Text) (norm : Text) : Type 0 where
  pub token : Text
  pub listed : Memᴰ token tokens
  pub within : Within token norm

any_token-Holds : (ts : List Text) (norm : Text) → any_token ts norm ≡ true → Holds ts norm
unfolding any_token
any_token-Holds [] norm h = cc
any_token-Holds (t ∷ ts) norm h = elim (Bool-cases (text_eq norm t || contains norm t)) [
  | inl here ↦ record {
    token = t;
    listed = Memᴰ.head refl;
    within = elim (Bool-cases (contains norm t)) [
      | inl c ↦ contains-Within norm t c
      | inr c ↦ record {
        before = [];
        after = [];
        splits = (text_eq_iff norm t).0 (ground arith) ∙ sym (append-nil t);
      }
    ];
  }
  | inr later ↦
      let rest = any_token-Holds ts norm (ground arith) in
      record { token = rest.token; listed = Memᴰ.tail rest.listed; within = rest.within }
]

Within-any_token :
    (ts : List Text) (t norm : Text) → Memᴰ t ts → Within t norm → any_token ts norm ≡ true
unfolding any_token
Within-any_token [] t norm m w = elim m [ ]
Within-any_token (s ∷ ts) t norm (Memᴰ.head e) w =
    let found : contains norm s ≡ true = Within-contains norm s (subst (λ p. Within p norm) e w) in
    ground arith
Within-any_token (s ∷ ts) t norm (Memᴰ.tail m) w = ground (arith, Within-any_token ts t norm m w)

abbrev pub ByTokens : Text → AckClass → Type 0
ByTokens norm class =
    ((class ≡ done) × Holds done_tokens norm)
    ⊎ ((class ≡ snooze) × (¬ Holds done_tokens norm) × Holds snooze_tokens norm)
    ⊎ ((class ≡ unrelated) × (¬ Holds done_tokens norm) × (¬ Holds snooze_tokens norm))

no_token : (ts : List Text) (norm : Text) → any_token ts norm ≡ false → ¬ Holds ts norm
no_token ts norm h k = false≢true (sym h ∙ Within-any_token ts k.token norm k.listed k.within)

class_of-ByTokens : (norm : Text) → ByTokens norm (class_of norm)
unfolding class_of
class_of-ByTokens norm = elim (Bool-cases (any_token done_tokens norm)) [
  | inl d ↦ rw d (inl (refl, any_token-Holds done_tokens norm d))
  | inr not_done ↦ elim (Bool-cases (any_token snooze_tokens norm)) [
    | inl s ↦
        rw (not_done, s)
          (inr
            (inl (refl, no_token done_tokens norm not_done, any_token-Holds snooze_tokens norm s)))
    | inr neither ↦
        rw (not_done, neither)
          (inr
            (inr (refl, no_token done_tokens norm not_done, no_token snooze_tokens norm neither)))
  ]
]

-- An answer is read as done exactly when a done token stands anywhere in its normal form, inside
-- another word too, and whatever else is said; as a snooze when no done token but a snooze token
-- does; and else as unrelated.
pub classify_ack_response-Holds :
    (u : Unicode) (transcript : Text)
    → ByTokens (normalise u transcript) (classify_ack_response u transcript)
unfolding classify_ack_response
classify_ack_response-Holds u transcript = class_of-ByTokens (normalise u transcript)
