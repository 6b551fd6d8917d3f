-- ===== src/Turn/Enforced.antt =====
-- What the redline block lets through.
use wintermute_brain.Cache.{Float}
use wintermute_brain.Redline.{
  Hit, RedlineAction, off, safe_phrase, regenerate, is_active, no_terms, phrase_or_default,
  normalise, scan, hardened_addendum,
}
use wintermute_brain.Redline.Enforce.{starts_ascii, Clean, scan_total}
use wintermute_brain.Ladder.{MessageRequest, LadderClient, run_turn_sticky}
use wintermute_brain.Prelude.Unicode.{Unicode}
use wintermute_brain.Prelude.{
  ℕ, zero, suc, ◌+◌, ◌%◌, u64_max, max, ◌≤◌, ◌≡◌, refl, sym, ap, subst, ◌⊎◌, inl, inr, true, false,
  Bool-cases, List, [], ◌∷◌, Option, none, some, Text, All, arith,
}
use wintermute_brain.Turn.{Brain, World}
use wintermute_brain.Turn.Redlined.{
  kept_floor, with_addendum, Candidate, clean, given_up, scan_panicked, attempts_of, regenerated,
  by_action, redlined,
}
use wintermute_brain.Turn.Steps.{Outcome-cases}

-- The phrase that an action falls back to.
abbrev pub fallback_of : RedlineAction → Option Text
fallback_of off = none
fallback_of (safe_phrase phrase) = phrase
fallback_of (regenerate max_attempts fallback) = fallback

module _ {Json : Type 0} {f : Float} (w : World Json f) (client : ℕ → LadderClient)
    (forbidden : List Text)
    (ascii : All (λ term. starts_ascii (normalise w.u term) ≡ true) forbidden) where
  -- The attempts end with no answer or with a clean one, within their bound.
  Enforced : ℕ → Brain Json f × ℕ × Candidate → Type 0
  Enforced most (_, made, result) =
      (made ≤ most)
      × ((result ≡ given_up) ⊎ (text : Text) × (result ≡ clean text) × Clean w.u forbidden text)

  attempts_of-Enforced :
      (transcript : Text) (req : MessageRequest) (tier : Text) (left attempt : ℕ) (hits : List Hit)
      (b : Brain Json f)
      → Enforced
          (attempt + left)
          (attempts_of w client forbidden transcript req tier left attempt hits b)
  unfolding attempts_of Enforced
  attempts_of-Enforced transcript req tier zero attempt hits b = (omega arith, inl refl)
  attempts_of-Enforced transcript req tier (suc left) attempt hits b =
      let run =
        run_turn_sticky (client (attempt + 1)) w.u transcript
          (with_addendum req (hardened_addendum hits)) tier (w.recall_up (attempt + 1)) b.floor in
      let after : Brain Json f = record b { floor = kept_floor run.2 b.floor } in
      let again = attempts_of-Enforced transcript req tier left (attempt + 1) in
      elim (Outcome-cases run.1) [
        | inl (reason, e) ↦ rw (e, attempts_of) (omega arith, inl refl)
        | inr (text, served_by, e) ↦
            let (hits', found) = scan_total w.u text forbidden ascii in
            rw (e, attempts_of) (found-Enforced again after text hits' found)
      ]
    where
      found-Enforced :
          ((hits' : List Hit) (c : Brain Json f)
            → Enforced
                (attempt + 1 + left)
                (attempts_of w client forbidden transcript req tier left (attempt + 1) hits' c))
          → (after : Brain Json f) (text : Text) (hits' : List Hit)
          → scan w.u text forbidden ≡ some hits'
          → Enforced
              (attempt + suc left)
              (elim (scan w.u text forbidden) as (λ _. Brain Json f × ℕ × Candidate) [
                | none ↦ (after, attempt + 1, scan_panicked)
                | some [] ↦ (after, attempt + 1, clean text)
                | some (h ∷ hs) ↦
                    attempts_of w client forbidden transcript req tier left
                      (attempt + 1)
                      (h ∷ hs)
                      after
              ])
      found-Enforced again after text [] found = rw found (omega arith, inr (text, refl, found))
      found-Enforced again after text (h ∷ hs) found =
          let (few, ends) = again (h ∷ hs) after in rw found (omega arith, ends)

  regenerated-Clean :
      (fallback : Option Text) (now_ms most : ℕ) (turn_corr : Text)
      (r : Brain Json f × ℕ × Candidate)
      → Clean w.u forbidden (phrase_or_default fallback)
      → Enforced most r
      → (text : Text) × ((regenerated w client forbidden fallback now_ms turn_corr r).1 ≡ some text)
        × Clean w.u forbidden text
  unfolding regenerated Enforced
  regenerated-Clean fallback now_ms most turn_corr (b, n, clean text) ok (few, inl e) = absurd cc
  regenerated-Clean fallback now_ms most turn_corr (b, n, clean text) ok (few, inr (t, e, c)) =
      (text, refl, subst (Clean w.u forbidden) (sym (ap (λ x. text_of x text) e)) c)
    where
      text_of : Candidate → Text → Text
      text_of (clean t') s = t'
      text_of given_up s = s
      text_of scan_panicked s = s
  regenerated-Clean fallback now_ms most turn_corr (b, n, given_up) ok r =
      (phrase_or_default fallback, refl, ok)
  regenerated-Clean fallback now_ms most turn_corr (b, n, scan_panicked) ok (few, inl e) = absurd cc
  regenerated-Clean fallback now_ms most turn_corr (b, n, scan_panicked) ok (few, inr (t, e, c)) =
      absurd cc

  by_action-Clean :
      (action : RedlineAction) (transcript : Text) (req : MessageRequest) (tier : Text) (now_ms : ℕ)
      (turn_corr text : Text) (hits : List Hit) (b : Brain Json f)
      → is_active action ≡ true
      → Clean w.u forbidden (phrase_or_default (fallback_of action))
      → (said : Text) × ((by_action w client forbidden action transcript req tier now_ms turn_corr
            text hits b).1
          ≡ some said)
        × Clean w.u forbidden said
  unfolding by_action is_active
  by_action-Clean off transcript req tier now_ms turn_corr text hits b active ok = absurd cc
  by_action-Clean (safe_phrase p) transcript req tier now_ms turn_corr text hits b active ok =
      (phrase_or_default p, refl, ok)
  by_action-Clean (regenerate m p) transcript req tier now_ms turn_corr text hits b active ok =
      regenerated-Clean p now_ms (0 + max m 1) turn_corr _ ok
        (attempts_of-Enforced transcript req tier (max m 1) 0 hits b)

no_terms-Clean :
    (u : Unicode) (forbidden : List Text) (text : Text)
    → no_terms forbidden ≡ true
    → Clean u forbidden text
unfolding scan
no_terms-Clean u [] text e = refl
no_terms-Clean u (t ∷ forbidden) text e = absurd cc

-- With enforcement on, no hits in the phrase that may stand in for an answer, and forbidden terms whose
-- normal forms start with ASCII characters: the redline block of the ladder path does not panic, and
-- the text that it leaves for the reply has no hits, whatever the models answer to the attempts.
pub redlined-Clean :
    {Json : Type 0} {f : Float} (w : World Json f) (client : ℕ → LadderClient)
    (forbidden : List Text) (action : RedlineAction) (transcript : Text) (req : MessageRequest)
    (tier : Text) (now_ms : ℕ) (turn_corr text : Text) (b : Brain Json f)
    → All (λ term. starts_ascii (normalise w.u term) ≡ true) forbidden
    → is_active action ≡ true
    → Clean w.u forbidden (phrase_or_default (fallback_of action))
    → (said : Text) × ((redlined w client forbidden action transcript req tier now_ms turn_corr text
          b).1
        ≡ some said)
      × Clean w.u forbidden said
unfolding redlined
redlined-Clean w client forbidden action transcript req tier now_ms turn_corr text b ascii active
      ok =
    elim (Bool-cases (no_terms forbidden)) [
      | inl e ↦ (text, rw (active, e, redlined) refl, no_terms-Clean w.u forbidden text e)
      | inr e ↦ let (hits, found) = scan_total w.u text forbidden ascii in checked e hits found
    ]
  where
    checked :
        no_terms forbidden ≡ false
        → (hits : List Hit) → scan w.u text forbidden ≡ some hits
        → (said : Text) × ((redlined w client forbidden action transcript req tier now_ms turn_corr
              text b).1
            ≡ some said)
          × Clean w.u forbidden said
    checked some_term [] found = (text, rw (active, some_term, redlined) (rw found refl), found)
    checked some_term (h ∷ hs) found =
        let (said, e, c) =
          by_action-Clean w client forbidden ascii action transcript req tier now_ms turn_corr text
            (h ∷ hs) (record b { redline_counter = (b.redline_counter + 1) % (u64_max + 1) }) active
            ok in
        (said, rw (active, some_term, redlined) (rw found e), c)
