-- ===== src/Redline/Enforce.antt =====
-- What is said in place of a reply with forbidden terms: `enforce` and the bounded regeneration.
use mathlib.Core.Bool.{false≢true}
use wintermute_brain.Prelude.Unicode.{Unicode, is_empty}
use wintermute_brain.Prelude.{
  ℕ, zero, suc, ◌+◌, ◌-◌, ◌%◌, u64_max, ◌≤◌, ◌≡◌, ◌≢◌, ◌⊎◌, ◌↔◌, refl, sym, ap, ◌∙◌, subst, inl,
  inr, Bool, true, max, List, [], ◌∷◌, Option, none, some, Text, length, starts_with, ltb, arith,
  Bool-cases, Option-cases, All,
}
use wintermute_brain.Redline.{
  Hit, no_hits, phrase_or_default, search_from, with_hit, both_hits, is_word, normalise, scan,
  RedlineAction, off, safe_phrase, regenerate, is_active, enforce, replacement, hardened_addendum,
  attempts_from, enforce_with_regenerate,
}
use wintermute_brain.Redline.Words.{none_or_some, some_eq}
use wintermute_brain.Redline.Reports.{Text-cases, hit_for}

-- The normal form starts with an ASCII character, if it is not empty.
abbrev pub starts_ascii : Text → Bool
starts_ascii [] = true
starts_ascii (c ∷ s) = ltb c 128

-- `scan` finds no forbidden term.
abbrev pub Clean : Unicode → List Text → Text → Type 0
Clean u forbidden reply = scan u reply forbidden ≡ some []

with_hit_total : (h : Hit) (o : Option (List Hit)) → o ≢ none → with_hit h o ≢ none
with_hit_total h none k e = k refl
with_hit_total h (some hits) k e = none_or_some (sym e)

both_hits_total : (o o' : Option (List Hit)) → o ≢ none → o' ≢ none → both_hits o o' ≢ none
both_hits_total none o' k k' e = k refl
both_hits_total (some hits) none k k' e = k' refl
both_hits_total (some hits) (some more) k k' e = none_or_some (sym e)

match_first : (p : ℕ) (ps : Text) (c : ℕ) (s : Text) → starts_with (c ∷ s) (p ∷ ps) ≡ true → c ≡ p
unfolding starts_with
match_first p ps c s h = ground arith

search_from_total :
    (p : ℕ) (ps : Text) (h : Hit) (skip : ℕ) (prev : Option ℕ) (s : Text)
    → ltb p 128 ≡ true
    → search_from (p ∷ ps) h skip prev s ≢ none
unfolding search_from
search_from_total p ps h skip prev [] a e = none_or_some (sym e)
search_from_total p ps h (suc skip) prev (c ∷ s) a e = search_from_total p ps h skip (some c) s a e
search_from_total p ps h zero prev (c ∷ s) a e =
    let on = search_from_total p ps h 0 (some c) s a in
    elim (Bool-cases (starts_with (c ∷ s) (p ∷ ps))) [
      | inr differs ↦ on (rw differs at e)
      | inl matches ↦
          let ascii : ltb c 128 ≡ true = rw (match_first p ps c s matches) a in
          elim (Bool-cases (is_word (p ∷ ps) prev (c ∷ s))) [
            | inl word ↦
                with_hit_total h _ (search_from_total p ps h (length (p ∷ ps) - 1) (some c) s a)
                  (rw (matches, word) at e)
            | inr part ↦ on (rw (matches, part, ascii) at e)
          ]
    ]

scan_never :
    (u : Unicode) (reply : Text) (forbidden : List Text)
    → All (λ term. starts_ascii (normalise u term) ≡ true) forbidden
    → scan u reply forbidden ≢ none
unfolding scan is_empty
scan_never u reply [] a e = none_or_some (sym e)
scan_never u reply (term ∷ forbidden) a e =
    let on = scan_never u reply forbidden a.1 in
    elim (Text-cases (normalise u term)) [
      | inl n ↦ on (rw n at e)
      | inr (p, ps, n) ↦
          let finds =
            search_from_total p ps (hit_for u reply term) 0 none (normalise u reply)
              (rw n at a.0) in
          both_hits_total _ _ finds on (rw n at e)
    ]

-- With forbidden terms whose normal forms start with an ASCII character, the scan does not panic.
pub scan_total :
    (u : Unicode) (reply : Text) (forbidden : List Text)
    → All (λ term. starts_ascii (normalise u term) ≡ true) forbidden
    → (hits : List Hit) × (scan u reply forbidden ≡ some hits)
scan_total u reply forbidden a = elim (Option-cases (scan u reply forbidden)) [
  | inl e ↦ absurd (scan_never u reply forbidden a e)
  | inr hits ↦ hits
]

no_hits_eq : (hits : List Hit) → no_hits hits ≡ true → hits ≡ []
no_hits_eq [] h = refl
no_hits_eq (x ∷ hits) h = cc

module _ {S : Type 0} (u : Unicode) (forbidden : List Text) (model_fn : S → Text → Text × S)
    (calls : S → ℕ)
    (counted : (s : S) (addendum : Text) → calls (model_fn s addendum).1 ≡ suc (calls s)) where
  abbrev Regenerated : ℕ → S → Option Text → Option (Text × S) → Type 0
  Regenerated n s fallback out =
      (text : Text) × (s' : S) × (out ≡ some (text, s'))
      × (Clean u forbidden text ⊎ (text ≡ phrase_or_default fallback))
      × (calls s' ≤ calls s + n)

  attempts_from-Regenerated :
      (n : ℕ) (fallback : Option Text) (hits : List Hit) (s : S)
      → All (λ term. starts_ascii (normalise u term) ≡ true) forbidden
      → Regenerated n s fallback (attempts_from u forbidden model_fn n fallback hits s)
  unfolding attempts_from
  attempts_from-Regenerated zero fallback hits s a =
      (phrase_or_default fallback, s, refl, inr refl, omega arith)
  attempts_from-Regenerated (suc n) fallback hits s a =
      let made = model_fn s (hardened_addendum hits) in
      let (new_hits, scanned) = scan_total u made.0 forbidden a in
      let (text, s', e, said, fewer) = attempts_from-Regenerated n fallback new_hits made.1 a in
      let one = counted s (hardened_addendum hits) in
      elim (Bool-cases (no_hits new_hits)) [
        | inl clean ↦ (
          made.0,
          made.1,
          rw (scanned, attempts_from, clean) refl,
          inl (scanned ∙ ap some (no_hits_eq new_hits clean)),
          omega arith,
        )
        | inr dirty ↦ (text, s', rw (scanned, attempts_from, dirty) e, said, omega arith)
      ]

  -- When the normal forms of the forbidden terms start with ASCII characters and the fallback phrase has
  -- no hits: the regeneration does not panic, what it returns has no hits, whatever the model
  -- answers, and the model is called at most `max_attempts` times, or once where that is 0.
  pub enforce_with_regenerate-Clean :
      (original_reply : Text) (max_attempts : ℕ) (fallback : Option Text) (s : S)
      → All (λ term. starts_ascii (normalise u term) ≡ true) forbidden
      → Clean u forbidden (phrase_or_default fallback)
      → (text : Text) × (s' : S) × (enforce_with_regenerate u forbidden model_fn original_reply
            max_attempts fallback s
          ≡ some (text, s'))
        × Clean u forbidden text
        × (calls s' ≤ calls s + max max_attempts 1)
  unfolding enforce_with_regenerate
  enforce_with_regenerate-Clean original_reply max_attempts fallback s a clean =
      let (hits, scanned) = scan_total u original_reply forbidden a in
      let (text, s', e, said, fewer) =
        attempts_from-Regenerated (max max_attempts 1) fallback hits s a in
      let result : enforce_with_regenerate u forbidden model_fn original_reply max_attempts fallback
            s
          ≡ some (text, s') =
        rw (scanned, enforce_with_regenerate) e in
      elim said [
        | inl fresh ↦ (text, s', result, fresh, fewer)
        | inr phrase ↦ (text, s', result, rw phrase clean, fewer)
      ]

-- What is published: the replacement, or the reply itself.
abbrev pub published : Text → Option Text → Text
published reply none = reply
published reply (some safe) = safe

some_scan :
    (o : Option (List Hit)) (hits : List Hit) → o ≡ some hits → no_hits hits ≡ true → o ≡ some []
some_scan o hits e h = e ∙ ap some (no_hits_eq hits h)

abbrev pub Published : Unicode → Text → List Text → RedlineAction → ℕ → Option Text × ℕ → Type 0
Published u reply forbidden action counter out =
    Clean u forbidden (published reply out.0)
    × ((out.0 ≡ none) ↔ Clean u forbidden reply)
    × ((out.0 ≡ none) × (out.1 ≡ counter)
        ⊎ (out.0 ≡ replacement action) × (out.1 ≡ (counter + 1) % (u64_max + 1)))

active_phrase :
    (action : RedlineAction)
    → is_active action ≡ true
    → (safe : Text) × (replacement action ≡ some safe)
unfolding is_active
active_phrase off h = absurd (false≢true h)
active_phrase (safe_phrase phrase) h = (phrase_or_default phrase, refl)
active_phrase (regenerate n fallback) h = (phrase_or_default fallback, refl)

kept-Published :
    (u : Unicode) (reply : Text) (forbidden : List Text) (action : RedlineAction) (counter : ℕ)
    → Clean u forbidden reply
    → Published u reply forbidden action counter (none, counter)
kept-Published u reply forbidden action counter clean =
    (clean, ((λ _. clean), (λ _. refl)), inl (refl, refl))

replaced-Published :
    (u : Unicode) (reply : Text) (forbidden : List Text) (action : RedlineAction) (counter : ℕ)
    (safe : Text)
    → replacement action ≡ some safe
    → Clean u forbidden safe
    → ¬ Clean u forbidden reply
    → Published u reply forbidden action counter (replacement action, (counter + 1) % (u64_max + 1))
replaced-Published u reply forbidden action counter safe e clean dirty = (
  subst (λ out. Clean u forbidden (published reply out)) (sym e) clean,
  ((λ gone. absurd (none_or_some (sym gone ∙ e))), (λ c. absurd (dirty c))),
  inr (refl, refl),
)

-- With enforcement on, and no hits in the phrase that may stand in for a reply: where `enforce` does not
-- panic, what is published has no hits; the reply is published itself exactly when it has none, and
-- the counter goes up by one, with wrap-around, exactly when it is replaced.
pub enforce-Clean :
    (u : Unicode) (reply : Text) (forbidden : List Text) (action : RedlineAction) (counter : ℕ)
    (out : Option Text × ℕ)
    → is_active action ≡ true
    → ((safe : Text) → replacement action ≡ some safe → Clean u forbidden safe)
    → enforce u reply forbidden action counter ≡ some out
    → Published u reply forbidden action counter out
unfolding enforce scan
enforce-Clean u reply [] action counter out active safe e =
    subst (Published u reply [] action counter) (some_eq (rw active at e))
      (kept-Published u reply [] action counter refl)
enforce-Clean u reply (t ∷ ts) action counter out active safe e =
    let forbidden = t ∷ ts in
    let (phrase, p) = active_phrase action active in
    elim (Option-cases (scan u reply forbidden)) [
      | inl panics ↦ absurd (none_or_some (rw (active, panics) at e))
      | inr (hits, scanned) ↦ elim (Bool-cases (no_hits hits)) [
        | inl clean ↦
            subst (Published u reply forbidden action counter)
              (some_eq (rw (active, scanned, clean) at e))
              (kept-Published u reply forbidden action counter
                (scanned ∙ ap some (no_hits_eq hits clean)))
        | inr dirty ↦
            subst (Published u reply forbidden action counter)
              (some_eq (rw (active, scanned, dirty) at e))
              (replaced-Published u reply forbidden action counter phrase p (safe phrase p)
                (λ clean. false≢true (sym dirty ∙ ap no_hits (some_eq (sym scanned ∙ clean)))))
      ]
    ]
