-- ===== src/Turn/Steps.antt =====
-- The steps of a turn on the tier ladder that leave the history as it is.
use wintermute_brain.Cache.{Float, SemanticCache, CacheHit, DbResult, done, db_error}
use wintermute_brain.Redline.{
  Hit, RedlineAction, off, safe_phrase, regenerate, is_active, no_terms, scan, hardened_addendum,
}
use wintermute_brain.Ladder.{
  MessageRequest, LadderClient, LadderOutcome, answer, degraded, run_turn_sticky,
}
use wintermute_brain.Prelude.{
  ℕ, zero, suc, max, u64_max, not, ◌&&◌, ◌%◌, ◌+◌, ◌≡◌, refl, ◌⊎◌, Option-cases, Bool, Bool-cases,
  inl, inr, List, [], ◌∷◌, Option, none, some, Text,
}
use wintermute_brain.Turn.{
  Brain, World, TurnConfig, Done, and_then, say, try_say, reply_of, partial_of, say_fillers,
  try_partials, say_partials,
}
use wintermute_brain.Turn.Redlined.{
  kept_floor, with_addendum, Candidate, clean, given_up, scan_panicked, attempts_of, redlined,
  by_action, regenerated,
}
use wintermute_brain.Turn.Ladder.{
  cache_usable, with_cache, looked_up, look_up_in, look_up, store_in, store,
}
use wintermute_brain.Bus.Log.{Adds-same}
use wintermute_brain.Turn.Recorded.{Quiet, Quiet-refl, Quiet-trans, say-Quiet, try_say-Quiet}

pub Outcome-cases :
    (o : LadderOutcome)
    → ((reason : Text) × (o ≡ degraded reason))
      ⊎ (text : Text) × (tier : Text) × (o ≡ answer text tier)
Outcome-cases (degraded reason) = inl (reason, refl)
Outcome-cases (answer text tier) = inr (text, tier, refl)

module _ {Json : Type 0} {f : Float} where
  and_then-Quiet :
      (b : Brain Json f) (r : Brain Json f × Done) (rest : Brain Json f → Brain Json f × Done)
      → Quiet b r.0
      → ((c : Brain Json f) → Quiet c (rest c).0)
      → Quiet b (and_then r rest).0
  and_then-Quiet b (c, Done.finished) rest q k = Quiet-trans b c (rest c).0 q (k c)
  and_then-Quiet b (c, Done.publish_failed) rest q k = q
  and_then-Quiet b (c, Done.panicked) rest q k = q

  pub say_fillers-Quiet :
      (ts : List Text) (now_ms : ℕ) (turn_corr : Text) (b : Brain Json f)
      → Quiet b (say_fillers ts now_ms turn_corr b).0
  unfolding say_fillers
  say_fillers-Quiet [] now_ms turn_corr b = Quiet-refl b
  say_fillers-Quiet (t ∷ ts) now_ms turn_corr b =
      and_then-Quiet b (say (reply_of t now_ms turn_corr) b) (say_fillers ts now_ms turn_corr)
        (say-Quiet (reply_of t now_ms turn_corr) b) (λ c. say_fillers-Quiet ts now_ms turn_corr c)

  pub try_partials-Quiet :
      (ts : List Text) (now_ms : ℕ) (turn_corr : Text) (b : Brain Json f)
      → Quiet b (try_partials ts now_ms turn_corr b)
  unfolding try_partials
  try_partials-Quiet [] now_ms turn_corr b = Quiet-refl b
  try_partials-Quiet (t ∷ ts) now_ms turn_corr b =
      Quiet-trans b (try_say (partial_of now_ms turn_corr t) b)
        (try_partials ts now_ms turn_corr (try_say (partial_of now_ms turn_corr t) b))
        (try_say-Quiet (partial_of now_ms turn_corr t) b)
        (try_partials-Quiet ts now_ms turn_corr (try_say (partial_of now_ms turn_corr t) b))

  pub say_partials-Quiet :
      (ts : List Text) (now_ms : ℕ) (turn_corr : Text) (b : Brain Json f)
      → Quiet b (say_partials ts now_ms turn_corr b).0
  unfolding say_partials
  say_partials-Quiet [] now_ms turn_corr b = Quiet-refl b
  say_partials-Quiet (t ∷ ts) now_ms turn_corr b =
      and_then-Quiet b (say (partial_of now_ms turn_corr t) b) (say_partials ts now_ms turn_corr)
        (say-Quiet (partial_of now_ms turn_corr t) b)
        (λ c. say_partials-Quiet ts now_ms turn_corr c)

  -- Steps that leave the bus and the history.
  pub same-Quiet : (a b : Brain Json f) → b.sink ≡ a.sink → b.history ≡ a.history → Quiet a b
  same-Quiet a b same history = record {
    new = [];
    adds = Adds-same a.sink b.sink same;
    history_is = history;
  }

  attempts_of-Quiet :
      (w : World Json f) (client : ℕ → LadderClient) (forbidden : List Text) (transcript : Text)
      (req : MessageRequest) (tier : Text) (left attempt : ℕ) (hits : List Hit) (b : Brain Json f)
      → Quiet b (attempts_of w client forbidden transcript req tier left attempt hits b).0
  unfolding attempts_of
  attempts_of-Quiet w client forbidden transcript req tier zero attempt hits b = Quiet-refl b
  attempts_of-Quiet w client forbidden transcript req tier (suc left) attempt hits b =
      let run =
        run_turn_sticky (client (attempt + 1)) w.u transcript
          (with_addendum req (hardened_addendum hits)) tier (w.recall_up (attempt + 1)) b.floor in
      let after : Brain Json f = record b { floor = kept_floor run.2 b.floor } in
      let again = attempts_of-Quiet w client forbidden transcript req tier left (attempt + 1) in
      let still : Quiet b after = same-Quiet b after refl refl in
      elim (Outcome-cases run.1) [
        | inl (reason, e) ↦ rw (e, attempts_of) still
        | inr (text, served_by, e) ↦ rw (e, attempts_of) (found-Quiet again after still text)
      ]
    where
      found-Quiet :
          ((hits' : List Hit) (c : Brain Json f)
            → Quiet c
                (attempts_of w client forbidden transcript req tier left (attempt + 1) hits' c).0)
          → (after : Brain Json f) → Quiet b after
          → (text : Text)
          → Quiet b
              (elim (scan w.u text forbidden) as (λ _. Brain Json f × ℕ × Candidate) [
                | none ↦ (after, attempt + 1, scan_panicked)
                | some [] ↦ (after, attempt + 1, clean text)
                | some (h ∷ hs) ↦
                    attempts_of w client forbidden transcript req tier left
                      (attempt + 1)
                      (h ∷ hs)
                      after
              ]).0
      found-Quiet again after still text = elim (Option-cases (scan w.u text forbidden)) [
        | inl e ↦ rw e still
        | inr ([], e) ↦ rw e still
        | inr (h ∷ hs, e) ↦ rw e (
            Quiet-trans b after
              (attempts_of w client forbidden transcript req tier left (attempt + 1) (h ∷ hs)
                after).0
              still (again (h ∷ hs) after))
      ]

  by_action-Quiet :
      (w : World Json f) (client : ℕ → LadderClient) (forbidden : List Text)
      (action : RedlineAction) (transcript : Text) (req : MessageRequest) (tier : Text) (now_ms : ℕ)
      (turn_corr text : Text) (hits : List Hit) (b : Brain Json f)
      → Quiet b
          (by_action w client forbidden action transcript req tier now_ms turn_corr text hits b).0
  unfolding by_action regenerated
  by_action-Quiet w client forbidden off transcript req tier now_ms turn_corr text hits b =
      Quiet-refl b
  by_action-Quiet w client forbidden (safe_phrase p) transcript req tier now_ms turn_corr text hits
        b =
      try_say-Quiet _ b
  by_action-Quiet w client forbidden (regenerate m p) transcript req tier now_ms turn_corr text hits
        b =
      regenerated-Quiet (attempts_of w client forbidden transcript req tier (max m 1) 0 hits b)
        (attempts_of-Quiet w client forbidden transcript req tier (max m 1) 0 hits b)
    where
      regenerated-Quiet :
          (r : Brain Json f × ℕ × Candidate)
          → Quiet b r.0
          → Quiet b (regenerated w client forbidden p now_ms turn_corr r).0
      regenerated-Quiet (c, n, clean t) q = Quiet-trans b c _ q (try_say-Quiet _ c)
      regenerated-Quiet (c, n, given_up) q = Quiet-trans b c _ q (try_say-Quiet _ c)
      regenerated-Quiet (c, n, scan_panicked) q = q

  pub redlined-Quiet :
      (w : World Json f) (client : ℕ → LadderClient) (forbidden : List Text)
      (action : RedlineAction) (transcript : Text) (req : MessageRequest) (tier : Text) (now_ms : ℕ)
      (turn_corr text : Text) (b : Brain Json f)
      → Quiet b (redlined w client forbidden action transcript req tier now_ms turn_corr text b).0
  unfolding redlined
  redlined-Quiet w client forbidden action transcript req tier now_ms turn_corr text b =
      elim (Bool-cases (is_active action && not (no_terms forbidden))) [
        | inr inactive ↦ rw (inactive, redlined) (Quiet-refl b)
        | inl active ↦ elim (Option-cases (scan w.u text forbidden)) [
          | inl e ↦ rw (active, redlined) (rw e (Quiet-refl b))
          | inr ([], e) ↦ rw (active, redlined) (rw e (Quiet-refl b))
          | inr (h ∷ hs, e) ↦
              rw (active, redlined)
                (rw e (
                  Quiet-trans b counted _ (same-Quiet b counted refl refl) (
                    by_action-Quiet w client forbidden action transcript req tier now_ms turn_corr
                      text (h ∷ hs) counted)))
        ]
      ]
    where
      counted : Brain Json f
      counted = record b { redline_counter = (b.redline_counter + 1) % (u64_max + 1) }

  looked_up-Quiet :
      (w : World Json f) (cfg : TurnConfig) (child_lock : Bool)
      (r : SemanticCache f × DbResult (Option (CacheHit f))) (b : Brain Json f)
      → Quiet b (looked_up w cfg child_lock r b).0
  unfolding looked_up
  looked_up-Quiet w cfg child_lock (c, done (some hit)) b =
      Quiet-trans b (with_cache w cfg child_lock b c) _ (same-Quiet b _ refl refl)
        (try_say-Quiet _ _)
  looked_up-Quiet w cfg child_lock (c, done none) b =
      Quiet-trans b (with_cache w cfg child_lock b c) _ (same-Quiet b _ refl refl)
        (try_say-Quiet _ _)
  looked_up-Quiet w cfg child_lock (c, db_error) b = same-Quiet b _ refl refl

  pub look_up-Quiet :
      (w : World Json f) (cfg : TurnConfig) (child_lock : Bool) (transcript : Text)
      (b : Brain Json f)
      → Quiet b (look_up w cfg child_lock transcript b).0
  unfolding look_up look_up_in
  look_up-Quiet w cfg child_lock transcript b = in_cache b.cache
    where
      in_cache :
          (o : Option (SemanticCache f)) → Quiet b (look_up_in w cfg child_lock o transcript b).0
      in_cache none = Quiet-refl b
      in_cache (some c) =
          elim (Bool-cases (cache_usable w cfg child_lock transcript && not w.cache_panics)) [
            | inl e ↦ rw e (looked_up-Quiet w cfg child_lock _ b)
            | inr e ↦ rw e (Quiet-refl b)
          ]

  pub store-same :
      (w : World Json f) (cfg : TurnConfig) (child_lock : Bool) (transcript text tier : Text)
      (b : Brain Json f)
      → let b' = store w cfg child_lock transcript text tier b in
        (b'.sink ≡ b.sink) × (b'.history ≡ b.history)
  unfolding store store_in
  store-same w cfg child_lock transcript text tier b = in_cache b.cache
    where
      in_cache :
          (o : Option (SemanticCache f))
          → let b' = store_in w cfg child_lock o transcript text tier b in
            (b'.sink ≡ b.sink) × (b'.history ≡ b.history)
      in_cache none = (refl, refl)
      in_cache (some c) =
          elim (Bool-cases (cache_usable w cfg child_lock transcript && not w.insert_panics)) [
            | inl e ↦ rw e (refl, refl)
            | inr e ↦ rw e (refl, refl)
          ]
