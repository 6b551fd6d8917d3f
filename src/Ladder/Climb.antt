-- ===== src/Ladder/Climb.antt =====
-- How a turn climbs: the rungs below the one that ends it all climb.
use wintermute_brain.Tiers.{Tier}
use wintermute_brain.Prelude.Unicode.{Unicode}
use wintermute_brain.Prelude.{
  ℕ, suc, ◌+◌, ◌<◌, max, ◌≡◌, refl, sym, ap, ◌∙◌, ◌⊎◌, inl, inr, Bool, true, false, List, [], ◌∷◌,
  ◌++◌, Option, Text, codes, arith, length, drop, length-drop, leb, if◌then◌else◌,
}
use wintermute_brain.Ladder.{
  Output, filler, LadderClient, answer, degraded, MessageRequest, RungResult, stop_answer,
  stop_degraded, climb, escalation_filler, FloorState, TurnEnd, raised, after_rung, run_rung,
  run_from, applied, start_index, run_turn_inner,
}
use wintermute_brain.Ladder.Rungs.{
  RungEnd, run_rung-RungEnd, fillers, fillers-append, fillers-run_rung,
}

abbrev pub one_if : Bool → ℕ
one_if true = 1
one_if false = 0

fillers-pass :
    (climbing : Bool) (out rest : List Output)
    → fillers out ≡ 0
    → fillers ((if climbing then filler escalation_filler ∷ [] else []) ++ out ++ rest)
      ≡ one_if climbing + fillers rest
fillers-pass true out rest h = omega (arith, fillers-append out rest)
fillers-pass false out rest h = omega (arith, fillers-append out rest)

module _ (c : LadderClient) (transcript : Text) (request : MessageRequest) where
  abbrev pub rung_at : ℕ → Tier → RungResult
  rung_at idx tier =
      (run_rung c.backends tier transcript request (leb (length c.ladder) (idx + 1))).1

  abbrev pub AllClimb : ℕ → List Tier → Type 0
  AllClimb idx [] = Unit
  AllClimb idx (t ∷ ts) = (rung_at idx t ≡ climb) × AllClimb (idx + 1) ts

  -- The turn is answered by the first rung that does not climb.
  pub record Served (extra idx : ℕ) (tiers : List Tier) (floor : Option FloorState) (end : TurnEnd)
      : Type 0 where
    pub below : List Tier
    pub server : Tier
    pub above : List Tier
    pub text : Text
    pub splits : tiers ≡ below ++ server ∷ above
    pub climbed : AllClimb idx below
    pub serves : rung_at (idx + length below) server ≡ stop_answer (answer text server.name)
    pub fillers_are : fillers end.0 ≡ extra + length below
    pub outcome_is : end.1 ≡ answer text server.name
    pub floor_is : end.2 ≡ raised (idx + length below) floor

  -- Every rung climbs but the top, which degrades the turn.
  pub record Failed (extra idx : ℕ) (tiers : List Tier) (floor : Option FloorState) (end : TurnEnd)
      : Type 0 where
    pub below : List Tier
    pub top : Tier
    pub reason : Text
    pub splits : tiers ≡ below ++ top ∷ []
    pub climbed : AllClimb idx below
    pub fails : rung_at (idx + length below) top ≡ stop_degraded (degraded reason)
    pub fillers_are : fillers end.0 ≡ extra + length below
    pub outcome_is : end.1 ≡ degraded reason
    pub floor_is : end.2 ≡ floor

  abbrev pub Ended : ℕ → ℕ → List Tier → Option FloorState → TurnEnd → Type 0
  Ended extra idx tiers floor end =
      Served extra idx tiers floor end
      ⊎ Failed extra idx tiers floor end
      ⊎ ((tiers ≡ []) × (end.1 ≡ degraded (codes "ladder exhausted")) × (end.2 ≡ floor))

  Ended-above :
      (extra idx : ℕ) (tier : Tier) (above : List Tier) (floor : Option FloorState)
      (end end' : TurnEnd)
      → rung_at idx tier ≡ climb
      → fillers end'.0 ≡ extra + fillers end.0
      → end.1 ≡ end'.1
      → end.2 ≡ end'.2
      → 0 < length above
      → Ended 1 (idx + 1) above floor end
      → Ended extra idx (tier ∷ above) floor end'
  Ended-above extra idx tier above floor end end' r f e k n (inl s) =
      let at : idx + suc (length s.below) ≡ idx + 1 + length s.below = omega arith in
      inl (record {
        below = tier ∷ s.below;
        server = s.server;
        above = s.above;
        text = s.text;
        splits = ap (◌∷◌ tier) s.splits;
        climbed = (r, s.climbed);
        serves = rw at s.serves;
        fillers_are = omega (arith, s.fillers_are);
        outcome_is = sym e ∙ s.outcome_is;
        floor_is = sym k ∙ rw at s.floor_is;
      })
  Ended-above extra idx tier above floor end end' r f e k n (inr (inl s)) =
      let at : idx + suc (length s.below) ≡ idx + 1 + length s.below = omega arith in
      inr (
        inl (record {
          below = tier ∷ s.below;
          top = s.top;
          reason = s.reason;
          splits = ap (◌∷◌ tier) s.splits;
          climbed = (r, s.climbed);
          fails = rw at s.fails;
          fillers_are = omega (arith, s.fillers_are);
          outcome_is = sym e ∙ s.outcome_is;
          floor_is = sym k ∙ s.floor_is;
        }))
  Ended-above extra idx tier above floor end end' r f e k n (inr (inr (none_left, o, same))) =
      absurd (omega (arith, ap length none_left))

  Ended-rung :
      (r : RungResult) (extra idx : ℕ) (tier : Tier) (above : List Tier) (floor : Option FloorState)
      (next end : TurnEnd)
      → rung_at idx tier ≡ r
      → RungEnd (leb (length c.ladder) (idx + 1)) tier r
      → idx + suc (length above) ≡ length c.ladder
      → fillers end.0 ≡ extra + fillers (after_rung r idx floor next).0
      → end.1 ≡ (after_rung r idx floor next).1
      → end.2 ≡ (after_rung r idx floor next).2
      → (0 < length above → Ended 1 (idx + 1) above floor next)
      → Ended extra idx (tier ∷ above) floor end
  unfolding after_rung
  Ended-rung (stop_answer out) extra idx tier above floor next end r k n f e g rest =
      let at : idx + 0 ≡ idx = omega arith in
      inl (record {
        below = [];
        server = tier;
        above = above;
        text = k.0;
        splits = refl;
        climbed = tt;
        serves = rw at (r ∙ ap stop_answer k.1);
        fillers_are = f;
        outcome_is = e ∙ k.1;
        floor_is = rw at g;
      })
  Ended-rung (stop_degraded out) extra idx tier [] floor next end r k n f e g rest =
      let at : idx + 0 ≡ idx = omega arith in
      inr (
        inl (record {
          below = [];
          top = tier;
          reason = k.1.0;
          splits = refl;
          climbed = tt;
          fails = rw at (r ∙ ap stop_degraded k.1.1);
          fillers_are = f;
          outcome_is = e ∙ k.1.1;
          floor_is = g;
        }))
  Ended-rung (stop_degraded out) extra idx tier (t ∷ above) floor next end r k n f e g rest =
      absurd (ground (arith, k.0))
  Ended-rung climb extra idx tier [] floor next end r k n f e g rest = absurd (ground (arith, k))
  Ended-rung climb extra idx tier (t ∷ above) floor next end r k n f e g rest =
      Ended-above extra idx tier (t ∷ above) floor next end r f (sym e) (sym g) (omega arith)
        (rest (omega arith))

  run_from-Ended :
      (idx : ℕ) (climbing : Bool) (tiers : List Tier) (floor : Option FloorState)
      → (0 < length tiers → idx + length tiers ≡ length c.ladder)
      → Ended
          (one_if climbing)
          idx
          tiers
          floor
          (run_from c transcript request idx climbing tiers floor)
  unfolding run_from after_rung
  run_from-Ended idx climbing [] floor h = inr (inr (refl, refl, refl))
  run_from-Ended idx climbing (tier ∷ above) floor h =
      let n : idx + suc (length above) ≡ length c.ladder = h (omega arith) in
      let at_top = leb (length c.ladder) (idx + 1) in
      let next = run_from c transcript request (idx + 1) true above floor in
      let end = run_from c transcript request idx climbing (tier ∷ above) floor in
      Ended-rung (rung_at idx tier) (one_if climbing) idx tier above floor next end refl
        (run_rung-RungEnd c.backends tier transcript request at_top) n
        (fillers-pass climbing (run_rung c.backends tier transcript request at_top).0
          (after_rung (rung_at idx tier) idx floor next).0
          (fillers-run_rung c.backends tier transcript request at_top))
        refl refl (λ k. run_from-Ended (idx + 1) true above floor (λ m. omega arith))

-- The start of a turn and what the session floor is after it was consulted.
abbrev pub start_of : LadderClient → Unicode → Text → Text → Bool → Option FloorState → ℕ
start_of c u transcript start_tier recall_up floor =
    max (start_index start_tier (c.stakes transcript) recall_up c.ladder)
      (applied u transcript floor).1

length_from :
    (start : ℕ) (ladder : List Tier)
    → 0 < length (drop start ladder)
    → start + length (drop start ladder) ≡ length ladder
length_from start ladder h = omega (arith, length-drop start ladder)

-- A turn ends in one of three ways, seen from the rungs at and above its start. It is answered by the
-- first rung that does not climb, under that rung's name, and the floor is raised to that rung; or
-- every rung climbs but the last of the ladder, which gives up, and so does the turn; or no rung
-- stands at the start. In the first two, one filler is sent for each rung that climbed.
pub run_turn_inner-Ended :
    (c : LadderClient) (u : Unicode) (transcript : Text) (request : MessageRequest)
    (start_tier : Text) (recall_up : Bool) (floor : Option FloorState)
    → let start = start_of c u transcript start_tier recall_up floor in
      Ended c transcript request 0 start
        (drop start c.ladder)
        (applied u transcript floor).0
        (run_turn_inner c u transcript request start_tier recall_up floor)
unfolding run_turn_inner
run_turn_inner-Ended c u transcript request start_tier recall_up floor =
    let start = start_of c u transcript start_tier recall_up floor in
    run_from-Ended c transcript request start false (drop start c.ladder)
      (applied u transcript floor).0 (length_from start c.ladder)
