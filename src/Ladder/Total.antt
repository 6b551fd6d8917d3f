-- ===== src/Ladder/Total.antt =====
-- A turn on a ladder with rungs never starts above it.
use wintermute_brain.Tiers.{Tier, is_anthropic, position, unwrap_or}
use wintermute_brain.Prelude.Unicode.{Unicode}
use wintermute_brain.Prelude.{
  ℕ, suc, ◌+◌, ◌-◌, ◌<◌, ◌≡◌, sym, ap, subst, ◌⊎◌, inl, inr, Bool, true, false, List, [], ◌∷◌, ◌++◌,
  Option, none, some, Text, codes, text_eq, arith, Bool-cases, Option-cases, length, length-append,
  drop, length-drop, ◌&&◌,
}
use wintermute_brain.Ladder.{
  LadderClient, MessageRequest, FloorState, Stakes, ordinary, high_stakes, raise_to, raised, apply,
  applied, topic_tokens, topic_changed, tier_index, first_cloud_index, start_index, run_turn_inner,
}
use wintermute_brain.Ladder.Climb.{start_of, Served, Failed, run_turn_inner-Ended}

position-lt {ℓ} :
    {A : Type ℓ} (test : A → Bool) (xs : List A) (i : ℕ) → position test xs ≡ some i → i < length xs
unfolding position
position-lt test [] i e = absurd (ground arith)
position-lt test (x ∷ xs) i e = elim (Bool-cases (test x)) [
  | inl here ↦ ground arith
  | inr later ↦ elim (Option-cases (position test xs)) [
    | inl absent ↦ absurd (ground arith)
    | inr (j, found) ↦ ground (arith, position-lt test xs j found)
  ]
]

unwrap_or-position :
    (test : Tier → Bool) (ladder : List Tier) (other : ℕ)
    → other < length ladder
    → unwrap_or (position test ladder) other < length ladder
unwrap_or-position test ladder other h = elim (Option-cases (position test ladder)) [
  | inl absent ↦ rw absent h
  | inr (i, found) ↦ rw found (position-lt test ladder i found)
]

start_index-lt :
    (start_tier : Text) (stakes : Stakes) (recall_up : Bool) (ladder : List Tier)
    → 0 < length ladder
    → start_index start_tier stakes recall_up ladder < length ladder
unfolding start_index tier_index first_cloud_index
start_index-lt start_tier (high_stakes class) recall_up ladder h =
    unwrap_or-position (λ t. text_eq t.name (codes "sonnet")) ladder _
      (unwrap_or-position is_anthropic ladder (length ladder - 1) (omega arith))
start_index-lt start_tier ordinary true ladder h =
    unwrap_or-position (λ t. text_eq t.name start_tier) ladder 0 h
start_index-lt start_tier ordinary false ladder h =
    let haiku =
      unwrap_or-position (λ t. text_eq t.name (codes "haiku")) ladder _
        (unwrap_or-position is_anthropic ladder (length ladder - 1) (omega arith)) in
    let requested = unwrap_or-position (λ t. text_eq t.name start_tier) ladder 0 h in omega arith

-- The floor, where there is one, is a rung of the ladder.
abbrev pub Fits : List Tier → Option FloorState → Type 0
Fits ladder none = Unit
Fits ladder (some st) = st.floor_idx < length ladder

applied-Fits :
    (u : Unicode) (transcript : Text) (ladder : List Tier) (floor : Option FloorState)
    → 0 < length ladder
    → Fits ladder floor
    → Fits ladder (applied u transcript floor).0 × ((applied u transcript floor).1 < length ladder)
unfolding apply
applied-Fits u transcript ladder none h f = (tt, h)
applied-Fits u transcript ladder (some st) h f =
    elim (Bool-cases (st.seen && topic_changed st.prev_tokens (topic_tokens u transcript))) [
      | inl decay ↦ rw decay (h, h)
      | inr keep ↦ rw keep (f, f)
    ]

raised-Fits :
    (ladder : List Tier) (idx : ℕ) (floor : Option FloorState)
    → idx < length ladder
    → Fits ladder floor
    → Fits ladder (raised idx floor)
unfolding raise_to
raised-Fits ladder idx none h f = tt
raised-Fits ladder idx (some st) h f = ground arith

-- On a ladder with at least one rung, and with no session floor or one that stands at a rung, every
-- turn is answered by a rung or ends with the failure of the top rung, never for want of a rung; and
-- the floor it leaves stands at a rung again.
pub run_turn_inner-total :
    (c : LadderClient) (u : Unicode) (transcript : Text) (request : MessageRequest)
    (start_tier : Text) (recall_up : Bool) (floor : Option FloorState)
    → 0 < length c.ladder
    → Fits c.ladder floor
    → let start = start_of c u transcript start_tier recall_up floor in
      let tiers = drop start c.ladder in
      let floor' = (applied u transcript floor).0 in
      let end = run_turn_inner c u transcript request start_tier recall_up floor in
      (Served c transcript request 0 start tiers floor' end
        ⊎ Failed c transcript request 0 start tiers floor' end)
      × Fits c.ladder end.2
run_turn_inner-total c u transcript request start_tier recall_up floor h f =
    let start = start_of c u transcript start_tier recall_up floor in
    let index = start_index-lt start_tier (c.stakes transcript) recall_up c.ladder h in
    let fits = applied-Fits u transcript c.ladder floor h f in
    let room : length (drop start c.ladder) ≡ length c.ladder - start =
      length-drop start c.ladder in
    elim (run_turn_inner-Ended c u transcript request start_tier recall_up floor) [
      | inl s ↦
          let size : length (s.below ++ s.server ∷ s.above)
              ≡ length s.below + suc (length s.above) =
            length-append s.below (s.server ∷ s.above) in
          let low : start + length s.below < length c.ladder =
            omega (arith, room, size, ap length s.splits, index, fits.1) in
          (
            inl s,
            subst (Fits c.ladder) (sym s.floor_is) (
                raised-Fits c.ladder (start + length s.below) (applied u transcript floor).0 low
                  fits.0),
          )
      | inr (inl s) ↦ (inr s, subst (Fits c.ladder) (sym s.floor_is) fits.0)
      | inr (inr (no_rung, o, k)) ↦ absurd (omega (arith, room, ap length no_rung, index, fits.1))
    ]
