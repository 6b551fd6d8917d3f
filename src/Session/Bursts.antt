-- ===== src/Session/Bursts.antt =====
-- What the tracker infers from the times of the turns, against an independent description: the
-- turns fall into bursts, and each burst is one session.
use wintermute_brain.Prelude.{
  ℕ, ◌+◌, min, ◌≡◌, refl, sym, ap, ◌∙◌, true, false, List, [], ◌∷◌, map, none, some, arith, length,
  leb, if◌then◌else◌, Text, u32_max, saturating_add, saturating_sub, Bool-cases, inl, inr,
}
use wintermute_brain.Session.{
  idle, Session, SessionStartPayload, SessionEndPayload, AdvanceOutcome, new_session, extended,
  SessionTracker, session_id_for, end_payload, opened_at, extended_at, advance,
}

-- A burst of turns: the time of its first turn, and those of the later ones.
pub record Burst : Type 0 where
  pub first : ℕ
  pub later : List ℕ

-- Put a turn in front of bursts: it joins the next burst when the gap is small enough.
abbrev join : ℕ → ℕ → List Burst → List Burst
join gap t [] = record { first = t; later = [] } ∷ []
join gap t (b ∷ bs) =
    if leb (saturating_sub b.first t) gap
    then record { first = t; later = b.first ∷ b.later } ∷ bs
    else record { first = t; later = [] } ∷ b ∷ bs

-- The bursts of a list of times, read from its end.
abbrev pub bursts : ℕ → List ℕ → List Burst
bursts gap [] = []
bursts gap (t ∷ ts) = join gap t (bursts gap ts)

abbrev pub start_of : Burst → SessionStartPayload
start_of b = record { session_id = session_id_for b.first; ts = b.first }

abbrev pub turns_of : Burst → ℕ
turns_of b = min (1 + length b.later) u32_max

-- A burst ends, as a session, at the first turn of the next burst. The last one stays open.
abbrev pub idle_ends : List Burst → List SessionEndPayload
idle_ends [] = []
idle_ends (b ∷ []) = []
idle_ends (b ∷ c ∷ bs) =
    record {
      session_id = session_id_for b.first;
      ts = c.first;
      turn_count = turns_of b;
      reason = idle;
    }
    ∷ idle_ends (c ∷ bs)

-- The calls of `advance`, one for each turn.
unfoldable pub advance_all : SessionTracker → List ℕ → SessionTracker × List AdvanceOutcome
advance_all t [] = (t, [])
advance_all t (now ∷ later) =
    let (t', out) = advance t now in let (last, outs) = advance_all t' later in (last, out ∷ outs)

abbrev pub started : List AdvanceOutcome → List SessionStartPayload
started [] = []
started (new_session closed opened ∷ outs) = opened ∷ started outs
started (extended ∷ outs) = started outs

abbrev pub ended : List AdvanceOutcome → List SessionEndPayload
ended [] = []
ended (new_session none opened ∷ outs) = ended outs
ended (new_session (some closed) opened ∷ outs) = closed ∷ ended outs
ended (extended ∷ outs) = ended outs

-- The ends that follow for an open session with the given id and count, before the given bursts.
abbrev close_before : Text → ℕ → List Burst → List SessionEndPayload
close_before id n [] = []
close_before id n (c ∷ cs) =
    record { session_id = id; ts = c.first; turn_count = n; reason = idle } ∷ idle_ends (c ∷ cs)

-- The same for the bursts of the turns to come, the first of which may continue the session.
abbrev absorb : ℕ → Text → ℕ → ℕ → List Burst → List SessionEndPayload
absorb gap id last n [] = []
absorb gap id last n (b ∷ bs) =
    if leb (saturating_sub b.first last) gap
    then close_before id (saturating_add u32_max n (1 + length b.later)) bs
    else close_before id n (b ∷ bs)

abbrev absorb_starts : ℕ → ℕ → List Burst → List SessionStartPayload
absorb_starts gap last [] = []
absorb_starts gap last (b ∷ bs) =
    if leb (saturating_sub b.first last) gap then map start_of bs else map start_of (b ∷ bs)

absorb-join_near :
    (gap : ℕ) (id : Text) (last n now : ℕ) (bs : List Burst)
    → leb (saturating_sub now last) gap ≡ true
    → absorb gap id now (saturating_add u32_max n 1) bs ≡ absorb gap id last n (join gap now bs)
absorb-join_near gap id last n now [] h = rw h
absorb-join_near gap id last n now (b ∷ bs) h =
    elim (Bool-cases (leb (saturating_sub b.first now) gap)) [
      | inl near ↦ rw near (rw h (ap (λ k. close_before id k bs) (omega arith)))
      | inr far ↦ rw far (rw h refl)
    ]

idle_ends-cons :
    (b : Burst) (bs : List Burst)
    → idle_ends (b ∷ bs) ≡ close_before (session_id_for b.first) (turns_of b) bs
idle_ends-cons b [] = refl
idle_ends-cons b (c ∷ bs) = refl

absorb-fresh :
    (gap now : ℕ) (bs : List Burst)
    → absorb gap (session_id_for now) now 1 bs ≡ idle_ends (join gap now bs)
absorb-fresh gap now [] = refl
absorb-fresh gap now (b ∷ bs) = elim (Bool-cases (leb (saturating_sub b.first now) gap)) [
  | inl near ↦ rw near (
      ap (λ k. close_before (session_id_for now) k bs) (omega arith)
      ∙ sym (idle_ends-cons (record { first = now; later = b.first ∷ b.later }) bs))
  | inr far ↦ rw far refl
]

absorb-join_far :
    (gap : ℕ) (id : Text) (last n now : ℕ) (bs : List Burst)
    → leb (saturating_sub now last) gap ≡ false
    → absorb gap id last n (join gap now bs)
      ≡ record { session_id = id; ts = now; turn_count = n; reason = idle }
        ∷ idle_ends (join gap now bs)
absorb-join_far gap id last n now [] h = rw h
absorb-join_far gap id last n now (b ∷ bs) h =
    elim (Bool-cases (leb (saturating_sub b.first now) gap)) [
      | inl near ↦ rw near (rw h refl)
      | inr far ↦ rw far (rw h refl)
    ]

absorb_starts-join_near :
    (gap last now : ℕ) (bs : List Burst)
    → leb (saturating_sub now last) gap ≡ true
    → absorb_starts gap now bs ≡ absorb_starts gap last (join gap now bs)
absorb_starts-join_near gap last now [] h = rw h
absorb_starts-join_near gap last now (b ∷ bs) h =
    elim (Bool-cases (leb (saturating_sub b.first now) gap)) [
      | inl near ↦ rw near (rw h refl)
      | inr far ↦ rw far (rw h refl)
    ]

starts-fresh :
    (gap now : ℕ) (bs : List Burst)
    → record { session_id = session_id_for now; ts = now } ∷ absorb_starts gap now bs
      ≡ map start_of (join gap now bs)
starts-fresh gap now [] = refl
starts-fresh gap now (b ∷ bs) = elim (Bool-cases (leb (saturating_sub b.first now) gap)) [
  | inl near ↦ rw near refl
  | inr far ↦ rw far refl
]

absorb_starts-join_far :
    (gap last now : ℕ) (bs : List Burst)
    → leb (saturating_sub now last) gap ≡ false
    → record { session_id = session_id_for now; ts = now } ∷ absorb_starts gap now bs
      ≡ absorb_starts gap last (join gap now bs)
absorb_starts-join_far gap last now [] h = rw h
absorb_starts-join_far gap last now (b ∷ bs) h =
    elim (Bool-cases (leb (saturating_sub b.first now) gap)) [
      | inl near ↦ rw near (rw h refl)
      | inr far ↦ rw far (rw h refl)
    ]

-- With a session open, the later turns close it and the later bursts as `absorb` says.
ended-advance_all :
    (ts : List ℕ) (t : SessionTracker) (s : Session)
    → t.current ≡ some s
    → ended (advance_all t ts).1
      ≡ absorb t.idle_gap_ms s.id s.last_turn_ms s.turn_count (bursts t.idle_gap_ms ts)
unfolding advance_all advance
ended-advance_all [] t s e = refl
ended-advance_all (now ∷ later) t s e =
    elim (Bool-cases (leb (saturating_sub now s.last_turn_ms) t.idle_gap_ms)) [
      | inl near ↦
          rw (e, near)
            (ended-advance_all later (record t { current = some (extended_at now s) })
                (extended_at now s) refl
              ∙ absorb-join_near t.idle_gap_ms s.id s.last_turn_ms s.turn_count now
                  (bursts t.idle_gap_ms later) near)
      | inr far ↦
          rw (e, far)
            (ap (◌∷◌ (end_payload now idle s)) (
                ended-advance_all later (record t { current = some (opened_at now) })
                  (opened_at now) refl
                ∙ absorb-fresh t.idle_gap_ms now (bursts t.idle_gap_ms later))
              ∙ sym (
                  absorb-join_far t.idle_gap_ms s.id s.last_turn_ms s.turn_count now
                    (bursts t.idle_gap_ms later) far))
    ]

-- The starts of the sessions that follow an open one.
started-advance_all :
    (ts : List ℕ) (t : SessionTracker) (s : Session)
    → t.current ≡ some s
    → started (advance_all t ts).1
      ≡ absorb_starts t.idle_gap_ms s.last_turn_ms (bursts t.idle_gap_ms ts)
unfolding advance_all advance
started-advance_all [] t s e = refl
started-advance_all (now ∷ later) t s e =
    elim (Bool-cases (leb (saturating_sub now s.last_turn_ms) t.idle_gap_ms)) [
      | inl near ↦
          rw (e, near)
            (started-advance_all later (record t { current = some (extended_at now s) })
                (extended_at now s) refl
              ∙ absorb_starts-join_near t.idle_gap_ms s.last_turn_ms now
                  (bursts t.idle_gap_ms later) near)
      | inr far ↦
          rw (e, far)
            (ap (◌∷◌ (record { session_id = session_id_for now; ts = now })) (
                started-advance_all later (record t { current = some (opened_at now) })
                  (opened_at now) refl)
              ∙ absorb_starts-join_far t.idle_gap_ms s.last_turn_ms now (bursts t.idle_gap_ms later)
                  far)
    ]

-- From a tracker with no open session, the sessions opened are exactly the bursts of the turns, each
-- at its first turn; and those closed are all bursts but the last, each at the first turn of the
-- next, with its number of turns (at most `u32::MAX`) and reason `idle`.
pub advance_all-bursts :
    (t : SessionTracker) (ts : List ℕ)
    → t.current ≡ none
    → (started (advance_all t ts).1 ≡ map start_of (bursts t.idle_gap_ms ts))
      × (ended (advance_all t ts).1 ≡ idle_ends (bursts t.idle_gap_ms ts))
unfolding advance_all advance
advance_all-bursts t [] e = (refl, refl)
advance_all-bursts t (now ∷ later) e = (
  rw e (
      ap (◌∷◌ (record { session_id = session_id_for now; ts = now })) (
        started-advance_all later (record t { current = some (opened_at now) }) (opened_at now)
          refl)
      ∙ starts-fresh t.idle_gap_ms now (bursts t.idle_gap_ms later)),
  rw e (
      ended-advance_all later (record t { current = some (opened_at now) }) (opened_at now) refl
      ∙ absorb-fresh t.idle_gap_ms now (bursts t.idle_gap_ms later)),
)
