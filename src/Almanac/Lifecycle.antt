-- ===== src/Almanac/Lifecycle.antt =====
-- How long one reminder can go on.
use wintermute_brain.Prelude.Unicode.{Unicode}
use wintermute_brain.Prelude.{
  ℕ, suc, ◌+◌, ◌-◌, ◌*◌, ◌≤◌, ◌≡◌, refl, Bool, true, false, List, [], ◌∷◌, Option, none, some, Text,
  codes, if◌then◌else◌, arith, leb, saturating_add, Bool-cases, inl, inr, u64_max,
}
use wintermute_brain.Bus.{Event, Sink}
use wintermute_brain.Almanac.{
  AckClass, done, snooze, unrelated, AlmanacEntryConfig, PendingAck, within_window,
  classify_ack_response, Reminders, Handled, ack_event, snooze_event, publish_then_true,
  publish_both, answer, stt_final, first_elapse, tick_timeout, handle_stt_final_for_ack,
  tick_almanac_timeout, handle_almanac_due, snoozed,
}

-- What may still happen to a reminder: two more events for each snooze left, one for the re-ask, and
-- the last one.
abbrev pub events_left : Option PendingAck → ℕ
events_left none = 0
events_left (some p) = 2 * (p.config.max_snoozes - p.snoozes_used) + (if p.re_asked then 1 else 2)

abbrev pub fired : Option Bool → ℕ
fired (some true) = 1
fired _ = 0

module _ {Json : Type 0} where
  Spends : Option PendingAck → Handled Json → Type 0
  Spends before h = fired h.2 + events_left h.0.pending_ack ≤ events_left before

  publish_then_true-Spends :
      (e : Event Json) (r : Reminders) (sink : Sink Json) (before : Option PendingAck)
      → suc (events_left r.pending_ack) ≤ events_left before
      → Spends before (publish_then_true e r sink)
  unfolding Spends publish_then_true
  publish_then_true-Spends e r sink before h = ground arith

  publish_then_true-once :
      (e : Event Json) (r : Reminders) (sink : Sink Json) (left : ℕ)
      → r.pending_ack ≡ none
      → fired (publish_then_true e r sink).2
          + events_left (publish_then_true e r sink).0.pending_ack
        ≤ left + 1
  unfolding publish_then_true
  publish_then_true-once e r sink left h = rw h (ground arith)

  publish_both-Spends :
      (e f : Event Json) (r : Reminders) (sink : Sink Json) (before : Option PendingAck)
      → suc (events_left r.pending_ack) ≤ events_left before
      → Spends before (publish_both e f r sink)
  unfolding Spends publish_both publish_then_true
  publish_both-Spends e f r sink before h = ground arith

  answer-Spends :
      (c : AckClass) (p : PendingAck) (now_ms : ℕ) (r : Reminders) (sink : Sink Json)
      → r.pending_ack ≡ some p
      → Spends (some p) (answer c p now_ms r sink)
  unfolding Spends answer
  answer-Spends done p now_ms r sink e =
      publish_then_true-Spends (ack_event p.id (codes "done") now_ms)
        (record r { pending_ack = none }) sink (some p) (ground arith)
  answer-Spends snooze p now_ms r sink e =
      elim (Bool-cases (leb p.config.max_snoozes p.snoozes_used)) [
        | inl out ↦ rw out (
            publish_then_true-Spends (ack_event p.id (codes "missed") now_ms)
              (record r { pending_ack = none }) sink (some p) (ground arith))
        | inr free ↦ rw free (
            publish_both-Spends (ack_event p.id (codes "snoozed") now_ms)
              (snooze_event p.id (saturating_add u64_max now_ms p.config.snooze_ms) now_ms)
              (record r { pending_ack = some (snoozed now_ms p) }) sink (some p) (ground arith))
      ]
  answer-Spends unrelated p now_ms r sink e = rw e (omega arith)

  stt_final-Spends :
      (u : Unicode) (transcript : Text) (now_ms : ℕ) (pending : Option PendingAck) (r : Reminders)
      (sink : Sink Json)
      → r.pending_ack ≡ pending
      → Spends pending (stt_final pending u transcript now_ms r sink)
  unfolding stt_final Spends
  stt_final-Spends u transcript now_ms none r sink e = rw e (omega arith)
  stt_final-Spends u transcript now_ms (some p) r sink e =
      elim (Bool-cases (within_window now_ms r.almanac_patience_ms p)) [
        | inl within ↦
            rw within (answer-Spends (classify_ack_response u transcript) p now_ms r sink e)
        | inr late ↦ rw late (rw e (omega arith))
      ]

  first_elapse-Spends :
      (p : PendingAck) (now_ms : ℕ) (r : Reminders) (sink : Sink Json)
      → r.pending_ack ≡ some p
      → p.re_asked ≡ false
      → fired (first_elapse p now_ms r sink).2
          + events_left (first_elapse p now_ms r sink).0.pending_ack
        ≤ 2 * (p.config.max_snoozes - p.snoozes_used) + 2
  unfolding first_elapse
  first_elapse-Spends p now_ms r sink e new = ground arith

  tick_timeout-Spends :
      (now_ms : ℕ) (pending : Option PendingAck) (r : Reminders) (sink : Sink Json)
      → r.pending_ack ≡ pending
      → Spends pending (tick_timeout pending now_ms r sink)
  unfolding tick_timeout Spends
  tick_timeout-Spends now_ms none r sink e = rw e (omega arith)
  tick_timeout-Spends now_ms (some p) r sink e =
      elim (Bool-cases (within_window now_ms r.almanac_patience_ms p)) [
        | inl within ↦ rw (within, e) (omega arith)
        | inr late ↦ elim (Bool-cases p.re_asked) [
          | inl again ↦
              rw (late, again)
                (publish_then_true-once (ack_event p.id (codes "missed") now_ms)
                  (record r { pending_ack = none }) sink
                  (2 * (p.config.max_snoozes - p.snoozes_used)) refl)
          | inr new ↦ rw (late, new) (first_elapse-Spends p now_ms r sink e new)
        ]
      ]

-- What the daemon hands to the two handlers: a final transcript, or a tick.
pub data Input : Type 0 where
  heard : (transcript : Text) (now_ms : ℕ) → Input
  ticked : (now_ms : ℕ) → Input

module _ {Json : Type 0} (u : Unicode) where
  abbrev pub handle : Input → Reminders → Sink Json → Handled Json
  handle (heard transcript now_ms) r sink = handle_stt_final_for_ack u transcript now_ms r sink
  handle (ticked now_ms) r sink = tick_almanac_timeout now_ms r sink

  -- How many of the inputs a handler answers with `Ok(true)`.
  unfoldable pub fired_in : List Input → Reminders → Sink Json → ℕ
  fired_in [] r sink = 0
  fired_in (i ∷ later) r sink =
      let (r', sink', result) = handle i r sink in fired result + fired_in later r' sink'

  handle-Spends :
      (i : Input) (r : Reminders) (sink : Sink Json) → Spends r.pending_ack (handle i r sink)
  unfolding handle_stt_final_for_ack tick_almanac_timeout
  handle-Spends (heard transcript now_ms) r sink =
      stt_final-Spends u transcript now_ms r.pending_ack r sink refl
  handle-Spends (ticked now_ms) r sink = tick_timeout-Spends now_ms r.pending_ack r sink refl

  fired_in-bounded :
      (is : List Input) (r : Reminders) (sink : Sink Json)
      → fired_in is r sink ≤ events_left r.pending_ack
  unfolding fired_in Spends
  fired_in-bounded [] r sink = omega arith
  fired_in-bounded (i ∷ later) r sink =
      let h = handle i r sink in
      let rest = fired_in-bounded later h.0 h.1 in let first = handle-Spends i r sink in omega arith

  -- After a reminder is due, whatever the transcripts, the ticks, their times and the failures of the
  -- bus, the handlers answer at most `2 * max_snoozes + 2` of them with `Ok(true)`.
  pub fired_in-handle_almanac_due :
      (is : List Input) (id category : Text) (config : AlmanacEntryConfig) (now_ms : ℕ)
      (r : Reminders) (sink : Sink Json)
      → fired_in is (handle_almanac_due id category config now_ms r) sink
        ≤ 2 * config.max_snoozes + 2
  unfolding handle_almanac_due
  fired_in-handle_almanac_due is id category config now_ms r sink =
      let bound = fired_in-bounded is (handle_almanac_due id category config now_ms r) sink in
      omega arith
