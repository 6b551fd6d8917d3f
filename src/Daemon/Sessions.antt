-- ===== src/Daemon/Sessions.antt =====
-- The boundary of a session in src/daemon.rs: what was said before it.
use wintermute_brain.Cache.{Float}
use wintermute_brain.Config.{Float64, effective_model}
use wintermute_brain.History
use wintermute_brain.History.{History, Turn}
use wintermute_brain.Session.{
  SessionEndPayload, SessionStartPayload, new_session, advance, is_explicit_close,
}
use wintermute_brain.Turn.{Brain, Done, TurnUserEvent, try_say}
use wintermute_brain.Turn.Dispatch.{handle_turn_user}
use wintermute_brain.Turn.Recorded.{Ended, unrecorded, recorded}
use wintermute_brain.Turn.Heard.{handle_turn_user-Ended}
use wintermute_brain.Daemon.{
  DaemonState, Outside, turn_user, consumed, had_pending, turn_config, on_outcome, take_turn,
  dispatch_turn, dispatch,
}
use wintermute_brain.Daemon.Kept.{handle_session_start-Started, ended-Kept}
use wintermute_brain.Prelude.{
  ℕ, ◌≡◌, refl, inl, inr, Option, none, some, Text, All, Bool-cases, ◌==◌,
}

-- Each turn of the history is this turn.
abbrev pub OnlyThis : Text → ℕ → History → Type 0
OnlyThis transcript now_ms h = All (λ (x : Turn). (x.user ≡ transcript) × (x.ts ≡ now_ms)) h.turns

push-OnlyThis :
    (transcript text : Text) (now_ms max_turns : ℕ)
    → OnlyThis transcript now_ms (
        History.push
          (record { user = transcript; assistant = text; ts = now_ms })
          (History.new max_turns))
unfolding History.push History.new
push-OnlyThis transcript text now_ms max_turns = elim (Bool-cases (max_turns == 0)) [
  | inl off ↦ rw off tt
  | inr kept ↦ rw kept ((refl, refl), tt)
]

Ended-OnlyThis :
    {Json : Type 0} {f : Float} (transcript : Text) (now_ms max_turns : ℕ) (b : Brain Json f)
    (out : Brain Json f × Done)
    → b.history ≡ History.new max_turns
    → Ended transcript now_ms b out
    → OnlyThis transcript now_ms out.0.history
unfolding History.new
Ended-OnlyThis transcript now_ms max_turns b out empty (unrecorded new log same heard) =
    rw same (rw empty tt)
Ended-OnlyThis transcript now_ms max_turns b out empty (recorded new text log pushed done told) =
    rw pushed (rw empty (push-OnlyThis transcript text now_ms max_turns))

module _ {Json : Type 0} {f : Float} {g : Float64} where
  abbrev pub with_history : History → DaemonState Json f g → DaemonState Json f g
  with_history h s = record s { brain = record s.brain { history = h } }

  on_outcome-reset :
      (o : Outside Json f g) (closed : Option SessionEndPayload) (opened : SessionStartPayload)
      (now_ms : ℕ) (s : DaemonState Json f g)
      → (on_outcome o (new_session closed opened) now_ms s).brain.history
        ≡ History.new s.config.history_turns
  unfolding on_outcome
  on_outcome-reset o closed opened now_ms s = (handle_session_start-Started o now_ms _).1

  on_outcome-history :
      (o : Outside Json f g) (closed : Option SessionEndPayload) (opened : SessionStartPayload)
      (now_ms : ℕ) (h : History) (s : DaemonState Json f g)
      → on_outcome o (new_session closed opened) now_ms (with_history h s)
        ≡ on_outcome o (new_session closed opened) now_ms s
  unfolding on_outcome try_say
  on_outcome-history o none opened now_ms h s = refl
  on_outcome-history o (some payload) opened now_ms h s = refl

  -- A turn that opens a session: its outcome is the same whatever the history was, all that is published
  -- included; and behind it, whatever the models and the bus do and however it ends, each turn of the
  -- history is this one. With a ladder or a single client.
  pub dispatch-new_session :
      (o : Outside Json f g) (t : TurnUserEvent) (now_ms : ℕ) (h : History)
      (s : DaemonState Json f g) (closed : Option SessionEndPayload) (opened : SessionStartPayload)
      → ¬ ((o.w.ladder ≡ none) × (o.w.llm ≡ none))
      → (advance s.session_tracker now_ms).1 ≡ new_session closed opened
      → (dispatch o (turn_user t) now_ms (with_history h s) ≡ dispatch o (turn_user t) now_ms s)
        × OnlyThis t.transcript now_ms (dispatch o (turn_user t) now_ms s).0.brain.history
  unfolding dispatch dispatch_turn take_turn
  dispatch-new_session o t now_ms h s closed opened client new =
      let begun = record s { session_tracker = (advance s.session_tracker now_ms).0 } in
      let at = on_outcome o (new_session closed opened) now_ms begun in
      let ready = record at { config = consumed g at.config } in
      let turn =
        handle_turn_user o.w (turn_config o ready) at.config.child_lock
          (effective_model g at.config) t now_ms ready.brain in
      (
        rw new (rw (on_outcome-history o closed opened now_ms h begun) refl),
        rw new (
            rw
              (ended-Kept o (had_pending g at.config)
                (is_explicit_close o.w.u s.session_tracker t.transcript) now_ms ready turn).1
              (Ended-OnlyThis t.transcript now_ms begun.config.history_turns ready.brain turn
                (on_outcome-reset o closed opened now_ms begun)
                (handle_turn_user-Ended o.w (turn_config o ready) at.config.child_lock
                  (effective_model g at.config) t now_ms ready.brain client))),
      )
