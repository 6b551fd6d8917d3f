-- ===== src/Gate/Authority.antt =====
-- Every tool call on the bus goes back to a grant of an intent that was waiting.
use mathlib.Core.List.{reverse, reverse-append}
use wintermute_brain.Prelude.Assoc.{lookup}
use wintermute_brain.Prelude.{
  ℕ, ◌≡◌, refl, sym, ap, ◌∙◌, subst, List, [], ◌∷◌, ◌++◌, append-nil, append_assoc, Option, none,
  some, Text, Bool, All, All-map, Bool-cases, inl, inr,
}
use wintermute_brain.Bus.Log.{Appends, publish-Appends, Appends-refl, Appends-trans, Appends-All}
use wintermute_brain.Bus.{
  Event, reply, tool_call, tool_result, ToolCallEvent, ToolResultEvent, ReplyEvent, Sink, publish,
}
use wintermute_brain.Gate.{
  PendingIntent, Intents, Router, args_or, publish_destructive, handle_confirm_granted,
  handle_confirm_denied, redeem, call_tool, cancel, publish_error_at, ConfirmGrantedEvent,
}
use wintermute_brain.Gate.Steps.{
  Step, propose, grant, deny, fresh, quiet, step, run, waiting, Tracks, step-Tracks,
}

-- The steps so far, newest first, hold a grant of an intent that was waiting under its id, and the
-- call is that intent's.
pub record Granted {Json : Type 0} (empty_object : Json) (history : List (Step Json))
    (call : ToolCallEvent Json) : Type 0 where
  pub newer : List (Step Json)
  pub older : List (Step Json)
  pub answer : ConfirmGrantedEvent
  pub now_ms : ℕ
  pub intent : PendingIntent Json
  pub splits : history ≡ newer ++ grant answer now_ms ∷ older
  pub waited : waiting older answer.intent_id ≡ some intent
  pub tool_is : call.tool ≡ intent.intent.intent
  pub args_are : call.args ≡ args_or empty_object intent.intent.args

abbrev pub Justified : {Json : Type 0} → Json → List (Step Json) → Event Json → Type 0
Justified empty_object history (tool_call call) = Granted empty_object history call
Justified empty_object history _ = Unit

Justified-older :
    {Json : Type 0} (empty_object : Json) (history : List (Step Json)) (s : Step Json)
    (e : Event Json)
    → Justified empty_object history e
    → Justified empty_object (s ∷ history) e
Justified-older empty_object history s (tool_call call) g = record {
  newer = s ∷ g.newer;
  older = g.older;
  answer = g.answer;
  now_ms = g.now_ms;
  intent = g.intent;
  splits = ap (◌∷◌ s) g.splits;
  waited = g.waited;
  tool_is = g.tool_is;
  args_are = g.args_are;
}
Justified-older empty_object history s _ g = tt

module _ {Json : Type 0} (empty_object : Json) (router : Router Json) where
  call_tool-Appends :
      (P : Event Json → Type 0) (tool : Text) (args : Json) (now_ms : ℕ) (sink : Sink Json)
      → P (tool_call (record { tool = tool; args = args; ts = now_ms; turn_id = none }))
      → ((r : ToolResultEvent Json) → P (tool_result r))
      → Appends P sink (call_tool router tool args now_ms sink).0
  unfolding call_tool
  call_tool-Appends P tool args now_ms sink p r =
      let call = tool_call (record { tool = tool; args = args; ts = now_ms; turn_id = none }) in
      let (called, sent) = publish call sink in
      elim (Bool-cases (publish call sink).1) [
        | inl ok ↦ rw ok (
            Appends-trans P sink (publish call sink).0 _ (publish-Appends P call sink p)
              (publish-Appends P _ (publish call sink).0 (r _)))
        | inr failed ↦ rw failed (publish-Appends P call sink p)
      ]

  redeem-Appends :
      (found : Option (PendingIntent Json)) (c : ConfirmGrantedEvent) (now_ms : ℕ)
      (sink : Sink Json) (history : List (Step Json))
      → waiting history c.intent_id ≡ found
      → Appends
          (Justified empty_object (grant c now_ms ∷ history))
          sink
          (redeem found empty_object router c now_ms sink).0
  unfolding redeem publish_error_at
  redeem-Appends none c now_ms sink history w = publish-Appends _ _ sink tt
  redeem-Appends (some pi) c now_ms sink history w =
      call_tool-Appends (Justified empty_object (grant c now_ms ∷ history)) pi.intent.intent
        (args_or empty_object pi.intent.args) now_ms sink
        (record {
          newer = [];
          older = history;
          answer = c;
          now_ms = now_ms;
          intent = pi;
          splits = refl;
          waited = w;
          tool_is = refl;
          args_are = refl;
        })
        (λ r. tt)

  cancel-Appends :
      (P : Event Json → Type 0) (found : Option (PendingIntent Json)) (now_ms : ℕ)
      (sink : Sink Json)
      → ((r : ReplyEvent) → P (reply r))
      → Appends P sink (cancel found now_ms sink).0
  unfolding cancel
  cancel-Appends P none now_ms sink p = Appends-refl P sink
  cancel-Appends P (some pi) now_ms sink p = publish-Appends P _ sink (p _)

  step-Appends :
      (s : Step Json) (history : List (Step Json)) (g : Intents Json) (sink : Sink Json)
      → Tracks history g
      → Appends (Justified empty_object (s ∷ history)) sink (step empty_object router s g sink).1
  unfolding step publish_destructive handle_confirm_granted handle_confirm_denied
  step-Appends (propose intent spoken now_ms turn_id) history g sink t = publish-Appends _ _ sink tt
  step-Appends (grant c now_ms) history g sink t =
      redeem-Appends (lookup c.intent_id g.pending) c now_ms sink history
        (sym (t.agrees c.intent_id))
  step-Appends (deny c now_ms) history g sink t =
      cancel-Appends (Justified empty_object (deny c now_ms ∷ history))
        (lookup c.intent_id g.pending) now_ms sink (λ r. tt)

  run-Justified_from :
      (steps history : List (Step Json)) (g : Intents Json) (sink : Sink Json)
      → Tracks history g
      → All (Justified empty_object history) sink.log
      → All
          (Justified empty_object (reverse steps ++ history))
          (run empty_object router steps g sink).1.log
  unfolding run
  run-Justified_from [] history g sink t h = h
  run-Justified_from (s ∷ steps) history g sink t h =
      let (g', sink', ok) = step empty_object router s g sink in
      let later =
        run-Justified_from steps (s ∷ history) g' sink'
          (step-Tracks empty_object router s history g sink t)
          (Appends-All (Justified empty_object (s ∷ history)) (Justified empty_object (s ∷ history))
            sink sink' (λ e p. p) (step-Appends s history g sink t)
            (All-map _ _ sink.log (Justified-older empty_object history s) h)) in
      subst (λ hs. All (Justified empty_object hs) (run empty_object router steps g' sink').1.log)
        (sym (
          ap (λ l. l ++ history) (reverse-append (s ∷ []) steps)
          ∙ append_assoc (reverse steps) (s ∷ []) history))
        later

  -- From a gate with no pending intent and a bus with no events, and for every order of proposals,
  -- grants and denials and every choice of publishes that fail or are rejected: each tool call that
  -- the bus has answered follows a grant whose id was, at that time, the id of an intent proposed and
  -- not yet answered; and the call has that intent's tool and arguments.
  pub run-Justified :
      (steps : List (Step Json)) (accepts rejects : ℕ → Bool)
      → All
          (Justified empty_object (reverse steps))
          (run empty_object router steps fresh (quiet accepts rejects)).1.log
  unfolding lookup
  run-Justified steps accepts rejects =
      subst
        (λ hs.
          All (Justified empty_object hs)
            (run empty_object router steps fresh (quiet accepts rejects)).1.log)
        (append-nil (reverse steps))
        (run-Justified_from steps [] fresh (quiet accepts rejects)
          (record { counter = refl; agrees = λ id. refl }) tt)
