-- ===== src/Turn/Recorded.antt =====
-- What the steps of a turn leave on the bus and in the history.
use mathlib.Core.List.Memᴰ
use mathlib.Core.List.{Memᴰ}
use wintermute_brain.History
use wintermute_brain.Bus.{
  Event, ReplyEvent, ReplyDestructiveEvent, ErrorEvent, reply, reply_destructive, error,
}
use wintermute_brain.Bus.Log.{Adds, Adds-same, Adds-trans, publish-cases}
use wintermute_brain.Cache.{Float}
use wintermute_brain.Prelude.Unicode.{trim, is_empty}
use wintermute_brain.Prelude.{
  ℕ, ◌≡◌, refl, sym, ap, ◌∙◌, ◌⊎◌, inl, inr, subst, List, [], ◌∷◌, ◌++◌, Text, if◌then◌else◌,
}
use wintermute_brain.Turn.{Brain, Done, finished, publish_failed, panicked, and_then, say, try_say}

-- An event that tells the text, and an event for the user at all.
pub data Tells {Json : Type 0} (text : Text) : Event Json → Type 0 where
  by_reply : (e : ReplyEvent) → e.text ≡ text → Tells text (reply e)
  by_proposal :
      (e : ReplyDestructiveEvent Json)
      → e.text ≡ (if is_empty (trim text) then e.summary else text)
      → Tells text (reply_destructive e)

pub data Heard {Json : Type 0} : Event Json → Type 0 where
  heard_reply : (e : ReplyEvent) → Heard (reply e)
  heard_proposal : (e : ReplyDestructiveEvent Json) → Heard (reply_destructive e)
  heard_error : (e : ErrorEvent) → Heard (error e)

unfinished : ¬ (publish_failed ≡ finished)
unfinished e = cc

module _ {Json : Type 0} {f : Float} where
  -- The bus may answer events, and the history stays.
  pub record Quiet (b b' : Brain Json f) : Type 0 where
    pub new : List (Event Json)
    pub adds : Adds b.sink b'.sink new
    pub history_is : b'.history ≡ b.history

  -- The end of a turn. Either the history stays, and the bus has answered an event for the user unless the
  -- turn fails; or the turn succeeds, and the history has one more turn, with a text of such an event.
  pub data Ended (transcript : Text) (now_ms : ℕ) (b : Brain Json f) (out : Brain Json f × Done)
      : Type 0 where
    unrecorded :
        (new : List (Event Json))
        → Adds b.sink out.0.sink new
        → out.0.history ≡ b.history
        → (out.1 ≡ finished → (e : Event Json) × Memᴰ e new × Heard e)
        → Ended transcript now_ms b out
    recorded :
        (new : List (Event Json)) (text : Text)
        → Adds b.sink out.0.sink new
        → out.0.history
          ≡ History.push (record { user = transcript; assistant = text; ts = now_ms }) b.history
        → out.1 ≡ finished
        → (e : Event Json) × Memᴰ e new × Tells text e
        → Ended transcript now_ms b out

  pub Quiet-refl : (b : Brain Json f) → Quiet b b
  Quiet-refl b = record { new = []; adds = Adds-same b.sink b.sink refl; history_is = refl }

  pub Quiet-trans : (a b c : Brain Json f) → Quiet a b → Quiet b c → Quiet a c
  Quiet-trans a b c q r = record {
    new = q.new ++ r.new;
    adds = Adds-trans a.sink b.sink c.sink q.new r.new q.adds r.adds;
    history_is = r.history_is ∙ q.history_is;
  }

  -- A publish succeeds and the bus has answered the event, or it fails and there is none.
  pub say-cases :
      (e : Event Json) (b : Brain Json f)
      → ((say e b).1 ≡ finished) × Adds b.sink (say e b).0.sink (e ∷ [])
        ⊎ ((say e b).1 ≡ publish_failed) × Adds b.sink (say e b).0.sink []
  unfolding say
  say-cases e b = elim (publish-cases e b.sink) [
    | inl (yes', adds) ↦ inl (rw yes' refl, adds)
    | inr (no', adds) ↦ inr (rw no' refl, adds)
  ]

  pub say-history : (e : Event Json) (b : Brain Json f) → (say e b).0.history ≡ b.history
  unfolding say
  say-history e b = refl

  pub say-Quiet : (e : Event Json) (b : Brain Json f) → Quiet b (say e b).0
  say-Quiet e b = elim (say-cases e b) [
    | inl (done, log) ↦ record { new = e ∷ []; adds = log; history_is = say-history e b }
    | inr (done, log) ↦ record { new = []; adds = log; history_is = say-history e b }
  ]

  pub try_say-Quiet : (e : Event Json) (b : Brain Json f) → Quiet b (try_say e b)
  unfolding try_say say
  try_say-Quiet e b = say-Quiet e b

  pub Quiet-Ended :
      (transcript : Text) (now_ms : ℕ) (a b : Brain Json f) (out : Brain Json f × Done)
      → Quiet a b
      → Ended transcript now_ms b out
      → Ended transcript now_ms a out
  Quiet-Ended transcript now_ms a b out q (unrecorded new log same heard) =
      unrecorded (q.new ++ new) (Adds-trans a.sink b.sink out.0.sink q.new new q.adds log)
        (same ∙ q.history_is) (λ d. let (e, m, h) = heard d in (e, Memᴰ.append_right q.new m, h))
  Quiet-Ended transcript now_ms a b out q (recorded new text log pushed d (e, m, told)) =
      recorded (q.new ++ new) text (Adds-trans a.sink b.sink out.0.sink q.new new q.adds log)
        (pushed
          ∙ ap (History.push (record { user = transcript; assistant = text; ts = now_ms }))
              q.history_is)
        d (e, Memᴰ.append_right q.new m, told)

  -- A step whose failure ends the turn, and the rest of it.
  pub and_then-Ended :
      (transcript : Text) (now_ms : ℕ) (b : Brain Json f) (r : Brain Json f × Done)
      (rest : Brain Json f → Brain Json f × Done)
      → Quiet b r.0
      → (r.1 ≡ finished → Ended transcript now_ms b (rest r.0))
      → Ended transcript now_ms b (and_then r rest)
  and_then-Ended transcript now_ms b (b', finished) rest q k = k refl
  and_then-Ended transcript now_ms b (b', publish_failed) rest q k =
      unrecorded q.new q.adds q.history_is (λ d. cc)
  and_then-Ended transcript now_ms b (b', panicked) rest q k =
      unrecorded q.new q.adds q.history_is (λ d. cc)

  -- A last publish that the user hears.
  pub say-Heard :
      (transcript : Text) (now_ms : ℕ) (e : Event Json) (b : Brain Json f)
      → Heard e
      → Ended transcript now_ms b (say e b)
  say-Heard transcript now_ms e b heard = elim (say-cases e b) [
    | inl (done, log) ↦ unrecorded (e ∷ []) log (say-history e b) (λ d. (e, Memᴰ.head refl, heard))
    | inr (failed, log) ↦
        unrecorded [] log (say-history e b) (λ d. absurd (unfinished (sym failed ∙ d)))
  ]

  -- A last publish that the user hears, with steps behind it that leave the history.
  pub say-unrecorded :
      (transcript : Text) (now_ms : ℕ) (e : Event Json) (b : Brain Json f)
      (rest : Brain Json f → Brain Json f × Done)
      → Heard e
      → ((c : Brain Json f) → Quiet c (rest c).0)
      → Ended transcript now_ms b (and_then (say e b) rest)
  say-unrecorded transcript now_ms e b rest heard quiet =
      and_then-Ended transcript now_ms b (say e b) rest (say-Quiet e b) (λ d. elim (say-cases e b) [
        | inr (failed, log) ↦ absurd (unfinished (sym failed ∙ d))
        | inl (done, log) ↦
            let q = quiet (say e b).0 in
            unrecorded ((e ∷ []) ++ q.new)
              (Adds-trans b.sink (say e b).0.sink _ (e ∷ []) q.new log q.adds)
              (q.history_is ∙ say-history e b) (λ d'. (e, Memᴰ.head refl, heard))
      ])

  -- A last publish that tells the text, with steps behind it that put the turn in the history.
  pub say-recorded :
      (transcript : Text) (now_ms : ℕ) (text : Text) (e : Event Json) (b : Brain Json f)
      (rest : Brain Json f → Brain Json f)
      → Tells text e
      → ((c : Brain Json f) → (rest c).sink ≡ c.sink)
      → ((c : Brain Json f)
          → (rest c).history
            ≡ History.push (record { user = transcript; assistant = text; ts = now_ms }) c.history)
      → Ended transcript now_ms b (and_then (say e b) (λ c. (rest c, finished)))
  say-recorded transcript now_ms text e b rest told same history_of =
      and_then-Ended transcript now_ms b (say e b) (λ c. (rest c, finished)) (say-Quiet e b)
        (λ d. elim (say-cases e b) [
          | inr (failed, log) ↦ absurd (unfinished (sym failed ∙ d))
          | inl (done, log) ↦
              recorded (e ∷ []) text
                (subst (λ s. Adds b.sink s (e ∷ [])) (sym (same (say e b).0)) log)
                (history_of (say e b).0
                  ∙ ap (History.push (record { user = transcript; assistant = text; ts = now_ms }))
                      (say-history e b))
                refl (e, Memᴰ.head refl, told)
        ])
