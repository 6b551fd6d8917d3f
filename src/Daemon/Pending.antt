-- ===== src/Daemon/Pending.antt =====
-- The pending choices of the configuration over the turns of src/daemon.rs.
use wintermute_brain.Cache.{Float}
use wintermute_brain.Config.{
  Float64, Config, effective_model, consume_pending, consume_pending_tier,
}
use wintermute_brain.Session.{
  SessionTracker, AdvanceOutcome, new_session, extended, advance, close, explicit,
  is_explicit_close,
}
use wintermute_brain.Turn.{Brain, TurnUserEvent, Done, finished, publish_failed, panicked}
use wintermute_brain.Prelude.Paths.{PathBuf}
use wintermute_brain.Config.Files.{Saved, save_to_file}
use wintermute_brain.Turn.Dispatch.{handle_turn_user}
use wintermute_brain.Daemon.Kept.{on_outcome-config, ended-Kept}
use wintermute_brain.Daemon.{
  turn_config, DaemonState, Outside, consumed, had_pending, on_outcome, opener, recapped,
  format_recap_context, threads, handle_session_start, take_turn, dispatch_turn, dispatch,
  turn_user, behind_turn, persist_after_pending_consume, close_explicit, persist_at, saved_disk,
  ended, quietly, say_end,
}
use wintermute_brain.Prompts.{QueryHit}
use wintermute_brain.Prelude.Unicode.{trim, is_empty}
use wintermute_brain.Prelude.{
  ℕ, ◌≡◌, refl, sym, Bool, true, false, Option, none, some, Text, List, [], ◌∷◌, ◌+◌, ◌==◌, not,
  ◌&&◌, take, Bool-cases, inl, inr, ap, ◌∙◌, if◌then◌else◌,
}

consumed-none :
    (g : Float64) (c : Config g)
    → ((consumed g c).pending_model ≡ none)
      × ((consumed g c).pending_tier ≡ none)
      × (effective_model g (consumed g c) ≡ c.default_model)
unfolding consumed consume_pending consume_pending_tier effective_model
consumed-none g c = (refl, refl, refl)

module _ {Json : Type 0} {f : Float} {g : Float64} where
  -- The state with these pending choices.
  abbrev pub pending_in : Option Text → Option Text → DaemonState Json f g → DaemonState Json f g
  pending_in model tier s = record s {
    config = record s.config { pending_model = model; pending_tier = tier };
  }

  -- The state with these pending choices and this default model.
  abbrev pub chosen : Option Text → Option Text → Text → DaemonState Json f g → DaemonState Json f g
  chosen model tier default s = record s {
    config = record s.config {
      pending_model = model;
      pending_tier = tier;
      default_model = default;
    };
  }

  module _ (o : Outside Json f g) (now_ms : ℕ) (model tier : Option Text) (default : Text) where
    opener-chosen :
        (recap : Option Text) (hits : List QueryHit) (s : DaemonState Json f g)
        → (opener recap hits now_ms (chosen model tier default s)).0
          ≡ chosen model tier default (opener recap hits now_ms s).0
    unfolding opener
    opener-chosen none hits s = refl
    opener-chosen (some context) [] s = refl
    opener-chosen (some context) (h ∷ hs) s =
        elim (Bool-cases (s.config.recap_opener && not (is_empty (trim h.snippet)))) [
          | inl opens ↦ rw opens refl
          | inr silent ↦ rw silent refl
        ]

    recapped-chosen :
        (recap_max : ℕ) (found : Option (List QueryHit)) (s : DaemonState Json f g)
        → (recapped recap_max found now_ms (chosen model tier default s)).0
          ≡ chosen model tier default (recapped recap_max found now_ms s).0
    unfolding recapped
    recapped-chosen recap_max none s = refl
    recapped-chosen recap_max (some hits) s =
        opener-chosen (format_recap_context (take recap_max (threads hits)))
          (take recap_max (threads hits))
          (record s { recap_context = format_recap_context (take recap_max (threads hits)) })

    handle_session_start-chosen :
        (s : DaemonState Json f g)
        → (handle_session_start o now_ms (chosen model tier default s)).0
          ≡ chosen model tier default (handle_session_start o now_ms s).0
    unfolding handle_session_start
    handle_session_start-chosen s = elim (Bool-cases (s.config.recap_max_memories == 0)) [
      | inl none' ↦ rw none' refl
      | inr some' ↦ rw some' (
          recapped-chosen s.config.recap_max_memories (o.search s.config.recap_max_memories)
            (record s { session_thread_query_count = s.session_thread_query_count + 1 }))
    ]

    on_outcome-chosen :
        (outcome : AdvanceOutcome) (s : DaemonState Json f g)
        → on_outcome o outcome now_ms (chosen model tier default s)
          ≡ chosen model tier default (on_outcome o outcome now_ms s)
    unfolding on_outcome
    on_outcome-chosen extended s = refl
    on_outcome-chosen (new_session closed opened) s = handle_session_start-chosen _

  saved_disk-brain :
      (s : DaemonState Json f g) (saved : Saved)
      → ((saved_disk s saved).brain ≡ s.brain)
        × ((saved_disk s saved).session_tracker ≡ s.session_tracker)
  saved_disk-brain s (r, ds) = (refl, refl)

  persist_at-brain :
      (o : Outside Json f g) (path : Option PathBuf) (s : DaemonState Json f g)
      → ((persist_at o path s).brain ≡ s.brain)
        × ((persist_at o path s).session_tracker ≡ s.session_tracker)
  unfolding persist_at
  persist_at-brain o none s = (refl, refl)
  persist_at-brain o (some path) s =
      saved_disk-brain s (save_to_file g o.toml o.calls path s.disk s.config)

  take_turn-config :
      (o : Outside Json f g) (explicit_close : Bool) (t : TurnUserEvent) (now_ms : ℕ)
      (s : DaemonState Json f g)
      → (take_turn o explicit_close t now_ms s).0.config ≡ consumed g s.config
  unfolding take_turn
  take_turn-config o explicit_close t now_ms s =
      let s' = record s { config = consumed g s.config } in
      (ended-Kept o (had_pending g s.config) explicit_close now_ms s' (
        handle_turn_user o.w (turn_config o s') s.config.child_lock (effective_model g s.config) t
          now_ms s'.brain)).0

  behind_turn-brain :
      (o : Outside Json f g) (persists closes : Bool) (now_ms : ℕ) (s : DaemonState Json f g)
      → (behind_turn o persists closes now_ms s).brain
        ≡ (if closes then say_end (close s.session_tracker now_ms explicit).1 s.brain else s.brain)
  unfolding behind_turn persist_after_pending_consume close_explicit
  behind_turn-brain o false true now_ms s = refl
  behind_turn-brain o false false now_ms s = refl
  behind_turn-brain o true true now_ms s =
      let (brain, tracker) = persist_at-brain o s.config_path s in rw (brain, tracker) refl
  behind_turn-brain o true false now_ms s = (persist_at-brain o s.config_path s).0

  -- How a turn ends and what it leaves apart from the configuration and the file.
  abbrev pub SameTurn : (r r' : DaemonState Json f g × Done) → Type 0
  SameTurn r r' = (r.0.brain ≡ r'.0.brain) × (r.1 ≡ r'.1)

  ended-SameTurn :
      (o : Outside Json f g) (persists persists' closes : Bool) (now_ms : ℕ)
      (s s' : DaemonState Json f g) (r : Brain Json f × Done)
      → s.session_tracker ≡ s'.session_tracker
      → SameTurn (ended o persists closes now_ms s r) (ended o persists' closes now_ms s' r)
  ended-SameTurn o persists persists' closes now_ms s s' (b, finished) same = (
    behind_turn-brain o persists closes now_ms (quietly b s)
        ∙ ap (λ (x : SessionTracker). if closes then say_end (close x now_ms explicit).1 b else b)
            same
        ∙ sym (behind_turn-brain o persists' closes now_ms (quietly b s')),
    refl,
  )
  ended-SameTurn o persists persists' closes now_ms s s' (b, publish_failed) same = (refl, refl)
  ended-SameTurn o persists persists' closes now_ms s s' (b, panicked) same = (refl, refl)

  take_turn-tier :
      (o : Outside Json f g) (explicit_close : Bool) (t : TurnUserEvent) (now_ms : ℕ)
      (model default : Text) (tier : Option Text) (s : DaemonState Json f g)
      → take_turn o explicit_close t now_ms (chosen (some model) tier default s)
        ≡ take_turn o explicit_close t now_ms (chosen (some model) none default s)
  unfolding take_turn consumed consume_pending consume_pending_tier had_pending effective_model
  take_turn-tier o explicit_close t now_ms model default tier s = refl

  take_turn-model :
      (o : Outside Json f g) (explicit_close : Bool) (t : TurnUserEvent) (now_ms : ℕ)
      (model default : Text) (tier : Option Text) (s : DaemonState Json f g)
      → SameTurn
          (take_turn o explicit_close t now_ms (chosen (some model) tier default s))
          (take_turn o explicit_close t now_ms (chosen none none model s))
  unfolding take_turn consumed consume_pending consume_pending_tier had_pending effective_model
      turn_config
  take_turn-model o explicit_close t now_ms model default tier s =
      let c = consumed g (chosen none none model s).config in
      ended-SameTurn o true false explicit_close now_ms
        (record s { config = consumed g (chosen (some model) tier default s).config })
        (record s { config = c })
        (handle_turn_user o.w (turn_config o (record s { config = c })) s.config.child_lock model t
          now_ms s.brain)
        refl

  -- Whatever a turn meets and however it ends: no choice is pending behind it, and the model is the default
  -- one again. The model that is pending is the choice of this one turn: the turn ends as it would with
  -- that model as the default and nothing pending, and leaves the same bus, history, session floor, cache,
  -- intents and writeback. A tier that is pending with it has no effect: neither on what is published,
  -- nor on the state or the file, nor on how the turn ends.
  pub dispatch-pending :
      (o : Outside Json f g) (t : TurnUserEvent) (now_ms : ℕ) (model : Text) (tier : Option Text)
      (s : DaemonState Json f g)
      → ((dispatch o (turn_user t) now_ms s).0.config.pending_model ≡ none)
        × ((dispatch o (turn_user t) now_ms s).0.config.pending_tier ≡ none)
        × (effective_model g (dispatch o (turn_user t) now_ms s).0.config ≡ s.config.default_model)
        × SameTurn
            (dispatch o (turn_user t) now_ms (pending_in (some model) tier s))
            (dispatch o (turn_user t) now_ms (chosen none none model s))
        × (dispatch o (turn_user t) now_ms (pending_in (some model) tier s)
            ≡ dispatch o (turn_user t) now_ms (pending_in (some model) none s))
  unfolding dispatch dispatch_turn
  dispatch-pending o t now_ms model tier s =
      let (tracker, outcome) = advance s.session_tracker now_ms in
      let closes = is_explicit_close o.w.u s.session_tracker t.transcript in
      let begun = record s { session_tracker = tracker } in
      let met = on_outcome o outcome now_ms begun in
      let default = s.config.default_model in
      let left : (dispatch o (turn_user t) now_ms s).0.config ≡ consumed g s.config =
        take_turn-config o closes t now_ms met
        ∙ ap (consumed g) (on_outcome-config o outcome now_ms begun) in
      let one = on_outcome-chosen o now_ms (some model) tier default outcome begun in
      let two = on_outcome-chosen o now_ms (some model) none default outcome begun in
      let three = on_outcome-chosen o now_ms none none model outcome begun in
      let turn : DaemonState Json f g → DaemonState Json f g × Done = take_turn o closes t now_ms in
      let same = take_turn-model o closes t now_ms model default tier met in
      (
        ap (λ (c : Config g). c.pending_model) left ∙ (consumed-none g s.config).0,
        ap (λ (c : Config g). c.pending_tier) left ∙ (consumed-none g s.config).1,
        ap (effective_model g) left ∙ (consumed-none g s.config).2,
        (
          ap (λ x. (turn x).0.brain) one ∙ same.0 ∙ sym (ap (λ x. (turn x).0.brain) three),
          ap (λ x. (turn x).1) one ∙ same.1 ∙ sym (ap (λ x. (turn x).1) three),
        ),
        ap turn one ∙ take_turn-tier o closes t now_ms model default tier met ∙ sym (ap turn two),
      )
