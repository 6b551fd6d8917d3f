-- ===== src/Daemon/Kept.antt =====
-- What the start of a session and the end of a turn leave as it is.
use wintermute_brain.Cache.{Float}
use wintermute_brain.Config.{Float64}
use wintermute_brain.Session.{
  SessionEndPayload, close, explicit, AdvanceOutcome, new_session, extended,
}
use wintermute_brain.Turn.{Brain, Done, finished, publish_failed, panicked, try_say}
use wintermute_brain.Daemon.{
  DaemonState, Outside, on_outcome, say_end, saved_disk, persist_at, behind_turn,
  persist_after_pending_consume, close_explicit, ended, quietly, opener, recapped,
  format_recap_context, threads, handle_session_start,
}
use wintermute_brain.Prompts.{QueryHit}
use wintermute_brain.Prelude.Unicode.{trim, is_empty}
use wintermute_brain.Prelude.Paths.{PathBuf}
use wintermute_brain.Config.Files.{Saved, save_to_file}
use wintermute_brain.Prelude.{
  ℕ, ◌≡◌, refl, Bool, Option, none, some, Text, List, [], ◌∷◌, ◌+◌, ◌==◌, not, ◌&&◌, take,
  Bool-cases, inl, inr, true, false, ◌∙◌,
}

pub say_end-history :
    {Json : Type 0} {f : Float} (closed : Option SessionEndPayload) (b : Brain Json f)
    → (say_end closed b).history ≡ b.history
unfolding try_say
say_end-history none b = refl
say_end-history (some payload) b = refl

module _ {Json : Type 0} {f : Float} {g : Float64} where
  abbrev pub Kept : DaemonState Json f g → DaemonState Json f g → Type 0
  Kept s s' = (s'.config ≡ s.config) × (s'.brain.history ≡ s.brain.history)

  -- The start of a session leaves these.
  abbrev pub Started : DaemonState Json f g → DaemonState Json f g → Type 0
  Started s s' =
      (s'.config ≡ s.config)
      × (s'.brain.history ≡ s.brain.history)
      × (s'.disk ≡ s.disk)
      × (s'.config_path ≡ s.config_path)

  opener-Started :
      (now_ms : ℕ) (recap : Option Text) (hits : List QueryHit) (s : DaemonState Json f g)
      → Started s (opener recap hits now_ms s).0
  unfolding opener
  opener-Started now_ms none hits s = (refl, refl, refl, refl)
  opener-Started now_ms (some context) [] s = (refl, refl, refl, refl)
  opener-Started now_ms (some context) (h ∷ hs) s =
      elim (Bool-cases (s.config.recap_opener && not (is_empty (trim h.snippet)))) [
        | inl opens ↦ rw opens (refl, refl, refl, refl)
        | inr silent ↦ rw silent (refl, refl, refl, refl)
      ]

  recapped-Started :
      (now_ms recap_max : ℕ) (found : Option (List QueryHit)) (s : DaemonState Json f g)
      → Started s (recapped recap_max found now_ms s).0
  unfolding recapped
  recapped-Started now_ms recap_max none s = (refl, refl, refl, refl)
  recapped-Started now_ms recap_max (some hits) s =
      opener-Started now_ms (format_recap_context (take recap_max (threads hits)))
        (take recap_max (threads hits))
        (record s { recap_context = format_recap_context (take recap_max (threads hits)) })

  pub handle_session_start-Started :
      (o : Outside Json f g) (now_ms : ℕ) (s : DaemonState Json f g)
      → Started s (handle_session_start o now_ms s).0
  unfolding handle_session_start
  handle_session_start-Started o now_ms s = elim (Bool-cases (s.config.recap_max_memories == 0)) [
    | inl none' ↦ rw none' (refl, refl, refl, refl)
    | inr some' ↦ rw some' (
        recapped-Started now_ms s.config.recap_max_memories (o.search s.config.recap_max_memories)
          (record s { session_thread_query_count = s.session_thread_query_count + 1 }))
  ]

  pub on_outcome-config :
      (o : Outside Json f g) (outcome : AdvanceOutcome) (now_ms : ℕ) (s : DaemonState Json f g)
      → (on_outcome o outcome now_ms s).config ≡ s.config
  unfolding on_outcome
  on_outcome-config o extended now_ms s = refl
  on_outcome-config o (new_session closed opened) now_ms s =
      (handle_session_start-Started o now_ms _).0

  pub on_outcome-file :
      (o : Outside Json f g) (outcome : AdvanceOutcome) (now_ms : ℕ) (s : DaemonState Json f g)
      → ((on_outcome o outcome now_ms s).disk ≡ s.disk)
        × ((on_outcome o outcome now_ms s).config_path ≡ s.config_path)
  unfolding on_outcome
  on_outcome-file o extended now_ms s = (refl, refl)
  on_outcome-file o (new_session closed opened) now_ms s =
      let (config, history, disk, path) = handle_session_start-Started o now_ms _ in (disk, path)

  -- What is done behind a turn leaves the configuration and the history.
  saved_disk-Kept : (s : DaemonState Json f g) (saved : Saved) → Kept s (saved_disk s saved)
  saved_disk-Kept s (r, ds) = (refl, refl)

  persist_at-Kept :
      (o : Outside Json f g) (path : Option PathBuf) (s : DaemonState Json f g)
      → Kept s (persist_at o path s)
  unfolding persist_at
  persist_at-Kept o none s = (refl, refl)
  persist_at-Kept o (some path) s =
      saved_disk-Kept s (save_to_file g o.toml o.calls path s.disk s.config)

  close_explicit-Kept : (now_ms : ℕ) (s : DaemonState Json f g) → Kept s (close_explicit now_ms s)
  unfolding close_explicit
  close_explicit-Kept now_ms s =
      (refl, say_end-history (close s.session_tracker now_ms explicit).1 s.brain)

  behind_turn-Kept :
      (o : Outside Json f g) (consumed_pending explicit_close : Bool) (now_ms : ℕ)
      (s : DaemonState Json f g)
      → Kept s (behind_turn o consumed_pending explicit_close now_ms s)
  unfolding behind_turn persist_after_pending_consume
  behind_turn-Kept o true true now_ms s =
      let kept = persist_at-Kept o s.config_path s in
      let closed = close_explicit-Kept now_ms (persist_at o s.config_path s) in
      (closed.0 ∙ kept.0, closed.1 ∙ kept.1)
  behind_turn-Kept o true false now_ms s = persist_at-Kept o s.config_path s
  behind_turn-Kept o false true now_ms s = close_explicit-Kept now_ms s
  behind_turn-Kept o false false now_ms s = (refl, refl)

  pub ended-Kept :
      (o : Outside Json f g) (consumed_pending explicit_close : Bool) (now_ms : ℕ)
      (s : DaemonState Json f g) (r : Brain Json f × Done)
      → ((ended o consumed_pending explicit_close now_ms s r).0.config ≡ s.config)
        × ((ended o consumed_pending explicit_close now_ms s r).0.brain.history ≡ r.0.history)
  ended-Kept o consumed_pending explicit_close now_ms s (b, finished) =
      behind_turn-Kept o consumed_pending explicit_close now_ms (quietly b s)
  ended-Kept o consumed_pending explicit_close now_ms s (b, publish_failed) = (refl, refl)
  ended-Kept o consumed_pending explicit_close now_ms s (b, panicked) = (refl, refl)
