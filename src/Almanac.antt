-- ===== src/Almanac.antt =====
-- src/almanac.rs and its handlers in src/daemon.rs: the reminder that waits for the user's answer. A
-- handler's result is `some b` for `Ok(b)`, and `none` for the error of a publish.
pub mod Answers
pub mod Lifecycle
mod Tests
use wintermute_brain.Prelude.Unicode.{Unicode, split_whitespace, join_words, trim, is_empty}
use wintermute_brain.Bus.{Event, reply, almanac_ack, almanac_snooze, Sink, publish}
use wintermute_brain.Prelude.{
  ℕ, ◌+◌, Bool, true, false, not, ◌||◌, List, [], ◌∷◌, Option, none, some, Text, codes, contains,
  text_eq, leb, ◌==◌, if◌then◌else◌, u64_max, saturating_add,
}

pub record AlmanacEntryConfig : Type 0 where
  pub max_snoozes : ℕ  -- u32
  pub snooze_ms : ℕ  -- u64

abbrev pub default_entry_config : AlmanacEntryConfig
default_entry_config = record { max_snoozes = 2; snooze_ms = 300000 }

pub record PendingAck : Type 0 where
  pub id : Text
  pub category : Text
  pub asked_ms : ℕ
  pub snoozes_used : ℕ
  pub re_asked : Bool
  pub config : AlmanacEntryConfig

abbrev pub new_ack : Text → Text → ℕ → AlmanacEntryConfig → PendingAck
new_ack id category asked_ms config = record {
  id = id;
  category = category;
  asked_ms = asked_ms;
  snoozes_used = 0;
  re_asked = false;
  config = config;
}

abbrev pub within_window : ℕ → ℕ → PendingAck → Bool
within_window now_ms patience_ms p = leb now_ms (saturating_add u64_max p.asked_ms patience_ms)

pub data AckClass : Type 0 where
  done snooze unrelated : AckClass

is_edge_punctuation : ℕ → Bool
is_edge_punctuation c = c == b'.' || c == b',' || c == b'!' || c == b'?' || c == b';' || c == b':'

-- `trim_matches`: cut the marks off both ends.
cut_start : Text → Text
unfolding is_edge_punctuation
cut_start [] = []
cut_start (c ∷ s) = if is_edge_punctuation c then cut_start s else c ∷ s

cut_end_cons : ℕ → Text → Text
unfolding is_edge_punctuation
cut_end_cons c [] = if is_edge_punctuation c then [] else c ∷ []
cut_end_cons c (d ∷ t) = c ∷ d ∷ t

cut_end : Text → Text
unfolding cut_end_cons
cut_end [] = []
cut_end (c ∷ s) = cut_end_cons c (cut_end s)

unfoldable pub normalise : Unicode → Text → Text
unfolding cut_start cut_end
normalise u transcript =
    join_words (split_whitespace (cut_end (cut_start (u.to_lowercase transcript))))

abbrev pub done_tokens : List Text
done_tokens =
    codes "took it"
    ∷ codes "i took it"
    ∷ codes "okay"
    ∷ codes "ok"
    ∷ codes "done"
    ∷ codes "yes"
    ∷ codes "yeah"
    ∷ codes "yep"
    ∷ codes "i did"
    ∷ codes "already did"
    ∷ codes "taken"
    ∷ codes "got it"
    ∷ codes "did it"
    ∷ codes "confirmed"
    ∷ codes "alright"
    ∷ codes "will do"
    ∷ codes "done it"
    ∷ []

abbrev pub snooze_tokens : List Text
snooze_tokens =
    codes "later"
    ∷ codes "in a minute"
    ∷ codes "in a sec"
    ∷ codes "in a second"
    ∷ codes "not yet"
    ∷ codes "soon"
    ∷ codes "give me a minute"
    ∷ codes "give me a sec"
    ∷ codes "give me a second"
    ∷ codes "hold on"
    ∷ codes "just a minute"
    ∷ codes "just a sec"
    ∷ codes "not now"
    ∷ codes "wait"
    ∷ codes "a moment"
    ∷ codes "in a bit"
    ∷ codes "one moment"
    ∷ codes "one sec"
    ∷ codes "one minute"
    ∷ codes "hang on"
    ∷ []

-- The loop over one tier: `norm == *token || norm.contains(token)`.
any_token : List Text → Text → Bool
any_token [] norm = false
any_token (t ∷ ts) norm = text_eq norm t || contains norm t || any_token ts norm

class_of : Text → AckClass
unfolding any_token
class_of norm =
    if any_token done_tokens norm
    then done
    else if any_token snooze_tokens norm
    then snooze
    else unrelated

unfoldable pub classify_ack_response : Unicode → Text → AckClass
unfolding class_of
classify_ack_response u transcript = class_of (normalise u transcript)

-- The part of `DaemonState` that the handlers use.
pub record Reminders : Type 0 where
  pub pending_ack : Option PendingAck
  pub almanac_patience_ms : ℕ
  pub almanac_speak : Bool

-- The state, the bus and the result that a handler leaves.
abbrev pub Handled : Type 0 → Type 0
Handled Json = Reminders × Sink Json × Option Bool

-- A granted snooze counts, and the window starts again.
abbrev pub snoozed : ℕ → PendingAck → PendingAck
snoozed now_ms p = record p {
  snoozes_used = p.snoozes_used + 1;
  asked_ms = now_ms;
  re_asked = false;
}

abbrev pub re_ask_text : Text
re_ask_text = codes "Did you take it? Just say yes or later if you need more time."

unfoldable pub handle_almanac_due : Text → Text → AlmanacEntryConfig → ℕ → Reminders → Reminders
handle_almanac_due id category config now_ms r = record r {
  pending_ack = some (new_ack id category now_ms config);
}

module _ {Json : Type 0} where
  abbrev pub ack_event : Text → Text → ℕ → Event Json
  ack_event id state ts = almanac_ack (record { id = id; state = state; ts = ts })

  abbrev pub snooze_event : Text → ℕ → ℕ → Event Json
  snooze_event id resume_ts ts = almanac_snooze (record { id = id; resume_ts = resume_ts; ts = ts })

  abbrev pub say_event : Text → ℕ → Event Json
  say_event text ts = reply (record { text = text; ts = ts; loudness = none; turn_id = none })

  -- `publish(…)?` and then `Ok(true)`.
  publish_then_true : Event Json → Reminders → Sink Json → Handled Json
  publish_then_true event r sink =
      let (sink', ok) = publish event sink in (r, sink', if ok then some true else none)

  -- `publish(a)?; publish(b)?; Ok(true)`, the state being written before.
  publish_both : Event Json → Event Json → Reminders → Sink Json → Handled Json
  unfolding publish_then_true
  publish_both first second r sink =
      let (sink', ok) = publish first sink in
      if ok then publish_then_true second r sink' else (r, sink', none)

  answer : AckClass → PendingAck → ℕ → Reminders → Sink Json → Handled Json
  unfolding publish_then_true publish_both
  answer done p now_ms r sink =
      publish_then_true (ack_event p.id (codes "done") now_ms) (record r { pending_ack = none })
        sink
  answer snooze p now_ms r sink =
      if leb p.config.max_snoozes p.snoozes_used
      then publish_then_true (ack_event p.id (codes "missed") now_ms)
          (record r { pending_ack = none }) sink
      else publish_both (ack_event p.id (codes "snoozed") now_ms)
          (snooze_event p.id (saturating_add u64_max now_ms p.config.snooze_ms) now_ms)
          (record r { pending_ack = some (snoozed now_ms p) }) sink
  answer unrelated p now_ms r sink = (r, sink, some false)

  stt_final : Option PendingAck → Unicode → Text → ℕ → Reminders → Sink Json → Handled Json
  unfolding answer
  stt_final none u transcript now_ms r sink = (r, sink, some false)
  stt_final (some p) u transcript now_ms r sink =
      if not (within_window now_ms r.almanac_patience_ms p)
      then (r, sink, some false)
      else answer (classify_ack_response u transcript) p now_ms r sink

  unfoldable pub handle_stt_final_for_ack :
      Unicode → Text → ℕ → Reminders → Sink Json → Handled Json
  unfolding stt_final
  handle_stt_final_for_ack u transcript now_ms r sink =
      stt_final r.pending_ack u transcript now_ms r sink

  -- Both publishes come before the write of the state, so a failure leaves the reminder as it was.
  first_elapse : PendingAck → ℕ → Reminders → Sink Json → Handled Json
  first_elapse p now_ms r sink =
      let (said, ok) = publish (say_event re_ask_text now_ms) sink in
      let (missed, ok') = publish (ack_event p.id (codes "missed") now_ms) said in
      if ok
      then if ok'
        then (
          record r { pending_ack = some (record p { re_asked = true; asked_ms = now_ms }) },
          missed,
          some true,
        )
        else (r, missed, none)
      else (r, said, none)

  tick_timeout : Option PendingAck → ℕ → Reminders → Sink Json → Handled Json
  unfolding publish_then_true first_elapse
  tick_timeout none now_ms r sink = (r, sink, some false)
  tick_timeout (some p) now_ms r sink =
      if within_window now_ms r.almanac_patience_ms p
      then (r, sink, some false)
      else if p.re_asked
      then publish_then_true (ack_event p.id (codes "missed") now_ms)
          (record r { pending_ack = none }) sink
      else first_elapse p now_ms r sink

  unfoldable pub tick_almanac_timeout : ℕ → Reminders → Sink Json → Handled Json
  unfolding tick_timeout
  tick_almanac_timeout now_ms r sink = tick_timeout r.pending_ack now_ms r sink

pub record AlmanacDueEvent : Type 0 where
  pub id : Text
  pub label : Text
  pub say : Text
  pub category : Text
  pub fire_ts : ℕ

module _ {Json : Type 0} where
  unfoldable pub handle_speak_almanac_due :
      AlmanacDueEvent → ℕ → Reminders → Sink Json → Handled Json
  unfolding handle_almanac_due
  handle_speak_almanac_due ev now_ms r sink =
      let say = trim ev.say in
      let (sink', ok) = publish (say_event say now_ms) sink in
      if not r.almanac_speak
      then (r, sink, some false)
      else if is_empty say
      then (r, sink, some false)
      else if ok
      then (handle_almanac_due ev.id ev.category default_entry_config now_ms r, sink', some true)
      else (r, sink', none)
