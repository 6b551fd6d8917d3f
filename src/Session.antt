-- ===== src/Session.antt =====
-- src/session.rs: the tracker that infers conversation sessions from the times of the turns and
-- from closing phrases. A method that takes `&mut self` returns the new tracker.
pub mod Bursts
pub mod Phrases
mod Tests
use wintermute_brain.Prelude.{
  ℕ, ◌+◌, ◌≡◌, refl, Bool, true, false, ◌||◌, List, [], ◌∷◌, ◌++◌, map, Option, none, some, Text,
  codes, text_eq, leb, if◌then◌else◌, u32_max, saturating_add, saturating_sub,
}
use wintermute_brain.Prelude.Decimal.{show}
use wintermute_brain.Prelude.Unicode.{
  Unicode, is_whitespace, split_whitespace, join_words, filter_text,
}

pub data CloseReason : Type 0 where
  idle explicit shutdown : CloseReason

pub record Session : Type 0 where
  pub id : Text
  pub started_ms : ℕ  -- u64
  pub last_turn_ms : ℕ  -- u64
  pub turn_count : ℕ  -- u32

pub record SessionStartPayload : Type 0 where
  pub session_id : Text
  pub ts : ℕ

pub record SessionEndPayload : Type 0 where
  pub session_id : Text
  pub ts : ℕ
  pub turn_count : ℕ
  pub reason : CloseReason

pub data AdvanceOutcome : Type 0 where
  new_session : Option SessionEndPayload → SessionStartPayload → AdvanceOutcome
  extended : AdvanceOutcome

abbrev pub default_idle_gap_ms : ℕ
default_idle_gap_ms = 300000

abbrev pub default_end_phrases : List Text
default_end_phrases =
    codes "goodbye"
    ∷ codes "good bye"
    ∷ codes "that's all"
    ∷ codes "thats all"
    ∷ codes "never mind"
    ∷ codes "nevermind"
    ∷ codes "thanks that's it"
    ∷ codes "thanks thats it"
    ∷ codes "go to sleep"
    ∷ []

pub record SessionTracker : Type 0 where
  pub current : Option Session
  pub idle_gap_ms : ℕ
  pub end_phrases : List Text

-- Keep letters, digits and white space; one space between words; lower case.
unfoldable pub normalize_phrase : Unicode → Text → Text
normalize_phrase u s =
    u.to_lowercase
      (join_words (split_whitespace (filter_text (λ c. u.is_alphanumeric c || is_whitespace c) s)))

unfoldable pub new : Unicode → ℕ → List Text → SessionTracker
new u idle_gap_ms end_phrases = record {
  current = none;
  idle_gap_ms = idle_gap_ms;
  end_phrases = map (normalize_phrase u) end_phrases;
}

unfoldable pub default_phrases : Unicode → SessionTracker
default_phrases u = new u default_idle_gap_ms default_end_phrases

abbrev pub session_id_for : ℕ → Text
session_id_for now_ms = codes "wmd-sess-" ++ show now_ms

-- The payload of a session that ends.
abbrev pub end_payload : ℕ → CloseReason → Session → SessionEndPayload
end_payload now_ms reason old = record {
  session_id = old.id;
  ts = now_ms;
  turn_count = old.turn_count;
  reason = reason;
}

abbrev pub closed_by : ℕ → CloseReason → Option Session → Option SessionEndPayload
closed_by now_ms reason none = none
closed_by now_ms reason (some old) = some (end_payload now_ms reason old)

unfoldable pub current_session_id : SessionTracker → Option Text
current_session_id t = elim t.current [ none ↦ none | some s ↦ some s.id ]

unfoldable pub current_turn_count : SessionTracker → ℕ
current_turn_count t = elim t.current [ none ↦ 0 | some s ↦ s.turn_count ]

-- The session that a turn opens, and the session that a turn extends.
abbrev pub opened_at : ℕ → Session
opened_at now_ms = record {
  id = session_id_for now_ms;
  started_ms = now_ms;
  last_turn_ms = now_ms;
  turn_count = 1;
}

abbrev pub extended_at : ℕ → Session → Session
extended_at now_ms sess = record sess {
  last_turn_ms = now_ms;
  turn_count = saturating_add u32_max sess.turn_count 1;
}

-- The `_` arm of `advance`: close what is open, and open a new session.
open_fresh : SessionTracker → ℕ → SessionTracker × AdvanceOutcome
open_fresh t now_ms = (
  record t { current = some (opened_at now_ms) },
  new_session (closed_by now_ms idle t.current)
      (record { session_id = session_id_for now_ms; ts = now_ms }),
)

advance_in : Option Session → SessionTracker → ℕ → SessionTracker × AdvanceOutcome
unfolding open_fresh
advance_in none t now_ms = open_fresh t now_ms
advance_in (some sess) t now_ms =
    if leb (saturating_sub now_ms sess.last_turn_ms) t.idle_gap_ms
    then (record t { current = some (extended_at now_ms sess) }, extended)
    else open_fresh t now_ms

unfoldable pub advance : SessionTracker → ℕ → SessionTracker × AdvanceOutcome
unfolding advance_in
advance t now_ms = advance_in t.current t now_ms

any_phrase : List Text → Text → Bool
any_phrase [] said = false
any_phrase (p ∷ ps) said = text_eq p said || any_phrase ps said

unfoldable pub is_explicit_close : Unicode → SessionTracker → Text → Bool
unfolding any_phrase
is_explicit_close u t transcript = any_phrase t.end_phrases (normalize_phrase u transcript)

unfoldable pub close : SessionTracker → ℕ → CloseReason → SessionTracker × Option SessionEndPayload
close t now_ms reason = (record t { current = none }, closed_by now_ms reason t.current)
