-- ===== src/Degrade.antt =====
-- src/degrade.rs: the phrase bank, the limiter per error kind, the health of the components, and the
-- aggregator that turns one error envelope into a phrase to be spoken. The two mutexes are held for
-- the length of one operation, so each operation is one step on the state.
pub mod Limiter
pub mod Health
mod Tests
use wintermute_brain.Prelude.Assoc.{lookup, insert}
use wintermute_brain.Prelude.Unicode.{is_empty}
use wintermute_brain.Prelude.{
  ℕ, ◌+◌, Bool, true, false, List, [], ◌∷◌, map, Option, none, some, Text, codes, text_eq, leb, ltb,
  if◌then◌else◌, ◌==◌, ◌||◌, ◌&&◌, saturating_sub,
}

abbrev pub rate_limit_ms : ℕ
rate_limit_ms = 30000

-- The first match of a `match` on text literals, or the `_` arm.
abbrev pub match_text {ℓ} : {A : Type ℓ} → Text → List (Text × A) → A → A
match_text s [] other = other
match_text s ((k, a) ∷ arms) other = if text_eq s k then a else match_text s arms other

unfoldable pub degrade_phrase : Text → Text
degrade_phrase kind =
    match_text kind
      ((codes "brain_unreachable", codes "I can't reach my brain right now. Try again in a moment.")
        ∷ (
          codes "brain_api_key_missing",
          codes "I'm not configured to think yet. Could you ask jsy?",
        )
        ∷ (codes "stt_window_invalid", codes "Sorry, I didn't catch that.")
        ∷ (codes "stt_model_missing", codes "My ears aren't installed yet.")
        ∷ (codes "audio_mic_missing", codes "I lost my microphone. Hold on.")
        ∷ (
          codes "audio_aec_missing",
          codes "My echo cancellation isn't working; I might hear myself.",
        )
        ∷ (codes "tts_pw_cat_missing", [])
        ∷ (codes "network_down", codes "I can't reach the network. I'll wait.")
        ∷ (codes "general_error", codes "Something went wrong. Let me try again.")
        ∷ [])
      (codes "Something I haven't seen before just happened.")

-- `RateLimitState`: the time at which each kind was last spoken.
abbrev pub RateLimitState : Type 0
RateLimitState = List (Text × ℕ)

check_entry : Option ℕ → Text → ℕ → RateLimitState → RateLimitState × Bool
check_entry none kind now_ms rate = (insert kind now_ms rate, true)
check_entry (some last) kind now_ms rate =
    if leb rate_limit_ms (saturating_sub now_ms last)
    then (insert kind now_ms rate, true)
    else (rate, false)

unfoldable pub check_and_record : Text → ℕ → RateLimitState → RateLimitState × Bool
unfolding check_entry
check_and_record kind now_ms rate = check_entry (lookup kind rate) kind now_ms rate

pub record ComponentHealth : Type 0 where
  pub component : Text
  pub state : Text
  pub last_error : Text
  pub last_seen_ts : ℕ

abbrev pub ok_entry : Text → ℕ → ComponentHealth
ok_entry component ts = record {
  component = component;
  state = codes "ok";
  last_error = [];
  last_seen_ts = ts;
}

abbrev pub degraded_entry : Text → Text → ℕ → ComponentHealth
degraded_entry component kind ts = record {
  component = component;
  state = codes "degraded";
  last_error = kind;
  last_seen_ts = ts;
}

abbrev pub HealthState : Type 0
HealthState = List (Text × ComponentHealth)

unfoldable pub new_health : ℕ → HealthState
new_health ts =
    map (λ c. (c, ok_entry c ts)) (codes "audio" ∷ codes "stt" ∷ codes "tts" ∷ codes "brain" ∷ [])

abbrev entry_or_ok : Option ComponentHealth → Text → ℕ → ComponentHealth
entry_or_ok none component ts = ok_entry component ts
entry_or_ok (some entry) component ts = entry

unfoldable pub record_error : Text → Text → ℕ → HealthState → HealthState
record_error component kind ts health =
    insert component
      (record (entry_or_ok (lookup component health) component ts) {
        state = codes "degraded";
        last_error = kind;
        last_seen_ts = ts;
      })
      health

pub record HealthSnapshot : Type 0 where
  pub components : List ComponentHealth
  pub ts : ℕ

-- `str::cmp` is not after: the order of code points, which is that of the bytes.
unfoldable pub text_le : Text → Text → Bool
text_le [] t = true
text_le (a ∷ s) [] = false
text_le (a ∷ s) (b ∷ t) = ltb a b || (a == b && text_le s t)

-- `sort_by` on the component names, which are distinct.
sort_in : ComponentHealth → List ComponentHealth → List ComponentHealth
sort_in c [] = c ∷ []
sort_in c (d ∷ ds) = if text_le c.component d.component then c ∷ d ∷ ds else d ∷ sort_in c ds

sort_components : List ComponentHealth → List ComponentHealth
sort_components [] = []
sort_components (c ∷ cs) = sort_in c (sort_components cs)

abbrev values : HealthState → List ComponentHealth
values [] = []
values ((_, c) ∷ m) = c ∷ values m

unfoldable pub snapshot : ℕ → HealthState → HealthSnapshot
unfolding sort_components sort_in text_le
snapshot ts health = record { components = sort_components (values health); ts = ts }

unfoldable pub component_for_error_topic : Text → Option Text
component_for_error_topic topic =
    match_text topic
      ((codes "wm.stt.error", some (codes "stt"))
        ∷ (codes "wm.tts.error", some (codes "tts"))
        ∷ (codes "wm.audio.error", some (codes "audio"))
        ∷ (codes "wm.brain.error", some (codes "brain"))
        ∷ [])
      none

-- What the aggregator holds.
pub record Aggregator : Type 0 where
  pub rate : RateLimitState
  pub health : HealthState

-- `data.get("kind").and_then(as_str)` of the payload, with its default.
abbrev pub kind_or_general : Option Text → Text
kind_or_general none = codes "general_error"
kind_or_general (some kind) = kind

-- The part of `process_error_envelope` behind the health record.
speak_limited : Text → ℕ → Aggregator → Aggregator × Option Text
speak_limited kind now_ms a =
    let phrase = degrade_phrase kind in
    if is_empty phrase
    then (a, none)
    else let (rate, allowed) = check_and_record kind now_ms a.rate in
      (record a { rate = rate }, if allowed then some phrase else none)

process_component : Option Text → Option Text → ℕ → Aggregator → Aggregator × Option Text
process_component none kind_field now_ms a = (a, none)
process_component (some component) kind_field now_ms a =
    let kind = kind_or_general kind_field in
    speak_limited kind now_ms (record a { health = record_error component kind now_ms a.health })

unfoldable pub process_error_envelope :
    Text → Option Text → ℕ → Aggregator → Aggregator × Option Text
unfolding process_component speak_limited
process_error_envelope topic kind_field now_ms a =
    process_component (component_for_error_topic topic) kind_field now_ms a
