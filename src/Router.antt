-- ===== src/Router.antt =====
-- src/router.rs: the classifier of turns, and the policy that recommends a tier to start at.
pub mod Kinds
pub mod Policy
mod Tests
use wintermute_brain.Prelude.Unicode.{
  to_ascii_lowercase, is_ascii_alphabetic, is_ascii_digit, trim, is_empty,
}
use wintermute_brain.Prelude.{
  ℕ, suc, ◌%◌, Bool, true, false, not, ◌&&◌, ◌||◌, List, [], ◌∷◌, ◌++◌, map, Option, none, some,
  Text, codes, text_eq, starts_with, contains, length, get_elem?, ltb, leb, ◌==◌, if◌then◌else◌,
}

pub data TurnKind : Type 0 where
  command conversational : TurnKind

abbrev pub command_max_words_default : ℕ
command_max_words_default = 6

abbrev pub command_verbs : List Text
command_verbs =
    codes "turn"
    ∷ codes "set"
    ∷ codes "start"
    ∷ codes "stop"
    ∷ codes "pause"
    ∷ codes "resume"
    ∷ codes "play"
    ∷ codes "skip"
    ∷ codes "mute"
    ∷ codes "unmute"
    ∷ codes "louder"
    ∷ codes "quieter"
    ∷ codes "increase"
    ∷ codes "decrease"
    ∷ codes "open"
    ∷ codes "close"
    ∷ codes "lock"
    ∷ codes "unlock"
    ∷ codes "show"
    ∷ codes "hide"
    ∷ codes "enable"
    ∷ codes "disable"
    ∷ codes "remind"
    ∷ codes "timer"
    ∷ codes "alarm"
    ∷ codes "cancel"
    ∷ []

abbrev pub command_patterns : List Text
command_patterns =
    codes "what time"
    ∷ codes "what's the time"
    ∷ codes "what date"
    ∷ codes "what day"
    ∷ codes "what's today"
    ∷ codes "what's the date"
    ∷ codes "what's the weather"
    ∷ codes "how's the weather"
    ∷ []

abbrev pub conversation_particles : List Text
conversation_particles =
    codes "how are"
    ∷ codes "how do"
    ∷ codes "how does"
    ∷ codes "how did"
    ∷ codes "how would"
    ∷ codes "how should"
    ∷ codes "how can"
    ∷ codes "tell me"
    ∷ codes "what do you think"
    ∷ codes "do you"
    ∷ codes "can you"
    ∷ codes "could you"
    ∷ codes "would you"
    ∷ codes "why"
    ∷ codes "explain"
    ∷ codes "describe"
    ∷ codes "talk about"
    ∷ []

-- `char::is_ascii_punctuation` and `u8::is_ascii_whitespace`.
unfoldable pub is_ascii_punctuation : ℕ → Bool
is_ascii_punctuation c =
    leb 33 c && leb c 126 && not (is_ascii_alphabetic c) && not (is_ascii_digit c)

unfoldable pub is_ascii_whitespace : ℕ → Bool
is_ascii_whitespace c = c == 32 || c == 9 || c == 10 || c == 12 || c == 13

-- A character in front of a text whose end is stripped already, for `trim_end_matches`.
unfoldable pub strip_cons : (ℕ → Bool) → ℕ → Text → Text
strip_cons p c [] = if p c then [] else c ∷ []
strip_cons p c (d ∷ t) = c ∷ d ∷ t

unfoldable pub trim_end_matches : (ℕ → Bool) → Text → Text
unfolding strip_cons
trim_end_matches p [] = []
trim_end_matches p (c ∷ s) = strip_cons p c (trim_end_matches p s)

-- `split_ascii_whitespace`; `word` is the run being read.
unfoldable pub ascii_words_from : Text → Text → List Text
ascii_words_from word [] = if is_empty word then [] else word ∷ []
ascii_words_from word (c ∷ s) =
    let next = ascii_words_from [] s in
    let longer = ascii_words_from (word ++ c ∷ []) s in
    if is_ascii_whitespace c then (if is_empty word then next else word ∷ next) else longer

unfoldable pub split_ascii_whitespace : Text → List Text
unfolding ascii_words_from
split_ascii_whitespace s = ascii_words_from [] s

-- The loops over the tables.
unfoldable pub any_prefix : List Text → Text → Bool
any_prefix [] s = false
any_prefix (p ∷ ps) s = starts_with s p || any_prefix ps s

unfoldable pub any_within : List Text → Text → Bool
any_within [] s = false
any_within (p ∷ ps) s = contains s p || any_within ps s

unfoldable pub is_one_of : List Text → Text → Bool
is_one_of [] s = false
is_one_of (p ∷ ps) s = text_eq p s || is_one_of ps s

abbrev pub first_or_empty : List Text → Text
first_or_empty [] = []
first_or_empty (w ∷ ws) = w

-- The text that the rules are tried on.
unfoldable pub lowered : Text → Text
lowered transcript =
    trim_end_matches is_ascii_punctuation (map to_ascii_lowercase (trim transcript))

-- The five rules in their order.
unfoldable pub classify_lowered : Text → ℕ → TurnKind
classify_lowered lower command_max_words =
    let words = split_ascii_whitespace lower in
    if any_prefix command_patterns lower
    then TurnKind.command
    else if is_one_of command_verbs (first_or_empty words)
    then TurnKind.command
    else if any_within conversation_particles lower
    then TurnKind.conversational
    else if leb (length words) command_max_words && ltb 0 (length words)
    then TurnKind.command
    else TurnKind.conversational

unfoldable pub classify_turn : Text → ℕ → TurnKind
unfolding classify_lowered
classify_turn transcript command_max_words = classify_lowered (lowered transcript) command_max_words

pub data RouteTier : Type 0 where
  local cloud canned : RouteTier

pub data RouteReason : Type 0 where
  override command conversational no_key offline cloud_timeout_fallback total_failure
        prefer_local_only prefer_cloud_only :
      RouteReason

pub record RouteDecision : Type 0 where
  pub tier : RouteTier
  pub reason : RouteReason
  pub turn_kind : TurnKind

pub data RoutePrefer : Type 0 where
  auto local_only cloud_only : RoutePrefer

unfoldable pub parse_prefer : Text → Option RoutePrefer
parse_prefer s =
    let name = map to_ascii_lowercase (trim s) in
    if text_eq name (codes "auto")
    then some auto
    else if text_eq name (codes "local-only")
    then some local_only
    else if text_eq name (codes "cloud-only")
    then some cloud_only
    else none

unfoldable pub prefer_as_str : RoutePrefer → Text
prefer_as_str auto = codes "auto"
prefer_as_str local_only = codes "local-only"
prefer_as_str cloud_only = codes "cloud-only"

pub record PolicyInputs : Type 0 where
  pub transcript : Text
  pub pending_tier_override : Option Text
  pub api_key_present : Bool
  pub online : Bool
  pub prefer : RoutePrefer
  pub command_max_words : ℕ

-- The rows below the preference gates.
by_kind : TurnKind → Bool → Bool → RouteTier × RouteReason
by_kind TurnKind.command online api_key_present = (local, RouteReason.command)
by_kind TurnKind.conversational online api_key_present =
    if online && api_key_present
    then (cloud, RouteReason.conversational)
    else if not api_key_present
    then (local, no_key)
    else (local, offline)

by_prefer : RoutePrefer → TurnKind → Bool → Bool → RouteTier × RouteReason
by_prefer local_only kind online key = (local, prefer_local_only)
by_prefer cloud_only kind online key = (cloud, prefer_cloud_only)
by_prefer auto kind online key = by_kind kind online key

by_override : Option Text → RoutePrefer → TurnKind → Bool → Bool → RouteTier × RouteReason
by_override (some tier) prefer kind online key = (local, override)
by_override none prefer kind online key = by_prefer prefer kind online key

unfoldable pub apply_routing_policy : PolicyInputs → RouteDecision
unfolding by_kind by_prefer by_override
apply_routing_policy inputs =
    let kind = classify_turn inputs.transcript inputs.command_max_words in
    let (tier, reason) =
      by_override inputs.pending_tier_override inputs.prefer kind inputs.online
        inputs.api_key_present in
    record { tier = tier; reason = reason; turn_kind = kind }

unfoldable pub decision_to_tier_name : RouteDecision → Text → Text → Text
decision_to_tier_name decision local_model cloud_model = elim decision.tier [
  | local ↦ local_model
  | cloud ↦ cloud_model
  | canned ↦ local_model
]

abbrev pub phrase_at : Option Text → Text
phrase_at none = []
phrase_at (some phrase) = phrase

abbrev pub canned_phrases : List Text
canned_phrases =
    codes "I'm having trouble thinking right now — can you say that again in a moment?"
    ∷ codes "Something went quiet on my end. I'll be back in just a moment."
    ∷ codes "I need a brief pause to gather my thoughts. Can you try again?"
    ∷ codes "My mind is a bit cloudy right now. Please give me a moment."
    ∷ []

-- The index is in bounds, since it is taken modulo the length of the bank.
unfoldable pub canned_phrase : ℕ → Text
canned_phrase index =
    if length canned_phrases == 0
    then codes "I'm having trouble thinking right now."
    else phrase_at (get_elem? canned_phrases (index % length canned_phrases))

unfoldable pub reason_as_str : RouteReason → Text
reason_as_str override = codes "override"
reason_as_str RouteReason.command = codes "command"
reason_as_str RouteReason.conversational = codes "conversational"
reason_as_str no_key = codes "no_key"
reason_as_str offline = codes "offline"
reason_as_str cloud_timeout_fallback = codes "cloud_timeout_fallback"
reason_as_str total_failure = codes "total_failure"
reason_as_str prefer_local_only = codes "prefer_local_only"
reason_as_str prefer_cloud_only = codes "prefer_cloud_only"

pub record RouteEvent : Type 0 where
  pub turn_id : ℕ
  pub turn_corr : Option Text
  pub tier : RouteTier
  pub reason : Text
  pub latency_ms : Option ℕ
  pub model : Text
  pub ts : ℕ
