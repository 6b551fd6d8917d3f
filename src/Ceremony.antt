-- ===== src/Ceremony.antt =====
-- The name ceremony of src/introduction.rs, with its texts and that of src/greeting.rs, as the loop of `run` in
-- src/daemon.rs steps through it. An input of the loop says when it comes, and which of the publishes succeed.
pub mod Greetings
mod Tests
use wintermute_brain.Config.{
  GreetingMode, IntroductionMode, first_ever_boot, explicit, PersonaConfig,
}
use wintermute_brain.Prelude.Unicode.{Unicode, is_empty}
use wintermute_brain.Prelude.{
  ℕ, ◌+◌, ◌*◌, ◌%◌, ◌^◌, Bool, true, false, not, ◌&&◌, ◌||◌, List, [], ◌∷◌, ◌++◌, Option, none,
  some, Text, codes, contains, ltb, u64_max, saturating_add, if◌then◌else◌,
}

pub data GreetingKind : Type 0 where
  first_ever returning silent : GreetingKind

pub record RecallPresence : Type 0 where
  pub has_profile : Bool
  pub has_thread : Bool

unfoldable pub select_greeting_kind : GreetingMode → RecallPresence → GreetingKind
select_greeting_kind GreetingMode.off presence = silent
select_greeting_kind GreetingMode.first_ever_always presence = first_ever
select_greeting_kind GreetingMode.auto presence =
    if not presence.has_profile && not presence.has_thread
    then first_ever
    else if presence.has_thread
    then returning
    else silent

abbrev addressed : (before after : Text) → Option Text → Text
addressed before after none = []
addressed before after (some n) = if is_empty n then [] else before ++ n ++ after

unfoldable pub compose_greeting : GreetingKind → PersonaConfig → Option Text → Text → Option Text
compose_greeting silent persona user_name wake_word = none
compose_greeting first_ever persona user_name wake_word = some (
    codes "Hello "
    ++ addressed [] (codes ", ") user_name
    ++ codes "I'm "
    ++ persona.self_name
    ++ codes ". You can talk to me out loud whenever you like — just say \""
    ++ wake_word
    ++ codes "\" first. Try asking me what time it is, or what the weather is like. "
    ++ codes "I'm here whenever you need me.")
compose_greeting returning persona user_name wake_word = some (
    codes "Hello"
    ++ addressed (codes ", ") [] user_name
    ++ codes ", I'm "
    ++ persona.self_name
    ++ codes ". Good to hear from you again.")

pub data IntroductionPhase : Type 0 where
  idle waiting_for_wake_word : IntroductionPhase
  awaiting_ack : (deadline_ms : ℕ) → IntroductionPhase

pub data IntroAckClass : Type 0 where
  ack unrecognized : IntroAckClass

abbrev pub ack_words : List Text
ack_words =
    codes "okay"
    ∷ codes "ok"
    ∷ codes "yes"
    ∷ codes "yeah"
    ∷ codes "sure"
    ∷ codes "alright"
    ∷ codes "all right"
    ∷ codes "fine"
    ∷ codes "good"
    ∷ codes "great"
    ∷ codes "got it"
    ∷ codes "i see"
    ∷ codes "hi"
    ∷ codes "hello"
    ∷ codes "nice to meet you"
    ∷ codes "uh huh"
    ∷ codes "mm hmm"
    ∷ []

unfoldable pub any_in : Text → List Text → Bool
any_in lower [] = false
any_in lower (word ∷ words) = contains lower word || any_in lower words

unfoldable pub classify_intro_response : Unicode → Text → IntroAckClass
unfolding any_in
classify_intro_response u transcript =
    if any_in (u.to_lowercase transcript) ack_words then ack else unrecognized

unfoldable pub compose_introduction_text : Text → Text
compose_introduction_text self_name =
    codes "Hello. My name is "
    ++ self_name
    ++ codes
        ". You can call me that any time you need me — just say my name, and I'll be right here."

abbrev pub compose_patience_text : Text
compose_patience_text =
    codes "Take your time — I'm not going anywhere. Just say my name when you're ready."

unfoldable pub compose_reassurance_text : Text → Text
compose_reassurance_text self_name =
    codes "I heard you — no need to say anything in particular. I'm "
    ++ self_name
    ++ codes ", here when you need me."

-- What is published to be spoken; a failure is only logged, but where a text says so.
pub data Speech : Type 0 where
  introduction patience reassurance greeting : Text → Speech

-- What the ceremony reads of the configuration.
pub record Setting : Type 0 where
  pub persona : PersonaConfig
  pub user_name : Option Text

-- Where a step leaves the phase, what it publishes, and whether the event goes no further.
pub record Stepped : Type 0 where
  pub phase : IntroductionPhase
  pub published : List Speech
  pub consumed : Bool

abbrev greeting_of : Option Text → List Speech
greeting_of none = []
greeting_of (some text) = greeting text ∷ []

abbrev first_greeting : Setting → List Speech
first_greeting s =
    greeting_of (compose_greeting first_ever s.persona s.user_name s.persona.wake_word)

-- The introduction: the phase changes if its publish succeeds. The product of the seconds wraps.
abbrev introduced : Setting → ℕ → ℕ → Bool → IntroductionPhase → Bool → Stepped
introduced s ack_timeout_secs now succeeds phase consumed =
    if succeeds
    then record {
      phase = awaiting_ack (saturating_add u64_max now (ack_timeout_secs * 1000 % (2 ^ 64)));
      published = introduction (compose_introduction_text s.persona.self_name) ∷ [];
      consumed = consumed;
    }
    else record { phase = phase; published = []; consumed = consumed }

abbrev unchanged : IntroductionPhase → Bool → Stepped
unchanged phase consumed = record { phase = phase; published = []; consumed = consumed }

-- The check at the start; an outage of recall counts as the first boot.
unfoldable pub on_boot : Setting → IntroductionMode → Bool → ℕ → Bool → IntroductionPhase → Stepped
on_boot s (first_ever_boot ack_timeout_secs) is_first_ever now succeeds phase =
    if is_first_ever
    then introduced s ack_timeout_secs now succeeds phase false
    else unchanged phase false
on_boot s (explicit ack_timeout_secs) is_first_ever now succeeds phase = unchanged phase false
on_boot s IntroductionMode.off is_first_ever now succeeds phase = unchanged phase false

unfoldable pub on_introduce : Setting → IntroductionMode → ℕ → Bool → IntroductionPhase → Stepped
on_introduce s (explicit ack_timeout_secs) now succeeds phase =
    introduced s ack_timeout_secs now succeeds phase true
on_introduce s (first_ever_boot ack_timeout_secs) now succeeds phase = unchanged phase true
on_introduce s IntroductionMode.off now succeeds phase = unchanged phase true

abbrev acknowledged : Setting → IntroAckClass → Stepped
acknowledged s ack = record { phase = idle; published = first_greeting s; consumed = true }
acknowledged s unrecognized = record {
  phase = idle;
  published = reassurance (compose_reassurance_text s.persona.self_name) ∷ first_greeting s;
  consumed = true;
}

unfoldable pub on_stt_final : Unicode → Setting → Text → ℕ → IntroductionPhase → Stepped
on_stt_final u s transcript now (awaiting_ack deadline_ms) =
    if ltb deadline_ms now
    then record {
      phase = waiting_for_wake_word;
      published = patience compose_patience_text ∷ [];
      consumed = true;
    }
    else acknowledged s (classify_intro_response u transcript)
on_stt_final u s transcript now idle = unchanged idle false
on_stt_final u s transcript now waiting_for_wake_word = unchanged waiting_for_wake_word false

-- An event under the dialog prefix; it is dispatched in any case.
unfoldable pub on_dialog : Setting → IntroductionPhase → Stepped
on_dialog s waiting_for_wake_word = record {
  phase = idle;
  published = first_greeting s;
  consumed = false;
}
on_dialog s idle = unchanged idle false
on_dialog s (awaiting_ack deadline_ms) = unchanged (awaiting_ack deadline_ms) false
