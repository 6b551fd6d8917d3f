-- ===== src/Ceremony/Greetings.antt =====
-- How often the ceremony of src/daemon.rs greets.
use wintermute_brain.Config.{IntroductionMode, first_ever_boot, explicit}
use wintermute_brain.Prelude.Unicode.{Unicode}
use wintermute_brain.Prelude.{
  ℕ, suc, ◌+◌, ◌≤◌, ◌≡◌, inl, inr, Bool, true, false, Bool-cases, List, [], ◌∷◌, ◌++◌, Text, ltb,
  arith,
}
use wintermute_brain.Ceremony.{
  IntroductionPhase, idle, waiting_for_wake_word, awaiting_ack, IntroAckClass, ack, unrecognized,
  Speech, introduction, patience, reassurance, greeting, Setting, Stepped, introduced, unchanged,
  acknowledged, classify_intro_response, compose_greeting, on_boot, on_introduce, on_stt_final,
  on_dialog,
}

-- What the loop hears of the ceremony.
pub data Input : Type 0 where
  booted : (is_first_ever : Bool) (now : ℕ) (succeeds : Bool) → Input
  asked : (now : ℕ) (succeeds : Bool) → Input
  heard : (transcript : Text) (now : ℕ) → Input
  woken : Input

pub on_input : Unicode → Setting → IntroductionMode → Input → IntroductionPhase → Stepped
on_input u s mode (booted is_first_ever now succeeds) phase =
    on_boot s mode is_first_ever now succeeds phase
on_input u s mode (asked now succeeds) phase = on_introduce s mode now succeeds phase
on_input u s mode (heard transcript now) phase = on_stt_final u s transcript now phase
on_input u s mode woken phase = on_dialog s phase

-- What is published over all inputs.
pub all_published :
    Unicode → Setting → IntroductionMode → List Input → IntroductionPhase → List Speech
all_published u s mode [] phase = []
all_published u s mode (i ∷ is) phase =
    let r = on_input u s mode i phase in r.published ++ all_published u s mode is r.phase

pub greetings : List Speech → ℕ
greetings [] = 0
greetings (introduction t ∷ l) = greetings l
greetings (patience t ∷ l) = greetings l
greetings (reassurance t ∷ l) = greetings l
greetings (greeting t ∷ l) = suc (greetings l)

pub introductions : List Speech → ℕ
introductions [] = 0
introductions (introduction t ∷ l) = suc (introductions l)
introductions (patience t ∷ l) = introductions l
introductions (reassurance t ∷ l) = introductions l
introductions (greeting t ∷ l) = introductions l

-- The greeting that a phase still owes.
owed : IntroductionPhase → ℕ
owed idle = 0
owed waiting_for_wake_word = 1
owed (awaiting_ack deadline_ms) = 1

greetings-append : (l m : List Speech) → greetings (l ++ m) ≡ greetings l + greetings m
unfolding greetings
greetings-append [] m = omega arith
greetings-append (introduction t ∷ l) m = greetings-append l m
greetings-append (patience t ∷ l) m = greetings-append l m
greetings-append (reassurance t ∷ l) m = greetings-append l m
greetings-append (greeting t ∷ l) m = rw (greetings-append l m) (omega arith)

introductions-append :
    (l m : List Speech) → introductions (l ++ m) ≡ introductions l + introductions m
unfolding introductions
introductions-append [] m = omega arith
introductions-append (introduction t ∷ l) m = rw (introductions-append l m) (omega arith)
introductions-append (patience t ∷ l) m = introductions-append l m
introductions-append (reassurance t ∷ l) m = introductions-append l m
introductions-append (greeting t ∷ l) m = introductions-append l m

-- A step greets for what is owed, and owes for what it introduces.
abbrev Pays : IntroductionPhase → Stepped → Type 0
Pays phase r = greetings r.published + owed r.phase ≤ introductions r.published + owed phase

module _ (s : Setting) where
  introduced-Pays :
      (secs now : ℕ) (succeeds : Bool) (phase : IntroductionPhase) (consumed : Bool)
      → Pays phase (introduced s secs now succeeds phase consumed)
  unfolding greetings introductions owed
  introduced-Pays secs now true phase consumed = omega arith
  introduced-Pays secs now false phase consumed = omega arith

  unchanged-Pays :
      (phase : IntroductionPhase) (consumed : Bool) → Pays phase (unchanged phase consumed)
  unfolding greetings introductions
  unchanged-Pays phase consumed = omega arith

  acknowledged-Pays :
      (class : IntroAckClass) (deadline_ms : ℕ)
      → Pays (awaiting_ack deadline_ms) (acknowledged s class)
  unfolding greetings introductions owed compose_greeting
  acknowledged-Pays ack deadline_ms = omega arith
  acknowledged-Pays unrecognized deadline_ms = omega arith

  on_stt_final-Pays :
      (u : Unicode) (transcript : Text) (now : ℕ) (phase : IntroductionPhase)
      → Pays phase (on_stt_final u s transcript now phase)
  unfolding on_stt_final greetings introductions owed
  on_stt_final-Pays u transcript now idle = omega arith
  on_stt_final-Pays u transcript now waiting_for_wake_word = omega arith
  on_stt_final-Pays u transcript now (awaiting_ack deadline_ms) =
      elim (Bool-cases (ltb deadline_ms now)) [
        | inl late ↦ rw late (omega arith)
        | inr early ↦
            rw early (acknowledged-Pays (classify_intro_response u transcript) deadline_ms)
      ]

  on_boot-Pays :
      (mode : IntroductionMode) (is_first_ever : Bool) (now : ℕ) (succeeds : Bool)
      (phase : IntroductionPhase)
      → Pays phase (on_boot s mode is_first_ever now succeeds phase)
  unfolding on_boot
  on_boot-Pays (first_ever_boot secs) true now succeeds phase =
      introduced-Pays secs now succeeds phase false
  on_boot-Pays (first_ever_boot secs) false now succeeds phase = unchanged-Pays phase false
  on_boot-Pays (explicit secs) is_first_ever now succeeds phase = unchanged-Pays phase false
  on_boot-Pays IntroductionMode.off is_first_ever now succeeds phase = unchanged-Pays phase false

  on_input-Pays :
      (u : Unicode) (mode : IntroductionMode) (i : Input) (phase : IntroductionPhase)
      → Pays phase (on_input u s mode i phase)
  unfolding on_input on_introduce on_dialog greetings introductions owed compose_greeting
  on_input-Pays u mode (booted first now succeeds) phase =
      on_boot-Pays mode first now succeeds phase
  on_input-Pays u (explicit secs) (asked now succeeds) phase =
      introduced-Pays secs now succeeds phase true
  on_input-Pays u (first_ever_boot secs) (asked now succeeds) phase = unchanged-Pays phase true
  on_input-Pays u IntroductionMode.off (asked now succeeds) phase = unchanged-Pays phase true
  on_input-Pays u mode (heard transcript now) phase = on_stt_final-Pays u transcript now phase
  on_input-Pays u mode woken idle = omega arith
  on_input-Pays u mode woken waiting_for_wake_word = omega arith
  on_input-Pays u mode woken (awaiting_ack deadline_ms) = omega arith

  all_published-Pays :
      (u : Unicode) (mode : IntroductionMode) (is : List Input) (phase : IntroductionPhase)
      → greetings (all_published u s mode is phase)
        ≤ introductions (all_published u s mode is phase) + owed phase
  unfolding all_published greetings introductions
  all_published-Pays u mode [] phase = omega arith
  all_published-Pays u mode (i ∷ is) phase =
      let r = on_input u s mode i phase in
      let later = all_published-Pays u mode is r.phase in
      let now = on_input-Pays u mode i phase in
      rw (greetings-append r.published (all_published u s mode is r.phase))
        (rw (introductions-append r.published (all_published u s mode is r.phase)) (omega arith))

  -- In whatever order and however often the start, requests, utterances and wake words come, and whichever
  -- introductions fail to be published: the ceremony greets at most once for each introduction that was
  -- published.
  pub greetings-le-introductions :
      (u : Unicode) (mode : IntroductionMode) (is : List Input)
      → greetings (all_published u s mode is idle) ≤ introductions (all_published u s mode is idle)
  unfolding owed
  greetings-le-introductions u mode is = let paid = all_published-Pays u mode is idle in omega arith
