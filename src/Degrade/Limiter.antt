-- ===== src/Degrade/Limiter.antt =====
-- When the aggregator speaks.
use wintermute_brain.Prelude.Assoc.{lookup, lookup-insert}
use wintermute_brain.Prelude.Unicode.{is_empty}
use wintermute_brain.Prelude.{
  ℕ, ◌+◌, ◌≤◌, ◌≡◌, refl, ◌≢◌, ◌⊎◌, inl, inr, false, List, [], ◌∷◌, Option, none, some, Text,
  text_eq_iff, text_eq_refl, arith, Option-cases, All, All-map,
}
use wintermute_brain.Degrade.{
  rate_limit_ms, check_and_record, Aggregator, process_error_envelope, degrade_phrase,
  component_for_error_topic, kind_or_general, process_component, speak_limited,
}

-- One error event as it comes in: its topic, the `kind` of its payload, and the time.
pub record Envelope : Type 0 where
  pub topic : Text
  pub kind_field : Option Text
  pub now_ms : ℕ

abbrev pub kind_of : Envelope → Text
kind_of e = kind_or_general e.kind_field

abbrev spoken_entry : Envelope → Option Text → List (Text × ℕ) → List (Text × ℕ)
spoken_entry e none rest = rest
spoken_entry e (some phrase) rest = (kind_of e, e.now_ms) ∷ rest

-- The kinds that are spoken for a list of envelopes, each with its time, in order.
unfoldable pub spoken : Aggregator → List Envelope → List (Text × ℕ)
spoken a [] = []
spoken a (e ∷ es) =
    let (a', said) = process_error_envelope e.topic e.kind_field e.now_ms a in
    spoken_entry e said (spoken a' es)

-- Any two entries of one kind lie a whole window apart, the later one later.
abbrev pub IsSpaced : List (Text × ℕ) → Type 0
IsSpaced [] = Unit
IsSpaced ((kind, at) ∷ rest) =
    All (λ (entry : Text × ℕ). entry.0 ≡ kind → at + rate_limit_ms ≤ entry.1) rest × IsSpaced rest

-- What one envelope does to the memory of a kind that was spoken at `at`.
abbrev StepKeeps : Text → ℕ → Envelope → Aggregator → Option Text → Type 0
StepKeeps kind at e a' none = lookup kind a'.rate ≡ some at
StepKeeps kind at e a' (some phrase) =
    ((kind_of e ≡ kind) × (at + rate_limit_ms ≤ e.now_ms) × (lookup kind a'.rate ≡ some e.now_ms))
    ⊎ ((kind_of e ≢ kind) × (lookup kind a'.rate ≡ some at))

process-StepKeeps :
    (kind : Text) (at : ℕ) (e : Envelope) (a : Aggregator)
    → lookup kind a.rate ≡ some at
    → let (a', said) = process_error_envelope e.topic e.kind_field e.now_ms a in
      StepKeeps kind at e a' said
unfolding process_error_envelope check_and_record
process-StepKeeps kind at e a h =
    ground (arith, text_eq_iff (kind_of e) kind, lookup-insert (kind_of e) kind e.now_ms a.rate)

abbrev FarFrom : Text → ℕ → Text × ℕ → Type 0
FarFrom kind at entry = entry.0 ≡ kind → at + rate_limit_ms ≤ entry.1

spoken_entry-FarFrom :
    (kind : Text) (at : ℕ) (e : Envelope) (a' : Aggregator) (said : Option Text)
    (later : List (Text × ℕ))
    → StepKeeps kind at e a' said
    → ((at' : ℕ) → lookup kind a'.rate ≡ some at' → All (FarFrom kind at') later)
    → All (FarFrom kind at) (spoken_entry e said later)
spoken_entry-FarFrom kind at e a' none later keeps ih = ih at keeps
spoken_entry-FarFrom kind at e a' (some p) later (inl (same, far, now)) ih = (
  λ _. far,
  All-map (FarFrom kind e.now_ms) (FarFrom kind at) later (λ entry h same'. omega (arith, h same'))
      (ih e.now_ms now),
)
spoken_entry-FarFrom kind at e a' (some p) later (inr (other, kept)) ih =
    (λ same. absurd (other same), ih at kept)

spoken-FarFrom :
    (es : List Envelope) (a : Aggregator) (kind : Text) (at : ℕ)
    → lookup kind a.rate ≡ some at
    → All (FarFrom kind at) (spoken a es)
unfolding spoken
spoken-FarFrom [] a kind at h = tt
spoken-FarFrom (e ∷ es) a kind at h =
    let (a', said) = process_error_envelope e.topic e.kind_field e.now_ms a in
    spoken_entry-FarFrom kind at e a' said (spoken a' es) (process-StepKeeps kind at e a h)
      (λ at' h'. spoken-FarFrom es a' kind at' h')

abbrev Remembers : Envelope → Aggregator → Option Text → Type 0
Remembers e a' none = Unit
Remembers e a' (some phrase) = lookup (kind_of e) a'.rate ≡ some e.now_ms

process-Remembers :
    (e : Envelope) (a : Aggregator)
    → let (a', said) = process_error_envelope e.topic e.kind_field e.now_ms a in Remembers e a' said
unfolding process_error_envelope check_and_record
process-Remembers e a =
    ground (arith, text_eq_refl (kind_of e), lookup-insert (kind_of e) (kind_of e) e.now_ms a.rate)

spoken_entry-IsSpaced :
    (e : Envelope) (a' : Aggregator) (said : Option Text) (later : List (Text × ℕ))
    → Remembers e a' said
    → (lookup (kind_of e) a'.rate ≡ some e.now_ms → All (FarFrom (kind_of e) e.now_ms) later)
    → IsSpaced later
    → IsSpaced (spoken_entry e said later)
spoken_entry-IsSpaced e a' none later r far s = s
spoken_entry-IsSpaced e a' (some p) later r far s = (far r, s)

-- Whatever comes in, and whatever the clock does, two phrases for one kind are spoken at least the
-- window of 30 000 ms apart, the later one at the later time.
pub spoken-IsSpaced : (a : Aggregator) (es : List Envelope) → IsSpaced (spoken a es)
unfolding spoken
spoken-IsSpaced a [] = tt
spoken-IsSpaced a (e ∷ es) =
    let (a', said) = process_error_envelope e.topic e.kind_field e.now_ms a in
    spoken_entry-IsSpaced e a' said (spoken a' es) (process-Remembers e a)
      (spoken-FarFrom es a' (kind_of e) e.now_ms) (spoken-IsSpaced a' es)

-- The envelope is from a known component, its kind has a phrase, and the kind was never spoken or
-- was last spoken a window ago.
abbrev pub MaySpeak : Aggregator → Envelope → Type 0
MaySpeak a e =
    (component_for_error_topic e.topic ≢ none)
    × (is_empty (degrade_phrase (kind_of e)) ≡ false)
    × ((last : ℕ) → lookup (kind_of e) a.rate ≡ some last → last + rate_limit_ms ≤ e.now_ms)

may_speak :
    (found : Option Text) (e : Envelope) (a : Aggregator)
    → found ≢ none
    → is_empty (degrade_phrase (kind_of e)) ≡ false
    → ((last : ℕ) → lookup (kind_of e) a.rate ≡ some last → last + rate_limit_ms ≤ e.now_ms)
    → (process_component found e.kind_field e.now_ms a).1 ≡ some (degrade_phrase (kind_of e))
unfolding process_component speak_limited check_and_record
may_speak none e a known phrase far = absurd (known refl)
may_speak (some c) e a known phrase far = elim (Option-cases (lookup (kind_of e) a.rate)) [
  | inl fresh ↦ ground arith
  | inr (last, old) ↦ ground (arith, far last old)
]

spoke :
    (found : Option Text) (e : Envelope) (a : Aggregator) (phrase : Text)
    → (process_component found e.kind_field e.now_ms a).1 ≡ some phrase
    → (found ≢ none)
      × (is_empty (degrade_phrase (kind_of e)) ≡ false)
      × ((last : ℕ) → lookup (kind_of e) a.rate ≡ some last → last + rate_limit_ms ≤ e.now_ms)
unfolding process_component speak_limited check_and_record
spoke none e a phrase h = absurd (ground arith)
spoke (some c) e a phrase h = (ground arith, ground arith, λ last old. ground arith)

-- The aggregator speaks exactly when the envelope may be spoken: it then returns the phrase of its
-- kind, and whatever it returns was allowed.
pub process_error_envelope-MaySpeak :
    (a : Aggregator) (e : Envelope)
    → (MaySpeak a e
        → (process_error_envelope e.topic e.kind_field e.now_ms a).1
          ≡ some (degrade_phrase (kind_of e)))
      × ((phrase : Text)
          → (process_error_envelope e.topic e.kind_field e.now_ms a).1 ≡ some phrase
          → MaySpeak a e)
unfolding process_error_envelope
process_error_envelope-MaySpeak a e = (
  λ (known, phrase, far). may_speak (component_for_error_topic e.topic) e a known phrase far,
  λ phrase h. spoke (component_for_error_topic e.topic) e a phrase h,
)
