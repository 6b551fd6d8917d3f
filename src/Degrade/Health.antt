-- ===== src/Degrade/Health.antt =====
-- What the health record shows after any errors.
use wintermute_brain.Prelude.Assoc.{lookup, insert, lookup-insert}
use wintermute_brain.Prelude.{
  ℕ, ◌≡◌, refl, ap, ◌∙◌, subst, ◌⊎◌, inl, inr, List, [], ◌∷◌, map, Option, none, some, Text, codes,
  text_eq, text_eq_iff, if◌then◌else◌, arith, Option-cases,
}
use wintermute_brain.Degrade.{
  HealthState, ComponentHealth, degraded_entry, ok_entry, new_health, record_error, snapshot,
  Aggregator, process_error_envelope, process_component, component_for_error_topic, speak_limited,
}
use wintermute_brain.Degrade.Limiter.{Envelope, kind_of}

-- Every entry stands under the name of its component.
abbrev IsKeyed : HealthState → Type 0
IsKeyed [] = Unit
IsKeyed ((k, c) ∷ m) = (c.component ≡ k) × IsKeyed m

lookup-IsKeyed :
    (k : Text) (m : HealthState) (c : ComponentHealth)
    → IsKeyed m
    → lookup k m ≡ some c
    → c.component ≡ k
unfolding lookup
lookup-IsKeyed k [] c h e = cc
lookup-IsKeyed k ((j, d) ∷ m) c h e = ground (arith, text_eq_iff j k, lookup-IsKeyed k m c h.1)

insert-IsKeyed :
    (k : Text) (m : HealthState) (c : ComponentHealth)
    → IsKeyed m
    → c.component ≡ k
    → IsKeyed (insert k c m)
unfolding insert
insert-IsKeyed k [] c h e = (e, tt)
insert-IsKeyed k ((j, d) ∷ m) c h e = ground (arith, insert-IsKeyed k m c h.1)

-- `record_error` marks one component and leaves the others.
lookup-record_error :
    (c d kind : Text) (ts : ℕ) (m : HealthState)
    → IsKeyed m
    → lookup d (record_error c kind ts m)
      ≡ (if text_eq c d then some (degraded_entry c kind ts) else lookup d m)
unfolding record_error
lookup-record_error c d kind ts m h = elim (Option-cases (lookup c m)) [
  | inl absent ↦ rw absent (lookup-insert c d _ m)
  | inr (entry, present) ↦ rw present (
      lookup-insert c d _ m
      ∙ ap
          (λ name.
            if text_eq c d
            then some (record {
              component = name;
              state = codes "degraded";
              last_error = kind;
              last_seen_ts = ts;
            })
            else lookup d m)
          (lookup-IsKeyed c m entry h present))
]

-- The four components, in the order in which they are made.
record Four (m : HealthState) : Type 0 where
  audio : ComponentHealth
  stt : ComponentHealth
  tts : ComponentHealth
  brain : ComponentHealth
  shape :
      m
      ≡ (codes "audio", audio)
        ∷ (codes "stt", stt)
        ∷ (codes "tts", tts)
        ∷ (codes "brain", brain)
        ∷ []
  keyed : IsKeyed m

abbrev IsComponent : Text → Type 0
IsComponent c = (c ≡ codes "audio") ⊎ (c ≡ codes "stt") ⊎ (c ≡ codes "tts") ⊎ (c ≡ codes "brain")

Four-insert :
    (c : Text) (entry : ComponentHealth) (m : HealthState)
    → Four m
    → IsComponent c
    → entry.component ≡ c
    → Four (insert c entry m)
unfolding insert text_eq
Four-insert c entry m f (inl e) k = record {
  audio = entry;
  stt = f.stt;
  tts = f.tts;
  brain = f.brain;
  shape = rw (f.shape, e) refl;
  keyed = insert-IsKeyed c m entry f.keyed k;
}
Four-insert c entry m f (inr (inl e)) k = record {
  audio = f.audio;
  stt = entry;
  tts = f.tts;
  brain = f.brain;
  shape = rw (f.shape, e) refl;
  keyed = insert-IsKeyed c m entry f.keyed k;
}
Four-insert c entry m f (inr (inr (inl e))) k = record {
  audio = f.audio;
  stt = f.stt;
  tts = entry;
  brain = f.brain;
  shape = rw (f.shape, e) refl;
  keyed = insert-IsKeyed c m entry f.keyed k;
}
Four-insert c entry m f (inr (inr (inr e))) k = record {
  audio = f.audio;
  stt = f.stt;
  tts = f.tts;
  brain = entry;
  shape = rw (f.shape, e) refl;
  keyed = insert-IsKeyed c m entry f.keyed k;
}

Four-record_error :
    (c kind : Text) (ts : ℕ) (m : HealthState)
    → Four m
    → IsComponent c
    → Four (record_error c kind ts m)
unfolding record_error
Four-record_error c kind ts m f i = Four-insert c _ m f i (elim (Option-cases (lookup c m)) [
  | inl absent ↦ rw absent refl
  | inr (entry, present) ↦ rw present (lookup-IsKeyed c m entry f.keyed present)
])

component_for_error_topic-IsComponent :
    (topic c : Text) → component_for_error_topic topic ≡ some c → IsComponent c
unfolding component_for_error_topic
component_for_error_topic-IsComponent topic c h = ground arith

-- The health that an envelope leaves does not depend on whether it is spoken.
abbrev health_after : Option Text → Envelope → HealthState → HealthState
health_after none e m = m
health_after (some c) e m = record_error c (kind_of e) e.now_ms m

health-process :
    (found : Option Text) (e : Envelope) (a : Aggregator)
    → (process_component found e.kind_field e.now_ms a).0.health ≡ health_after found e a.health
unfolding process_component speak_limited
health-process none e a = refl
health-process (some c) e a = ground arith

Four-health_after :
    (found : Option Text) (topic : Text) (e : Envelope) (m : HealthState)
    → component_for_error_topic topic ≡ found
    → Four m
    → Four (health_after found e m)
Four-health_after none topic e m h f = f
Four-health_after (some c) topic e m h f =
    Four-record_error c (kind_of e) e.now_ms m f (component_for_error_topic-IsComponent topic c h)

-- The envelopes one after the other.
unfoldable pub process_all : List Envelope → Aggregator → Aggregator
process_all [] a = a
process_all (e ∷ es) a = process_all es (process_error_envelope e.topic e.kind_field e.now_ms a).0

Four-process_all :
    (es : List Envelope) (a : Aggregator) → Four a.health → Four (process_all es a).health
unfolding process_all process_error_envelope
Four-process_all [] a f = f
Four-process_all (e ∷ es) a f = Four-process_all es _ (
    rw (health-process (component_for_error_topic e.topic) e a)
      (Four-health_after (component_for_error_topic e.topic) e.topic e a.health refl f))

Four-new : (ts : ℕ) → Four (new_health ts)
unfolding new_health
Four-new ts = record {
  audio = ok_entry (codes "audio") ts;
  stt = ok_entry (codes "stt") ts;
  tts = ok_entry (codes "tts") ts;
  brain = ok_entry (codes "brain") ts;
  shape = refl;
  keyed = (refl, (refl, (refl, (refl, tt))));
}

Four-snapshot :
    (m : HealthState) (ts : ℕ)
    → Four m
    → map (λ c. c.component) (snapshot ts m).components
      ≡ codes "audio" ∷ codes "brain" ∷ codes "stt" ∷ codes "tts" ∷ []
unfolding snapshot
Four-snapshot m ts f =
    let k = subst IsKeyed f.shape f.keyed in rw f.shape (rw (k.0, k.1.0, k.1.1.0, k.1.1.1.0) refl)

-- Whatever envelopes come in, a snapshot lists the four components, each once, in the order of
-- their names.
pub snapshot-process_all :
    (es : List Envelope) (a : Aggregator) (start ts : ℕ)
    → a.health ≡ new_health start
    → map (λ c. c.component) (snapshot ts (process_all es a).health).components
      ≡ codes "audio" ∷ codes "brain" ∷ codes "stt" ∷ codes "tts" ∷ []
snapshot-process_all es a start ts e =
    Four-snapshot (process_all es a).health ts (Four-process_all es a (rw e (Four-new start)))

abbrev pub marked : Option Text → Text → Envelope → HealthState → Option ComponentHealth
marked none d e m = lookup d m
marked (some c) d e m =
    if text_eq c d then some (degraded_entry c (kind_of e) e.now_ms) else lookup d m

lookup-health_after :
    (found : Option Text) (d : Text) (e : Envelope) (m : HealthState)
    → IsKeyed m
    → lookup d (health_after found e m) ≡ marked found d e m
lookup-health_after none d e m k = refl
lookup-health_after (some c) d e m k = lookup-record_error c d (kind_of e) e.now_ms m k

-- After any envelopes, one more marks the component of its topic as degraded, with its kind and its
-- time, also where the limiter or an empty phrase keeps it from being spoken. It leaves the other
-- components, and with an unknown topic all of them.
pub lookup-process :
    (es : List Envelope) (a : Aggregator) (start : ℕ) (e : Envelope) (d : Text)
    → a.health ≡ new_health start
    → let b = process_all es a in
      lookup d (process_error_envelope e.topic e.kind_field e.now_ms b).0.health
      ≡ marked (component_for_error_topic e.topic) d e b.health
unfolding process_error_envelope
lookup-process es a start e d h =
    let b = process_all es a in
    let f = Four-process_all es a (rw h (Four-new start)) in
    ap (lookup d) (health-process (component_for_error_topic e.topic) e b)
    ∙ lookup-health_after (component_for_error_topic e.topic) d e b.health f.keyed
