-- ===== src/Bus/Log.antt =====
-- What a handler adds to the log of the bus: the events that it publishes, behind what was there.
use mathlib.Core.Bool.{false≢true}
use wintermute_brain.Prelude.{
  ℕ, ◌≡◌, refl, sym, ap, ◌∙◌, ◌⊎◌, true, false, List, [], ◌∷◌, ◌++◌, append-nil, append_assoc,
  Bool-cases, inl, inr, All, All-append, All-map,
}
use wintermute_brain.Bus.{Event, Sink, publish}

-- The first list is a part of the second one, in its order.
pub data Part {A : Type 0} : List A → List A → Type 0 where
  part_end : Part [] []
  part_keep : (x : A) {xs ys : List A} → Part xs ys → Part (x ∷ xs) (x ∷ ys)
  part_drop : (x : A) {xs ys : List A} → Part xs ys → Part xs (x ∷ ys)

Part-append :
    {A : Type 0} {xs ys us vs : List A} → Part xs ys → Part us vs → Part (xs ++ us) (ys ++ vs)
Part-append part_end q = q
Part-append (part_keep x p) q = part_keep x (Part-append p q)
Part-append (part_drop x p) q = part_drop x (Part-append p q)

-- What the bus has answered is longer by the new events. What it has taken is longer by a part of them,
-- in their order, and by all of them if it rejects none.
pub record Adds {Json : Type 0} (before after : Sink Json) (new : List (Event Json)) : Type 0 where
  pub log_is : after.log ≡ before.log ++ new
  pub taken : List (Event Json)
  pub on_bus_is : after.on_bus ≡ before.on_bus ++ taken
  pub taken-Part : Part taken new
  pub all_taken : ((n : ℕ) → before.rejects n ≡ false) → taken ≡ new
  pub rejects_same : after.rejects ≡ before.rejects

pub Adds-same : {Json : Type 0} (a b : Sink Json) → b ≡ a → Adds a b []
Adds-same a b same = record {
  log_is = ap (λ (s : Sink _). s.log) same ∙ sym (append-nil a.log);
  taken = [];
  on_bus_is = ap (λ (s : Sink _). s.on_bus) same ∙ sym (append-nil a.on_bus);
  taken-Part = part_end;
  all_taken = λ h. refl;
  rejects_same = ap (λ (s : Sink _). s.rejects) same;
}

pub Adds-trans :
    {Json : Type 0} (a b c : Sink Json) (new more : List (Event Json))
    → Adds a b new
    → Adds b c more
    → Adds a c (new ++ more)
Adds-trans a b c new more f h = record {
  log_is = h.log_is ∙ ap (λ l. l ++ more) f.log_is ∙ append_assoc a.log new more;
  taken = f.taken ++ h.taken;
  on_bus_is =
      h.on_bus_is ∙ ap (λ l. l ++ h.taken) f.on_bus_is ∙ append_assoc a.on_bus f.taken h.taken;
  taken-Part = Part-append f.taken-Part h.taken-Part;
  all_taken = λ none'. rw (f.all_taken none', h.all_taken (λ n. rw f.rejects_same (none' n))) refl;
  rejects_same = h.rejects_same ∙ f.rejects_same;
}

-- A publish succeeds and the bus has answered its event, or it fails and has not.
pub publish-cases :
    {Json : Type 0} (e : Event Json) (s : Sink Json)
    → ((publish e s).1 ≡ true) × Adds s (publish e s).0 (e ∷ [])
      ⊎ ((publish e s).1 ≡ false) × Adds s (publish e s).0 []
unfolding publish
publish-cases e s = elim (Bool-cases (s.accepts s.attempts)) [
  | inr lost ↦ inr (
    rw lost refl,
    rw lost (record {
      log_is = sym (append-nil s.log);
      taken = [];
      on_bus_is = sym (append-nil s.on_bus);
      taken-Part = part_end;
      all_taken = λ h. refl;
      rejects_same = refl;
    }),
  )
  | inl answered ↦ inl (
    rw answered refl,
    rw answered (elim (Bool-cases (s.rejects s.attempts)) [
      | inl rejected ↦ rw rejected (record {
        log_is = refl;
        taken = [];
        on_bus_is = sym (append-nil s.on_bus);
        taken-Part = part_drop e part_end;
        all_taken = λ h. absurd (false≢true (sym (h s.attempts) ∙ rejected));
        rejects_same = refl;
      })
      | inr taken ↦ rw taken (record {
        log_is = refl;
        taken = e ∷ [];
        on_bus_is = refl;
        taken-Part = part_keep e part_end;
        all_taken = λ h. refl;
        rejects_same = refl;
      })
    ]),
  )
]

-- A publish appends its event, or nothing.
pub record Appends {Json : Type 0} (P : Event Json → Type 0) (before after : Sink Json)
    : Type 0 where
  pub new : List (Event Json)
  pub log_is : after.log ≡ before.log ++ new
  pub all_new : All P new

pub publish-Appends :
    {Json : Type 0} (P : Event Json → Type 0) (e : Event Json) (s : Sink Json)
    → P e
    → Appends P s (publish e s).0
unfolding publish
publish-Appends P e s p = elim (Bool-cases (s.accepts s.attempts)) [
  | inl yes' ↦ rw yes' (record { new = e ∷ []; log_is = refl; all_new = (p, tt) })
  | inr no' ↦ rw no' (record { new = []; log_is = sym (append-nil s.log); all_new = tt })
]

pub Appends-refl : {Json : Type 0} (P : Event Json → Type 0) (s : Sink Json) → Appends P s s
Appends-refl P s = record { new = []; log_is = sym (append-nil s.log); all_new = tt }

pub Appends-trans :
    {Json : Type 0} (P : Event Json → Type 0) (a b c : Sink Json)
    → Appends P a b
    → Appends P b c
    → Appends P a c
Appends-trans P a b c f h = record {
  new = f.new ++ h.new;
  log_is = h.log_is ∙ ap (λ l. l ++ h.new) f.log_is ∙ append_assoc a.log f.new h.new;
  all_new = All-append P f.new h.new f.all_new h.all_new;
}

pub Appends-All :
    {Json : Type 0} (P Q : Event Json → Type 0) (a b : Sink Json)
    → ((e : Event Json) → P e → Q e)
    → Appends P a b
    → All Q a.log
    → All Q b.log
Appends-All P Q a b weaken f h =
    rw f.log_is (All-append Q a.log f.new h (All-map P Q f.new weaken f.all_new))
