-- ===== src/Cache/Best.antt =====
-- What a lookup serves: the reply of a row that no other row beats, near enough to the question.
use mathlib.Core.List.{Memᴰ}
use mathlib.Core.Bool.{false≢true}
use wintermute_brain.Prelude.{
  ℕ, ◌≡◌, refl, sym, ap, ◌∙◌, ◌⊎◌, inl, inr, Bool, true, false, List, [], ◌∷◌, none, some,
  if◌then◌else◌, arith, Bool-cases, All, subst,
}
use wintermute_brain.Cache.{
  Float, Row, Faults, CacheHit, SemanticCache, BestRow, done, lookup, best_of, served,
  cosine_similarity, bytes_to_f32_vec,
}

module _ (f : Float) where
  open f use {F32, minus_one, gt, ge}

  abbrev pub sim_to : List F32 → Row → F32
  sim_to query r = cosine_similarity f query (bytes_to_f32_vec f r.key_vec)

  -- A row of the table with this similarity, which no row of the table beats.
  pub record IsBest (query : List F32) (rows : List Row) (r : Row) (sim : F32) : Type 0 where
    pub mem : Memᴰ r rows
    pub is_sim : sim ≡ sim_to query r
    pub unbeaten : All (λ x. gt (sim_to query x) sim ≡ false) rows

  -- What `>` of `f32` satisfies, also at values that are no numbers.
  pub record IsOrder : Type 0 where
    pub transitive : (a b c : F32) → gt a b ≡ true → gt b c ≡ true → gt a c ≡ true
    pub irreflexive : (a : F32) → gt a a ≡ false

  abbrev pub start_with : List F32 → Row → BestRow f
  start_with query r = record { sim = sim_to query r; row = some r }

  below : IsOrder → (x y z : F32) → gt x z ≡ false → gt y z ≡ true → gt x y ≡ false
  below o x y z h k = elim (Bool-cases (gt x y)) [
    | inr no' ↦ no'
    | inl above ↦ absurd (false≢true (sym h ∙ o.transitive x y z above k))
  ]

  best_of-cons :
      (query : List F32) (best : BestRow f) (r : Row) (rows : List Row) (b : Bool)
      → gt (sim_to query r) best.sim ≡ b
      → best_of f query best (r ∷ rows)
        ≡ best_of f query (if b then start_with query r else best) rows
  unfolding best_of
  best_of-cons query best r rows b e =
      ap (λ (c : Bool). best_of f query (if c then start_with query r else best) rows) e

  -- A row that does not beat the best row so far does not beat the one that the loop ends with.
  unbeaten_start :
      IsOrder
      → (query : List F32) (best : BestRow f) (rows : List Row) (x : F32) → gt x best.sim ≡ false
      → gt x (best_of f query best rows).sim ≡ false
  unfolding best_of
  unbeaten_start o query best [] x h = h
  unbeaten_start o query best (r ∷ rows) x h = elim (Bool-cases (gt (sim_to query r) best.sim)) [
    | inr stays ↦
        subst (λ (end : BestRow f). gt x end.sim ≡ false)
          (sym (best_of-cons query best r rows false stays)) (unbeaten_start o query best rows x h)
    | inl beats ↦
        subst (λ (end : BestRow f). gt x end.sim ≡ false)
          (sym (best_of-cons query best r rows true beats))
          (unbeaten_start o query (start_with query r) rows x
            (below o x (sim_to query r) best.sim h beats))
  ]

  -- The loop ends as it started, and no row beats that; or with a best row.
  abbrev Ends : List F32 → BestRow f → List Row → BestRow f → Type 0
  Ends query best rows end =
      (end ≡ best) × All (λ x. gt (sim_to query x) best.sim ≡ false) rows
      ⊎ ((r : Row) × (end.row ≡ some r) × IsBest query rows r end.sim)

  first-IsBest :
      (query : List F32) (r : Row) (rows : List Row) (sim : F32)
      → sim ≡ sim_to query r
      → gt (sim_to query r) (sim_to query r) ≡ false
      → All (λ x. gt (sim_to query x) (sim_to query r) ≡ false) rows
      → IsBest query (r ∷ rows) r sim
  first-IsBest query r rows sim e self all = record {
    mem = Memᴰ.head refl;
    is_sim = e;
    unbeaten = subst (λ s. All (λ x. gt (sim_to query x) s ≡ false) (r ∷ rows)) (sym e) (self, all);
  }

  -- A best row of the rest is one of all the rows, where it is not beaten by the first one.
  further :
      (query : List F32) (s : Row) (rows : List Row) (r : Row) (sim : F32)
      → gt (sim_to query s) sim ≡ false
      → IsBest query rows r sim
      → IsBest query (s ∷ rows) r sim
  further query s rows r sim h b = record {
    mem = Memᴰ.tail b.mem;
    is_sim = b.is_sim;
    unbeaten = (h, b.unbeaten);
  }

  best_of-Ends :
      IsOrder
      → (query : List F32) (best : BestRow f) (rows : List Row)
      → Ends query best rows (best_of f query best rows)
  unfolding best_of
  best_of-Ends o query best [] = inl (refl, tt)
  best_of-Ends o query best (r ∷ rows) = elim (Bool-cases (gt (sim_to query r) best.sim)) [
    | inr stays ↦
        subst (Ends query best (r ∷ rows)) (sym (best_of-cons query best r rows false stays))
          (elim (best_of-Ends o query best rows) [
            | inl (same, all) ↦ inl (same, (stays, all))
            | inr (x, is, b) ↦
                inr (x, is, further query r rows x _ (unbeaten_start o query best rows _ stays) b)
          ])
    | inl beats ↦
        let mine = start_with query r in
        let self = o.irreflexive (sim_to query r) in
        subst (Ends query best (r ∷ rows)) (sym (best_of-cons query best r rows true beats))
          (elim (best_of-Ends o query mine rows) [
            | inl (same, all) ↦ inr (
              r,
              ap (λ (e : BestRow f). e.row) same,
              first-IsBest query r rows _ (ap (λ (e : BestRow f). e.sim) same) self all,
            )
            | inr (x, is, b) ↦
                inr (x, is, further query r rows x _ (unbeaten_start o query mine rows _ self) b)
          ])
  ]

  -- What `served` answers for a best row.
  served-hit :
      (r : Row) (sim : F32) (faults : Faults) (now_ms : ℕ) (c : SemanticCache f) (hit : CacheHit f)
      → (served f (some r) sim faults now_ms c).1 ≡ done (some hit)
      → (hit.similarity ≡ sim) × (hit.reply ≡ r.reply) × (hit.tier ≡ r.tier)
  unfolding served
  served-hit r sim faults now_ms c hit e = ground arith

  abbrev start : BestRow f
  start = record { sim = minus_one; row = none }

  lookup-hit :
      (query : List F32) (faults : Faults) (now_ms : ℕ) (c : SemanticCache f) (hit : CacheHit f)
      → (lookup f (some query) faults now_ms c).1 ≡ done (some hit)
      → let best = best_of f query start c.db.rows in
        (ge best.sim c.similarity_threshold ≡ true)
        × ((served f best.row best.sim faults now_ms c).1 ≡ done (some hit))
  unfolding lookup
  lookup-hit query faults now_ms c hit e = ground arith

  hit_of :
      (query : List F32) (best : BestRow f) (faults : Faults) (now_ms : ℕ) (c : SemanticCache f)
      (hit : CacheHit f)
      → ge minus_one c.similarity_threshold ≡ false
      → ge best.sim c.similarity_threshold ≡ true
      → (served f best.row best.sim faults now_ms c).1 ≡ done (some hit)
      → Ends query start c.db.rows best
      → (r : Row) × IsBest query c.db.rows r hit.similarity
        × (ge hit.similarity c.similarity_threshold ≡ true)
        × (hit.reply ≡ r.reply)
        × (hit.tier ≡ r.tier)
  hit_of query best faults now_ms c hit low near e (inl (same, all)) = absurd (
      false≢true
        (sym low ∙ subst (λ (b : BestRow f). ge b.sim c.similarity_threshold ≡ true) same near))
  hit_of query best faults now_ms c hit low near e (inr (r, is, b)) =
      let row : (served f (some r) best.sim faults now_ms c).1 ≡ done (some hit) =
        subst (λ o. (served f o best.sim faults now_ms c).1 ≡ done (some hit)) is e in
      let (sim, reply, tier) = served-hit r best.sim faults now_ms c hit row in
      (
        r,
        subst (IsBest query c.db.rows r) (sym sim) b,
        subst (λ s. ge s c.similarity_threshold ≡ true) (sym sim) near,
        reply,
        tier,
      )

  -- With a threshold above -1, and `>` of `f32` transitive and irreflexive: a hit of a lookup has the
  -- reply and the tier of a row of the table and that row's similarity to the question; it is not
  -- below the threshold, and no row of the table is more similar.
  pub lookup-IsBest :
      (query : List F32) (faults : Faults) (now_ms : ℕ) (c : SemanticCache f) (hit : CacheHit f)
      → IsOrder
      → ge minus_one c.similarity_threshold ≡ false
      → (lookup f (some query) faults now_ms c).1 ≡ done (some hit)
      → (r : Row) × IsBest query c.db.rows r hit.similarity
        × (ge hit.similarity c.similarity_threshold ≡ true)
        × (hit.reply ≡ r.reply)
        × (hit.tier ≡ r.tier)
  unfolding lookup
  lookup-IsBest query faults now_ms c hit o low e =
      let (near, answered) = lookup-hit query faults now_ms c hit e in
      hit_of query (best_of f query start c.db.rows) faults now_ms c hit low near answered
        (best_of-Ends o query start c.db.rows)
