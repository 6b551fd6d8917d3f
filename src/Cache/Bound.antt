-- ===== src/Cache/Bound.antt =====
-- The size of the cache, and which row makes room for a new one.
use mathlib.Core.List.{Memᴰ}
use wintermute_brain.Prelude.{
  ℕ, suc, ◌≤◌, ◌<◌, ◌≡◌, refl, sym, ap, ◌∙◌, subst, inl, inr, Bool, true, false, List, [], ◌∷◌,
  ◌++◌, length, ltb, ltb→lt, ◌==◌, if◌then◌else◌, arith, Bool-cases, All,
}
use wintermute_brain.Cache.{Row, oldest, delete_id, evict_oldest, bump}

-- The ids go up along the rows, from above `lo` to at most `hi`.
abbrev pub Ordered : ℕ → ℕ → List Row → Type 0
Ordered lo hi [] = lo ≤ hi
Ordered lo hi (r ∷ rows) = (lo < r.id) × Ordered r.id hi rows

-- A row with the least time is gone, and the others stay as they are.
pub record Evicts (rows left : List Row) : Type 0 where
  pub before : List Row
  pub gone : Row
  pub after : List Row
  pub rows_are : rows ≡ before ++ gone ∷ after
  pub left_are : left ≡ before ++ after
  pub least : All (λ r. gone.ts ≤ r.ts) rows

mem_skip : {o r : Row} {rows : List Row} (s : Row) → Memᴰ o (r ∷ rows) → Memᴰ o (r ∷ s ∷ rows)
mem_skip s (Memᴰ.head e) = Memᴰ.head e
mem_skip s (Memᴰ.tail m) = Memᴰ.tail (Memᴰ.tail m)

-- The row is one of those, and none of them is older.
abbrev IsLeast : Row → Row → List Row → Type 0
IsLeast o r rows = Memᴰ o (r ∷ rows) × (o.ts ≤ r.ts) × All (λ x. o.ts ≤ x.ts) rows

oldest-cons :
    (r s : Row) (rows : List Row) (b : Bool)
    → ltb s.ts r.ts ≡ b
    → oldest r (s ∷ rows) ≡ oldest (if b then s else r) rows
unfolding oldest
oldest-cons r s rows b e = ap (λ (c : Bool). oldest (if c then s else r) rows) e

oldest-IsLeast : (r : Row) (rows : List Row) → IsLeast (oldest r rows) r rows
unfolding oldest
oldest-IsLeast r [] = (Memᴰ.head refl, omega arith, tt)
oldest-IsLeast r (s ∷ rows) = elim (Bool-cases (ltb s.ts r.ts)) [
  | inl younger ↦
      let (mem, le, all) = oldest-IsLeast s rows in
      let lt = ltb→lt s.ts r.ts younger in
      subst (λ o. IsLeast o r (s ∷ rows)) (sym (oldest-cons r s rows true younger))
        (Memᴰ.tail mem, omega arith, (le, all))
  | inr older ↦
      let (mem, le, all) = oldest-IsLeast r rows in
      let not_lt : r.ts ≤ s.ts = ground arith in
      subst (λ o. IsLeast o r (s ∷ rows)) (sym (oldest-cons r s rows false older))
        (mem_skip s mem, le, (omega arith, all))
]

record Splits (o : Row) (rows : List Row) : Type 0 where
  before : List Row
  after : List Row
  splits : rows ≡ before ++ o ∷ after

Memᴰ-Splits : {o : Row} {rows : List Row} → Memᴰ o rows → Splits o rows
Memᴰ-Splits {rows = []} m = elim m [ ]
Memᴰ-Splits {rows = r ∷ rows} (Memᴰ.head e) = record {
  before = [];
  after = rows;
  splits = ap (λ x. x ∷ rows) (sym e);
}
Memᴰ-Splits {rows = r ∷ rows} (Memᴰ.tail m) =
    let rest = Memᴰ-Splits m in
    record {
      before = r ∷ rest.before;
      after = rest.after;
      splits = ap (λ (l : List Row). r ∷ l) rest.splits;
    }

delete_id-above :
    (id lo hi : ℕ) (rows : List Row) → id ≤ lo → Ordered lo hi rows → delete_id id rows ≡ rows
unfolding delete_id
delete_id-above id lo hi [] h o = refl
delete_id-above id lo hi (r ∷ rows) h o =
    let other : (r.id == id) ≡ false = let lt = o.0 in ground arith in
    rw other (
      ap (λ (l : List Row). r ∷ l)
        (delete_id-above id r.id hi rows (let lt = o.0 in omega arith) o.1))

-- With ids that go up, the delete takes out one row.
delete_id-middle :
    (lo hi : ℕ) (before after : List Row) (o : Row)
    → Ordered lo hi (before ++ o ∷ after)
    → (delete_id o.id (before ++ o ∷ after) ≡ before ++ after) × (lo < o.id)
unfolding delete_id
delete_id-middle lo hi [] after o h =
    let same : (o.id == o.id) ≡ true = ground arith in
    (rw same (delete_id-above o.id o.id hi after (omega arith) h.1), h.0)
delete_id-middle lo hi (b ∷ before) after o h =
    let (e, lt) = delete_id-middle b.id hi before after o h.1 in
    let other : (b.id == o.id) ≡ false = ground arith in
    (rw other (ap (λ (l : List Row). b ∷ l) e), let lo_lt = h.0 in omega arith)

pub evict-Evicts :
    (lo hi : ℕ) (r : Row) (rows : List Row)
    → Ordered lo hi (r ∷ rows)
    → Evicts (r ∷ rows) (evict_oldest (r ∷ rows))
unfolding evict_oldest
evict-Evicts lo hi r rows h =
    let o = oldest r rows in
    let (mem, le, all) = oldest-IsLeast r rows in
    let s = Memᴰ-Splits mem in
    record {
      before = s.before;
      gone = o;
      after = s.after;
      rows_are = s.splits;
      left_are =
          ap (delete_id o.id) s.splits
          ∙ (delete_id-middle lo hi s.before s.after o (subst (Ordered lo hi) s.splits h)).0;
      least = (le, all);
    }

pub Ordered-lower :
    (lo mid hi : ℕ) (rows : List Row) → lo ≤ mid → Ordered mid hi rows → Ordered lo hi rows
Ordered-lower lo mid hi [] h o = omega arith
Ordered-lower lo mid hi (r ∷ rows) h o = (let lt = o.0 in omega arith, o.1)

pub Ordered-remove :
    (lo hi : ℕ) (before after : List Row) (o : Row)
    → Ordered lo hi (before ++ o ∷ after)
    → Ordered lo hi (before ++ after)
Ordered-remove lo hi [] after o h = Ordered-lower lo o.id hi after (let lt = h.0 in omega arith) h.1
Ordered-remove lo hi (b ∷ before) after o h = (h.0, Ordered-remove b.id hi before after o h.1)

pub Ordered-end :
    (lo hi : ℕ) (rows : List Row) (r : Row)
    → r.id ≡ suc hi
    → Ordered lo hi rows
    → Ordered lo (suc hi) (rows ++ r ∷ [])
Ordered-end lo hi [] r e h = (omega arith, omega arith)
Ordered-end lo hi (s ∷ rows) r e h = (h.0, Ordered-end s.id hi rows r e h.1)

pub Ordered-bump :
    (lo hi now_ms id : ℕ) (rows : List Row)
    → Ordered lo hi rows
    → Ordered lo hi (bump now_ms id rows) × (length (bump now_ms id rows) ≡ length rows)
unfolding bump
Ordered-bump lo hi now_ms id [] h = (h, refl)
Ordered-bump lo hi now_ms id (r ∷ rows) h =
    let (o, l) = Ordered-bump r.id hi now_ms id rows h.1 in
    elim (Bool-cases (r.id == id)) [
      | inl hit ↦ rw hit ((h.0, o), ap suc l)
      | inr other ↦ rw other ((h.0, o), ap suc l)
    ]
