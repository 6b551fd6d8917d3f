-- ===== src/Cache/Evicts.antt =====
-- What a reply that is stored in a full table takes away from it.
use wintermute_brain.Prelude.{
  ℕ, true, false, suc, ◌≤◌, ◌<◌, ◌≡◌, refl, List, [], ◌∷◌, ◌++◌, some, Text, codes, text_eq, length,
  leb, le→leb, arith,
}
use wintermute_brain.Cache.{
  Float, Row, Faults, evict_oldest, SemanticCache, insert, insert_key, insert_embedded, new_row,
}
use wintermute_brain.Cache.Bound.{Evicts, Ordered, evict-Evicts}
use wintermute_brain.Cache.Valid.{IsValid}

module _ (f : Float) where
  open f use {F32}

  full-Evicts :
      (hi : ℕ) (rows : List Row)
      → Ordered 0 hi rows
      → 0 < length rows
      → Evicts rows (evict_oldest rows)
  full-Evicts hi [] o h = absurd (omega arith)
  full-Evicts hi (r ∷ rows) o h = evict-Evicts 0 hi r rows o

  -- A reply that is stored at a bound which is above 0 and reached: when each statement succeeds, one row
  -- with the least time makes room, the other rows stay as they are, and the new row is the last one.
  pub insert-Evicts :
      {k l : ℕ} (key : List F32) (reply tier : Text) (faults : Faults) (now_ms : ℕ)
      (c : SemanticCache f)
      → IsValid f k l c
      → text_eq tier (codes "cache") ≡ false
      → (faults.count_ok ≡ true) × (faults.delete_ok ≡ true) × (faults.insert_ok ≡ true)
      → 0 < c.max_entries
      → c.max_entries ≤ length c.db.rows
      → (left : List Row) × Evicts c.db.rows left
        × ((insert f (some key) reply tier faults now_ms c).0.db.rows
            ≡ left ++ new_row f (suc c.db.last_id) now_ms key reply tier ∷ [])
  unfolding insert insert_embedded insert_key
  insert-Evicts key reply tier faults now_ms c v fresh ok some_room full =
      let reached : leb c.max_entries (length c.db.rows) ≡ true = le→leb _ _ full in
      let (counted, deleted, inserted) = ok in
      (
        evict_oldest c.db.rows,
        full-Evicts c.db.last_id c.db.rows v.ordered (omega arith),
        simp (fresh, counted, reached, deleted, inserted) refl,
      )
