-- ===== src/Cache/Valid.antt =====
-- The invariant of the cache over all its operations.
use wintermute_brain.Prelude.{
  ℕ, not, ◌&&◌, suc, ◌+◌, ◌≤◌, max, ◌≡◌, refl, ap, ◌∙◌, inl, inr, Bool, ◌&&◌, List, [], ◌∷◌, ◌++◌,
  Option, none, some, Text, codes, text_eq, length, length-append, leb, arith, Bool-cases, subst,
}
use wintermute_brain.Cache.{
  Float, Row, Faults, evict_oldest, SemanticCache, lookup, best_of, served, room, insert,
  insert_key, insert_embedded, new_row, with_rows, Table, create_table, open_cache, DbResult, done,
}
use wintermute_brain.Cache.Bound.{Ordered, evict-Evicts, Ordered-remove, Ordered-end, Ordered-bump}

module _ (f : Float) where
  open f use {F32, minus_one, ge}

  -- The ids go up, and the table holds at most `max_entries` rows, or one row where that is 0, or else
  -- at most the rows that were stored in it.
  pub record IsValid (stored limit : ℕ) (c : SemanticCache f) : Type 0 where
    pub ordered : Ordered 0 c.db.last_id c.db.rows
    pub bounded : length c.db.rows ≤ max stored (max c.max_entries 1)
    pub limit_is : c.max_entries ≡ limit

  -- The calls of the daemon, each with its key vector, the statements that succeed and the time.
  pub data Call : Type 0 where
    look : Option (List F32) → Faults → ℕ → Call
    put : Option (List F32) → (reply tier : Text) → Faults → ℕ → Call

  unfoldable pub after_call : SemanticCache f → Call → SemanticCache f
  after_call c (look embedded faults now_ms) = (lookup f embedded faults now_ms c).0
  after_call c (put embedded reply tier faults now_ms) =
      (insert f embedded reply tier faults now_ms c).0

  unfoldable pub after_calls : SemanticCache f → List Call → SemanticCache f
  unfolding after_call
  after_calls c [] = c
  after_calls c (call ∷ calls) = after_calls (after_call c call) calls

  length-middle : (xs ys : List Row) (x : Row) → length (xs ++ x ∷ ys) ≡ suc (length (xs ++ ys))
  length-middle [] ys x = refl
  length-middle (z ∷ xs) ys x = ap suc (length-middle xs ys x)

  -- What is left for a new row: ids that go up, and a free place.
  room_lem :
      {k l : ℕ} (c : SemanticCache f)
      → IsValid k l c
      → Ordered 0 c.db.last_id (room f c) × (length (room f c) + 1 ≤ max k (max c.max_entries 1))
  unfolding evict_oldest
  room_lem {k} c v = elim (Bool-cases (leb c.max_entries (length c.db.rows))) [
    | inr below ↦ rw below (v.ordered, ground arith)
    | inl full ↦ rw full (go c.db.rows v.ordered v.bounded)
  ]
    where
      go :
          (rows : List Row)
          → Ordered 0 c.db.last_id rows
          → length rows ≤ max k (max c.max_entries 1)
          → Ordered 0 c.db.last_id (evict_oldest rows)
            × (length (evict_oldest rows) + 1 ≤ max k (max c.max_entries 1))
      go [] o b = (o, omega arith)
      go (r ∷ rows) o b =
          let e = evict-Evicts 0 c.db.last_id r rows o in
          let split : Ordered 0 c.db.last_id (e.before ++ e.gone ∷ e.after) =
            subst (Ordered 0 c.db.last_id) e.rows_are o in
          let fewer : length (r ∷ rows) ≡ suc (length (e.before ++ e.after)) =
            ap length e.rows_are ∙ length-middle e.before e.after e.gone in
          rw e.left_are (Ordered-remove 0 c.db.last_id e.before e.after e.gone split, omega arith)

  served-IsValid :
      {k l : ℕ} (row : Option Row) (sim : F32) (faults : Faults) (now_ms : ℕ) (c : SemanticCache f)
      → IsValid k l c
      → IsValid k l (served f row sim faults now_ms c).0
  unfolding served
  served-IsValid none sim faults now_ms c v = v
  served-IsValid (some r) sim faults now_ms c v =
      let (o, l) = Ordered-bump 0 c.db.last_id now_ms r.id c.db.rows v.ordered in
      let b = v.bounded in
      elim (Bool-cases faults.update_ok) [
        | inl ok ↦ rw ok (record { ordered = o; bounded = omega arith; limit_is = v.limit_is })
        | inr fails ↦ rw fails v
      ]

  lookup-IsValid :
      {k l : ℕ} (embedded : Option (List F32)) (faults : Faults) (now_ms : ℕ) (c : SemanticCache f)
      → IsValid k l c
      → IsValid k l (lookup f embedded faults now_ms c).0
  unfolding lookup
  lookup-IsValid none faults now_ms c v = v
  lookup-IsValid (some query) faults now_ms c v =
      let best = best_of f query (record { sim = minus_one; row = none }) c.db.rows in
      elim (Bool-cases faults.select_ok) [
        | inr fails ↦ rw fails v
        | inl ok ↦ elim (Bool-cases (ge best.sim c.similarity_threshold)) [
          | inl near ↦ simp (ok, near) (served-IsValid best.row best.sim faults now_ms c v)
          | inr far ↦ rw (ok, far) v
        ]
      ]

  insert_key-IsValid :
      {k l : ℕ} (key : List F32) (reply tier : Text) (faults : Faults) (now_ms : ℕ)
      (c : SemanticCache f)
      → IsValid k l c
      → IsValid k l (insert_key f key reply tier faults now_ms c).0
  unfolding insert_key
  insert_key-IsValid {k} {l} key reply tier faults now_ms c v =
      let (o, free) = room_lem c v in
      let new = new_row f (suc c.db.last_id) now_ms key reply tier in
      let more = length-append (room f c) (new ∷ []) in
      let evicted : IsValid k l (with_rows f c (room f c) c.db.last_id) = record {
        ordered = o;
        bounded = omega arith;
        limit_is = v.limit_is;
      } in
      let added : IsValid k l (with_rows f c (room f c ++ new ∷ []) (suc c.db.last_id)) = record {
        ordered = Ordered-end 0 c.db.last_id (room f c) new refl o;
        bounded = omega arith;
        limit_is = v.limit_is;
      } in
      elim (Bool-cases faults.count_ok) [
        | inr fails ↦ rw fails v
        | inl counted ↦
            elim (Bool-cases (leb c.max_entries (length c.db.rows) && not faults.delete_ok)) [
              | inl fails ↦ rw (counted, fails) v
              | inr goes ↦ elim (Bool-cases faults.insert_ok) [
                | inl ok ↦ rw (counted, goes, ok) added
                | inr fails ↦ rw (counted, goes, fails) evicted
              ]
            ]
      ]

  insert_embedded-IsValid :
      {k l : ℕ} (e : Option (List F32)) (reply tier : Text) (faults : Faults) (now_ms : ℕ)
      (c : SemanticCache f)
      → IsValid k l c
      → IsValid k l (insert_embedded f e reply tier faults now_ms c).0
  unfolding insert_embedded
  insert_embedded-IsValid none reply tier faults now_ms c v = v
  insert_embedded-IsValid (some key) reply tier faults now_ms c v =
      insert_key-IsValid key reply tier faults now_ms c v

  after_call-IsValid :
      {k l : ℕ} (c : SemanticCache f) (call : Call)
      → IsValid k l c
      → IsValid k l (after_call c call)
  unfolding after_call insert
  after_call-IsValid c (look embedded faults now_ms) v = lookup-IsValid embedded faults now_ms c v
  after_call-IsValid c (put embedded reply tier faults now_ms) v =
      elim (Bool-cases (text_eq tier (codes "cache"))) [
        | inl again ↦ rw (again, after_call, insert) v
        | inr fresh ↦
            rw (fresh, after_call, insert)
              (insert_embedded-IsValid embedded reply tier faults now_ms c v)
      ]

  calls-IsValid :
      {k l : ℕ} (c : SemanticCache f) (calls : List Call)
      → IsValid k l c
      → IsValid k l (after_calls c calls)
  unfolding after_calls
  calls-IsValid c [] v = v
  calls-IsValid c (call ∷ calls) v =
      calls-IsValid (after_call c call) calls (after_call-IsValid c call v)

  done-injective :
      {c d : SemanticCache f} → ◌≡◌ {A = DbResult (SemanticCache f)} (done c) (done d) → c ≡ d
  done-injective e = ground arith

  opened_as :
      (opens creates : Bool) (stored : Option Table) (max_entries : ℕ) (threshold : F32)
      (c : SemanticCache f)
      → open_cache f opens creates stored max_entries threshold ≡ done c
      → (record {
        db = create_table stored;
        max_entries = max_entries;
        similarity_threshold = threshold;
      })
        ≡ c
  unfolding open_cache
  opened_as opens creates stored max_entries threshold c opened =
      elim (Bool-cases (opens && creates)) [
        | inr fails ↦ absurd (ground arith)
        | inl works ↦ done-injective (rw works at opened)
      ]

  opened-IsValid :
      (stored : Option Table) (max_entries : ℕ) (threshold : F32)
      → Ordered 0 (create_table stored).last_id (create_table stored).rows
      → IsValid (length (create_table stored).rows) max_entries (record {
        db = create_table stored;
        max_entries = max_entries;
        similarity_threshold = threshold;
      })
  opened-IsValid stored max_entries threshold ordered = record {
    ordered = ordered;
    bounded = omega arith;
    limit_is = refl;
  }

  -- A cache that is opened on a new file, or on a stored table whose ids go up: whatever is looked up and
  -- stored afterwards, at whatever times, and whichever statements fail, the ids of the table go up, and
  -- it holds at most `max_entries` rows, or one row where that is 0, or else as many as it was opened with.
  -- So a new file stays within the limit, and a table that is opened over it never gets larger than it was.
  pub after_calls-IsValid :
      (opens creates : Bool) (stored : Option Table) (max_entries : ℕ) (threshold : F32)
      (c : SemanticCache f) (calls : List Call)
      → Ordered 0 (create_table stored).last_id (create_table stored).rows
      → open_cache f opens creates stored max_entries threshold ≡ done c
      → Ordered 0 (after_calls c calls).db.last_id (after_calls c calls).db.rows
        × (length (after_calls c calls).db.rows
            ≤ max (length (create_table stored).rows) (max max_entries 1))
  after_calls-IsValid opens creates stored max_entries threshold c calls ordered opened =
      let v = calls-IsValid c calls (
        subst (IsValid (length (create_table stored).rows) max_entries)
          (opened_as opens creates stored max_entries threshold c opened)
          (opened-IsValid stored max_entries threshold ordered)) in
      let limit = v.limit_is in let bound = v.bounded in (v.ordered, omega arith)
