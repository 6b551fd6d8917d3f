-- ===== src/Cache.antt =====
-- src/cache.rs: the semantic cache of replies. The floating-point numbers and the embedder are parameters;
-- the table of SQLite is the list of its rows by id, and each statement may fail.
pub mod Bound
pub mod Valid
pub mod Evicts
pub mod Best
pub mod Bytes
mod Tests
use wintermute_brain.Prelude.Unicode.{Unicode}
use wintermute_brain.Prelude.{
  ℕ, suc, ◌+◌, Bool, true, false, not, ◌&&◌, ◌||◌, List, [], ◌∷◌, ◌++◌, Option, none, some, Text,
  codes, text_eq, contains, length, ltb, leb, ◌==◌, if◌then◌else◌,
}

abbrev pub default_max_entries : ℕ
default_max_entries = 256

abbrev pub cache_unsafe_patterns : List Text
cache_unsafe_patterns =
    codes "time"
    ∷ codes "date"
    ∷ codes "weather"
    ∷ codes "timer"
    ∷ codes "alarm"
    ∷ codes "what day"
    ∷ codes "what month"
    ∷ codes "what year"
    ∷ codes "right now"
    ∷ codes "today"
    ∷ codes "tonight"
    ∷ codes "tomorrow"
    ∷ []

abbrev pub any_contained : List Text → Text → Bool
any_contained [] s = false
any_contained (p ∷ ps) s = contains s p || any_contained ps s

unfoldable pub cache_unsafe : Unicode → Text → Bool
cache_unsafe u transcript = any_contained cache_unsafe_patterns (u.to_lowercase transcript)

-- `f32`: its arithmetic, its tests `>`, `>=` and `==`, and its bytes in little-endian order.
pub record Float : Type 1 where
  pub F32 : Type 0
  pub zero_f : F32
  pub minus_one : F32
  pub add : F32 → F32 → F32
  pub mul : F32 → F32 → F32
  pub div : F32 → F32 → F32
  pub sqrt : F32 → F32
  pub gt : F32 → F32 → Bool
  pub ge : F32 → F32 → Bool
  pub eq : F32 → F32 → Bool
  pub to_le_bytes : F32 → ℕ × ℕ × ℕ × ℕ
  pub from_le_bytes : ℕ × ℕ × ℕ × ℕ → F32

-- A row of `entries`; `key_vec` is the blob.
pub record Row : Type 0 where
  pub id : ℕ
  pub ts : ℕ
  pub key_vec : List ℕ
  pub reply : Text
  pub tier : Text
  pub hit_count : ℕ

-- Which statements of a call succeed.
pub record Faults : Type 0 where
  pub select_ok : Bool
  pub update_ok : Bool
  pub count_ok : Bool
  pub delete_ok : Bool
  pub insert_ok : Bool

-- The table, with the last id that it gave out.
pub record Table : Type 0 where
  pub rows : List Row
  pub last_id : ℕ

abbrev pub empty_table : Table
empty_table = record { rows = []; last_id = 0 }

-- `CREATE TABLE IF NOT EXISTS`.
abbrev pub create_table : Option Table → Table
create_table none = empty_table
create_table (some stored) = stored

-- `ok` with a value, or the error of a statement.
pub data DbResult (A : Type 0) : Type 0 where
  done : A → DbResult A
  db_error : DbResult A

-- `DELETE FROM entries WHERE id = …` for the id of the row with the least `ts`; of several, SQLite's
-- choice is taken to be the first.
unfoldable pub oldest : Row → List Row → Row
oldest r [] = r
oldest r (s ∷ rows) = oldest (if ltb s.ts r.ts then s else r) rows

unfoldable pub delete_id : ℕ → List Row → List Row
delete_id id [] = []
delete_id id (r ∷ rows) = let rest = delete_id id rows in if r.id == id then rest else r ∷ rest

unfoldable pub evict_oldest : List Row → List Row
evict_oldest [] = []
evict_oldest (r ∷ rows) = delete_id (oldest r rows).id (r ∷ rows)

-- `UPDATE entries SET hit_count = hit_count + 1, ts = now WHERE id = …`.
unfoldable pub bump : ℕ → ℕ → List Row → List Row
bump now_ms id [] = []
bump now_ms id (r ∷ rows) =
    (if r.id == id then record r { hit_count = r.hit_count + 1; ts = now_ms } else r)
    ∷ bump now_ms id rows

module _ (f : Float) where
  open f use {F32, zero_f, minus_one, add, mul, div, sqrt, gt, ge, eq, to_le_bytes, from_le_bytes}

  pub record CacheHit : Type 0 where
    pub reply : Text
    pub tier : Text
    pub similarity : F32

  pub record SemanticCache : Type 0 where
    pub db : Table
    pub max_entries : ℕ
    pub similarity_threshold : F32

  -- `SemanticCache::open`: whether the file opens and whether the table can be created, the table that the
  -- file holds, if it holds one, and the bounds that are asked for.
  unfoldable pub open_cache :
      (opens creates : Bool) → Option Table → ℕ → F32 → DbResult SemanticCache
  open_cache opens creates stored max_entries similarity_threshold =
      if opens && creates
      then done (record {
        db = create_table stored;
        max_entries = max_entries;
        similarity_threshold = similarity_threshold;
      })
      else db_error

  unfoldable pub dot : F32 → List F32 → List F32 → F32
  dot acc [] b = acc
  dot acc (x ∷ a) [] = acc
  dot acc (x ∷ a) (y ∷ b) = dot (add acc (mul x y)) a b

  unfoldable pub cosine_similarity : List F32 → List F32 → F32
  unfolding dot
  cosine_similarity a b =
      let norm_a = sqrt (dot zero_f a a) in
      let norm_b = sqrt (dot zero_f b b) in
      if not (length a == length b) || length a == 0
      then zero_f
      else if eq norm_a zero_f || eq norm_b zero_f
      then zero_f
      else div (dot zero_f a b) (mul norm_a norm_b)

  unfoldable pub f32_vec_to_bytes : List F32 → List ℕ
  f32_vec_to_bytes [] = []
  f32_vec_to_bytes (x ∷ v) = let (a, b, c, d) = to_le_bytes x in a ∷ b ∷ c ∷ d ∷ f32_vec_to_bytes v

  -- `chunks_exact(4)`: what is left over is dropped.
  unfoldable pub bytes_to_f32_vec : List ℕ → List F32
  bytes_to_f32_vec (a ∷ b ∷ c ∷ d ∷ bytes) = from_le_bytes (a, b, c, d) ∷ bytes_to_f32_vec bytes
  bytes_to_f32_vec _ = []

  -- The best row so far, and its similarity.
  pub record BestRow : Type 0 where
    pub sim : F32
    pub row : Option Row

  unfoldable pub best_of : List F32 → BestRow → List Row → BestRow
  best_of query best [] = best
  best_of query best (r ∷ rows) =
      let sim = cosine_similarity query (bytes_to_f32_vec r.key_vec) in
      best_of query (if gt sim best.sim then record { sim = sim; row = some r } else best) rows

  -- The answer of `lookup` for the best row, and the rows after the bump.
  pub served :
      Option Row → F32 → Faults → ℕ → SemanticCache → SemanticCache × DbResult (Option CacheHit)
  served none sim faults now_ms c =
      (c, done (some (record { reply = []; tier = []; similarity = sim })))
  served (some r) sim faults now_ms c =
      if faults.update_ok
      then (
        record c { db = record { rows = bump now_ms r.id c.db.rows; last_id = c.db.last_id } },
        done (some (record { reply = r.reply; tier = r.tier; similarity = sim })),
      )
      else (c, db_error)

  -- Each column of a row is taken to have its type, so that no row is passed over.
  -- `embedded` is what the embedder makes of the transcript, `none` for its failure.
  unfoldable pub lookup :
      Option (List F32) → Faults → ℕ → SemanticCache → SemanticCache × DbResult (Option CacheHit)
  unfolding served
  lookup none faults now_ms c = (c, done none)
  lookup (some query) faults now_ms c =
      let best = best_of query (record { sim = minus_one; row = none }) c.db.rows in
      if not faults.select_ok
      then (c, db_error)
      else if ge best.sim c.similarity_threshold
      then served best.row best.sim faults now_ms c
      else (c, done none)

  -- The rows that a new one is put behind.
  abbrev pub room : SemanticCache → List Row
  room c = if leb c.max_entries (length c.db.rows) then evict_oldest c.db.rows else c.db.rows

  abbrev pub new_row : ℕ → ℕ → List F32 → Text → Text → Row
  new_row id now_ms key reply tier = record {
    id = id;
    ts = now_ms;
    key_vec = f32_vec_to_bytes key;
    reply = reply;
    tier = tier;
    hit_count = 0;
  }

  abbrev pub with_rows : SemanticCache → List Row → ℕ → SemanticCache
  with_rows c rows last_id = record c { db = record { rows = rows; last_id = last_id } }

  pub insert_key :
      List F32 → Text → Text → Faults → ℕ → SemanticCache → SemanticCache × DbResult (Unit {0})
  insert_key key reply tier faults now_ms c =
      let id = suc c.db.last_id in
      let full = leb c.max_entries (length c.db.rows) in
      if not faults.count_ok
      then (c, db_error)
      else if full && not faults.delete_ok
      then (c, db_error)
      else if not faults.insert_ok
      then (with_rows c (room c) c.db.last_id, db_error)
      else (with_rows c (room c ++ new_row id now_ms key reply tier ∷ []) id, done tt)

  -- With the embedder's answer, `none` for its failure.
  pub insert_embedded :
      Option (List F32)
      → Text
      → Text
      → Faults
      → ℕ
      → SemanticCache
      → SemanticCache × DbResult (Unit {0})
  unfolding insert_key
  insert_embedded none reply tier faults now_ms c = (c, done tt)
  insert_embedded (some key) reply tier faults now_ms c = insert_key key reply tier faults now_ms c

  unfoldable pub insert :
      Option (List F32)
      → Text
      → Text
      → Faults
      → ℕ
      → SemanticCache
      → SemanticCache × DbResult (Unit {0})
  unfolding insert_embedded
  insert embedded reply tier faults now_ms c =
      if text_eq tier (codes "cache")
      then (c, done tt)
      else insert_embedded embedded reply tier faults now_ms c
