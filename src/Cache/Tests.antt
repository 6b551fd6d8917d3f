-- ===== src/Cache/Tests.antt =====
-- The cache on concrete tables, with small whole numbers for the floating-point ones.
use wintermute_brain.Prelude.{
  ℕ, ◌+◌, ◌*◌, ◌-◌, ◌/◌, ◌≡◌, ◌≤◌, length, refl, true, List, [], ◌∷◌, some, codes, leb, ltb, ◌==◌,
  arith,
}
use wintermute_brain.Cache.{
  Float, Row, Faults, CacheHit, SemanticCache, Table, open_cache, done, lookup, best_of,
  cosine_similarity, bytes_to_f32_vec,
}
use wintermute_brain.Cache.Valid.{Call, look, put, after_calls, after_calls-IsValid}
use wintermute_brain.Cache.Bound.{Ordered}
use wintermute_brain.Cache.Best.{IsBest, IsOrder, lookup-IsBest}

-- A number `n` stands for n - 1, so that 0 is -1; a quotient is rounded.
abbrev float : Float
float = record {
  F32 = ℕ;
  zero_f = 1;
  minus_one = 0;
  add = λ a b. a + b - 1;
  mul = λ a b. (a - 1) * (b - 1) + 1;
  div = λ a b. (a - 1) / (b - 1) + 1;
  sqrt = λ a. a;
  gt = λ a b. ltb b a;
  ge = λ a b. leb b a;
  eq = λ a b. a == b;
  to_le_bytes = λ x. (x, 0, 0, 0);
  from_le_bytes = λ b. b.0;
}

float-IsOrder : IsOrder float
float-IsOrder = record { transitive = λ a b c h k. ground arith; irreflexive = λ a. ground arith }

abbrev fine : Faults
fine = record {
  select_ok = true;
  update_ok = true;
  count_ok = true;
  delete_ok = true;
  insert_ok = true;
}

abbrev calls : List (Call float)
calls =
    put (some (2 ∷ [])) (codes "One.") (codes "haiku") fine 10
    ∷ look (some (2 ∷ [])) fine 20
    ∷ put (some (3 ∷ [])) (codes "Two.") (codes "haiku") fine 30
    ∷ put (some (4 ∷ [])) (codes "Three.") (codes "haiku") fine 40
    ∷ []

abbrev one : Row
one = record {
  id = 1;
  ts = 10;
  key_vec = 2 ∷ 0 ∷ 0 ∷ 0 ∷ [];
  reply = codes "One.";
  tier = codes "haiku";
  hit_count = 0;
}

abbrev two : Row
two = record {
  id = 2;
  ts = 5;
  key_vec = 3 ∷ 0 ∷ 0 ∷ 0 ∷ [];
  reply = codes "Two.";
  tier = codes "haiku";
  hit_count = 0;
}

abbrev full : SemanticCache float
full = record {
  db = record { rows = one ∷ two ∷ []; last_id = 2 };
  max_entries = 2;
  similarity_threshold = 1;
}

-- A table of two rows that is opened again with a limit of one row.
abbrev stored : Table
stored = record { rows = one ∷ two ∷ []; last_id = 2 }

abbrev narrow : SemanticCache float
narrow = record { db = stored; max_entries = 1; similarity_threshold = 1 }

narrow-opened : open_cache float true true (some stored) 1 1 ≡ done narrow
unfolding open_cache
narrow-opened = refl

after_calls-IsValid_example :
    Ordered 0 (after_calls float narrow calls).db.last_id (after_calls float narrow calls).db.rows
    × (length (after_calls float narrow calls).db.rows ≤ 2)
after_calls-IsValid_example =
    after_calls-IsValid float true true (some stored) 1 1 narrow calls (omega arith) narrow-opened

abbrev hit : CacheHit float
hit = record { reply = codes "One."; tier = codes "haiku"; similarity = 2 }

full-lookup : (lookup float (some (2 ∷ [])) fine 60 full).1 ≡ done (some hit)
unfolding lookup best_of cosine_similarity bytes_to_f32_vec
full-lookup = refl

lookup-IsBest_example :
    (r : Row) × IsBest float (2 ∷ []) full.db.rows r hit.similarity
    × (leb 1 hit.similarity ≡ true)
    × (hit.reply ≡ r.reply)
    × (hit.tier ≡ r.tier)
lookup-IsBest_example = lookup-IsBest float (2 ∷ []) fine 60 full hit float-IsOrder refl full-lookup
