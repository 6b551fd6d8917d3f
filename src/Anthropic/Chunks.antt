-- ===== src/Anthropic/Chunks.antt =====
-- A body that comes in chunks against the same body in one piece.
use mathlib.Core.List.{flatten}
use wintermute_brain.Prelude.Utf8.{as_bytes, from_utf8}
use wintermute_brain.Prelude.{
  Result, ok, err, ℕ, zero, suc, ◌<◌, ◌≡◌, ◌⊎◌, refl, sym, ap, ◌∙◌, subst, inl, inr, List, [], ◌∷◌,
  ◌++◌, append_assoc, append-nil, map, Option, none, some, Option-cases, Text, length, arith,
}
use wintermute_brain.Anthropic.{StreamEvent, ClientError, SerdeJson}
use wintermute_brain.Anthropic.Sse.{
  SseDecoder, new, feed, find_block_boundary, parse_event_block, Item, pop_from, pop_event,
  drain_from, drain, poll_all, collect_from, decode_sse_body,
}
use wintermute_brain.Anthropic.Utf8.{feed-append}
use wintermute_brain.Anthropic.Blocks.{
  find_block_boundary-shorter, items_of, Yields, no_block, block, Yields-append,
}

feed_all : List (List ℕ) → SseDecoder → SseDecoder
feed_all [] d = d
feed_all (c ∷ cs) d = feed_all cs (feed c d)

feed_all-feed :
    (cs : List (List ℕ)) (b : List ℕ) (d : SseDecoder)
    → feed_all cs (feed b d) ≡ feed (b ++ flatten cs) d
unfolding feed_all flatten
feed_all-feed [] b d = ap (λ (x : List ℕ). feed x d) (sym (append-nil b))
feed_all-feed (c ∷ cs) b d =
    ap (feed_all cs) (sym (feed-append b c d))
    ∙ feed_all-feed cs (b ++ c) d
    ∙ ap (λ (x : List ℕ). feed x d) (append_assoc b c (flatten cs))

feed_all-text :
    (cs : List (List ℕ)) (t : Text) (held : List ℕ)
    → (feed_all cs (record { text = t; incomplete_utf8 = held })).text
      ≡ t ++ (feed_all cs (record { text = []; incomplete_utf8 = held })).text
unfolding feed_all feed
feed_all-text [] t held = sym (append-nil t)
feed_all-text (c ∷ cs) t held =
    let (s, rest) = from_utf8 (held ++ c) in
    let more = (feed_all cs (record { text = []; incomplete_utf8 = rest })).text in
    feed_all-text cs (t ++ s) rest
    ∙ append_assoc t s more
    ∙ ap (λ (x : Text). t ++ x) (sym (feed_all-text cs s rest))

module _ (j : SerdeJson) where
  -- What a pop comes to: it ends with no item where no block has one, and otherwise takes the first.
  Pops : Text → Option (Item j) × Text → Type 0
  Pops text (none, left) = Yields j text [] left
  Pops text (some item, left) =
      (length left < length text)
      × ((items : List (Item j)) (end : Text)
          → Yields j left items end
          → Yields j text (item ∷ items) end)

  Parse-cases :
      (r : Result ClientError (Option StreamEvent))
      → (r ≡ ok none) ⊎ ((e : StreamEvent) × (r ≡ ok (some e))) ⊎ ((e : ClientError) × (r ≡ err e))
  Parse-cases (ok none) = inl refl
  Parse-cases (ok (some e)) = inr (inl (e, refl))
  Parse-cases (err e) = inr (inr (e, refl))

  silent :
      (text b rest : Text) (r : Option (Item j) × Text)
      → find_block_boundary text ≡ some (b, rest)
      → parse_event_block j b ≡ ok none
      → Pops rest r
      → Pops text r
  unfolding Pops
  silent text b rest (none, left) found e p = block text b rest [] left [] found p (rw e refl)
  silent text b rest (some item, left) found e (shorter, p) = (
    (let s = find_block_boundary-shorter text b rest found in omega arith),
    (λ items end y.
        block text b rest (item ∷ items) end (item ∷ items) found (p items end y) (rw e refl)),
  )

  pop_from-Pops : (n : ℕ) (text : Text) → length text < n → Pops text (pop_from j n text)
  unfolding pop_from Pops
  pop_from-Pops zero text h = absurd (omega arith)
  pop_from-Pops (suc n) text h = elim (Option-cases (find_block_boundary text)) [
    | inl none' ↦ rw (none', pop_from) (no_block text none')
    | inr ((b, rest), found) ↦
        let s = find_block_boundary-shorter text b rest found in
        elim (Parse-cases (parse_event_block j b)) [
          | inl e ↦
              rw (found, pop_from)
                (rw e (
                  silent text b rest (pop_from j n rest) found e
                    (pop_from-Pops n rest (omega arith))))
          | inr (inl (ev, e)) ↦
              rw (found, pop_from)
                (rw e (
                  s,
                  λ items end y. block text b rest items end (ok ev ∷ items) found y (rw e refl),
                ))
          | inr (inr (c, e)) ↦
              rw (found, pop_from)
                (rw e (
                  s,
                  λ items end y. block text b rest items end (err c ∷ items) found y (rw e refl),
                ))
        ]
  ]

  Popped : SseDecoder → Type 0
  Popped d =
      (((pop_event j d).0 ≡ none) × Yields j d.text [] (pop_event j d).1.text)
      ⊎ ((item : Item j) × ((pop_event j d).0 ≡ some item)
          × (length (pop_event j d).1.text < length d.text)
          × ((items : List (Item j)) (end : Text)
              → Yields j (pop_event j d).1.text items end
              → Yields j d.text (item ∷ items) end))

  pop_event-Popped : (d : SseDecoder) → Popped d
  unfolding Popped Pops pop_event
  pop_event-Popped d =
      either (pop_from j (suc (length d.text)) d.text)
        (pop_from-Pops (suc (length d.text)) d.text (omega arith))
    where
      either :
          (r : Option (Item j) × Text)
          → Pops d.text r
          → ((r.0 ≡ none) × Yields j d.text [] r.1)
            ⊎ ((item : Item j) × (r.0 ≡ some item)
                × (length r.1 < length d.text)
                × ((items : List (Item j)) (end : Text)
                    → Yields j r.1 items end
                    → Yields j d.text (item ∷ items) end))
      either (none, left) p = inl (refl, p)
      either (some item, left) (s, p) = inr (item, refl, s, p)

  pop_event-held : (d : SseDecoder) → (pop_event j d).1.incomplete_utf8 ≡ d.incomplete_utf8
  unfolding pop_event
  pop_event-held d = refl

  drain_from-Yields :
      (n : ℕ) (d : SseDecoder)
      → length d.text < n
      → Yields j d.text (drain_from j n d).0 (drain_from j n d).1.text
        × ((drain_from j n d).1.incomplete_utf8 ≡ d.incomplete_utf8)
  unfolding drain_from Popped
  drain_from-Yields zero d h = absurd (omega arith)
  drain_from-Yields (suc n) d h = elim (pop_event-Popped d) [
    | inl (e, y) ↦ rw (e, drain_from) (y, pop_event-held d)
    | inr (item, e, s, p) ↦
        let (y, same) = drain_from-Yields n (pop_event j d).1 (omega arith) in
        rw (e, drain_from) (p _ _ y, same ∙ pop_event-held d)
  ]

  pub drain-Yields :
      (d : SseDecoder)
      → Yields j d.text (drain j d).0 (drain j d).1.text
        × ((drain j d).1.incomplete_utf8 ≡ d.incomplete_utf8)
  unfolding drain
  drain-Yields d = drain_from-Yields (suc (length d.text)) d (omega arith)

  Yields-unique :
      (text text' : Text) (items items' : List (Item j)) (left left' : Text)
      → text ≡ text'
      → Yields j text items left
      → Yields j text' items' left'
      → items ≡ items'
  Yields-unique _ _ _ _ _ _ same (no_block t e) (no_block t' e') = refl
  Yields-unique _ _ _ _ _ _ same (no_block t e) (block t' b r is l all found y a) =
      let e'' = sym e ∙ ap find_block_boundary same ∙ found in cc
  Yields-unique _ _ _ _ _ _ same (block t b r is l all found y a) (no_block t' e') =
      let e'' = sym e' ∙ ap find_block_boundary (sym same) ∙ found in cc
  Yields-unique _ _ _ _ _ _ same (block t b r is l all found y a)
        (block t' b' r' is' l' all' found' y' a') =
      let both = sym found ∙ ap find_block_boundary same ∙ found' in
      let rests : r ≡ r' = cc in
      let blocks : b ≡ b' = cc in
      a
      ∙ ap (λ (x : Text). items_of j (parse_event_block j x) ++ is) blocks
      ∙ ap (λ (x : List (Item j)). items_of j (parse_event_block j b') ++ x)
          (Yields-unique r r' is is' l l' rests y y')
      ∙ sym a'

  poll_all-Yields :
      (cs : List (List ℕ)) (d : SseDecoder)
      → (left : Text) × Yields j (feed_all cs d).text (poll_all j (map ok cs) d) left
  unfolding poll_all feed_all
  poll_all-Yields [] d = ((drain j d).1.text, (drain-Yields d).0)
  poll_all-Yields (c ∷ cs) d =
      let (items, d') = drain j d in
      let (y, held) = drain-Yields d in
      let (left, rest) = poll_all-Yields cs (feed c d') in
      let added =
        (feed_all (c ∷ cs) (record { text = []; incomplete_utf8 = d.incomplete_utf8 })).text in
      let before : (feed_all (c ∷ cs) d).text ≡ d.text ++ added =
        feed_all-text (c ∷ cs) d.text d.incomplete_utf8 in
      let behind : (feed_all cs (feed c d')).text ≡ d'.text ++ added =
        feed_all-text (c ∷ cs) d'.text d'.incomplete_utf8
        ∙ ap
            (λ (h : List ℕ).
              d'.text ++ (feed_all (c ∷ cs) (record { text = []; incomplete_utf8 = h })).text)
            held in
      (
        left,
        subst (λ (t : Text). Yields j t (items ++ poll_all j (map ok cs) (feed c d')) left)
            (sym before)
            (Yields-append j d.text added items d'.text (poll_all j (map ok cs) (feed c d')) left y
              (subst (λ (t : Text). Yields j t (poll_all j (map ok cs) (feed c d')) left) behind
                rest)),
      )

  -- The events up to the first error, which is the result if there is one.
  abbrev with_event :
      StreamEvent → Result ClientError (List StreamEvent) → Result ClientError (List StreamEvent)
  with_event e (ok es) = ok (e ∷ es)
  with_event e (err c) = err c

  pub until_error : List (Item j) → Result ClientError (List StreamEvent)
  until_error [] = ok []
  until_error (ok e ∷ items) = with_event e (until_error items)
  until_error (err c ∷ items) = err c

  appended :
      List StreamEvent
      → Result ClientError (List StreamEvent)
      → Result ClientError (List StreamEvent)
  appended out (ok es) = ok (out ++ es)
  appended out (err c) = err c

  appended-with_event :
      (out : List StreamEvent) (e : StreamEvent) (r : Result ClientError (List StreamEvent))
      → appended (out ++ e ∷ []) r ≡ appended out (with_event e r)
  unfolding appended
  appended-with_event out e (ok es) =
      ap (λ (l : List StreamEvent). ok l) (append_assoc out (e ∷ []) es)
  appended-with_event out e (err c) = refl

  collect_from-until_error :
      (n : ℕ) (out : List StreamEvent) (d : SseDecoder) (items : List (Item j)) (left : Text)
      → length d.text < n
      → Yields j d.text items left
      → collect_from j n out d ≡ appended out (until_error items)
  unfolding collect_from Popped appended until_error
  collect_from-until_error zero out d items left h y = absurd (omega arith)
  collect_from-until_error (suc n) out d items left h y = elim (pop_event-Popped d) [
    | inl (e, none') ↦
        let same = Yields-unique d.text d.text items [] left _ refl y none' in
        rw (e, collect_from) (rw same (ap (λ (l : List StreamEvent). ok l) (sym (append-nil out))))
    | inr (ok ev, e, s, p) ↦
        let d' = (pop_event j d).1 in
        let (rest, _) = drain-Yields d' in
        let same = Yields-unique d.text d.text items _ left _ refl y (p _ _ rest) in
        rw (e, collect_from)
          (rw same (
            collect_from-until_error n (out ++ ev ∷ []) d' _ _ (omega arith) rest
            ∙ appended-with_event out ev _))
    | inr (err c, e, s, p) ↦
        let (rest, _) = drain-Yields (pop_event j d).1 in
        let same = Yields-unique d.text d.text items _ left _ refl y (p _ _ rest) in
        rw (e, collect_from) (rw same refl)
  ]

appended-nil : (j : SerdeJson) (r : Result ClientError (List StreamEvent)) → appended j [] r ≡ r
unfolding appended
appended-nil j (ok es) = refl
appended-nil j (err c) = refl

feed-nil : feed [] new ≡ new
unfolding feed from_utf8
feed-nil = refl

-- However the bytes of a body are cut into chunks, inside a character or a block too: the events that the
-- stream yields up to its first error, and that error, are what `decode_sse_body` makes of the body.
pub poll_all-decode_sse_body :
    (j : SerdeJson) (chunks : List (List ℕ)) (body : Text)
    → flatten chunks ≡ as_bytes body
    → until_error j (poll_all j (map ok chunks) new) ≡ decode_sse_body j body
unfolding decode_sse_body
poll_all-decode_sse_body j chunks body e =
    let items = poll_all j (map ok chunks) new in
    let (left, y) = poll_all-Yields j chunks new in
    let whole : feed_all chunks new ≡ feed (as_bytes body) new =
      ap (feed_all chunks) (sym feed-nil)
      ∙ feed_all-feed chunks [] new
      ∙ ap (λ (b : List ℕ). feed b new) e in
    let d = feed (as_bytes body) new in
    let y' =
      subst (λ (t : Text). Yields j t items left) (ap (λ (x : SseDecoder). x.text) whole) y in
    sym (
      collect_from-until_error j (suc (length d.text)) [] d items left (omega arith) y'
      ∙ appended-nil j (until_error j items))
