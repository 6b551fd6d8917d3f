-- ===== src/Anthropic/Sse.antt =====
-- The decoder of server-sent events in src/anthropic.rs, `EventStream` and `decode_sse_body`. A byte index
-- into the buffered text is the pair of texts before and after it.
use wintermute_brain.Prelude.Utf8.{from_utf8, as_bytes}
use wintermute_brain.Prelude.Unicode.{is_empty}
use wintermute_brain.Prelude.{
  Result, ok, err, ℕ, zero, suc, Bool, ◌||◌, ◌&&◌, List, [], ◌∷◌, ◌++◌, Option, none, some, Text,
  codes, starts_with, drop, length, ◌==◌, if◌then◌else◌,
}
use wintermute_brain.Anthropic.{
  StreamEvent, ClientError, transport, parse, ParseError, SerdeJson, parse_sse_event,
}

pub record SseDecoder : Type 0 where
  pub text : Text
  pub incomplete_utf8 : List ℕ

abbrev pub new : SseDecoder
new = record { text = []; incomplete_utf8 = [] }

unfoldable pub feed : List ℕ → SseDecoder → SseDecoder
feed chunk d =
    let (s, rest) = from_utf8 (d.incomplete_utf8 ++ chunk) in
    record { text = d.text ++ s; incomplete_utf8 = rest }

-- The text behind a delimiter that stands at the front.
unfoldable pub behind_delimiter : Text → Option Text
behind_delimiter s =
    if starts_with s (10 ∷ 10 ∷ [])
    then some (drop 2 s)
    else if starts_with s (13 ∷ 10 ∷ 13 ∷ 10 ∷ [])
    then some (drop 4 s)
    else none

abbrev pub longer : ℕ → Option (Text × Text) → Option (Text × Text)
longer c none = none
longer c (some (block, rest)) = some (c ∷ block, rest)

-- The first block, and the text behind its delimiter.
unfoldable pub find_block_boundary : Text → Option (Text × Text)
find_block_boundary [] = none
find_block_boundary (c ∷ s) = elim (behind_delimiter (c ∷ s)) [
  | some rest ↦ some ([], rest)
  | none ↦ longer c (find_block_boundary s)
]

abbrev is_break : ℕ → Bool
is_break c = c == 10 || c == 13

-- `trim_matches` of line breaks, and `trim_end_matches`.
unfoldable pub trim_front : Text → Text
trim_front [] = []
trim_front (c ∷ s) = if is_break c then trim_front s else c ∷ s

unfoldable pub trim_back : (ℕ → Bool) → Text → Text
trim_back p [] = []
trim_back p (c ∷ s) = let rest = trim_back p s in if is_empty rest && p c then [] else c ∷ rest

-- `split('\n')`, with the line being read.
unfoldable pub split_lines : Text → Text → List Text
split_lines line [] = line ∷ []
split_lines line (c ∷ s) =
    let next = line ∷ split_lines [] s in
    let on = split_lines (line ++ c ∷ []) s in if c == 10 then next else on

abbrev strip_space : Text → Text
strip_space [] = []
strip_space (c ∷ s) = if c == b' ' then s else c ∷ s

-- The payload of a `data:` line.
unfoldable pub data_line : Text → Option Text
unfolding trim_back is_empty
data_line raw_line =
    let line = trim_back (λ c. c == 13) raw_line in
    if starts_with line (codes ":") || is_empty line
    then none
    else if starts_with line (codes "data:")
    then some (strip_space (drop 5 line))
    else none

abbrev with_line : Option Text → List Text → List Text
with_line none lines = lines
with_line (some line) lines = line ∷ lines

unfoldable pub data_lines : List Text → List Text
unfolding data_line
data_lines [] = []
data_lines (line ∷ lines) = with_line (data_line line) (data_lines lines)

unfoldable pub join_lines : List Text → Text
join_lines [] = []
join_lines (l ∷ []) = l
join_lines (l ∷ m ∷ ls) = l ++ 10 ∷ join_lines (m ∷ ls)

module _ (j : SerdeJson) where
  abbrev parsed : Result ParseError StreamEvent → Result ClientError (Option StreamEvent)
  parsed (ok ev) = ok (some ev)
  parsed (err e) = err (parse e)

  payload_event : List Text → Result ClientError (Option StreamEvent)
  payload_event [] = ok none
  payload_event (l ∷ ls) = parsed (parse_sse_event j (join_lines (l ∷ ls)))

  unfoldable pub parse_event_block : Text → Result ClientError (Option StreamEvent)
  unfolding payload_event data_lines split_lines trim_front trim_back
  parse_event_block block =
      let trimmed = trim_back is_break (trim_front block) in
      if is_empty trimmed then ok none else payload_event (data_lines (split_lines [] trimmed))

  abbrev pub Item : Type 0
  Item = Result ClientError StreamEvent

  -- The loop of `pop_event` on the buffered text; each round takes two characters at least.
  unfoldable pub pop_from : ℕ → Text → Option Item × Text
  pop_from zero text = (none, text)
  pop_from (suc fuel) text = elim (find_block_boundary text) [
    | none ↦ (none, text)
    | some (block, rest) ↦ elim (parse_event_block block) [
      | ok (some ev) ↦ (some (ok ev), rest)
      | ok none ↦ pop_from fuel rest
      | err e ↦ (some (err e), rest)
    ]
  ]

  unfoldable pub pop_event : SseDecoder → Option Item × SseDecoder
  unfolding pop_from
  pop_event d =
      let (item, text) = pop_from (suc (length d.text)) d.text in (item, record d { text = text })

  -- The items that are popped until there is none.
  unfoldable pub drain_from : ℕ → SseDecoder → List Item × SseDecoder
  drain_from zero d = ([], d)
  drain_from (suc fuel) d = elim ((pop_event d).0) [
    | none ↦ ([], (pop_event d).1)
    | some item ↦ (item ∷ (drain_from fuel (pop_event d).1).0, (drain_from fuel (pop_event d).1).1)
  ]

  unfoldable pub drain : SseDecoder → List Item × SseDecoder
  unfolding drain_from
  drain d = drain_from (suc (length d.text)) d

  -- What `EventStream` yields until it ends, from a body that comes in these chunks; an error of the
  -- transport is an item too.
  unfoldable pub poll_all : List (Result Text (List ℕ)) → SseDecoder → List Item
  poll_all [] d = (drain d).0
  poll_all (ok chunk ∷ inner) d =
      let (items, d') = drain d in items ++ poll_all inner (feed chunk d')
  poll_all (err e ∷ inner) d =
      let (items, d') = drain d in items ++ err (transport e) ∷ poll_all inner d'

  -- The loop of `decode_sse_body`.
  unfoldable pub collect_from :
      ℕ → List StreamEvent → SseDecoder → Result ClientError (List StreamEvent)
  collect_from zero out d = ok out
  collect_from (suc fuel) out d = elim ((pop_event d).0) [
    | none ↦ ok out
    | some (ok ev) ↦ collect_from fuel (out ++ ev ∷ []) (pop_event d).1
    | some (err e) ↦ err e
  ]

  unfoldable pub decode_sse_body : Text → Result ClientError (List StreamEvent)
  unfolding collect_from
  decode_sse_body body = let d = feed (as_bytes body) new in collect_from (suc (length d.text)) [] d
