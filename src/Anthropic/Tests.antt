-- ===== src/Anthropic/Tests.antt =====
-- The decoder of src/anthropic.rs on a body that is cut inside a character.
use mathlib.Core.List.{flatten}
use wintermute_brain.Prelude.Utf8.{as_bytes, encode_char, from_utf8, utf8_of}
use wintermute_brain.Prelude.{
  ok, ℕ, ◌≡◌, refl, List, [], ◌∷◌, ◌++◌, map, some, Text, codes, length, starts_with, text_eq,
}
use wintermute_brain.Anthropic.{other, SerdeJson, parse_sse_event}
use wintermute_brain.Anthropic.Sse.{
  new, feed, behind_delimiter, find_block_boundary, join_lines, parse_event_block, pop_event,
  poll_all, decode_sse_body,
}
use wintermute_brain.Anthropic.Chunks.{until_error, poll_all-decode_sse_body}

-- A value is its text, and so is each of its fields.
abbrev echo_json : SerdeJson
echo_json = record {
  Value = Text;
  from_str = λ s. ok s;
  get = λ v key. some v;
  as_str = λ v. some v;
  as_u64 = λ v. some (length v);
}

abbrev accented_body : Text
accented_body = codes "data: " ++ 233 ∷ 10 ∷ 10 ∷ codes "data: ping" ++ 10 ∷ 10 ∷ []

abbrev cut_chunks : List (List ℕ)
cut_chunks =
    (codes "data: " ++ 195 ∷ []) ∷ (169 ∷ 10 ∷ []) ∷ (10 ∷ codes "data: ping" ++ 10 ∷ 10 ∷ []) ∷ []

cut_chunks-accented_body : flatten cut_chunks ≡ as_bytes accented_body
unfolding as_bytes encode_char flatten
cut_chunks-accented_body = refl

decode_accented_body :
    decode_sse_body echo_json accented_body ≡ ok (other (233 ∷ []) ∷ other (codes "ping") ∷ [])
unfolding decode_sse_body pop_event find_block_boundary feed from_utf8 as_bytes encode_char utf8_of
    behind_delimiter starts_with parse_event_block parse_sse_event text_eq join_lines
decode_accented_body = refl

poll_all-decode_sse_body_example :
    until_error echo_json (poll_all echo_json (map ok cut_chunks) new)
    ≡ decode_sse_body echo_json accented_body
poll_all-decode_sse_body_example =
    poll_all-decode_sse_body echo_json cut_chunks accented_body cut_chunks-accented_body
