-- ===== src/Anthropic.antt =====
-- src/anthropic.rs: the events of a model's answer, and the decoder of its stream of server-sent events.
pub mod Sse
pub mod Utf8
pub mod Blocks
pub mod Chunks
mod Tests
use wintermute_brain.Prelude.Utf8.{from_utf8, as_bytes}
use wintermute_brain.Prelude.Unicode.{is_empty}
use wintermute_brain.Prelude.Decimal.{show}
use wintermute_brain.Prelude.{
  Result, ok, err, ◌>>=◌, ℕ, zero, suc, ◌^◌, Bool, true, false, ◌||◌, List, [], ◌∷◌, ◌++◌, Option,
  none, some, Text, codes, text_eq, starts_with, drop, length, ltb, ◌==◌, if◌then◌else◌,
}

pub record MessageUsage : Type 0 where
  pub input_tokens : ℕ
  pub cache_read_input_tokens : ℕ
  pub cache_creation_input_tokens : ℕ
  pub output_tokens : ℕ

pub data StreamEvent : Type 0 where
  message_start : MessageUsage → StreamEvent
  content_block_start : (index : ℕ) → StreamEvent
  text_delta : (index : ℕ) (text : Text) → StreamEvent
  content_block_stop : (index : ℕ) → StreamEvent
  message_delta : (stop_reason : Option Text) → StreamEvent
  message_stop : StreamEvent
  api_error : (kind message : Text) → StreamEvent
  other : (event_type : Text) → StreamEvent

-- `ParseError` and `ClientError`; an error of another library is its text.
pub data ParseError : Type 0 where
  json : Text → ParseError
  missing_type : ParseError
  shape : (kind reason : Text) → ParseError

pub data ClientError : Type 0 where
  transport : Text → ClientError
  status : (code : ℕ) (body : Text) → ClientError
  frame : (reason : Text) → ClientError
  parse : ParseError → ClientError

-- What is read of `serde_json`.
pub record SerdeJson : Type 1 where
  pub Value : Type 0
  pub from_str : Text → Result Text Value
  pub get : Value → Text → Option Value
  pub as_str : Value → Option Text
  pub as_u64 : Value → Option ℕ

abbrev pub and_then : {A B : Type 0} → Option A → (A → Option B) → Option B
and_then none f = none
and_then (some a) f = f a

abbrev pub text_or : Text → Option Text → Text
text_or d none = d
text_or d (some s) = s

abbrev pub ok_or : {E A : Type 0} → Option A → E → Result E A
ok_or none e = err e
ok_or (some a) e = ok a

module _ (j : SerdeJson) where
  open j use {Value, from_str, get, as_str, as_u64}

  abbrev u32_or_zero : Option ℕ → ℕ
  u32_or_zero none = 0
  u32_or_zero (some n) = if ltb n (2 ^ 32) then n else 0

  unfoldable pub parse_message_usage : Option Value → MessageUsage
  parse_message_usage none = record {
    input_tokens = 0;
    cache_read_input_tokens = 0;
    cache_creation_input_tokens = 0;
    output_tokens = 0;
  }
  parse_message_usage (some obj) = record {
    input_tokens = u32_or_zero (and_then (get obj (codes "input_tokens")) as_u64);
    cache_read_input_tokens =
        u32_or_zero (and_then (get obj (codes "cache_read_input_tokens")) as_u64);
    cache_creation_input_tokens =
        u32_or_zero (and_then (get obj (codes "cache_creation_input_tokens")) as_u64);
    output_tokens = u32_or_zero (and_then (get obj (codes "output_tokens")) as_u64);
  }

  unfoldable pub require_index : Value → Text → Result ParseError ℕ
  require_index v kind = do
    raw ←
        ok_or (and_then (get v (codes "index")) as_u64)
          (shape kind (codes "missing or non-integer 'index'"))
    if ltb raw (2 ^ 32)
        then ok raw
        else err (shape kind (codes "'index' " ++ (show raw ++ codes " exceeds u32")))

  unfoldable pub block_delta : Value → ℕ → Result ParseError StreamEvent
  block_delta delta index =
      let delta_type = text_or [] (and_then (get delta (codes "type")) as_str) in
      if text_eq delta_type (codes "text_delta")
      then (do
        text ←
            ok_or (and_then (get delta (codes "text")) as_str)
              (shape (codes "content_block_delta") (codes "text_delta missing 'text' string"))
        ok (text_delta index text))
      else ok (other (codes "content_block_delta:" ++ delta_type))

  unfoldable pub event_of : Text → Value → Result ParseError StreamEvent
  unfolding parse_message_usage require_index block_delta
  event_of kind v =
      if text_eq kind (codes "message_start")
      then ok (
          message_start
            (parse_message_usage (and_then (get v (codes "message")) (λ m. get m (codes "usage")))))
      else if text_eq kind (codes "content_block_start")
      then (do
        index ← require_index v (codes "content_block_start")
        ok (content_block_start index))
      else if text_eq kind (codes "content_block_delta")
      then (do
        index ← require_index v (codes "content_block_delta")
        delta ←
            ok_or (get v (codes "delta"))
              (shape (codes "content_block_delta") (codes "missing 'delta' object"))
        block_delta delta index)
      else if text_eq kind (codes "content_block_stop")
      then (do index ← require_index v (codes "content_block_stop"); ok (content_block_stop index))
      else if text_eq kind (codes "message_delta")
      then ok (
          message_delta
            (and_then (and_then (get v (codes "delta")) (λ d. get d (codes "stop_reason"))) as_str))
      else if text_eq kind (codes "message_stop")
      then ok message_stop
      else if text_eq kind (codes "error")
      then (do
        e ← ok_or (get v (codes "error")) (shape (codes "error") (codes "missing 'error' object"))
        ok (
            api_error (text_or (codes "unknown") (and_then (get e (codes "type")) as_str))
              (text_or [] (and_then (get e (codes "message")) as_str))))
      else ok (other kind)

  abbrev json_error : Result Text Value → Result ParseError Value
  json_error (ok v) = ok v
  json_error (err e) = err (json e)

  unfoldable pub parse_sse_event : Text → Result ParseError StreamEvent
  unfolding event_of
  parse_sse_event payload = do
    v ← json_error (from_str payload)
    kind ← ok_or (and_then (get v (codes "type")) as_str) missing_type
    event_of kind v
