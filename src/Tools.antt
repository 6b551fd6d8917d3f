-- ===== src/Tools.antt =====
-- The tool routers of src/daemon.rs, `NoToolsRouter` and `RecallToolsRouter`, and `decode_request` of
-- src/bus.rs. What is read and built of `serde_json::Value` is a parameter, and so is the source of memories.
pub mod Blank
mod Tests
use wintermute_brain.Gate.{Router, ToolResultBody, ConfirmGrantedEvent, ConfirmDeniedEvent}
use wintermute_brain.Turn.{TurnUserEvent}
use wintermute_brain.Daemon.{Request, turn_user, confirm_granted, confirm_denied}
use wintermute_brain.Prelude.Unicode.{trim, is_empty}
use wintermute_brain.Prelude.{
  ℕ, Bool, true, false, List, [], ◌∷◌, map, Option, none, some, Text, codes, text_eq, length, leb,
  u64_max, Result, ok, err, if◌then◌else◌,
}

-- The kinds of a value that the routers tell apart; a number has its `as_u64`.
pub data Shape (Json : Type 0) : Type 0 where
  null : Shape Json
  number : Option ℕ → Shape Json
  string : Text → Shape Json
  object : (Text → Option Json) → Shape Json
  other : Shape Json

pub record Values : Type 1 where
  pub Json : Type 0
  pub F64 : Type 0
  pub shape : Json → Shape Json
  pub of_text : Text → Json
  pub of_f64 : F64 → Json
  pub of_nat : ℕ → Json
  pub of_list : List Json → Json
  pub of_object : List (Text × Json) → Json

pub record RecallHit (F64 : Type 0) : Type 0 where
  pub id : Text
  pub kind : Text
  pub subject : Text
  pub snippet : Text
  pub score : F64
  pub confidence : F64

-- `RecallSource`; an error is its text.
pub record RecallSource (F64 : Type 0) : Type 0 where
  pub search : Text → Option Text → Option ℕ → Result Text (List (RecallHit F64))
  pub save_fact : Text → Text → Result Text Text

pub data DecodeError : Type 0 where
  unknown_topic : Text → DecodeError
  json : Text → DecodeError

module _ (v : Values) where
  open v use {Json, F64, shape, of_text, of_f64, of_nat, of_list, of_object}

  unfoldable pub no_tools_router : Router Json
  no_tools_router name args = record {
    ok = false;
    body = of_object (
        (codes "error", of_text (codes "no-tools-registered")) ∷ (codes "tool", of_text name) ∷ []);
  }

  unfoldable pub render_hit : RecallHit F64 → Json
  render_hit hit = of_object (
      (codes "id", of_text hit.id)
      ∷ (codes "kind", of_text hit.kind)
      ∷ (codes "subject", of_text hit.subject)
      ∷ (codes "snippet", of_text hit.snippet)
      ∷ (codes "score", of_f64 hit.score)
      ∷ (codes "confidence", of_f64 hit.confidence)
      ∷ [])

  unfoldable pub failed_with : (error tool message : Text) → ToolResultBody Json
  failed_with error tool message = record {
    ok = false;
    body = of_object (
        (codes "error", of_text error)
        ∷ (codes "tool", of_text tool)
        ∷ (codes "message", of_text message)
        ∷ []);
  }

  abbrev pub tool_recall_search : Text
  tool_recall_search = codes "wm.recall.search"

  abbrev pub tool_recall_save_fact : Text
  tool_recall_save_fact = codes "wm.recall.save_fact"

  abbrev pub bad_args : (tool reason : Text) → ToolResultBody Json
  bad_args tool reason = failed_with (codes "bad_args") tool reason

  abbrev pub recall_error : (tool message : Text) → ToolResultBody Json
  recall_error tool message = failed_with (codes "recall_error") tool message

  abbrev pub shape_of : Option Json → Option (Shape Json)
  shape_of none = none
  shape_of (some j) = some (shape j)

  abbrev pub text_of : Option (Shape Json) → Option Text
  text_of (some (string s)) = some s
  text_of s = none

  abbrev found_hits : Result Text (List (RecallHit F64)) → ToolResultBody Json
  found_hits (ok hits) = record {
    ok = true;
    body = of_object (
        (codes "hits", of_list (map render_hit hits)) ∷ (codes "count", of_nat (length hits)) ∷ []);
  }
  found_hits (err e) = recall_error tool_recall_search e

  -- The limit of a search: none, a number of 64 bits, or a reason.
  unfoldable pub limit_of : Option (Shape Json) → Result Text (Option ℕ)
  limit_of none = ok none
  limit_of (some null) = ok none
  limit_of (some (number none)) = err (codes "args.limit must be a non-negative integer")
  limit_of (some (number (some n))) =
      if leb n u64_max then ok (some n) else err (codes "args.limit exceeds usize::MAX")
  limit_of (some (string s)) = err (codes "args.limit must be a number")
  limit_of (some (object get)) = err (codes "args.limit must be a number")
  limit_of (some other) = err (codes "args.limit must be a number")

  module _ (recall : RecallSource F64) where
    abbrev search_with : Text → Option Text → Result Text (Option ℕ) → ToolResultBody Json
    search_with text subject (ok limit) = found_hits (recall.search text subject limit)
    search_with text subject (err reason) = bad_args tool_recall_search reason

    search_text : (Text → Option Json) → Option Text → ToolResultBody Json
    search_text get none = bad_args tool_recall_search (codes "args.text (string) is required")
    search_text get (some text) =
        if is_empty (trim text)
        then bad_args tool_recall_search (codes "args.text must not be blank")
        else search_with text (text_of (shape_of (get (codes "subject"))))
            (limit_of (shape_of (get (codes "limit"))))

    unfoldable pub dispatch_recall_search : Shape Json → ToolResultBody Json
    unfolding search_text limit_of
    dispatch_recall_search (object get) = search_text get (text_of (shape_of (get (codes "text"))))
    dispatch_recall_search args = bad_args tool_recall_search (codes "args must be a JSON object")

    abbrev saved : Text → Result Text Text → ToolResultBody Json
    saved subject (ok id) = record {
      ok = true;
      body = of_object ((codes "id", of_text id) ∷ (codes "subject", of_text subject) ∷ []);
    }
    saved subject (err e) = recall_error tool_recall_save_fact e

    abbrev bad_subject : ToolResultBody Json
    bad_subject = bad_args tool_recall_save_fact (codes "args.subject must be a non-empty string")

    save_under : (default_subject body_text : Text) → Option (Shape Json) → ToolResultBody Json
    save_under default_subject body_text none =
        saved default_subject (recall.save_fact default_subject body_text)
    save_under default_subject body_text (some null) =
        saved default_subject (recall.save_fact default_subject body_text)
    save_under default_subject body_text (some (string s)) =
        if is_empty (trim s) then bad_subject else saved s (recall.save_fact s body_text)
    save_under default_subject body_text (some (number n)) = bad_subject
    save_under default_subject body_text (some (object get)) = bad_subject
    save_under default_subject body_text (some other) = bad_subject

    save_body : Text → (Text → Option Json) → Option Text → ToolResultBody Json
    unfolding save_under
    save_body default_subject get none =
        bad_args tool_recall_save_fact (codes "args.body (string) is required")
    save_body default_subject get (some body_text) =
        if is_empty (trim body_text)
        then bad_args tool_recall_save_fact (codes "args.body must not be blank")
        else save_under default_subject body_text (shape_of (get (codes "subject")))

    unfoldable pub dispatch_recall_save_fact : Text → Shape Json → ToolResultBody Json
    unfolding save_body
    dispatch_recall_save_fact default_subject (object get) =
        save_body default_subject get (text_of (shape_of (get (codes "body"))))
    dispatch_recall_save_fact default_subject args =
        bad_args tool_recall_save_fact (codes "args must be a JSON object")

    unfoldable pub recall_tools_router : Router Json → Text → Router Json
    unfolding dispatch_recall_search dispatch_recall_save_fact
    recall_tools_router fallback default_save_subject name args =
        if text_eq name tool_recall_search
        then dispatch_recall_search (shape args)
        else if text_eq name tool_recall_save_fact
        then dispatch_recall_save_fact default_save_subject (shape args)
        else fallback name args

  abbrev decoded : {A : Type 0} → (A → Request) → Result Text A → Result DecodeError Request
  decoded make (ok a) = ok (make a)
  decoded make (err e) = err (json e)

  -- `serde_json::from_value` for the three payloads is an argument.
  unfoldable pub decode_request :
      (Json → Result Text TurnUserEvent)
      → (Json → Result Text ConfirmGrantedEvent)
      → (Json → Result Text ConfirmDeniedEvent)
      → Text
      → Json
      → Result DecodeError Request
  decode_request turn granted denied topic data' =
      if text_eq topic (codes "wm.dialog.turn.user")
      then decoded turn_user (turn data')
      else if text_eq topic (codes "wm.dialog.confirm.granted")
      then decoded confirm_granted (granted data')
      else if text_eq topic (codes "wm.dialog.confirm.denied")
      then decoded confirm_denied (denied data')
      else err (unknown_topic topic)
