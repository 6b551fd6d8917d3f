-- ===== src/Tools/Tests.antt =====
-- The routers of src/daemon.rs with a source of memories that fails for blank texts.
use wintermute_brain.Tools.{
  Values, RecallSource, object, no_tools_router, recall_tools_router, tool_recall_save_fact,
}
use wintermute_brain.Tools.Blank.{SameWhenSaid, recall_tools_router-same}
use wintermute_brain.Prelude.Unicode.{
  trim, is_empty, trim_start, trim_end, trim_end_cons, is_whitespace,
}
use wintermute_brain.Prelude.{ℕ, ◌≡◌, refl, false, [], some, Text, codes, ok, err, if◌then◌else◌}

-- A value is a text, and so is each of its fields.
abbrev plain_values : Values
plain_values = record {
  Json = Text;
  F64 = ℕ;
  shape = λ j. object (λ key. some j);
  of_text = λ s. s;
  of_f64 = λ n. [];
  of_nat = λ n. [];
  of_list = λ js. [];
  of_object = λ fields. [];
}

abbrev kept : RecallSource ℕ
kept = record { search = λ text subject limit. ok []; save_fact = λ subject body. ok body }

abbrev strict : RecallSource ℕ
strict = record {
  search = λ text subject limit. if is_empty (trim text) then err (codes "blank") else ok [];
  save_fact = λ subject body.
      if is_empty (trim subject)
      then err (codes "blank")
      else if is_empty (trim body)
      then err (codes "blank")
      else ok body;
}

kept-strict : SameWhenSaid kept strict
kept-strict = record {
  searches = λ text subject limit said. rw said refl;
  saves = λ subject body given said. rw given (rw said refl);
}

profile-said : is_empty (trim (codes "wintermute-profile")) ≡ false
unfolding is_empty trim trim_start trim_end trim_end_cons is_whitespace
profile-said = refl

recall_tools_router-same_example :
    recall_tools_router plain_values kept
      (no_tools_router plain_values)
      (codes "wintermute-profile")
      (tool_recall_save_fact plain_values)
      (codes "likes tea")
    ≡ recall_tools_router plain_values strict
        (no_tools_router plain_values)
        (codes "wintermute-profile")
        (tool_recall_save_fact plain_values)
        (codes "likes tea")
recall_tools_router-same_example =
    recall_tools_router-same plain_values kept strict kept-strict (codes "wintermute-profile")
      profile-said (no_tools_router plain_values) (tool_recall_save_fact plain_values)
      (codes "likes tea")
