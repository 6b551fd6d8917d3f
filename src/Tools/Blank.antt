-- ===== src/Tools/Blank.antt =====
-- What the routers of src/daemon.rs ask of the source of memories.
use wintermute_brain.Gate.{Router}
use wintermute_brain.Tools.{
  Shape, null, number, string, object, other, Values, RecallSource, shape_of, text_of, limit_of,
  search_text, save_under, save_body, dispatch_recall_search, dispatch_recall_save_fact,
  recall_tools_router, tool_recall_search, tool_recall_save_fact,
}
use wintermute_brain.Prelude.Unicode.{trim, is_empty}
use wintermute_brain.Prelude.{
  ℕ, ◌≡◌, refl, false, Bool-cases, Result-cases, inl, inr, Option, none, some, Text, codes, text_eq,
}

-- The two sources are the same for what is not blank.
pub record SameWhenSaid {F64 : Type 0} (r r' : RecallSource F64) : Type 0 where
  pub searches :
      (text : Text) (subject : Option Text) (limit : Option ℕ)
      → is_empty (trim text) ≡ false
      → r.search text subject limit ≡ r'.search text subject limit
  pub saves :
      (subject body : Text)
      → is_empty (trim subject) ≡ false
      → is_empty (trim body) ≡ false
      → r.save_fact subject body ≡ r'.save_fact subject body

module _ (v : Values) (r r' : RecallSource v.F64) (same : SameWhenSaid r r') where
  search_text-same :
      (get : Text → Option v.Json) (text : Option Text)
      → search_text v r get text ≡ search_text v r' get text
  unfolding search_text
  search_text-same get none = refl
  search_text-same get (some text) = elim (Bool-cases (is_empty (trim text))) [
    | inl blank ↦ rw blank refl
    | inr said ↦ rw said (elim (Result-cases (limit_of v (shape_of v (get (codes "limit"))))) [
      | inl (limit, valid) ↦
          rw valid (
            rw (same.searches text (text_of v (shape_of v (get (codes "subject")))) limit said)
              refl)
      | inr (reason, invalid) ↦ rw invalid refl
    ])
  ]

  dispatch_recall_search-same :
      (args : Shape v.Json) → dispatch_recall_search v r args ≡ dispatch_recall_search v r' args
  unfolding dispatch_recall_search
  dispatch_recall_search-same null = refl
  dispatch_recall_search-same (number n) = refl
  dispatch_recall_search-same (string s) = refl
  dispatch_recall_search-same (object get) =
      search_text-same get (text_of v (shape_of v (get (codes "text"))))
  dispatch_recall_search-same other = refl

  module _ (default_subject : Text) (subject_said : is_empty (trim default_subject) ≡ false) where
    save_under-same :
        (body : Text) (subject : Option (Shape v.Json))
        → is_empty (trim body) ≡ false
        → save_under v r default_subject body subject ≡ save_under v r' default_subject body subject
    unfolding save_under
    save_under-same body none said = rw (same.saves default_subject body subject_said said) refl
    save_under-same body (some null) said =
        rw (same.saves default_subject body subject_said said) refl
    save_under-same body (some (number n)) said = refl
    save_under-same body (some (string s)) said = elim (Bool-cases (is_empty (trim s))) [
      | inl blank ↦ rw blank refl
      | inr given ↦ rw given (rw (same.saves s body given said) refl)
    ]
    save_under-same body (some (object get)) said = refl
    save_under-same body (some other) said = refl

    save_body-same :
        (get : Text → Option v.Json) (body : Option Text)
        → save_body v r default_subject get body ≡ save_body v r' default_subject get body
    unfolding save_body
    save_body-same get none = refl
    save_body-same get (some body) = elim (Bool-cases (is_empty (trim body))) [
      | inl blank ↦ rw blank refl
      | inr said ↦ rw said (save_under-same body (shape_of v (get (codes "subject"))) said)
    ]

    dispatch_recall_save_fact-same :
        (args : Shape v.Json)
        → dispatch_recall_save_fact v r default_subject args
          ≡ dispatch_recall_save_fact v r' default_subject args
    unfolding dispatch_recall_save_fact
    dispatch_recall_save_fact-same null = refl
    dispatch_recall_save_fact-same (number n) = refl
    dispatch_recall_save_fact-same (string s) = refl
    dispatch_recall_save_fact-same (object get) =
        save_body-same get (text_of v (shape_of v (get (codes "body"))))
    dispatch_recall_save_fact-same other = refl

    -- Whatever a model calls a tool with: the source of memories is never searched for a blank text, and
    -- nothing blank is saved in it, nor under a blank subject. Two sources that differ for those alone give
    -- the same answers. The default subject is not blank.
    pub recall_tools_router-same :
        (fallback : Router v.Json) (name : Text) (args : v.Json)
        → recall_tools_router v r fallback default_subject name args
          ≡ recall_tools_router v r' fallback default_subject name args
    unfolding recall_tools_router
    recall_tools_router-same fallback name args =
        elim (Bool-cases (text_eq name (tool_recall_search v))) [
          | inl asks ↦ rw asks (dispatch_recall_search-same (v.shape args))
          | inr another ↦ rw another (elim (Bool-cases (text_eq name (tool_recall_save_fact v))) [
            | inl keeps ↦ rw keeps (dispatch_recall_save_fact-same (v.shape args))
            | inr unknown ↦ rw unknown refl
          ])
        ]
