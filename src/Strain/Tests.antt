-- ===== src/Strain/Tests.antt =====
-- The floor on concrete policies.
use wintermute_brain.Prelude.Unicode.{ascii, is_empty}
use wintermute_brain.Prelude.{
  ◌≡◌, refl, List, [], ◌∷◌, some, Text, codes, starts_with, text_eq, All,
}
use wintermute_brain.Redline.{scan, normalise, search_from}
use wintermute_brain.Redline.Reports.{Absent}
use wintermute_brain.Strain.{BaseFloor, has, keep_new, effective_forbidden_terms, apply_floor}
use wintermute_brain.Strain.Union.{scan-apply_floor}

abbrev base : BaseFloor
base = record { forbidden_terms = codes "AI" ∷ codes "robot" ∷ []; strain_hash = codes "9f" }

-- The persona drops one term of the floor and adds one.
abbrev persona : List Text
persona = codes "robot" ∷ codes "server" ∷ []

abbrev plain : Text → Text
plain t = t

abbrev reply : Text
reply = codes "All is well."

reply-clean : scan ascii reply (apply_floor plain base persona).effective_forbidden_terms ≡ some []
unfolding scan apply_floor effective_forbidden_terms keep_new has normalise is_empty search_from
    starts_with text_eq
reply-clean = refl

scan-apply_floor_example : All (Absent ascii reply) base.forbidden_terms
scan-apply_floor_example = scan-apply_floor ascii plain base persona reply reply-clean
