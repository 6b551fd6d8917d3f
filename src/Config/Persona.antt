-- ===== src/Config/Persona.antt =====
-- `PersonaConfig::compose_base` of src/lib.rs: the first part of the system prompt.
use wintermute_brain.Prelude.Unicode.{is_empty}
use wintermute_brain.Prelude.Decimal.{show}
use wintermute_brain.Prelude.{
  ℕ, Bool, List, [], ◌∷◌, ◌++◌, Option, none, some, Text, codes, ltb, ◌==◌, if◌then◌else◌,
}
use wintermute_brain.Config.{Register, warm_elder, plain, brisk, PersonaConfig}

abbrev pub default_persona : Text
default_persona =
    codes "You are wintermute, a voice-first companion daemon. "
    ++ codes "The user hears you spoken aloud, never reads you on a screen. "
    ++ codes "Speak naturally and warmly in plain prose. Keep replies to one short "
    ++ codes "paragraph per turn unless the user asks for more. Do not use markdown, "
    ++ codes "bullet lists, code fences, or emoji — they do not speak well."

-- The clause with the user's name, which may not be addressed or not be known.
abbrev user_clause : Text → Bool → Option Text → Text
user_clause words addresses_user none = []
user_clause words addresses_user (some name) =
    if addresses_user then (if is_empty name then [] else words ++ name) else []

abbrev brevity_clause : (before after : Text) → ℕ → Text
brevity_clause before after max_sentences =
    if ltb 0 max_sentences
    then before
      ++ show max_sentences
      ++ codes " sentence"
      ++ (if max_sentences == 1 then [] else codes "s")
      ++ after
    else []

unfoldable pub register_base : Register → Text → Option Text → Bool → ℕ → Text
register_base warm_elder self_name user_name addresses_user max_sentences =
    codes "You are "
    ++ self_name
    ++ codes ", a kind companion"
    ++ user_clause (codes " who speaks with ") addresses_user user_name
    ++ codes " aloud — never on a screen. Talk like a warm, patient person: short "
    ++ codes "sentences, plain everyday words, one thought at a time. Avoid all "
    ++ codes "computer or engineering jargon; if something is wrong, describe it "
    ++ codes "the way a caring friend would, not a technician."
    ++ brevity_clause (codes " Keep replies to ") (codes " or fewer unless asked for more.")
        max_sentences
    ++ codes " No markdown, lists, code, or emoji — they do not speak well."
register_base plain self_name user_name addresses_user max_sentences = default_persona
register_base brisk self_name user_name addresses_user max_sentences =
    codes "You are "
    ++ self_name
    ++ codes ", a concise voice-first assistant"
    ++ user_clause (codes " assisting ") addresses_user user_name
    ++ codes ". Speak in plain prose — no markdown, bullets, or emoji."
    ++ brevity_clause (codes " Limit replies to ") (codes " unless instructed otherwise.")
        max_sentences

unfoldable pub join_comma : List Text → Text
join_comma [] = []
join_comma (t ∷ []) = t
join_comma (t ∷ u ∷ ts) = t ++ codes ", " ++ join_comma (u ∷ ts)

abbrev extra_block : Text → Text
extra_block [] = []
extra_block (c ∷ s) = 10 ∷ 10 ∷ c ∷ s

abbrev forbidden_block : List Text → Text
forbidden_block [] = []
forbidden_block (t ∷ ts) =
    10 ∷ 10 ∷ codes "You must never use the following words or phrases, in any form: "
    ++ join_comma (t ∷ ts)
    ++ codes
        ". When you would naturally say one of these, rephrase with plain, warm language instead."

unfoldable pub compose_base : PersonaConfig → Option Text → Text
unfolding register_base join_comma
compose_base p user_name =
    register_base p.register p.self_name user_name p.addresses_user p.max_sentences
    ++ extra_block p.extra
    ++ forbidden_block p.forbidden_terms
