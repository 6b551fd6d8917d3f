-- ===== src/Profile.antt =====
-- The built-in persona profiles of src/profile.rs: `PersonaProfile`, its lookup and the TOML fragment
-- of one. The editing of a document of the library `toml_edit` that applies a profile is left out.
pub mod Diff
pub mod Matches
mod Tests
use wintermute_brain.Prelude.Decimal.{show}
use wintermute_brain.Prelude.Unicode.{to_ascii_lowercase}
use wintermute_brain.Config.{Register, warm_elder, plain, brisk}
use wintermute_brain.Prelude.{
  ℕ, Bool, true, false, List, [], ◌∷◌, ◌++◌, map, Option, none, some, Text, codes, text_eq,
  if◌then◌else◌,
}

pub data ProfileIntroduction : Type 0 where
  off : ProfileIntroduction
  first_ever_boot : (ack_timeout_secs : ℕ) → ProfileIntroduction

pub record PersonaProfile : Type 0 where
  pub name : Text
  pub description : Text
  pub register : Register
  pub self_name : Text
  pub wake_word : Text
  pub max_sentences : ℕ
  pub addresses_user : Bool
  pub forbidden_terms : List Text
  pub introduction : ProfileIntroduction

abbrev pub jocelyn_forbidden : List Text
jocelyn_forbidden = map codes (
    "AI" ∷ "artificial intelligence" ∷ "computer" ∷ "algorithm" ∷ "model" ∷ "machine learning"
    ∷ "neural network" ∷ "robot" ∷ "device" ∷ "technology" ∷ "software" ∷ "program"
    ∷ "digital assistant" ∷ [])

abbrev pub make_jocelyn : PersonaProfile
make_jocelyn = record {
  name = codes "jocelyn";
  description =
      codes "Elder-companion preset: warm register, self-name Jocelyn, "
      ++ codes "avoids all tech jargon, speaks her name on first boot.";
  register = warm_elder;
  self_name = codes "jocelyn";
  wake_word = codes "hey jocelyn";
  max_sentences = 2;
  addresses_user = true;
  forbidden_terms = jocelyn_forbidden;
  introduction = first_ever_boot 25;
}

abbrev pub make_default : PersonaProfile
make_default = record {
  name = codes "default";
  description =
      codes "Standard wintermute persona: warm-elder register, "
      ++ codes "self-name wintermute, no forbidden terms.";
  register = warm_elder;
  self_name = codes "wintermute";
  wake_word = codes "hey wintermute";
  max_sentences = 3;
  addresses_user = true;
  forbidden_terms = [];
  introduction = off;
}

abbrev pub all : List PersonaProfile
all = make_jocelyn ∷ make_default ∷ []

-- `Iterator::find` with a name.
unfoldable pub find_named : Text → List PersonaProfile → Option PersonaProfile
find_named name [] = none
find_named name (p ∷ ps) =
    let rest = find_named name ps in if text_eq p.name name then some p else rest

unfoldable pub builtin : Text → Option PersonaProfile
builtin name = find_named (map to_ascii_lowercase name) all

abbrev pub register_str : Register → Text
register_str warm_elder = codes "warm-elder"
register_str plain = codes "plain"
register_str brisk = codes "brisk"

abbrev pub bool_str : Bool → Text
bool_str true = codes "true"
bool_str false = codes "false"

-- The format `"{}"`, whose argument is not escaped.
abbrev quoted : Text → Text
quoted t = codes "\"" ++ t ++ codes "\""

-- `writeln!` of a key and its value.
abbrev line : (key value : Text) → Text
line key value = key ++ codes " = " ++ value ++ 10 ∷ []

-- `terms.join(", ")` of the quoted terms.
abbrev joined : Text → List Text → Text
joined t [] = quoted t
joined t (s ∷ ss) = quoted t ++ codes ", " ++ joined s ss

abbrev terms_line : List Text → Text
terms_line [] = line (codes "forbidden_terms") (codes "[]")
terms_line (t ∷ ts) = line (codes "forbidden_terms") (codes "[" ++ joined t ts ++ codes "]")

abbrev introduction_line : ProfileIntroduction → Text
introduction_line off = line (codes "introduction") (codes "\"Off\"")
introduction_line (first_ever_boot secs) =
    line (codes "introduction.FirstEverBoot")
      (codes "{ ack_timeout_secs = " ++ show secs ++ codes " }")

unfoldable pub to_toml_fragment : PersonaProfile → Text
to_toml_fragment p =
    codes "[persona]"
    ++ (10 ∷ [])
    ++ line (codes "register") (quoted (register_str p.register))
    ++ line (codes "self_name") (quoted p.self_name)
    ++ line (codes "wake_word") (quoted p.wake_word)
    ++ line (codes "max_sentences") (show p.max_sentences)
    ++ line (codes "addresses_user") (bool_str p.addresses_user)
    ++ terms_line p.forbidden_terms
    ++ introduction_line p.introduction
