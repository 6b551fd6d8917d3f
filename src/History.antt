-- ===== src/History.antt =====
-- src/history.rs: the bounded ring of completed turns. The `VecDeque` is a list, oldest first.
pub mod Ring
pub mod Trim
mod Tests
use mathlib.Core.List.{reverse}
use wintermute_brain.Prelude.Unicode.{byte_len}
use wintermute_brain.Prelude.{
  ℕ, suc, ◌+◌, ◌*◌, min, Bool, true, false, List, [], ◌∷◌, ◌++◌, Option, none, some, Text, length,
  leb, ltb, ◌==◌, if◌then◌else◌, u64_max, saturating_add,
}

-- `anthropic::Role` and `anthropic::Message`.
pub data Role : Type 0 where
  user assistant : Role

pub record Message : Type 0 where
  pub role : Role
  pub content : Text

pub record Turn : Type 0 where
  pub user : Text
  pub assistant : Text
  pub ts : ℕ

pub record History : Type 0 where
  pub turns : List Turn
  pub max_turns : ℕ

unfoldable pub new : ℕ → History
new max_turns = record { turns = []; max_turns = max_turns }

-- `while self.turns.len() >= max_turns { pop_front }`, on a `max_turns` above 0.
evict : ℕ → List Turn → List Turn
evict max_turns [] = []
evict max_turns (t ∷ ts) =
    let rest = evict max_turns ts in if leb max_turns (length (t ∷ ts)) then rest else t ∷ ts

unfoldable pub push : Turn → History → History
unfolding evict
push turn h =
    if h.max_turns == 0 then h else record h { turns = evict h.max_turns h.turns ++ turn ∷ [] }

unfoldable pub len : History → ℕ
len h = length h.turns

last_of : List Turn → Option Turn
last_of [] = none
last_of (t ∷ []) = some t
last_of (t ∷ u ∷ ts) = last_of (u ∷ ts)

unfoldable pub last : History → Option Turn
unfolding last_of
last h = last_of h.turns

abbrev pub pair_messages : List Turn → List Message
pair_messages [] = []
pair_messages (t ∷ ts) =
    record { role = user; content = t.user }
    ∷ record { role = assistant; content = t.assistant }
    ∷ pair_messages ts

unfoldable pub to_messages : History → List Message
to_messages h = pair_messages h.turns

-- `turn.user.len().saturating_add(turn.assistant.len())`, in bytes.
abbrev pub pair_chars : Turn → ℕ
pair_chars turn = saturating_add u64_max (byte_len turn.user) (byte_len turn.assistant)

-- `token_budget.saturating_mul(4)`.
abbrev pub char_budget_of : ℕ → ℕ
char_budget_of token_budget = min (token_budget * 4) u64_max

-- The loop of `trimmed_messages` over `turns.iter().rev()`: the newest turns first, with the
-- characters used so far. `kept.push_front` keeps the ring's order.
keep_newest : ℕ → ℕ → List Turn → List Turn → List Turn
keep_newest char_budget total_chars kept [] = kept
keep_newest char_budget total_chars kept (turn ∷ older) =
    let total = saturating_add u64_max total_chars (pair_chars turn) in
    let rest = keep_newest char_budget total (turn ∷ kept) older in
    if ltb char_budget total then kept else rest

unfoldable pub trimmed_messages : ℕ → History → List Message
unfolding keep_newest
trimmed_messages token_budget h =
    pair_messages (keep_newest (char_budget_of token_budget) 0 [] (reverse h.turns))
