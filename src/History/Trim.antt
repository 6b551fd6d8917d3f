-- ===== src/History/Trim.antt =====
-- `trimmed_messages` keeps the longest run of newest turns that fits the budget.
use mathlib.Core.List.{reverse, reverse-append, reverse-reverse}
use wintermute_brain.Prelude.Unicode.{byte_len}
use wintermute_brain.Prelude.{
  ℕ, ◌+◌, ◌*◌, ◌≤◌, ◌<◌, min, ◌≡◌, refl, sym, ap, ◌∙◌, subst, List, [], ◌∷◌, ◌++◌, append-nil,
  append_assoc, ltb, arith, Bool-cases, inl, inr, u64_max, saturating_add,
}
use wintermute_brain.History.{
  Turn, History, Message, pair_messages, pair_chars, char_budget_of, keep_newest, trimmed_messages,
}

-- The bytes of the texts of a list of turns, with no saturation.
abbrev pub chars : List Turn → ℕ
chars [] = 0
chars (t ∷ ts) = byte_len t.user + byte_len t.assistant + chars ts

-- `kept` is all of `turns`, or one more turn in front of it would pass the budget.
abbrev pub IsLongest : ℕ → List Turn → List Turn → Type 0
IsLongest budget [] kept = Unit
IsLongest budget (d ∷ ds) kept =
    (older : List Turn) × (t : Turn) × (d ∷ ds ≡ older ++ t ∷ []) × (budget < chars (t ∷ kept))

pub record Trimmed (budget : ℕ) (turns : List Turn) (messages : List Message) : Type 0 where
  pub dropped : List Turn
  pub kept : List Turn
  pub splits : turns ≡ dropped ++ kept
  pub shown : messages ≡ pair_messages kept
  pub fits : chars kept ≤ budget
  pub longest : IsLongest budget dropped kept

record Kept (budget : ℕ) (turns : List Turn) (result : List Turn) : Type 0 where
  dropped : List Turn
  splits : turns ≡ dropped ++ result
  fits : chars result ≤ budget
  longest : IsLongest budget dropped result

IsLongest-concat :
    (budget : ℕ) (older : List Turn) (t : Turn) (kept : List Turn)
    → budget < chars (t ∷ kept)
    → IsLongest budget (older ++ t ∷ []) kept
IsLongest-concat budget [] t kept h = ([], t, refl, h)
IsLongest-concat budget (d ∷ ds) t kept h = (d ∷ ds, t, refl, h)

keep_newest-Kept :
    (budget : ℕ) (newest kept : List Turn) (total : ℕ)
    → total ≡ chars kept
    → chars kept + chars newest ≤ u64_max
    → chars kept ≤ budget
    → Kept budget (reverse newest ++ kept) (keep_newest budget total kept newest)
unfolding keep_newest
keep_newest-Kept budget [] kept total e m h = record {
  dropped = [];
  splits = refl;
  fits = h;
  longest = tt;
}
keep_newest-Kept budget (t ∷ older) kept total e m h =
    elim (Bool-cases (ltb budget (saturating_add u64_max total (pair_chars t)))) [
      | inl over ↦ rw over (record {
        dropped = reverse older ++ t ∷ [];
        splits = turn_first ∙ sym (append_assoc (reverse older) (t ∷ []) kept);
        fits = h;
        longest = IsLongest-concat budget (reverse older) t kept (ground arith);
      })
      | inr room ↦
          rw (room, turn_first)
            (keep_newest-Kept budget older (t ∷ kept) (saturating_add u64_max total (pair_chars t))
              (ground arith) (ground arith) (ground arith))
    ]
  where
    turn_first : reverse (t ∷ older) ++ kept ≡ reverse older ++ t ∷ kept
    turn_first =
        ap (λ xs. xs ++ kept) (reverse-append (t ∷ []) older)
        ∙ append_assoc (reverse older) (t ∷ []) kept

chars-append : (xs ys : List Turn) → chars (xs ++ ys) ≡ chars xs + chars ys
chars-append [] ys = omega arith
chars-append (x ∷ xs) ys = omega (arith, chars-append xs ys)

chars-reverse : (xs : List Turn) → chars (reverse xs) ≡ chars xs
chars-reverse [] = refl
chars-reverse (x ∷ xs) =
    ap chars (reverse-append (x ∷ []) xs)
    ∙ omega (arith, chars-append (reverse xs) (x ∷ []), chars-reverse xs)

-- A budget that the largest number cuts off is as good as the whole one.
IsLongest-min :
    (budget : ℕ) (dropped kept : List Turn)
    → chars (dropped ++ kept) ≤ u64_max
    → IsLongest (min budget u64_max) dropped kept
    → IsLongest budget dropped kept
IsLongest-min budget [] kept m l = tt
IsLongest-min budget (d ∷ ds) kept m (older, t, e, over) =
    let size : chars ((older ++ t ∷ []) ++ kept) ≤ u64_max =
      subst (λ xs. chars (xs ++ kept) ≤ u64_max) e m in
    (
      older,
      t,
      e,
      omega (arith, size, chars-append (older ++ t ∷ []) kept, chars-append older (t ∷ [])),
    )

-- When the texts of the ring are at most `usize::MAX` bytes in all, what `trimmed_messages` returns
-- shows a run of newest turns whose texts fit four bytes for each token of the budget, and that is
-- all the ring or would not fit with one more turn.
pub trimmed_messages-Trimmed :
    (token_budget : ℕ) (h : History)
    → chars h.turns ≤ u64_max
    → Trimmed (token_budget * 4) h.turns (trimmed_messages token_budget h)
unfolding trimmed_messages
trimmed_messages-Trimmed token_budget h m = record {
  dropped = loop.dropped;
  kept = keep_newest (char_budget_of token_budget) 0 [] (reverse h.turns);
  splits = whole;
  shown = refl;
  fits = omega (arith, loop.fits);
  longest = IsLongest-min (token_budget * 4) loop.dropped _ (rw (← whole) m) loop.longest;
}
  where
    loop :
        Kept
          (char_budget_of token_budget)
          (reverse (reverse h.turns) ++ [])
          (keep_newest (char_budget_of token_budget) 0 [] (reverse h.turns))
    loop =
        keep_newest-Kept (char_budget_of token_budget) (reverse h.turns) [] 0 refl
          (omega (arith, chars-reverse h.turns)) (omega arith)

    whole :
        h.turns ≡ loop.dropped ++ keep_newest (char_budget_of token_budget) 0 [] (reverse h.turns)
    whole = sym (append-nil (reverse (reverse h.turns)) ∙ reverse-reverse h.turns) ∙ loop.splits
