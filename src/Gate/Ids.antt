-- ===== src/Gate/Ids.antt =====
-- Minted intent ids are told apart by their counter.
use wintermute_brain.Prelude.Decimal.{show, show-injective, show-IsDigit, digits_before}
use wintermute_brain.Prelude.{ℕ, ◌≡◌, ap, drop, arith}
use wintermute_brain.Gate.{intent_id_for}

-- Two minted ids are the same only where both the time and the counter are the same.
pub intent_id_for-injective :
    (ms seq ms' seq' : ℕ)
    → intent_id_for ms seq ≡ intent_id_for ms' seq'
    → (ms ≡ ms') × (seq ≡ seq')
intent_id_for-injective ms seq ms' seq' e =
    let parts =
      digits_before (show ms) (show ms') (show seq) (show seq') b'-' (show-IsDigit ms)
        (show-IsDigit ms') (omega arith) (ap (drop 4) e) in
    (show-injective ms ms' parts.0, show-injective seq seq' parts.1)
