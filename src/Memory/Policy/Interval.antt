-- ===== src/Memory/Policy/Interval.antt =====
-- The half-open validity intervals: a closed fact and its successor never hold together.
use cogeto.Base.{ℕ, ◌≤◌, ◌<◌, ◌≡◌, true, false, none, some, arith, or_else, ◌↔◌, Option}
use cogeto.Memory.Policy.{PolicyParty, interval_holds_at}

abbrev pub EndsAfter : Option ℕ → ℕ → Type 0
EndsAfter none t = Unit {0}
EndsAfter (some until) t = t < until

-- `interval_holds_at` decides the half-open interval from the start (or the capture) to the end.
pub interval_holds_at_iff :
    (row : PolicyParty) (t : ℕ)
    → (interval_holds_at row t ≡ true)
      ↔ ((or_else row.valid_from row.created_at ≤ t) × EndsAfter row.valid_until t)
unfolding interval_holds_at
interval_holds_at_iff row t = (ground arith, ground arith)

-- Where a predecessor is closed at its successor's start, no instant belongs to both.
pub interval_disjoint :
    (old new : PolicyParty) (from t : ℕ)
    → old.valid_until ≡ some from
    → new.valid_from ≡ some from
    → interval_holds_at old t ≡ true
    → interval_holds_at new t ≡ false
unfolding interval_holds_at
interval_disjoint old new from t closed opens h = ground arith
