-- ===== src/Memory/Store/BulkSpec.antt =====
-- What the bulk "mark outdated" of project/src/memory/memory.store.ts promises, told apart from its
-- loop: who is retired, who is passed over and for what reason.
use cogeto.Base.{
  ℕ, String, false, Option, none, some, List, [], ◌∷◌, ◌≡◌, ◌≢◌, arith, subst, Bool-cases, inl, inr,
  All, has_id, str_eq, eq_iff,
}
use cogeto.Base.Table.{find}
use cogeto.Shared.{outdated, replaced, user_approved, same_status, same_status_iff}
use cogeto.Db.{MemoryRow, memory_key}
use cogeto.Memory.Store.Bulk.{
  SkipReason, not_found_or_foreign, was_user_approved, was_replaced, already_outdated, BulkResult,
  skip_reason,
}

-- Why an owner's action passes a row of the table over.
pub data Skipped (owner : String) : Option MemoryRow → SkipReason → Type 0 where
  absent : Skipped owner none not_found_or_foreign
  foreign : (row : MemoryRow) → row.owner_id ≢ owner → Skipped owner (some row) not_found_or_foreign
  trusted :
      (row : MemoryRow)
      → row.owner_id ≡ owner
      → row.status ≡ user_approved
      → Skipped owner (some row) was_user_approved
  superseded :
      (row : MemoryRow)
      → row.owner_id ≡ owner
      → row.status ≡ replaced
      → Skipped owner (some row) was_replaced
  already :
      (row : MemoryRow)
      → row.owner_id ≡ owner
      → row.status ≡ outdated
      → Skipped owner (some row) already_outdated

-- The memory is the owner's, in a status that can be retired, and becomes outdated; the rest of the
-- row stays.
pub record Retires (owner : String) (before after : List MemoryRow) (id : ℕ) : Type 0 where
  pub row : MemoryRow
  pub at : ℕ
  pub found : find memory_key id before ≡ some row
  pub mine : row.owner_id ≡ owner
  pub not_trusted : row.status ≢ user_approved
  pub not_superseded : row.status ≢ replaced
  pub not_outdated : row.status ≢ outdated
  pub retired : find memory_key id after ≡ some (record row { status = outdated; updated_at = at })

-- Every id of the list is in one of the two reports, once, and in its order.
pub data Splits : List ℕ → List ℕ → List (ℕ × SkipReason) → Type 0 where
  all_reported : Splits [] [] []
  as_changed :
      {ids changed : List ℕ} {skips : List (ℕ × SkipReason)} (id : ℕ)
      → Splits ids changed skips
      → Splits (id ∷ ids) (id ∷ changed) skips
  as_skipped :
      {ids changed : List ℕ} {skips : List (ℕ × SkipReason)} (id : ℕ) (why : SkipReason)
      → Splits ids changed skips
      → Splits (id ∷ ids) changed ((id, why) ∷ skips)

-- What a run over distinct ids reports and leaves.
pub record Reported (owner : String) (ids : List ℕ) (before : List MemoryRow) (r : BulkResult)
    (after : List MemoryRow) : Type 0 where
  pub splits : Splits ids r.changed r.skipped
  pub changed : All (Retires owner before after) r.changed
  pub skipped : All (λ skip. Skipped owner (find memory_key skip.0 before) skip.1) r.skipped
  pub others :
      (k : ℕ) → has_id k r.changed ≡ false → find memory_key k after ≡ find memory_key k before

-- The reason that the code finds is the one that holds.
pub skip_reason-Skipped :
    (owner : String) (o : Option MemoryRow) (why : SkipReason)
    → skip_reason owner o ≡ some why
    → Skipped owner o why
skip_reason-Skipped owner none why e = subst (Skipped owner none) (ground (arith, e)) absent
skip_reason-Skipped owner (some row) why e = elim (Bool-cases (str_eq row.owner_id owner)) [
  | inr n ↦
      subst (Skipped owner (some row)) (ground (arith, e, n))
        (foreign row λ same. let yes = (eq_iff row.owner_id owner).1 same in absurd (cc (yes, n)))
  | inl m ↦
      let mine : row.owner_id ≡ owner = (eq_iff row.owner_id owner).0 m in
      elim (Bool-cases (same_status row.status user_approved)) [
        | inl s ↦
            subst (Skipped owner (some row)) (ground (arith, e, m, s))
              (trusted row mine ((same_status_iff row.status user_approved).0 s))
        | inr a ↦ elim (Bool-cases (same_status row.status replaced)) [
          | inl s ↦
              subst (Skipped owner (some row)) (ground (arith, e, m, a, s))
                (superseded row mine ((same_status_iff row.status replaced).0 s))
          | inr b ↦ elim (Bool-cases (same_status row.status outdated)) [
            | inl s ↦
                subst (Skipped owner (some row)) (ground (arith, e, m, a, b, s))
                  (already row mine ((same_status_iff row.status outdated).0 s))
            | inr c ↦ absurd (ground (arith, e, m, a, b, c))
          ]
        ]
      ]
]
