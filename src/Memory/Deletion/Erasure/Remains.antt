-- ===== src/Memory/Deletion/Erasure/Remains.antt =====
-- What the surviving rows are not: erased, or of the source.
use cogeto.Base.{
  ℕ, String, true, false, List, [], ◌∷◌, ◌++◌, ◌≡◌, ◌==◌, ==_refl, refl, arith, sym, subst, keep,
  All, has_id, Bool-cases, inl, inr,
}
use cogeto.Shared.{SourceType}
use cogeto.Db.{World, MemoryRow}
use cogeto.Memory.Deletion.Ports.{is_from}
use cogeto.Memory.Deletion.Saga.{row_ids, is_doomed}
use cogeto.Memory.Deletion.Erasure.Rows.{facts_of, facts, stays, All-keep_others}
use cogeto.Memory.Deletion.Erasure.Gathering.{derived_rows}

-- A property that reads only facts passes between rows with the same facts.
module _ (Q : MemoryRow → Type 0) (same : (row : MemoryRow) → Q (facts_of row) ≡ Q row) where
  to_facts : (rows : List MemoryRow) → All Q rows → All Q (facts rows)
  to_facts [] h = tt
  to_facts (row ∷ rows) h = (subst (λ T. T) (sym (same row)) h.0, to_facts rows h.1)

  of_facts : (rows : List MemoryRow) → All Q (facts rows) → All Q rows
  of_facts [] h = tt
  of_facts (row ∷ rows) h = (subst (λ T. T) (same row) h.0, of_facts rows h.1)

  pub All-facts : (rows old : List MemoryRow) → facts rows ≡ facts old → All Q old → All Q rows
  All-facts rows old e h = of_facts rows (subst (All Q) (sym e) (to_facts old h))

has_id-left :
    (k : ℕ) (rows more : List MemoryRow)
    → has_id k (row_ids rows) ≡ true
    → has_id k (row_ids (rows ++ more)) ≡ true
has_id-left k [] more h = absurd (cc h)
has_id-left k (row ∷ rows) more h = elim (Bool-cases (row.id == k)) [
  | inl e ↦ rw e refl
  | inr e ↦ rw e (has_id-left k rows more (ground (arith, e, h)))
]

-- The rows that a list of rows keeps are of its ids.
dropped_from :
    (type : SourceType) (id : String) (ids : List ℕ) (rows : List MemoryRow)
    → ((k : ℕ) → has_id k (row_ids (keep (is_from type id) rows)) ≡ true → has_id k ids ≡ true)
    → All (λ row. is_from type id row ≡ false) (keep (stays ids) rows)
dropped_from type id ids [] f = tt
dropped_from type id ids (row ∷ rows) f = elim (Bool-cases (is_from type id row)) [
  | inl hit ↦
      let doomed : is_doomed ids row ≡ true = f row.id (rw (hit, ==_refl row.id) refl) in
      rw doomed (dropped_from type id ids rows (λ k e. f k (rw hit (rw e (ground arith)))))
  | inr miss ↦
      let rest = dropped_from type id ids rows (λ k e. f k (rw miss e)) in
      elim (Bool-cases (is_doomed ids row)) [ inl e ↦ rw e rest | inr e ↦ rw e (miss, rest) ]
]

-- None of the survivors of a deletion is an erased memory, or of the source.
pub survivors_unlisted :
    (ids : List ℕ) (rows old : List MemoryRow)
    → facts rows ≡ facts (keep (stays ids) old)
    → All (λ (row : MemoryRow). has_id row.id ids ≡ false) rows
survivors_unlisted ids rows old e =
    All-facts (λ (row : MemoryRow). has_id row.id ids ≡ false) (λ row. refl) rows
      (keep (stays ids) old) e (All-keep_others (is_doomed ids) old)

pub survivors_elsewhere :
    (type : SourceType) (id : String) (rows : List MemoryRow) (w : World)
    → facts rows ≡ facts (keep (stays (row_ids (derived_rows type id w))) w.memories)
    → All (λ row. is_from type id row ≡ false) rows
survivors_elsewhere type id rows w e =
    All-facts (λ row. is_from type id row ≡ false) (λ row. refl) rows _ e
      (dropped_from type id (row_ids (derived_rows type id w)) w.memories
        λ k h. has_id-left k (keep (is_from type id) w.memories) _ h)
