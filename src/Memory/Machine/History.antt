-- ===== src/Memory/Machine/History.antt =====
-- What no step of the machine changes: the identity, provenance and content of a row, and, once a
-- row is `replaced`, its place in the history.
use cogeto.Base.{
  ℕ, ◌≡◌, ◌∙◌, ◌⊎◌, ◌<◌, some, none, List, ◌∷◌, All, arith, ==_iff, inl, inr, Bool-cases, ◌==◌,
}
use cogeto.Base.Table.{
  find, find-key, find-update_same, find-update_other, find-delete_other, find-delete_same,
  find-All,
}
use cogeto.Shared.{replaced, uncertain}
use cogeto.Db.{World, MemoryRow, memory_key}
use cogeto.Memory.Machine.{
  Move, transitioned, closed, restored, marked, rescoped, Step, quiet, created, updated, erased,
  related, Reach, here, next, WellFormed, Updated, Erased,
}
use cogeto.Memory.Machine.Invariant.{Reach-WellFormed, MayMove-live, All-below}

-- The later state of a row keeps what makes it the same memory.
pub record Kept (r r' : MemoryRow) : Type 0 where
  pub id : r'.id ≡ r.id
  pub owner_id : r'.owner_id ≡ r.owner_id
  pub source_type : r'.source_type ≡ r.source_type
  pub source_id : r'.source_id ≡ r.source_id
  pub content : r'.content ≡ r.content
  pub entities : r'.entities ≡ r.entities
  pub valid_from : r'.valid_from ≡ r.valid_from
  pub created_at : r'.created_at ≡ r.created_at
  pub status : r.status ≡ replaced → r'.status ≡ replaced
  pub superseded_by : r.status ≡ replaced → r'.superseded_by ≡ r.superseded_by
  pub valid_until : r.status ≡ replaced → r'.valid_until ≡ r.valid_until

pub Kept-refl : (r : MemoryRow) → Kept r r
Kept-refl r = ground arith

pub Kept-trans : (r s t : MemoryRow) → Kept r s → Kept s t → Kept r t
Kept-trans r s t p q = ground arith

pub Move-Kept : (rs : List MemoryRow) (r r' : MemoryRow) → Move rs r r' → Kept r r'
Move-Kept rs r _ (transitioned actor to now touch legal) = ground (arith, (MayMove-live legal).0)
Move-Kept rs r _ (closed successor until now live lt ne) = ground (arith, live)
Move-Kept rs r _ (restored to now was live) = ground arith
Move-Kept rs r _ (marked b now) = ground arith
Move-Kept rs r _ (rescoped s now) = ground arith

-- A row that the later table still holds, as the same memory.
pub record Holds (k : ℕ) (r : MemoryRow) (w : World) : Type 0 where
  pub row : MemoryRow
  pub found : find memory_key k w.memories ≡ some row
  pub kept : Kept r row

pub find_created :
    (k n : ℕ) (r row : MemoryRow) (rs : List MemoryRow)
    → All (λ s. s.id < n) rs
    → row.id ≡ n
    → find memory_key k rs ≡ some r
    → find memory_key k (row ∷ rs) ≡ some r
unfolding find
find_created k n r row rs below fresh e =
    let lt : r.id < n = find-All memory_key (λ s. s.id < n) k rs r below e in
    let eq : r.id ≡ k = find-key memory_key k rs r e in ground arith

module _ {w w' : World} (k : ℕ) (r : MemoryRow) (e : find memory_key k w.memories ≡ some r) where
  Updated-Holds : (row : MemoryRow) (f : MemoryRow → MemoryRow) → Updated w w' row f → Holds k r w'
  Updated-Holds row f u = elim (Bool-cases (row.id == k)) [
    | inl hit ↦
        let at : row.id ≡ k = (==_iff _ _).0 hit in
        let same : row ≡ r = cc (u.found, at, e) in
        record {
          row = f row;
          found =
              rw u.memories (
                rw (← at) (find-update_same memory_key row.id f w.memories row u.same_key u.found));
          kept = rw (← same) (Move-Kept w.memories row (f row) u.move);
        }
    | inr miss ↦ record {
      row = r;
      found =
          rw u.memories
            (find-update_other memory_key row.id k f w.memories u.same_key (λ q. ground arith) ∙ e);
      kept = Kept-refl r;
    }
  ]

  Erased-Holds :
      (row : MemoryRow)
      → Erased w w' row
      → Holds k r w' ⊎ ((find memory_key k w'.memories ≡ none) × (r.status ≡ uncertain))
  Erased-Holds row x = elim (Bool-cases (row.id == k)) [
    | inl hit ↦
        let at : row.id ≡ k = (==_iff _ _).0 hit in
        let same : row ≡ r = cc (x.found, at, e) in
        inr (
          rw x.memories (rw (← at) (find-delete_same memory_key row.id w.memories)),
          rw (← same) x.doubtful,
        )
    | inr miss ↦ inl (record {
      row = r;
      found =
          rw x.memories (find-delete_other memory_key row.id k w.memories (λ q. ground arith) ∙ e);
      kept = Kept-refl r;
    })
  ]

-- A step keeps every row as the same memory, but that it may erase an uncertain one.
pub Step-Holds :
    {w w' : World} (k : ℕ) (r : MemoryRow)
    → WellFormed w
    → Step w w'
    → find memory_key k w.memories ≡ some r
    → Holds k r w' ⊎ ((find memory_key k w'.memories ≡ none) × (r.status ≡ uncertain))
Step-Holds {w} {w'} k r wf (quiet s) e =
    inl (record { row = r; found = rw s.memories e; kept = Kept-refl r })
Step-Holds {w} {w'} k r wf (created row c) e = inl (record {
  row = r;
  found =
      rw c.memories
        (find_created k w.next_id r row w.memories (All-below _ w.memories wf.rows) c.fresh e);
  kept = Kept-refl r;
})
Step-Holds {w} {w'} k r wf (updated row f u) e = inl (Updated-Holds k r e row f u)
Step-Holds {w} {w'} k r wf (erased row x) e = Erased-Holds k r e row x
Step-Holds {w} {w'} k r wf (related s) e =
    inl (record { row = r; found = rw s.memories e; kept = Kept-refl r })

-- Superseded history is permanent: along any path a `replaced` row stays in the table, with its
-- content, its successor and the end of its interval.
pub Reach-Holds :
    {w w' : World} (k : ℕ) (r : MemoryRow)
    → WellFormed w
    → Reach w w'
    → find memory_key k w.memories ≡ some r
    → r.status ≡ replaced
    → Holds k r w'
Reach-Holds k r wf here e h = record { row = r; found = e; kept = Kept-refl r }
Reach-Holds k r wf (next {v} path s) e h =
    let before = Reach-Holds k r wf path e h in
    elim (Step-Holds k before.row (Reach-WellFormed wf path) s before.found) [
      | inl after ↦ record {
        row = after.row;
        found = after.found;
        kept = Kept-trans r before.row after.row before.kept after.kept;
      }
      | inr (_, doubt) ↦ absurd (cc (before.kept.status h))
    ]
