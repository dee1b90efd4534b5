-- ===== src/Memory/Machine/Links.antt =====
-- Every step of the machine keeps the successors that rows name in the table: no supersession chain
-- ever breaks.
use cogeto.Base.{ℕ, ◌<◌, ◌≡◌, true, false, Option, none, some, List, [], ◌∷◌, All, arith, is_some}
use cogeto.Base.Table.{
  find, update, delete, UniqueKeys, find-delete_other, find-All, All-update_found, All-delete,
}
use cogeto.Db.{World, MemoryRow, memory_key, names, is_referenced}
use cogeto.Memory.Machine.{
  Resolves, Move, transitioned, closed, restored, marked, rescoped, Created, Updated, Erased,
}

-- The second table holds every key that the first holds.
abbrev Covers : List MemoryRow → List MemoryRow → Type 0
Covers rs rs' =
    (k : ℕ) → is_some (find memory_key k rs) ≡ true → is_some (find memory_key k rs') ≡ true

Resolves-mono :
    (rs rs' : List MemoryRow) (o : Option ℕ) → Covers rs rs' → Resolves rs o → Resolves rs' o
Resolves-mono rs rs' none cover h = tt
Resolves-mono rs rs' (some k) cover h = cover k h

All-Resolves-mono :
    (rs rs' ts : List MemoryRow)
    → Covers rs rs'
    → All (λ r. Resolves rs r.superseded_by) ts
    → All (λ r. Resolves rs' r.superseded_by) ts
All-Resolves-mono rs rs' [] cover h = tt
All-Resolves-mono rs rs' (r ∷ ts) cover h =
    (Resolves-mono rs rs' r.superseded_by cover h.0, All-Resolves-mono rs rs' ts cover h.1)

Covers-insert : (row : MemoryRow) (rs : List MemoryRow) → Covers rs (row ∷ rs)
unfolding find
Covers-insert row rs k h = ground arith

Covers-update :
    (id : ℕ) (f : MemoryRow → MemoryRow) (rs : List MemoryRow)
    → ((x : MemoryRow) → (f x).id ≡ x.id)
    → Covers rs (update memory_key id f rs)
unfolding find update
Covers-update id f [] keyed k h = h
Covers-update id f (r ∷ rs) keyed k h = ground (arith, keyed r, Covers-update id f rs keyed k)

pub Created-linked :
    (w w' : World) (row : MemoryRow)
    → Created w w' row
    → All (λ r. memory_key r < w.next_id) w.memories
    → All (λ r. Resolves w.memories r.superseded_by) w.memories
    → All (λ r. Resolves w'.memories r.superseded_by) w'.memories
Created-linked w w' row c below h = rw c.memories (
  rw c.unpointed tt,
  All-Resolves-mono w.memories (row ∷ w.memories) w.memories (Covers-insert row w.memories) h,
)

Move-Resolves :
    (rs : List MemoryRow) (r r' : MemoryRow)
    → Move rs r r'
    → Resolves rs r.superseded_by
    → Resolves rs r'.superseded_by
Move-Resolves rs r _ (transitioned actor to now touch legal) h = h
Move-Resolves rs r _ (closed successor until now live there ne) h = there
Move-Resolves rs r _ (restored to now was live) h = h
Move-Resolves rs r _ (marked b now) h = h
Move-Resolves rs r _ (rescoped s now) h = h

pub Updated-linked :
    (w w' : World) (row : MemoryRow) (f : MemoryRow → MemoryRow)
    → Updated w w' row f
    → UniqueKeys memory_key w.memories
    → All (λ r. Resolves w.memories r.superseded_by) w.memories
    → All (λ r. Resolves w'.memories r.superseded_by) w'.memories
Updated-linked w w' row f u unique h =
    let old : Resolves w.memories row.superseded_by =
      find-All memory_key (λ r. Resolves w.memories r.superseded_by) row.id w.memories row h
        u.found in
    let moved : All (λ r. Resolves w.memories r.superseded_by)
        (update memory_key row.id f w.memories) =
      All-update_found memory_key (λ r. Resolves w.memories r.superseded_by) row.id f w.memories row
        unique u.found (Move-Resolves w.memories row (f row) u.move old) h in
    rw u.memories (
      All-Resolves-mono w.memories (update memory_key row.id f w.memories) _
        (Covers-update row.id f w.memories u.same_key) moved)

Resolves-delete :
    (id : ℕ) (rs : List MemoryRow) (o : Option ℕ)
    → names id o ≡ false
    → Resolves rs o
    → Resolves (delete memory_key id rs) o
Resolves-delete id rs none e h = tt
Resolves-delete id rs (some k) e h = rw (find-delete_other memory_key id k rs (λ q. ground arith)) h

All-Resolves-delete :
    (id : ℕ) (rs ts : List MemoryRow)
    → is_referenced id ts ≡ false
    → All (λ r. Resolves rs r.superseded_by) ts
    → All (λ r. Resolves (delete memory_key id rs) r.superseded_by) ts
All-Resolves-delete id rs [] e h = tt
All-Resolves-delete id rs (r ∷ ts) e h = (
  Resolves-delete id rs r.superseded_by (ground arith) h.0,
  All-Resolves-delete id rs ts (ground arith) h.1,
)

pub Erased-linked :
    (w w' : World) (row : MemoryRow)
    → Erased w w' row
    → All (λ r. Resolves w.memories r.superseded_by) w.memories
    → All (λ r. Resolves w'.memories r.superseded_by) w'.memories
Erased-linked w w' row e h = rw e.memories (
    All-delete memory_key _ row.id w.memories
      (All-Resolves-delete row.id w.memories w.memories e.unreferenced h))
