-- ===== src/Memory/Machine/Invariant.antt =====
-- Every step of the machine keeps the tables well formed.
use cogeto.Base.{ℕ, suc, ◌<◌, ◌≤◌, ◌≢◌, refl, List, [], ◌∷◌, All, arith}
use cogeto.Base.Table.{
  find-All, All-update_found, All-delete, UniqueKeys-update, UniqueKeys-delete, UniqueKeys-insert,
}
use cogeto.Shared.{MemoryStatus, replaced}
use cogeto.Db.{World, MemoryRow, memory_key}
use cogeto.Memory.Transition.{MemoryActor}
use cogeto.Memory.Store.{set_status}
use cogeto.Memory.Transition.Matrix.{
  MayMove, contradict, approve_uncertain, approve_contradicted, consolidate, retire, demote,
  reaffirm,
}
use cogeto.Memory.Machine.Links.{Created-linked, Updated-linked, Erased-linked}
use cogeto.Memory.Machine.{
  RowOk, WellFormed, Move, transitioned, closed, restored, marked, rescoped, Step, quiet, created,
  updated, erased, related, Reach, here, next, Created,
}

RowOk-mono : (m n : ℕ) (r : MemoryRow) → m ≤ n → RowOk m r → RowOk n r
RowOk-mono m n r h ok = record {
  below = omega (arith, ok.below);
  owner = ok.owner;
  source = ok.source;
  pointed = ok.pointed;
  closed = ok.closed;
  elsewhere = ok.elsewhere;
}

All-RowOk-mono : (m n : ℕ) (rs : List MemoryRow) → m ≤ n → All (RowOk m) rs → All (RowOk n) rs
All-RowOk-mono m n [] h oks = tt
All-RowOk-mono m n (r ∷ rs) h oks = (RowOk-mono m n r h oks.0, All-RowOk-mono m n rs h oks.1)

pub All-below : (n : ℕ) (rs : List MemoryRow) → All (RowOk n) rs → All (λ r. memory_key r < n) rs
All-below n [] oks = tt
All-below n (r ∷ rs) oks = (oks.0.below, All-below n rs oks.1)

pub MayMove-live :
    {from to : MemoryStatus} {actor : MemoryActor}
    → MayMove from to actor
    → (from ≢ replaced) × (to ≢ replaced)
MayMove-live (contradict p q) = (p, λ e. cc)
MayMove-live approve_uncertain = (λ e. cc, λ e. cc)
MayMove-live approve_contradicted = (λ e. cc, λ e. cc)
MayMove-live (consolidate p q) = (p, λ e. cc)
MayMove-live (retire p q) = (p, λ e. cc)
MayMove-live (demote p q) = (p, λ e. cc)
MayMove-live (reaffirm p q) = (p, λ e. cc)

-- Neither status being `replaced`, the row still names no successor.
live-RowOk :
    (n : ℕ) (r : MemoryRow) (to : MemoryStatus) (now : ℕ)
    → r.status ≢ replaced
    → to ≢ replaced
    → RowOk n r
    → RowOk n (set_status to now r)
live-RowOk n r to now was live ok = record {
  below = ok.below;
  owner = ok.owner;
  source = ok.source;
  pointed = ground (arith, ok.pointed, was, live);
  closed = λ e. absurd (live e);
  elsewhere = ok.elsewhere;
}

pub Move-RowOk :
    (n : ℕ) (rs : List MemoryRow) (r r' : MemoryRow) → Move rs r r' → RowOk n r → RowOk n r'
Move-RowOk n rs r _ (transitioned actor to now touch legal) ok =
    live-RowOk n r to now (MayMove-live legal).0 (MayMove-live legal).1 ok
Move-RowOk n rs r _ (closed successor until now live lt ne) ok = record {
  below = ok.below;
  owner = ok.owner;
  source = ok.source;
  pointed = refl;
  closed = λ _. refl;
  elsewhere = λ e. ne (cc);
}
Move-RowOk n rs r _ (restored to now was live) ok = live-RowOk n r to now (λ e. cc) live ok
Move-RowOk n rs r _ (marked b now) ok = record {
  below = ok.below;
  owner = ok.owner;
  source = ok.source;
  pointed = ok.pointed;
  closed = ok.closed;
  elsewhere = ok.elsewhere;
}
Move-RowOk n rs r _ (rescoped s now) ok = record {
  below = ok.below;
  owner = ok.owner;
  source = ok.source;
  pointed = ok.pointed;
  closed = ok.closed;
  elsewhere = ok.elsewhere;
}

Created-RowOk : (w w' : World) (row : MemoryRow) → Created w w' row → RowOk (suc w.next_id) row
Created-RowOk w w' row c = record {
  below = omega (arith, c.fresh);
  owner = c.owner;
  source = c.source;
  pointed = ground (arith, c.live, c.unpointed);
  closed = λ e. absurd (c.live e);
  elsewhere = λ e. cc c.unpointed;
}

-- Every step of the machine keeps the tables well formed.
pub Step-WellFormed : {w w' : World} → Step w w' → WellFormed w → WellFormed w'
Step-WellFormed {w} {w'} (quiet s) wf = record {
  rows = rw (s.next_id, s.memories) wf.rows;
  unique = rw s.memories wf.unique;
  linked = rw s.memories wf.linked;
  priors = rw s.relations wf.priors;
}
Step-WellFormed {w} {w'} (created row c) wf = record {
  rows =
      rw (c.next_id, c.memories)
        (Created-RowOk w w' row c, All-RowOk-mono _ _ w.memories (omega arith) wf.rows);
  unique = rw c.memories (
      UniqueKeys-insert memory_key row w.memories (rw c.fresh (All-below _ w.memories wf.rows))
        wf.unique);
  linked = Created-linked w w' row c (All-below _ w.memories wf.rows) wf.linked;
  priors = rw c.relations wf.priors;
}
Step-WellFormed {w} {w'} (updated row f u) wf = record {
  rows =
      rw (u.next_id, u.memories)
        (All-update_found memory_key (RowOk w.next_id) row.id f w.memories row wf.unique u.found
          (Move-RowOk _ w.memories row (f row) u.move
            (find-All memory_key (RowOk w.next_id) row.id w.memories row wf.rows u.found))
          wf.rows);
  unique = rw u.memories (UniqueKeys-update memory_key row.id f w.memories u.same_key wf.unique);
  linked = Updated-linked w w' row f u wf.unique wf.linked;
  priors = rw u.relations wf.priors;
}
Step-WellFormed {w} {w'} (erased row e) wf = record {
  rows = rw (e.next_id, e.memories) (All-delete memory_key _ row.id w.memories wf.rows);
  unique = rw e.memories (UniqueKeys-delete memory_key row.id w.memories wf.unique);
  linked = Erased-linked w w' row e wf.linked;
  priors = e.priors wf.priors;
}
Step-WellFormed {w} {w'} (related r) wf = record {
  rows = rw r.memories (All-RowOk-mono _ _ w.memories r.later wf.rows);
  unique = rw r.memories wf.unique;
  linked = rw r.memories wf.linked;
  priors = r.priors wf.priors;
}

pub Reach-WellFormed : {w w' : World} → WellFormed w → Reach w w' → WellFormed w'
Reach-WellFormed wf here = wf
Reach-WellFormed wf (next r s) = Step-WellFormed s (Reach-WellFormed wf r)
