-- ===== src/Memory/Machine.antt =====
-- The memory aggregate as an abstract machine: the moves of one row, the steps of the tables, and
-- the well-formedness that the aggregate promises. The operations of Store and Reconciliation are
-- shown to be paths of this machine.
pub mod Links
pub mod Invariant
pub mod History
use cogeto.Base.{
  ℕ, suc, ◌<◌, ◌≤◌, ◌≡◌, ◌≢◌, String, Bool, true, false, Option, none, some, List, [], ◌∷◌, All,
  is_some, is_blank,
}
use cogeto.Base.Table.{find, update, delete, UniqueKeys}
use cogeto.Shared.{MemoryStatus, contradicted, uncertain, replaced, MemoryScope, same_status}
use cogeto.Db.{World, MemoryRow, MemoryRelationRow, memory_key, is_referenced}
use cogeto.Memory.Transition.{MemoryActor}
use cogeto.Memory.Transition.Matrix.{MayMove}
use cogeto.Memory.Facts.{may_touch}
use cogeto.Memory.Store.{set_status, set_sensitive, set_scope_of}
use cogeto.Memory.Store.Supersede.{close}

-- A row of a well-formed table whose next uuid is `n`: it has provenance, and it is `replaced`
-- exactly when it names a successor, which is another row, its interval being closed then.
pub record RowOk (n : ℕ) (r : MemoryRow) : Type 0 where
  pub below : r.id < n
  pub owner : is_blank r.owner_id ≡ false
  pub source : is_blank r.source_id ≡ false
  pub pointed : is_some r.superseded_by ≡ same_status r.status replaced
  pub closed : r.status ≡ replaced → is_some r.valid_until ≡ true
  pub elsewhere : r.superseded_by ≢ some r.id

-- The successor that a row names is in the table.
abbrev pub Resolves : List MemoryRow → Option ℕ → Type 0
Resolves rs none = Unit {0}
Resolves rs (some k) = is_some (find memory_key k rs) ≡ true

-- The statuses that a relation recorded for restoration.
abbrev pub PriorsOk : MemoryRelationRow → Type 0
PriorsOk rel = (rel.a_prior_status ≢ replaced) × (rel.b_prior_status ≢ replaced)

pub record WellFormed (w : World) : Type 0 where
  pub rows : All (RowOk w.next_id) w.memories
  pub unique : UniqueKeys memory_key w.memories
  pub linked : All (λ r. Resolves w.memories r.superseded_by) w.memories
  pub priors : All PriorsOk w.relations

-- What may become of one row of the table `rs`.
pub data Move (rs : List MemoryRow) (r : MemoryRow) : MemoryRow → Type 0 where
  transitioned :
      (actor : MemoryActor) (to : MemoryStatus) (now : ℕ)
      → may_touch actor r ≡ true
      → MayMove r.status to actor
      → Move rs r (set_status to now r)
  closed :
      (successor until now : ℕ)
      → r.status ≢ replaced
      → is_some (find memory_key successor rs) ≡ true
      → successor ≢ r.id
      → Move rs r (close successor until now r)
  restored :
      (to : MemoryStatus) (now : ℕ)
      → r.status ≡ contradicted
      → to ≢ replaced
      → Move rs r (set_status to now r)
  marked : (b : Bool) (now : ℕ) → Move rs r (set_sensitive b now r)
  rescoped : (s : MemoryScope) (now : ℕ) → Move rs r (set_scope_of s now r)

-- The parts of the state that the machine is about.
pub record SameMemory (w w' : World) : Type 0 where
  pub memories : w'.memories ≡ w.memories
  pub relations : w'.relations ≡ w.relations
  pub next_id : w'.next_id ≡ w.next_id

pub record Created (w w' : World) (row : MemoryRow) : Type 0 where
  pub fresh : row.id ≡ w.next_id
  pub owner : is_blank row.owner_id ≡ false
  pub source : is_blank row.source_id ≡ false
  pub live : row.status ≢ replaced
  pub unpointed : row.superseded_by ≡ none
  pub memories : w'.memories ≡ row ∷ w.memories
  pub relations : w'.relations ≡ w.relations
  pub next_id : w'.next_id ≡ suc w.next_id

pub record Updated (w w' : World) (row : MemoryRow) (f : MemoryRow → MemoryRow) : Type 0 where
  pub found : find memory_key row.id w.memories ≡ some row
  pub move : Move w.memories row (f row)
  pub same_key : (x : MemoryRow) → (f x).id ≡ x.id
  pub memories : w'.memories ≡ update memory_key row.id f w.memories
  pub relations : w'.relations ≡ w.relations
  pub next_id : w'.next_id ≡ w.next_id

pub record Erased (w w' : World) (row : MemoryRow) : Type 0 where
  pub found : find memory_key row.id w.memories ≡ some row
  pub doubtful : row.status ≡ uncertain
  pub unreferenced : is_referenced row.id w.memories ≡ false
  pub memories : w'.memories ≡ delete memory_key row.id w.memories
  pub priors : All PriorsOk w.relations → All PriorsOk w'.relations
  pub next_id : w'.next_id ≡ w.next_id

pub record Related (w w' : World) : Type 0 where
  pub priors : All PriorsOk w.relations → All PriorsOk w'.relations
  pub memories : w'.memories ≡ w.memories
  pub later : w.next_id ≤ w'.next_id

pub data Step (w w' : World) : Type 0 where
  quiet : SameMemory w w' → Step w w'
  created : (row : MemoryRow) → Created w w' row → Step w w'
  updated : (row : MemoryRow) (f : MemoryRow → MemoryRow) → Updated w w' row f → Step w w'
  erased : (row : MemoryRow) → Erased w w' row → Step w w'
  related : Related w w' → Step w w'

pub data Reach (w : World) : World → Type 0 where
  here : Reach w w
  next : {v w' : World} → Reach w v → Step v w' → Reach w w'

pub Reach-Step : {w w' : World} → Step w w' → Reach w w'
Reach-Step s = next here s

pub Reach-trans : {w v w' : World} → Reach w v → Reach v w' → Reach w w'
Reach-trans r here = r
Reach-trans r (next q s) = next (Reach-trans r q) s
