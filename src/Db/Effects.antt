-- ===== src/Db/Effects.antt =====
-- The statements: project/src/infrastructure/audit.ts, outbox.ts, the writes of
-- project/src/memory/persistence/vector-store.ts, and selects, inserts and updates of rows.
use cogeto.Base.{
  any, keep, not, ◌||◌, ◌==◌, Bool, true, false, ℕ, suc, Option, none, some, List, [], ◌∷◌,
  if◌then◌else◌,
}
use cogeto.Base.Table.{find, update, delete}
use cogeto.Db.Rows.{MemoryRow, MemoryRelationRow, ApprovalRow, AuditEntry, Job, DomainEvent}
use cogeto.Db.Vectors.{Point, Patch, apply_patch}
use cogeto.Db.State.{M, Error, not_implemented, index_down, constraint_violation, ok, err}

abbrev pub memory_key : MemoryRow → ℕ
memory_key r = r.id

abbrev pub relation_key : MemoryRelationRow → ℕ
relation_key r = r.id

abbrev pub approval_key : ApprovalRow → ℕ
approval_key r = r.id

abbrev pub point_key : Point → ℕ
point_key p = p.id

-- A fresh uuid.
unfoldable pub fresh_id : M ℕ
fresh_id w = ok w.next_id (record w { next_id = suc w.next_id })

unfoldable pub write_audit : AuditEntry → M (Unit {0})
write_audit entry w = ok tt (record w { audit = entry ∷ w.audit })

-- `withTransactionalEnqueue`: the event and its job, in the caller's transaction.
unfoldable pub enqueue : DomainEvent → Job → M (Unit {0})
enqueue event job w = ok tt (record w { events = event ∷ w.events; jobs = job ∷ w.jobs })

-- One call of the index: it fails if the environment says so.
abbrev pub call_index : (List Point → List Point) → List Point → List Bool → M (Unit {0})
call_index f ps [] w = ok tt (record w { points = some (f ps) })
call_index f ps (true ∷ rest) w = err index_down (record w { outages = rest })
call_index f ps (false ∷ rest) w = ok tt (record w { points = some (f ps); outages = rest })

-- `this.requireVectors()`: no index is an error.
abbrev pub require_index : (List Point → List Point) → Option (List Point) → M (Unit {0})
require_index f none w = err not_implemented w
require_index f (some ps) w = call_index f ps w.outages w

-- `this.vectors?`: no index means no call.
abbrev pub index_if_any : (List Point → List Point) → Option (List Point) → M (Unit {0})
index_if_any f none w = ok tt w
index_if_any f (some ps) w = call_index f ps w.outages w

-- `this.requireVectors().setPayload(id, …)`; a missing point is no error.
unfoldable pub set_payload : ℕ → Patch → M (Unit {0})
set_payload id patch w = require_index (update point_key id (apply_patch patch)) w.points w

-- `this.vectors?.setPayload(id, …)`.
unfoldable pub set_payload_if_any : ℕ → Patch → M (Unit {0})
set_payload_if_any id patch w = index_if_any (update point_key id (apply_patch patch)) w.points w

-- `this.requireVectors().deletePoints([id])`.
unfoldable pub delete_point : ℕ → M (Unit {0})
delete_point id w = require_index (delete point_key id) w.points w

unfoldable pub select_memory : ℕ → M (Option MemoryRow)
select_memory id w = ok (find memory_key id w.memories) w

unfoldable pub insert_memory : MemoryRow → M (Unit {0})
insert_memory row w = ok tt (record w { memories = row ∷ w.memories })

unfoldable pub update_memory : ℕ → (MemoryRow → MemoryRow) → M (Unit {0})
update_memory id f w = ok tt (record w { memories = update memory_key id f w.memories })

abbrev pub names : ℕ → Option ℕ → Bool
names id none = false
names id (some k) = k == id

-- Some other row names this one as its successor: the foreign key of `superseded_by`.
abbrev pub is_referenced : ℕ → List MemoryRow → Bool
is_referenced id rows = any (λ r. names id r.superseded_by) rows

abbrev pub touches : ℕ → MemoryRelationRow → Bool
touches id rel = rel.a_memory_id == id || rel.b_memory_id == id

-- DELETE … WHERE id: refused while `superseded_by` refers to the row (migration 0001), and the
-- row's relations go with it (migration 0011, ON DELETE CASCADE).
unfoldable pub delete_memory : ℕ → M (Unit {0})
delete_memory id w =
    if is_referenced id w.memories
    then err constraint_violation w
    else ok tt (record w {
      memories = delete memory_key id w.memories;
      relations = keep (λ rel. not (touches id rel)) w.relations;
    })

unfoldable pub select_relation : ℕ → M (Option MemoryRelationRow)
select_relation id w = ok (find relation_key id w.relations) w

unfoldable pub insert_relation : MemoryRelationRow → M (Unit {0})
insert_relation row w = ok tt (record w { relations = row ∷ w.relations })

unfoldable pub update_relation : ℕ → (MemoryRelationRow → MemoryRelationRow) → M (Unit {0})
update_relation id f w = ok tt (record w { relations = update relation_key id f w.relations })

unfoldable pub select_approval : ℕ → M (Option ApprovalRow)
select_approval id w = ok (find approval_key id w.approvals) w

unfoldable pub insert_approval : ApprovalRow → M (Unit {0})
insert_approval row w = ok tt (record w { approvals = row ∷ w.approvals })

unfoldable pub update_approval : ℕ → (ApprovalRow → ApprovalRow) → M (Unit {0})
update_approval id f w = ok tt (record w { approvals = update approval_key id f w.approvals })

-- A read of an external store: it fails if the environment says so.
abbrev pub read_external : {A : Type 0} → Error → A → List Bool → M A
read_external down a [] w = ok a w
read_external down a (true ∷ rest) w = err down (record w { outages = rest })
read_external down a (false ∷ rest) w = ok a (record w { outages = rest })
