-- ===== src/Memory/Store.antt =====
-- project/src/memory/memory.store.ts: creation, status transitions, the sensitive and scope
-- toggles, and the rejection of an uncertain memory. Supersession and the bulk action are children.
pub mod Supersede
pub mod Bulk
pub mod Rules
pub mod Steps
pub mod Paths
pub mod EditPaths
pub mod Outcomes
pub mod BulkSpec
pub mod BulkLoop
pub mod Rejection
use cogeto.Base.{
  ℕ, String, Bool, true, false, Option, none, some, if◌then◌else◌, str_eq, not, ◌&&◌, ◌||◌, ◌==◌,
}
use cogeto.Shared.{MemoryStatus, uncertain, MemoryScope, Principal, same_status, same_scope}
use cogeto.Db.{
  MemoryRow, AuditEntry, AuditAction, Detail, memory_status_transition, memory_sensitive_toggled,
  memory_scope_changed, memory_rejected, memory_entity, moved, sensitive_set, scope_moved,
  rejected_from, World, M, ◌>>=◌, ◌>>◌, pure, throw, gets, transaction, bad_request, not_found,
  write_audit, select_memory, update_memory, delete_memory, set_payload, delete_point, Patch,
  status_patch, sensitive_patch, scope_patch,
}
use cogeto.Memory.Transition.{
  MemoryActor, user, verification, actor_label, TransitionCheck, allowed, refused, check_transition,
}
use cogeto.Memory.Facts.{NewFact, insert_fact, org_for, lock_row}
use Prim.Native.String.{◌++◌ as text_append}

unfoldable pub create_from_fact : Principal → NewFact → M MemoryRow
create_from_fact p fact = transaction (insert_fact p.user_id fact (text_append "user:" p.user_id))

unfoldable pub admit_extracted_fact : String → NewFact → M MemoryRow
admit_extracted_fact owner fact = insert_fact owner fact "verification"

abbrev pub set_status : MemoryStatus → ℕ → MemoryRow → MemoryRow
set_status to now row = record row { status = to; updated_at = now }

abbrev pub memory_entry : String → AuditAction → MemoryRow → Detail → Option String → AuditEntry
memory_entry actor action row detail org = record {
  actor = actor;
  action = action;
  entity_type = memory_entity;
  entity_id = row.id;
  detail = detail;
  org_id = org;
  owner_id = some row.owner_id;
}

abbrev pub allowed_or_throw : TransitionCheck → M (Unit {0})
allowed_or_throw allowed = pure tt
allowed_or_throw (refused why) = throw bad_request

-- The payload copy is written last; a bulk change leaves it to its caller.
abbrev pub sync_payload : Bool → ℕ → Patch → M (Unit {0})
sync_payload true id patch = set_payload id patch
sync_payload false id patch = pure tt

unfoldable pub transition_in_tx : MemoryActor → ℕ → MemoryStatus → Bool → M MemoryRow
transition_in_tx actor id to sync = do
  row ← lock_row id actor
  allowed_or_throw (check_transition row.status to actor)
  now ← gets (λ w. w.now)
  update_memory id (set_status to now)
  org ← org_for row.owner_id
  write_audit
      (memory_entry (actor_label actor) memory_status_transition row (moved row.status to) org)
  sync_payload sync id (status_patch to)
  pure (set_status to now row)

unfoldable pub transition : MemoryActor → ℕ → MemoryStatus → M MemoryRow
transition actor id to = transaction (transition_in_tx actor id to true)

abbrev same_bool : Bool → Bool → Bool
same_bool true b = b
same_bool false b = not b

abbrev pub set_sensitive : Bool → ℕ → MemoryRow → MemoryRow
set_sensitive b now row = record row { sensitive = b; updated_at = now }

abbrev write_sensitive : Principal → ℕ → Bool → MemoryRow → M MemoryRow
write_sensitive p id sensitive row = do
  now ← gets (λ w. w.now)
  update_memory id (set_sensitive sensitive now)
  write_audit (
      memory_entry (actor_label (user p.user_id)) memory_sensitive_toggled row
        (sensitive_set sensitive) (some p.org_id))
  set_payload id (sensitive_patch sensitive)
  pure (set_sensitive sensitive now row)

unfoldable pub toggle_sensitive : Principal → ℕ → Bool → M MemoryRow
toggle_sensitive p id sensitive = transaction (do
  row ← lock_row id (user p.user_id)
  if same_bool row.sensitive sensitive then pure row else write_sensitive p id sensitive row)

abbrev pub set_scope_of : MemoryScope → ℕ → MemoryRow → MemoryRow
set_scope_of s now row = record row { scope = s; updated_at = now }

abbrev write_scope : Principal → ℕ → MemoryScope → MemoryRow → M MemoryRow
write_scope p id scope row = do
  now ← gets (λ w. w.now)
  update_memory id (set_scope_of scope now)
  write_audit (
      memory_entry (actor_label (user p.user_id)) memory_scope_changed row
        (scope_moved row.scope scope) (some p.org_id))
  set_payload id (scope_patch scope)
  pure (set_scope_of scope now row)

unfoldable pub set_scope : Principal → ℕ → MemoryScope → M MemoryRow
set_scope p id scope = transaction (do
  row ← lock_row id (user p.user_id)
  if same_scope row.scope scope then pure row else write_scope p id scope row)

abbrev reject_row : Principal → ℕ → MemoryRow → M (Option MemoryRow)
reject_row p id row = do
  delete_memory id
  write_audit (
      memory_entry (actor_label (user p.user_id)) memory_rejected row
        (rejected_from row.source_type row.source_id row.status) (some p.org_id))
  delete_point id
  pure (some row)

abbrev pub reject_found : Principal → ℕ → Option MemoryRow → M (Option MemoryRow)
reject_found p id none = pure none
reject_found p id (some row) =
    if not (str_eq row.owner_id p.user_id)
    then throw not_found
    else if not (same_status row.status uncertain)
    then throw bad_request
    else reject_row p id row

-- An absent memory is already rejected; only the owner rejects, and only an uncertain memory.
unfoldable pub reject_uncertain : Principal → ℕ → M (Option MemoryRow)
reject_uncertain p id = transaction (do reject_found p id (← select_memory id))
