-- ===== src/Memory/Facts.antt =====
-- project/src/memory/memory.store.ts: `NewFact`, and the private paths that every write shares:
-- `orgFor`, `lockRow` and `insertFact`.
use cogeto.Base.{
  ℕ, String, Bool, true, Option, none, some, List, if◌then◌else◌, ◌||◌, str_eq, is_blank, or_else,
}
use cogeto.Shared.{MemoryStatus, active, MemoryScope, FactKind, SourceType}
use cogeto.Db.{
  MemoryRow, AuditEntry, memory_created, memory_entity, provenance, M, ◌>>=◌, ◌>>◌, pure, throw,
  gets, bad_request, not_found, fresh_id, write_audit, select_memory, insert_memory,
}
use cogeto.Memory.Transition.{
  MemoryActor, user, reconciliation, consolidation, verification, deletion_saga,
}

pub record NewFact : Type 0 where
  pub content : String
  pub scope : MemoryScope
  pub source_type : SourceType
  pub source_id : String
  pub entities : List String
  pub subject_entity : Option String
  pub kind : Option FactKind
  pub authored_by_user : Option Bool
  pub temporal_unresolved : List String
  pub sensitive : Bool
  pub valid_from : Option ℕ
  pub valid_until : Option ℕ
  pub initial_status : Option MemoryStatus
  pub embedding_model : Option String

unfoldable pub org_for : String → M (Option String)
org_for owner w = gets (λ v. v.org_of owner) w

-- A user may touch only rows of their own.
abbrev pub may_touch : MemoryActor → MemoryRow → Bool
may_touch (user id) row = str_eq row.owner_id id
may_touch reconciliation row = true
may_touch consolidation row = true
may_touch verification row = true
may_touch deletion_saga row = true

abbrev pub found_or_throw : MemoryActor → Option MemoryRow → M MemoryRow
found_or_throw actor none = throw not_found
found_or_throw actor (some row) = if may_touch actor row then pure row else throw not_found

-- `SELECT … FOR UPDATE`: a row that is absent or another user's is not found.
unfoldable pub lock_row : ℕ → MemoryActor → M MemoryRow
lock_row id actor = do found_or_throw actor (← select_memory id)

-- The columns that an insert writes.
abbrev pub fact_row : ℕ → String → NewFact → ℕ → MemoryRow
fact_row id owner fact now = record {
  id = id;
  owner_id = owner;
  scope = fact.scope;
  source_type = fact.source_type;
  source_id = fact.source_id;
  status = or_else fact.initial_status active;
  sensitive = fact.sensitive;
  entities = fact.entities;
  temporal_unresolved = fact.temporal_unresolved;
  subject_entity = fact.subject_entity;
  kind = fact.kind;
  authored_by_user = fact.authored_by_user;
  valid_from = some (or_else fact.valid_from now);
  valid_until = fact.valid_until;
  superseded_by = none;
  content = some fact.content;
  content_embedding_ref = none;
  embedding_model = fact.embedding_model;
  created_at = now;
  updated_at = now;
}

abbrev pub created_entry : MemoryRow → String → Option String → AuditEntry
created_entry row actor org = record {
  actor = actor;
  action = memory_created;
  entity_type = memory_entity;
  entity_id = row.id;
  detail = provenance row.source_type row.source_id row.scope;
  org_id = org;
  owner_id = some row.owner_id;
}

abbrev pub is_orphan : String → NewFact → Bool
is_orphan owner fact = is_blank owner || is_blank fact.source_id

abbrev insert_row : String → NewFact → String → M MemoryRow
insert_row owner fact actor = do
  id ← fresh_id
  now ← gets (λ w. w.now)
  let row = fact_row id owner fact now
  insert_memory row
  org ← org_for owner
  write_audit (created_entry row actor org)
  pure row

-- No memory without an owner and a source.
unfoldable pub insert_fact : String → NewFact → String → M MemoryRow
insert_fact owner fact actor =
    if is_orphan owner fact then throw bad_request else insert_row owner fact actor
