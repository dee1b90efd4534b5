-- ===== src/Memory/Store/Supersede.antt =====
-- project/src/memory/memory.store.ts: supersession, the only way to `replaced`, and the edit of a
-- memory, which is a supersession by the user.
use cogeto.Base.{ℕ, String, Bool, true, false, none, some, [], if◌then◌else◌, or_else}
use cogeto.Shared.{replaced, user_approved, Principal, same_status}
use cogeto.Db.{
  MemoryRow, memory_edited, memory_superseded, superseded_by_at, successor_is, M, ◌>>=◌, ◌>>◌, pure,
  throw, gets, transaction, bad_request, write_audit, update_memory, set_payload, status_patch,
  enqueue, embed_memory, memory_edited_event,
}
use cogeto.Memory.Transition.{
  MemoryActor, user, reconciliation, consolidation, verification, deletion_saga, actor_label,
}
use cogeto.Memory.Facts.{NewFact, insert_fact, org_for, lock_row}
use cogeto.Memory.Store.{memory_entry}

pub record Superseded : Type 0 where
  pub predecessor : MemoryRow
  pub successor : MemoryRow

-- The predecessor's columns: `replaced`, its interval closed, its successor named.
abbrev pub close : ℕ → ℕ → ℕ → MemoryRow → MemoryRow
close successor until now row = record row {
  status = replaced;
  valid_until = some until;
  superseded_by = some successor;
  updated_at = now;
}

unfoldable pub supersede_core : MemoryActor → MemoryRow → NewFact → M Superseded
supersede_core actor old fact = do
  now ← gets (λ w. w.now)
  let from : ℕ = or_else fact.valid_from now
  successor ← insert_fact old.owner_id (record fact { valid_from = some from }) (actor_label actor)
  update_memory old.id (close successor.id from now)
  org ← org_for old.owner_id
  write_audit (
      memory_entry (actor_label actor) memory_superseded old (superseded_by_at successor.id from)
        org)
  set_payload old.id (status_patch replaced)
  pure (record { predecessor = close successor.id from now old; successor = successor })

abbrev pub may_supersede : MemoryActor → Bool
may_supersede (user _) = true
may_supersede reconciliation = true
may_supersede consolidation = false
may_supersede verification = false
may_supersede deletion_saga = false

abbrev supersede_locked : MemoryActor → NewFact → MemoryRow → M Superseded
supersede_locked actor fact old =
    if same_status old.status replaced then throw bad_request else supersede_core actor old fact

abbrev supersede_by : MemoryActor → ℕ → NewFact → M Superseded
supersede_by actor id fact = do supersede_locked actor fact (← lock_row id actor)

unfoldable pub supersede_in_tx : MemoryActor → ℕ → NewFact → M Superseded
supersede_in_tx actor id fact =
    if may_supersede actor then supersede_by actor id fact else throw bad_request

unfoldable pub supersede : MemoryActor → ℕ → NewFact → M Superseded
supersede actor id fact = transaction (supersede_in_tx actor id fact)

-- The successor of an edit: the old provenance and gates, the new content, approved by the user.
abbrev pub edited_fact : MemoryRow → String → NewFact
edited_fact old content = record {
  content = content;
  scope = old.scope;
  source_type = old.source_type;
  source_id = old.source_id;
  entities = old.entities;
  subject_entity = old.subject_entity;
  kind = old.kind;
  authored_by_user = none;
  temporal_unresolved = [];
  sensitive = old.sensitive;
  valid_from = none;
  valid_until = old.valid_until;
  initial_status = some user_approved;
  embedding_model = none;
}

abbrev pub edit_locked : Principal → ℕ → String → MemoryRow → M Superseded
edit_locked p id content old = do
  result ← supersede_core (user p.user_id) old (edited_fact old content)
  write_audit (
      memory_entry (actor_label (user p.user_id)) memory_edited old
        (successor_is result.successor.id) (some p.org_id))
  enqueue (memory_edited_event id result.successor.id) (embed_memory result.successor.id)
  pure result

abbrev edit_unless_replaced : Principal → ℕ → String → MemoryRow → M Superseded
edit_unless_replaced p id content old =
    if same_status old.status replaced then throw bad_request else edit_locked p id content old

unfoldable pub edit_content_in_tx : Principal → ℕ → String → M Superseded
edit_content_in_tx p id content = do
  edit_unless_replaced p id content (← lock_row id (user p.user_id))

unfoldable pub edit_content : Principal → ℕ → String → M Superseded
edit_content p id content = transaction (edit_content_in_tx p id content)
