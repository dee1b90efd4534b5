-- ===== src/Memory/Deletion/Saga.antt =====
-- project/src/memory/deletion-saga.ts: the transaction that enumerates and deletes a source with its
-- memories and writes the receipt. Source has what comes before it, and the preview.
mod Source
use cogeto.Base.{
  ℕ, ◌+◌, String, Bool, true, false, Option, none, some, List, [], ◌∷◌, ◌++◌, if◌then◌else◌, ◌&&◌,
  ◌||◌, not, str_eq, is_blank, first, keep, any, has_id, length, map, is_some,
}
use cogeto.Shared.{SourceType, file, same_source_type, Principal}
use cogeto.Db.{
  World, MemoryRow, MemoryRelationRow, FileRow, ReceiptRow, ReceiptCounts, pending, Cancellation,
  DeletionTally, source_deletion_requested, receipt_entity, deletion_of, execute_deletion,
  source_deletion_event, M, ◌>>=◌, ◌>>◌, pure, throw, gets, modify, transaction, bad_request,
  not_found, constraint_violation, ok, err, fresh_id, write_audit, enqueue,
}
use cogeto.Memory.Transition.{user, actor_label}
use cogeto.Memory.Reconciliation.Resolve.{lift_contradictions_before_deletion}
use cogeto.Memory.Deletion.Ports.{
  is_file, is_from, has_adapter, owner_of, delete_source, enumerate_cascade, cancel_pending,
}
use cogeto.Memory.Deletion.Cascades.{tasks_cascade, chat_answer_cascade, reply_draft_cascade}
unfoldable pub use Source.*

abbrev pub drop_file : String → World → World
drop_file key w = record w {
  vault = record w.vault { files = keep (λ f. not (is_file key f)) w.vault.files };
}

abbrev pub remove_file : Principal → String → Option FileRow → M (List String)
remove_file p key none = pure []
remove_file p key (some row) =
    if not (str_eq row.owner_id p.user_id)
    then throw not_found
    else do modify (drop_file key); pure (key ∷ [])

-- The memories of an attachment, and its key if it was there.
unfoldable pub cascade_file_sub_source : Principal → String → M (List MemoryRow × List String)
cascade_file_sub_source p key = do
  cancel_pending file key false
  rows ← gets (λ w. keep (is_from file key) w.memories)
  hide_if (any (is_foreign_row p) rows)
  removed ← remove_file p key (← gets (λ w. first (is_file key) w.vault.files))
  pure (rows, removed)

unfoldable pub cascade_files : Principal → List String → M (List MemoryRow × List String)
cascade_files p [] = pure ([], [])
cascade_files p (key ∷ keys) = do
  (rows, removed) ← cascade_file_sub_source p key
  (more, others) ← cascade_files p keys
  pure (rows ++ more, removed ++ others)

abbrev pub names_one_of : List ℕ → Option ℕ → Bool
names_one_of ids none = false
names_one_of ids (some id) = has_id id ids

abbrev pub is_doomed : List ℕ → MemoryRow → Bool
is_doomed ids row = has_id row.id ids

-- A surviving row that a deleted one replaced.
abbrev pub is_orphaned : List ℕ → MemoryRow → Bool
is_orphaned ids row = names_one_of ids row.superseded_by && not (is_doomed ids row)

abbrev pub null_pointer : List ℕ → ℕ → MemoryRow → MemoryRow
null_pointer ids now row =
    if is_orphaned ids row then record row { superseded_by = none; updated_at = now } else row

abbrev pub touches_one_of : List ℕ → MemoryRelationRow → Bool
touches_one_of ids rel = has_id rel.a_memory_id ids || has_id rel.b_memory_id ids

-- `DELETE … WHERE id IN ids`: refused where a row that stays refers to one that goes, and the
-- relations of the rows go with them.
unfoldable pub delete_memories : List ℕ → M (Unit {0})
delete_memories ids w =
    if any (is_orphaned ids) w.memories
    then err constraint_violation w
    else ok tt (record w {
      memories = keep (λ row. not (is_doomed ids row)) w.memories;
      relations = keep (λ rel. not (touches_one_of ids rel)) w.relations;
    })

abbrev pub row_ids : List MemoryRow → List ℕ
row_ids rows = map (λ row. row.id) rows

-- The ids of the rows whose pointer was nulled.
unfoldable pub erase_rows : List ℕ → M (List ℕ)
erase_rows [] = pure []
erase_rows (id ∷ ids) = do
  now ← gets (λ w. w.now)
  nulled ← gets (λ w. row_ids (keep (is_orphaned (id ∷ ids)) w.memories))
  modify (λ w. record w { memories = map (null_pointer (id ∷ ids) now) w.memories })
  delete_memories (id ∷ ids)
  pure nulled

abbrev pub push_key : List String → String → List String
push_key keys key = if any (λ k. str_eq k key) keys then keys else keys ++ key ∷ []

abbrev pub push_keys : List String → List String → List String
push_keys keys [] = keys
push_keys keys (key ∷ more) = push_keys (push_key keys key) more

-- The file's own row; the key of its object where the row was there.
abbrev delete_file_row : String → Option FileRow → M (List String)
delete_file_row id none = pure []
delete_file_row id (some row) = do modify (drop_file id); pure (id ∷ [])

abbrev pub delete_kept : SourceType → String → Bool → M (Unit {0})
delete_kept type id true = modify (λ w. record w { vault = delete_source type id w.vault })
delete_kept type id false = pure tt

-- The source's row, in whichever table it is.
unfoldable pub delete_own :
    SourceType → String → Option FileRow → (adapter : Bool) → M (List String)
delete_own type id file_row adapter = do
  own ← delete_file_row id file_row
  delete_kept type id adapter
  pure own

abbrev insert_receipt : ReceiptRow → M (Unit {0})
insert_receipt row =
    modify (λ w. record w { vault = record w.vault { receipts = row ∷ w.vault.receipts } })

abbrev pub pending_receipt : ℕ → ReceiptCounts → ReceiptRow
pending_receipt id counts =
    let source = counts.source in
    record {
      id = id;
      source_type = source.source_type;
      source_id = source.source_id;
      counts_json = some counts;
      status = pending;
      prev_hash = none;
      hash = none;
      signature = none;
      signed_at = none;
      confirmed_at = none;
    }

abbrev tally_of : ReceiptCounts → ℕ → DeletionTally
tally_of counts lifted = record {
  memory_count = counts.memory_count;
  object_count = length counts.object_keys;
  superseded_by_nulled = length counts.superseded_by_nulled;
  contradictions_lifted = lifted;
  chat_messages_redacted = counts.chat_messages_redacted;
  reply_drafts_redacted = counts.reply_drafts_redacted;
}

-- The receipt with its job and its audit entry.
unfoldable pub write_receipt : Principal → ReceiptCounts → ℕ → Cancellation → M ℕ
write_receipt p counts lifted ingestion = do
  receipt ← fresh_id
  insert_receipt (pending_receipt receipt counts)
  enqueue (source_deletion_event counts.source.source_type counts.source.source_id receipt)
      (execute_deletion receipt)
  write_audit (record {
    actor = actor_label (user p.user_id);
    action = source_deletion_requested;
    entity_type = receipt_entity;
    entity_id = receipt;
    detail =
        deletion_of counts.source.source_type counts.source.source_id (tally_of counts lifted)
          ingestion;
    org_id = some p.org_id;
    owner_id = some p.user_id;
  })
  pure receipt

abbrev pub counts_for :
    Principal
    → SourceType
    → String
    → (doomed : List ℕ) → (keys : List String) → (tasks answers drafts : ℕ) → (nulled : List ℕ)
    → (now : ℕ) → ReceiptCounts
counts_for p type id doomed keys tasks answers drafts nulled now = record {
  source = record { source_type = type; source_id = id };
  requested_by = p.user_id;
  memory_ids = doomed;
  memory_count = length doomed;
  tasks_removed = tasks;
  chat_messages_redacted = answers;
  reply_drafts_redacted = drafts;
  point_ids = doomed;
  object_keys = keys;
  superseded_by_nulled = nulled;
  enumerated_at = now;
}

-- What the transaction deletes and redacts once the memories are enumerated.
unfoldable pub erase :
    Principal → SourceType → String → ResolvedSource → Cancellation → List ℕ → List String → M ℕ
erase p type id source ingestion doomed cascade_keys = do
  lifted ← lift_contradictions_before_deletion (some p.org_id) doomed
  tasks ← tasks_cascade doomed
  answers ← chat_answer_cascade doomed
  drafts ← reply_draft_cascade type id
  nulled ← erase_rows doomed
  own ← delete_own type id source.file_row source.adapter
  now ← gets (λ w. w.now)
  write_receipt p
      (counts_for p type id doomed (push_keys own cascade_keys) tasks answers drafts nulled now)
      lifted ingestion

-- The transaction of `requestSourceDeletion`.
unfoldable pub request_in_tx : Principal → SourceType → String → M ℕ
request_in_tx p type id = do
  source ← resolve_source type id
  hide_if (is_foreign p source.owner)
  ingestion ← cancel_pending type id (same_source_type type file && not (is_some source.file_row))
  rows ← enumerate_and_authorize p type id source.owner
  members ← gets (λ w. enumerate_cascade type id w.vault)
  (sub_rows, keys) ← cascade_files p members.file_sub_source_keys
  erase p type id source ingestion (row_ids (rows ++ sub_rows)) (members.object_keys ++ keys)

unfoldable pub request_source_deletion : Principal → SourceType → String → M ℕ
request_source_deletion p type id =
    if is_blank id then throw bad_request else transaction (request_in_tx p type id)
