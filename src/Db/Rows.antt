-- ===== src/Db/Rows.antt =====
-- The rows of project/src/memory/persistence/tables.ts, project/src/agents/persistence/tables.ts
-- and project/src/infrastructure/persistence/tables.ts, and of the connectors', the tasks' and the chat's
-- tables, that the models use. A uuid is a number, a
-- timestamp a number of milliseconds, and a nullable column an `Option`. An audit detail is a
-- constructor for each shape that the source writes.
use cogeto.Base.{ℕ, Bool, String, Option, List}
use cogeto.Shared.{
  MemoryStatus, MemoryScope, FactKind, RelationResolution, SourceType, ApprovalStatus,
}

pub record MemoryRow : Type 0 where
  pub id : ℕ
  pub owner_id : String
  pub scope : MemoryScope
  pub source_type : SourceType
  pub source_id : String
  pub status : MemoryStatus
  pub sensitive : Bool
  pub entities : List String
  pub temporal_unresolved : List String
  pub subject_entity : Option String
  pub kind : Option FactKind
  pub authored_by_user : Option Bool
  pub valid_from : Option ℕ
  pub valid_until : Option ℕ
  pub superseded_by : Option ℕ
  pub content : Option String
  pub content_embedding_ref : Option String
  pub embedding_model : Option String
  pub created_at : ℕ
  pub updated_at : ℕ

pub record MemoryRelationRow : Type 0 where
  pub id : ℕ
  pub a_memory_id : ℕ
  pub b_memory_id : ℕ
  pub a_prior_status : MemoryStatus
  pub b_prior_status : MemoryStatus
  pub detected_at : ℕ
  pub reason : Option String
  pub resolved_at : Option ℕ
  pub resolution : Option RelationResolution

pub record ReplyDraft : Type 0 where
  pub to : String
  pub recipient_resolved : Option Bool
  pub recipient_verified : Option Bool
  pub subject : String
  pub in_reply_to : Option String
  pub references : List String
  pub body : String
  pub email_source_id : Option String

-- `payload_json` of an approval: the shape of one of the actions, or another.
pub data Payload : Type 0 where
  bulk_outdate : (memory_ids : List ℕ) → (reason : Option String) → Payload
  reply_draft : ReplyDraft → Payload
  malformed : Payload

pub data ActionType : Type 0 where
  memory_bulk_outdate email_reply_draft : ActionType
  unknown_action : String → ActionType

pub record ApprovalRow : Type 0 where
  pub id : ℕ
  pub action_type : ActionType
  pub payload_json : Payload
  pub status : ApprovalStatus
  pub org_id : Option String
  pub requested_by : Option String
  pub decided_by : Option String
  pub decided_at : Option ℕ
  pub executed_at : Option ℕ
  pub expires_at : Option ℕ
  pub created_at : ℕ

pub data AuditAction : Type 0 where
  memory_created memory_status_transition memory_sensitive_toggled : AuditAction
  memory_scope_changed memory_edited memory_rejected memory_superseded memory_merged : AuditAction
  memory_contradiction_detected memory_contradiction_resolved : AuditAction
  memory_contradiction_dismiss_restored memory_contradiction_lifted : AuditAction
  approval_created approval_approved approval_rejected approval_expired : AuditAction
  approval_executed : AuditAction
  source_deletion_requested deletion_receipt_confirmed sweep_completed : AuditAction

pub data EntityType : Type 0 where
  memory_entity relation_entity approval_entity receipt_entity sweep_entity : EntityType

-- How a memory came to be superseded, where the entry says so.
pub data Mechanism : Type 0 where
  by_reconciliation by_contradiction_confirm : Mechanism

-- How a pending ingestion was resolved: `IngestionCancellation`.
pub data Cancellation : Type 0 where
  cancelled already_ran run_in_flight : Cancellation

-- The counts in the audit entry of a deletion.
pub record DeletionTally : Type 0 where
  pub memory_count : ℕ
  pub object_count : ℕ
  pub superseded_by_nulled : ℕ
  pub contradictions_lifted : ℕ
  pub chat_messages_redacted : ℕ
  pub reply_drafts_redacted : ℕ

-- Why the chain of receipts does not verify.
pub data ChainError : Type 0 where
  chain_forks broken_linkage hash_mismatch signature_invalid : ChainError

pub record SweepReport : Type 0 where
  pub receipts_checked : ℕ
  pub identifiers_checked : ℕ
  pub objects_scanned : ℕ
  pub payloads_checked : ℕ
  pub payloads_healed : ℕ
  pub new_alerts : ℕ
  pub open_alerts : ℕ
  pub chain_ok : Bool
  pub chain_error : Option ChainError

pub data AlertKind : Type 0 where
  memory_row_present qdrant_point_present object_present chain_broken : AlertKind
  orphaned_memory orphaned_object payload_mismatch : AlertKind

-- The columns that the gates of the index read.
pub data GateField : Type 0 where
  owner_field scope_field status_field sensitive_field : GateField

-- The identifier that an alert is about, with what its text says of it.
pub data AlertDetail : Type 0 where
  of_id : ℕ → AlertDetail
  of_key : String → AlertDetail
  staging_left unowned : String → AlertDetail
  point_missing : ℕ → AlertDetail
  payload_stale : ℕ → List GateField → AlertDetail
  chain_fault : Option ChainError → AlertDetail

pub record Alert : Type 0 where
  pub receipt_id : Option ℕ
  pub kind : AlertKind
  pub detail : AlertDetail

pub data Detail : Type 0 where
  provenance : SourceType → String → MemoryScope → Detail
  moved : MemoryStatus → MemoryStatus → Detail
  sensitive_set : Bool → Detail
  scope_moved : MemoryScope → MemoryScope → Detail
  successor_is : ℕ → Detail
  rejected_from : SourceType → String → MemoryStatus → Detail
  superseded_by_at : (successor until : ℕ) → Detail
  superseded_as : ℕ → Mechanism → ℕ → Detail
  merged_into : ℕ → Bool → ℕ → Detail
  pair : ℕ → ℕ → Detail
  resolved_as : RelationResolution → ℕ → ℕ → Detail
  approval_state : ActionType → ApprovalStatus → Detail
  approval_moved : ActionType → ApprovalStatus → ApprovalStatus → Detail
  approval_effect : ActionType → (changed skipped : List ℕ) → Detail
  approval_finalised : ActionType → (recipient : String) → Detail
  deletion_of : SourceType → String → DeletionTally → Cancellation → Detail
  erased : (points objects : ℕ) → (hash : String) → Detail
  swept : SweepReport → Detail

pub record AuditEntry : Type 0 where
  pub actor : String
  pub action : AuditAction
  pub entity_type : EntityType
  pub entity_id : ℕ
  pub detail : Detail
  pub org_id : Option String
  pub owner_id : Option String

-- A job and the domain event that is written with it; each names its row.
pub data Job : Type 0 where
  embed_memory execute_approval execute_deletion : ℕ → Job

pub data DomainEvent : Type 0 where
  memory_edited_event : ℕ → ℕ → DomainEvent
  approval_approved_event : ℕ → DomainEvent
  source_deletion_event : SourceType → String → ℕ → DomainEvent

pub record FileRow : Type 0 where
  pub object_key : String
  pub owner_id : String

-- A row of a connector's table: a note, a mail, a web page or a conclusion, with the objects and
-- the attachments that it owns, if it is of a kind that has them.
pub record SourceRow : Type 0 where
  pub source_type : SourceType
  pub source_id : String
  pub owner_id : String
  pub raw_object_key : Option String
  pub html_object_key : Option String
  pub attachments : List (Option String)

-- A source as a key.
pub record SourceKey : Type 0 where
  pub source_type : SourceType
  pub source_id : String

-- The columns of a task that the gate and the cascade read.
pub record TaskRow : Type 0 where
  pub id : ℕ
  pub owner_id : String
  pub derived_from_memory_id : ℕ

-- The text of a message, by the memories that its citation tokens name.
pub data MessageContent : Type 0 where
  citing : List ℕ → MessageContent
  answer_redacted : MessageContent

pub record ChatMessage : Type 0 where
  pub id : String
  pub owner_id : String
  pub is_assistant : Bool
  pub content : MessageContent

pub record ReceiptCounts : Type 0 where
  pub source : SourceKey
  pub requested_by : String
  pub memory_ids : List ℕ
  pub memory_count : ℕ
  pub tasks_removed : ℕ
  pub chat_messages_redacted : ℕ
  pub reply_drafts_redacted : ℕ
  pub point_ids : List ℕ
  pub object_keys : List String
  pub superseded_by_nulled : List ℕ
  pub enumerated_at : ℕ

pub data ReceiptStatus : Type 0 where
  pending confirmed : ReceiptStatus

-- `counts_json` is `none` where it is not of the saga's shape.
pub record ReceiptRow : Type 0 where
  pub id : ℕ
  pub source_type : SourceType
  pub source_id : String
  pub counts_json : Option ReceiptCounts
  pub status : ReceiptStatus
  pub prev_hash : Option String
  pub hash : Option String
  pub signature : Option String
  pub signed_at : Option ℕ
  pub confirmed_at : Option ℕ
