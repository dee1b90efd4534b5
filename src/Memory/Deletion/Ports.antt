-- ===== src/Memory/Deletion/Ports.antt =====
-- The ports of project/src/memory/deletion-saga.ts as the connectors, the chat, the tasks and the
-- pipeline implement them: project/src/connectors/notes.source-deletion.ts, web.source-deletion.ts,
-- email.source-deletion.ts, project/src/retrieval/chat/chat.source-deletion.ts,
-- project/src/tasks/task-conclusion.source-ports.ts, and project/src/ingestion/pipeline/
-- pipeline-guard.ts. No adapter is bound for calendar events; files are the saga's own.
use cogeto.Base.{
  String, Bool, true, false, Option, none, some, List, [], ◌∷◌, ◌++◌, if◌then◌else◌, ◌&&◌, not,
  str_eq, first, keep, any,
}
use cogeto.Shared.{
  SourceType, user_note, chat, email, calendar_event, file, task_conclusion, web, same_source_type,
}
use cogeto.Db.{
  Vault, SourceRow, SourceKey, ChatMessage, MemoryRow, FileRow, Cancellation, cancelled,
  already_ran, run_in_flight, M, ◌>>=◌, ◌>>◌, pure, gets, modify,
}

abbrev pub is_source : SourceType → String → SourceRow → Bool
is_source type id row = same_source_type row.source_type type && str_eq row.source_id id

abbrev pub is_message : String → ChatMessage → Bool
is_message id message = str_eq message.id id

abbrev pub is_file : String → FileRow → Bool
is_file key row = str_eq row.object_key key

-- A memory of the provenance (type, id).
abbrev pub is_from : SourceType → String → MemoryRow → Bool
is_from type id row = same_source_type row.source_type type && str_eq row.source_id id

-- `this.adapters.get(sourceType)`.
abbrev pub has_adapter : SourceType → Bool
has_adapter user_note = true
has_adapter chat = true
has_adapter email = true
has_adapter task_conclusion = true
has_adapter web = true
has_adapter calendar_event = false
has_adapter file = false

abbrev source_owner : Option SourceRow → Option String
source_owner none = none
source_owner (some row) = some row.owner_id

abbrev message_owner : Option ChatMessage → Option String
message_owner none = none
message_owner (some message) = some message.owner_id

-- A chat source is a message of the chat.
abbrev pub is_chat : SourceType → Bool
is_chat type = same_source_type type chat

-- `adapter.ownerOf(tx, sourceId)`.
unfoldable pub owner_of : SourceType → String → Vault → Option String
owner_of type id v =
    if is_chat type
    then message_owner (first (is_message id) v.messages)
    else source_owner (first (is_source type id) v.sources)

-- `adapter.deleteSource(tx, sourceId)`.
unfoldable pub delete_source : SourceType → String → Vault → Vault
delete_source type id v =
    if is_chat type
    then record v { messages = keep (λ m. not (is_message id m)) v.messages }
    else record v { sources = keep (λ s. not (is_source type id s)) v.sources }

pub record SourceCascade : Type 0 where
  pub object_keys : List String
  pub file_sub_source_keys : List String

abbrev pub key_list : Option String → List String
key_list none = []
key_list (some key) = if str_eq key "" then [] else key ∷ []

abbrev pub present : List (Option String) → List String
present [] = []
present (none ∷ keys) = present keys
present (some key ∷ keys) = key ∷ present keys

abbrev no_members : SourceCascade
no_members = record { object_keys = []; file_sub_source_keys = [] }

-- An empty key is no key, except among the attachments. The members of an email are its raw original, its HTML body and its stored attachments; those of
-- a web page its raw original.
abbrev pub email_members : Option SourceRow → SourceCascade
email_members none = no_members
email_members (some row) = record {
  object_keys = key_list row.raw_object_key ++ key_list row.html_object_key;
  file_sub_source_keys = present row.attachments;
}

abbrev pub web_members : Option SourceRow → SourceCascade
web_members none = no_members
web_members (some row) = record {
  object_keys = key_list row.raw_object_key;
  file_sub_source_keys = [];
}

-- `adapter.enumerateCascade(tx, sourceId)`, and no members where the adapter has none.
unfoldable pub enumerate_cascade : SourceType → String → Vault → SourceCascade
enumerate_cascade email id v = email_members (first (is_source email id) v.sources)
enumerate_cascade web id v = web_members (first (is_source web id) v.sources)
enumerate_cascade user_note id v = no_members
enumerate_cascade chat id v = no_members
enumerate_cascade calendar_event id v = no_members
enumerate_cascade file id v = no_members
enumerate_cascade task_conclusion id v = no_members

abbrev pub has_source : SourceType → String → List SourceKey → Bool
has_source type id keys =
    any (λ k. same_source_type k.source_type type && str_eq k.source_id id) keys

abbrev pub ingest : SourceType → String → Vault → Vault
ingest type id v = record v {
  ingested = record { source_type = type; source_id = id } ∷ v.ingested;
}

-- `consumeIdempotencyKey` of the pipeline's job for a source.
abbrev pub consume_key : SourceType → String → Bool → M Cancellation
consume_key type id true = pure already_ran
consume_key type id false = do
  modify (λ w. record w { vault = ingest type id w.vault })
  pure cancelled

-- `cancelPending`. To wait for a run is to find it done: an operation runs alone.
unfoldable pub cancel_pending : SourceType → String → (wait_for_run : Bool) → M Cancellation
cancel_pending type id wait_for_run = do
  in_flight ← gets (λ w. has_source type id w.vault.running)
  known ← gets (λ w. has_source type id w.vault.ingested)
  if in_flight && not wait_for_run then pure run_in_flight else consume_key type id known
