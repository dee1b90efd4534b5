-- ===== src/Memory/Deletion/Cascades.antt =====
-- What derives from erased memories and sources: the tasks (project/src/tasks/tasks-cascade.ts), the
-- answers of the chat (project/src/retrieval/chat/chat-answer-cascade.ts) and the drafts of replies
-- (project/src/agents/reply-draft-cascade.ts). Each cascade answers how many rows it changed.
use cogeto.Base.{
  ℕ, zero, suc, ◌+◌, String, Bool, true, false, Option, none, some, List, [], ◌∷◌, if◌then◌else◌,
  ◌&&◌, not, str_eq, keep, any, has_id, length, map, take, drop,
}
use cogeto.Shared.{SourceType, email, same_source_type}
use cogeto.Db.{
  TaskRow, ChatMessage, MessageContent, citing, answer_redacted, ApprovalRow, Payload, bulk_outdate,
  reply_draft, malformed, ReplyDraft, ActionType, memory_bulk_outdate, email_reply_draft,
  unknown_action, M, ◌>>=◌, ◌>>◌, pure, gets, modify,
}

abbrev pub is_derived : List ℕ → TaskRow → Bool
is_derived ids task = has_id task.derived_from_memory_id ids

unfoldable pub tasks_cascade : List ℕ → M ℕ
tasks_cascade [] = pure 0
tasks_cascade (id ∷ ids) = do
  removed ← gets (λ w. length (keep (is_derived (id ∷ ids)) w.vault.tasks))
  modify (λ w. record w {
    vault = record w.vault { tasks = keep (λ t. not (is_derived (id ∷ ids) t)) w.vault.tasks };
  })
  pure removed

-- `content LIKE '%{{cite:id}}%'` for one of the ids.
abbrev pub cites : List ℕ → MessageContent → Bool
cites ids (citing cited) = any (λ k. has_id k ids) cited
cites ids answer_redacted = false

abbrev pub quotes : List ℕ → ChatMessage → Bool
quotes ids message = message.is_assistant && cites ids message.content

abbrev pub redact_answer : List ℕ → ChatMessage → ChatMessage
redact_answer ids message =
    if quotes ids message then record message { content = answer_redacted } else message

unfoldable pub redact_batch : List ℕ → M ℕ
redact_batch batch = do
  redacted ← gets (λ w. length (keep (quotes batch) w.vault.messages))
  modify (λ w. record w {
    vault = record w.vault { messages = map (redact_answer batch) w.vault.messages };
  })
  pure redacted

abbrev pub ids_per_statement : ℕ
ids_per_statement = 100

-- The loop over the batches; it may run as many rounds as there are ids.
unfoldable pub redact_batches : (rounds : ℕ) → List ℕ → M ℕ
redact_batches zero ids = pure 0
redact_batches (suc rounds) [] = pure 0
redact_batches (suc rounds) (id ∷ ids) = do
  here ← redact_batch (take ids_per_statement (id ∷ ids))
  rest ← redact_batches rounds (drop ids_per_statement (id ∷ ids))
  pure (here + rest)

unfoldable pub chat_answer_cascade : List ℕ → M ℕ
unfolding redact_batches
chat_answer_cascade ids = redact_batches (length ids) ids

abbrev pub redacted_body : String
redacted_body = "[redacted: the email this reply was drafted from was deleted]"

abbrev names_source : String → Option String → Bool
names_source id none = false
names_source id (some source) = str_eq source id

abbrev is_unredacted : String → ReplyDraft → Bool
is_unredacted id d = names_source id d.email_source_id && not (str_eq d.body redacted_body)

abbrev pub is_draft_payload : String → Payload → Bool
is_draft_payload id (reply_draft d) = is_unredacted id d
is_draft_payload id (bulk_outdate ids reason) = false
is_draft_payload id malformed = false

abbrev is_draft_action : ActionType → Bool
is_draft_action email_reply_draft = true
is_draft_action memory_bulk_outdate = false
is_draft_action (unknown_action name) = false

abbrev pub drafts_from : String → ApprovalRow → Bool
drafts_from id row = is_draft_action row.action_type && is_draft_payload id row.payload_json

abbrev pub redact_payload : Payload → Payload
redact_payload (reply_draft d) = reply_draft (record d {
  body = redacted_body;
  subject = "";
  to = "";
  recipient_resolved = some false;
  recipient_verified = some false;
})
redact_payload (bulk_outdate ids reason) = bulk_outdate ids reason
redact_payload malformed = malformed

abbrev pub redact_draft : String → ApprovalRow → ApprovalRow
redact_draft id row =
    if drafts_from id row
    then record row { payload_json = redact_payload row.payload_json }
    else row

-- Only emails have drafts.
unfoldable pub reply_draft_cascade : SourceType → String → M ℕ
reply_draft_cascade type id = if not (same_source_type type email) then pure 0 else do
  redacted ← gets (λ w. length (keep (drafts_from id) w.approvals))
  modify (λ w. record w { approvals = map (redact_draft id) w.approvals })
  pure redacted
