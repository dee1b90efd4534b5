-- ===== src/Agents/Approvals.antt =====
-- project/src/agents/approval.service.ts and approval.executor.ts: creating, deciding, expiring and
-- executing approvals. The views (`toDto`, the lists, the mail files) are left out.
use cogeto.Base.{
  ℕ, String, Bool, true, false, Option, none, some, List, [], ◌∷◌, ◌&&◌, not, length, keep, map,
  has_id, if◌then◌else◌, opt_str_eq, ltb, ◌+◌, ◌*◌, or_else,
}
use cogeto.Shared.{
  ApprovalStatus, pending_approval, approved, rejected, expired, executed, same_approval, Principal,
}
use cogeto.Db.{
  ApprovalRow, Payload, ActionType, AuditAction, AuditEntry, Detail, approval_entity,
  approval_created, approval_approved, approval_rejected, approval_expired, approval_executed,
  approval_state, approval_moved, execute_approval, approval_approved_event, M, ◌>>=◌, ◌>>◌, pure,
  throw, gets, modify, transaction, not_found, unprocessable, internal, fresh_id, write_audit,
  enqueue, select_approval, insert_approval, update_approval,
}
use cogeto.Memory.Transition.{user, actor_label}
use cogeto.Agents.Machine.{
  ApprovalTransitionCheck, allowed, terminal, illegal, check_approval_transition,
}
use cogeto.Agents.Registry.{
  ActionDefinition, get_definition, parse_payload, fits_schema, authorize_create, execute_action,
}
use Prim.Native.String.{◌++◌ as text_append}

abbrev pub approval_entry :
    String → AuditAction → ℕ → Detail → Option String → Option String → AuditEntry
approval_entry actor action id detail org owner = record {
  actor = actor;
  action = action;
  entity_type = approval_entity;
  entity_id = id;
  detail = detail;
  org_id = org;
  owner_id = owner;
}

abbrev pub new_approval : ℕ → Principal → ActionType → Payload → ActionDefinition → ℕ → ApprovalRow
new_approval id p action payload def now = record {
  id = id;
  action_type = action;
  payload_json = payload;
  status = def.initial_status;
  org_id = some p.org_id;
  requested_by = some p.user_id;
  decided_by = none;
  decided_at = none;
  executed_at = none;
  expires_at = some (now + def.ttl_seconds * 1000);
  created_at = now;
}

abbrev pub insert_new : Principal → ActionType → Payload → ActionDefinition → M ApprovalRow
insert_new p action payload def = do
  id ← fresh_id
  now ← gets (λ w. w.now)
  insert_approval (new_approval id p action payload def now)
  write_audit (
      approval_entry (actor_label (user p.user_id)) approval_created id
        (approval_state action def.initial_status) (some p.org_id) (some p.user_id))
  pure (new_approval id p action payload def now)

unfoldable pub create_approval : Principal → ActionType → Payload → M ApprovalRow
create_approval p action raw = do
  def ← get_definition action
  payload ← parse_payload action raw
  authorize_create p action payload
  transaction (insert_new p action payload def)

pub data Decision : Type 0 where
  to_approve to_reject : Decision

abbrev pub decided_status : Decision → ApprovalStatus
decided_status to_approve = approved
decided_status to_reject = rejected

abbrev pub decision_action : Decision → AuditAction
decision_action to_approve = approval_approved
decision_action to_reject = approval_rejected

abbrev pub in_org : Principal → Option ApprovalRow → M ApprovalRow
in_org p none = throw not_found
in_org p (some row) = if opt_str_eq row.org_id (some p.org_id) then pure row else throw not_found

-- An approval of another organisation is not found.
unfoldable pub lock_for_org : Principal → ℕ → M ApprovalRow
lock_for_org p id = do in_org p (← select_approval id)

abbrev pub legal_or_throw : ApprovalTransitionCheck → M (Unit {0})
legal_or_throw allowed = pure tt
legal_or_throw terminal = throw unprocessable
legal_or_throw illegal = throw unprocessable

-- Only the requester decides on an approval that shows their content.
abbrev pub is_foreign_content : Principal → ApprovalRow → ActionDefinition → Bool
is_foreign_content p row def =
    def.content_bearing && not (opt_str_eq row.requested_by (some p.user_id))

abbrev pub decide : Principal → Decision → ℕ → ApprovalRow → ApprovalRow
decide p d now row = record row {
  status = decided_status d;
  decided_by = some p.user_id;
  decided_at = some now;
}

abbrev pub enqueue_execution : Decision → ℕ → M (Unit {0})
enqueue_execution to_approve id = enqueue (approval_approved_event id) (execute_approval id)
enqueue_execution to_reject id = pure tt

abbrev pub decide_current : Principal → ℕ → Decision → ApprovalRow → M ApprovalRow
decide_current p id d current = do
  legal_or_throw (check_approval_transition current.status (decided_status d))
  now ← gets (λ w. w.now)
  update_approval id (decide p d now)
  write_audit (
      approval_entry (actor_label (user p.user_id)) (decision_action d) id
        (approval_moved current.action_type current.status (decided_status d)) (some p.org_id)
        (some p.user_id))
  enqueue_execution d id
  pure (decide p d now current)

abbrev pub confirm_current : Principal → ℕ → Decision → ApprovalRow → M ApprovalRow
confirm_current p id d current = do
  def ← get_definition current.action_type
  if is_foreign_content p current def then throw not_found else decide_current p id d current

unfoldable pub confirm : Principal → ℕ → Decision → M ApprovalRow
confirm p id d = transaction (do confirm_current p id d (← lock_for_org p id))

abbrev pub is_past : ℕ → Option ℕ → Bool
is_past now none = false
is_past now (some at) = ltb at now

abbrev pub is_stale : ℕ → ApprovalRow → Bool
is_stale now row = same_approval row.status pending_approval && is_past now row.expires_at

abbrev pub expire_row : List ℕ → ApprovalRow → ApprovalRow
expire_row ids row = if has_id row.id ids then record row { status = expired } else row

unfoldable pub audit_expiries : List ApprovalRow → M (Unit {0})
audit_expiries [] = pure tt
audit_expiries (row ∷ rows) = do
  write_audit (
      approval_entry "scheduler" approval_expired row.id
        (approval_moved row.action_type pending_approval expired) row.org_id row.requested_by)
  audit_expiries rows

abbrev pub expire_rows : List ApprovalRow → M ℕ
expire_rows [] = pure 0
expire_rows (row ∷ rows) = do
  modify (λ w. record w { approvals = map (expire_row (map (λ r. r.id) (row ∷ rows))) w.approvals })
  audit_expiries (row ∷ rows)
  pure (length (row ∷ rows))

unfoldable pub expire_stale : M ℕ
expire_stale = transaction (do expire_rows (← gets (λ w. keep (is_stale w.now) w.approvals)))

-- Whether the row was executed before, and the payloads to sync after the commit.
pub record Execution : Type 0 where
  pub already_executed : Bool
  pub after_commit : List ℕ

abbrev pub mark_executed : ℕ → ApprovalRow → ApprovalRow
mark_executed now row = record row { status = executed; executed_at = some now }

abbrev pub run_effect : ℕ → ApprovalRow → M Execution
run_effect id row = do
  result ← execute_action row.action_type (or_else row.requested_by "") row.payload_json
  now ← gets (λ w. w.now)
  update_approval id (mark_executed now)
  write_audit (
      approval_entry (text_append "approval_executor:" (or_else row.requested_by ""))
        approval_executed id result.detail row.org_id (some (or_else row.requested_by "")))
  pure (record { already_executed = false; after_commit = result.after_commit })

abbrev pub execute_approved : ℕ → ApprovalRow → M Execution
execute_approved id row = do
  get_definition row.action_type
  if fits_schema row.action_type row.payload_json then run_effect id row else throw internal

abbrev pub execute_found : ℕ → Option ApprovalRow → M Execution
execute_found id none = throw internal
execute_found id (some row) =
    if same_approval row.status executed
    then pure (record { already_executed = true; after_commit = [] })
    else if not (same_approval row.status approved)
    then throw internal
    else execute_approved id row

-- The worker's execution, in the transaction of its job.
unfoldable pub execute : ℕ → M Execution
execute id = do execute_found id (← select_approval id)
