-- ===== src/Agents/Execution.antt =====
-- What a decision and an execution establish.
use cogeto.Base.{
  ℕ, String, true, false, Option, none, some, [], ◌∷◌, ◌≡◌, refl, arith, opt_str_eq, or_else, subst,
  sym, ap, ◌∙◌, ◌≢◌, eq_iff,
}
use cogeto.Base.Table.{find, find-update_same, find-update_other}
use cogeto.Shared.{ApprovalStatus, pending_approval, approved, rejected, executed, Principal}
use cogeto.Db.{
  World, ok, ApprovalRow, ActionType, memory_bulk_outdate, email_reply_draft, unknown_action,
  approval_key, execute_approval, select_approval,
}
use cogeto.Db.Outcome.{Ensures, Ensures-of_run, Ensures-mono}
use cogeto.Agents.Registry.{ActionDefinition, definition_of}
use cogeto.Agents.Approvals.{
  Decision, to_approve, to_reject, decided_status, is_foreign_content, decide, confirm, Execution,
  mark_executed, execute,
}
use cogeto.Agents.Effects.{Effect, Fits, fits_schema-Fits}
use cogeto.Agents.Steps.{confirm-Decides, Ran, again, first, execute-Ran}

-- A decision on content is the requester's: a bulk change shows none, a draft does.
pub data OwnContent (p : Principal) (row : ApprovalRow) : Type 0 where
  no_content : row.action_type ≡ memory_bulk_outdate → OwnContent p row
  own : row.action_type ≡ email_reply_draft → row.requested_by ≡ some p.user_id → OwnContent p row

-- The row after a decision: the verdict, who gave it and when; the rest as it was.
pub record Judged (p : Principal) (now : ℕ) (verdict : ApprovalStatus) (row row' : ApprovalRow)
    : Type 0 where
  pub status : row'.status ≡ verdict
  pub decided_by : row'.decided_by ≡ some p.user_id
  pub decided_at : row'.decided_at ≡ some now
  pub id : row'.id ≡ row.id
  pub action_type : row'.action_type ≡ row.action_type
  pub payload_json : row'.payload_json ≡ row.payload_json
  pub org_id : row'.org_id ≡ row.org_id
  pub requested_by : row'.requested_by ≡ row.requested_by
  pub executed_at : row'.executed_at ≡ row.executed_at
  pub expires_at : row'.expires_at ≡ row.expires_at
  pub created_at : row'.created_at ≡ row.created_at

-- What a decision may find and leaves behind.
pub record Decided (p : Principal) (id : ℕ) (d : Decision) (w : World) (row' : ApprovalRow)
    (w' : World) : Type 0 where
  pub row : ApprovalRow
  pub found : find approval_key id w.approvals ≡ some row
  pub same_org : row.org_id ≡ some p.org_id
  pub own_content : OwnContent p row
  pub pending : row.status ≡ pending_approval
  pub judged : Judged p w.now (elim d [ to_approve ↦ approved | to_reject ↦ rejected ]) row row'
  pub written : find approval_key id w'.approvals ≡ some row'
  pub others : (j : ℕ) → id ≢ j → find approval_key j w'.approvals ≡ find approval_key j w.approvals
  pub jobs : w'.jobs ≡ elim d [ to_approve ↦ execute_approval id ∷ w.jobs | to_reject ↦ w.jobs ]
  pub memories : w'.memories ≡ w.memories
  pub relations : w'.relations ≡ w.relations
  pub points : w'.points ≡ w.points

some_is : (o : Option String) (s : String) → opt_str_eq o (some s) ≡ true → o ≡ some s
some_is none s h = absurd (cc h)
some_is (some t) s h = ap some ((eq_iff t s).0 h)

is_foreign_content-OwnContent :
    (p : Principal) (row : ApprovalRow) (def : ActionDefinition) (action : ActionType)
    → row.action_type ≡ action
    → definition_of action ≡ some def
    → is_foreign_content p row def ≡ false
    → OwnContent p row
is_foreign_content-OwnContent p row def memory_bulk_outdate is known h = no_content is
is_foreign_content-OwnContent p row def email_reply_draft is known h =
    let bearing : def.content_bearing ≡ true = ground (arith, known) in
    own is (some_is row.requested_by p.user_id (ground (arith, h, bearing)))
is_foreign_content-OwnContent p row def (unknown_action name) is known h = absurd (cc known)

decide-Judged :
    (p : Principal) (d : Decision) (now : ℕ) (row : ApprovalRow)
    → Judged p now
        (elim d [ to_approve ↦ approved | to_reject ↦ rejected ])
        row
        (decide p d now row)
decide-Judged p d now row = record {
  status = by_decision d;
  decided_by = refl;
  decided_at = refl;
  id = refl;
  action_type = refl;
  payload_json = refl;
  org_id = refl;
  requested_by = refl;
  executed_at = refl;
  expires_at = refl;
  created_at = refl;
}
  where
    by_decision :
        (c : Decision) → decided_status c ≡ elim c [ to_approve ↦ approved | to_reject ↦ rejected ]
    by_decision to_approve = refl
    by_decision to_reject = refl

-- A decision that returns was made on a pending approval of the caller's organisation, by its
-- requester where it is for a draft, which shows their content. The approval is then approved or
-- rejected as decided, with the caller and the time, and is otherwise as it was, as are the other
-- approvals; its execution is enqueued exactly when it is approved; and no memory, relation or
-- index point is touched.
pub confirm-Decided :
    (p : Principal) (id : ℕ) (d : Decision) (w : World)
    → Ensures (Decided p id d w) (confirm p id d w)
confirm-Decided p id d w = Ensures-mono (confirm-Decides p id d w) λ row' w' t. record {
  row = t.row;
  found = t.found;
  same_org = some_is t.row.org_id p.org_id t.same_org;
  own_content =
      is_foreign_content-OwnContent p t.row t.def t.row.action_type refl t.known t.own_content;
  pending = t.pending;
  judged =
      subst (Judged p w.now (elim d [ to_approve ↦ approved | to_reject ↦ rejected ]) t.row)
        (sym t.result) (decide-Judged p d w.now t.row);
  written =
      ap (find approval_key id) t.approvals
      ∙ find-update_same approval_key id (decide p d w.now) w.approvals t.row (λ x. refl) t.found
      ∙ ap some (sym t.result);
  others = λ j ne.
      ap (find approval_key j) t.approvals
      ∙ find-update_other approval_key id j (decide p d w.now) w.approvals (λ x. refl) ne;
  jobs = t.jobs;
  memories = t.memories;
  relations = t.relations;
  points = t.points;
}

-- An execution that returns.
pub data Executed (id : ℕ) (w : World) (res : Execution) (w' : World) : Type 0 where
  not_again :
      (row : ApprovalRow)
      → find approval_key id w.approvals ≡ some row
      → row.status ≡ executed
      → res.already_executed ≡ true
      → w' ≡ w
      → Executed id w res w'
  at_last :
      (row : ApprovalRow) (now : ℕ)
      → find approval_key id w.approvals ≡ some row
      → row.status ≡ approved
      → Fits row.action_type row.payload_json
      → res.already_executed ≡ false
      → Effect (or_else row.requested_by "") w res.after_commit w' row.action_type row.payload_json
      → find approval_key id w'.approvals
        ≡ some (record row { status = executed; executed_at = some now })
      → ((j : ℕ) → id ≢ j → find approval_key j w'.approvals ≡ find approval_key j w.approvals)
      → Executed id w res w'

Ran-Executed : {id : ℕ} {w w' : World} {res : Execution} → Ran id w res w' → Executed id w res w'
Ran-Executed (again row found done already same) = not_again row found done already same
Ran-Executed {id} {w} (first row now found ready fits already written nid effect) =
    at_last row now found ready (fits_schema-Fits row.action_type row.payload_json fits) already
      effect
      (ap (find approval_key id) written
        ∙ find-update_same approval_key id (mark_executed now) w.approvals row (λ x. refl) found)
      (λ j ne.
        ap (find approval_key j) written
        ∙ find-update_other approval_key id j (mark_executed now) w.approvals (λ x. refl) ne)

-- An execution returns only for an approval that was executed before, and then it changes nothing,
-- or for one that was approved and whose payload its action takes. Then it marks the memories that
-- the payload names outdated, in the requester's name and as the bulk action reports it, or, for a
-- draft, it touches no memory, relation, index point or job; it leaves the approval executed and
-- the other approvals as they were, and hands the changed memories on for the sync.
pub execute-Executed : (id : ℕ) (w : World) → Ensures (Executed id w) (execute id w)
execute-Executed id w = Ensures-mono (execute-Ran id w) λ res w' ran. Ran-Executed ran

executed_after :
    {id : ℕ} {w w' : World} {res : Execution}
    → Executed id w res w'
    → (row' : ApprovalRow) × (find approval_key id w'.approvals ≡ some row')
      × (row'.status ≡ executed)
executed_after {id} {w} (not_again row found done _ same) =
    (row, subst (λ v. find approval_key id v.approvals ≡ some row) (sym same) found, done)
executed_after (at_last row now found _ _ _ _ written _) =
    (record row { status = executed; executed_at = some now }, written, refl)

rerun :
    (id : ℕ) (row : ApprovalRow) (w : World)
    → find approval_key id w.approvals ≡ some row
    → row.status ≡ executed
    → execute id w ≡ ok (record { already_executed = true; after_commit = [] }) w
unfolding execute select_approval
rerun id row w found done = rw found (rw done refl)

-- However an execution of an approval returned, a second execution from the state it left reports
-- the first one and changes nothing: the effect runs at most once.
pub execute_once :
    (id : ℕ) (w w' : World) (res : Execution)
    → execute id w ≡ ok res w'
    → execute id w' ≡ ok (record { already_executed = true; after_commit = [] }) w'
execute_once id w w' res ran =
    let after = executed_after (Ensures-of_run res w' (execute-Executed id w) ran) in
    rerun id after.0 w' after.1 after.2
