-- ===== src/Agents/Steps.antt =====
-- The statements that a decision and an execution of project/src/agents run.
use cogeto.Base.{
  ℕ, true, false, Option, none, some, ◌∷◌, ◌≡◌, inl, inr, refl, arith, not, opt_str_eq, or_else,
  Bool-cases, ap,
}
use cogeto.Base.Table.{find, update}
use cogeto.Shared.{
  ApprovalStatus, pending_approval, approved, rejected, executed, same_approval, Principal,
}
use cogeto.Db.{
  World, M, bind, ApprovalRow, approval_key, execute_approval, select_approval, update_approval,
  write_audit, enqueue,
}
use cogeto.Db.Outcome.{Ensures, returns, throws, Ensures-bind, Ensures-if, Ensures-transaction}
use cogeto.Agents.Machine.{
  ApprovalTransitionCheck, allowed, terminal, illegal, check_approval_transition, MayFollow,
  check_approval_transition_iff,
}
use cogeto.Agents.Registry.{
  or_bad_request, ActionDefinition, definition_of, get_definition, fits_schema,
}
use cogeto.Agents.Approvals.{
  Decision, to_approve, to_reject, decided_status, in_org, lock_for_org, legal_or_throw,
  is_foreign_content, decide, decide_current, confirm, Execution, mark_executed, execute_found,
  execute,
}
use cogeto.Agents.Effects.{Effect, Effect-same, execute_action-both}

-- The statements that a decision ran.
pub record Decides (p : Principal) (id : ℕ) (d : Decision) (w : World) (row' : ApprovalRow)
    (w' : World) : Type 0 where
  pub row : ApprovalRow
  pub found : find approval_key id w.approvals ≡ some row
  pub same_org : opt_str_eq row.org_id (some p.org_id) ≡ true
  pub def : ActionDefinition
  pub known : definition_of row.action_type ≡ some def
  pub own_content : is_foreign_content p row def ≡ false
  pub pending : row.status ≡ pending_approval
  pub result : row' ≡ decide p d w.now row
  pub approvals : w'.approvals ≡ update approval_key id (decide p d w.now) w.approvals
  pub jobs : w'.jobs ≡ elim d [ to_approve ↦ execute_approval id ∷ w.jobs | to_reject ↦ w.jobs ]
  pub memories : w'.memories ≡ w.memories
  pub relations : w'.relations ≡ w.relations
  pub points : w'.points ≡ w.points
  pub next_id : w'.next_id ≡ w.next_id

pub from_pending :
    (s : ApprovalStatus) (d : Decision) → MayFollow s (decided_status d) → s ≡ pending_approval
from_pending s to_approve MayFollow.approve = refl
from_pending s to_reject MayFollow.reject = refl

module _ {κ ν} {B : Type κ} {P : B → World → Type ν} where
  after_legal :
      (k : M B) (c : ApprovalTransitionCheck) (w : World)
      → (c ≡ allowed → Ensures P (k w))
      → Ensures P (bind (legal_or_throw c w) (λ _. k))
  after_legal k allowed w go = go refl
  after_legal k terminal w go = throws
  after_legal k illegal w go = throws

  after_definition :
      (f : ActionDefinition → M B) (o : Option ActionDefinition) (w : World)
      → ((def : ActionDefinition) → o ≡ some def → Ensures P (f def w))
      → Ensures P (bind (or_bad_request o w) f)
  after_definition f none w go = throws
  after_definition f (some def) w go = go def refl

  after_org :
      (f : ApprovalRow → M B) (p : Principal) (o : Option ApprovalRow) (w : World)
      → ((row : ApprovalRow)
          → o ≡ some row
          → opt_str_eq row.org_id (some p.org_id) ≡ true
          → Ensures P (f row w))
      → Ensures P (bind (in_org p o w) f)
  after_org f p none w go = throws
  after_org f p (some row) w go = elim (Bool-cases (opt_str_eq row.org_id (some p.org_id))) [
    | inl e ↦ rw e (go row refl e)
    | inr e ↦ rw e throws
  ]

decide_current-Decides :
    (p : Principal) (id : ℕ) (d : Decision) (row : ApprovalRow) (def : ActionDefinition) (w : World)
    → find approval_key id w.approvals ≡ some row
    → opt_str_eq row.org_id (some p.org_id) ≡ true
    → definition_of row.action_type ≡ some def
    → is_foreign_content p row def ≡ false
    → Ensures (Decides p id d w) (decide_current p id d row w)
unfolding update_approval write_audit enqueue
decide_current-Decides p id to_approve row def w found org known own =
    after_legal _ (check_approval_transition row.status approved) w λ legal. returns (record {
      row = row;
      found = found;
      same_org = org;
      def = def;
      known = known;
      own_content = own;
      pending =
          from_pending row.status to_approve
            ((check_approval_transition_iff row.status approved).0 legal);
      result = refl;
      approvals = refl;
      jobs = refl;
      memories = refl;
      relations = refl;
      points = refl;
      next_id = refl;
    })
decide_current-Decides p id to_reject row def w found org known own =
    after_legal _ (check_approval_transition row.status rejected) w λ legal. returns (record {
      row = row;
      found = found;
      same_org = org;
      def = def;
      known = known;
      own_content = own;
      pending =
          from_pending row.status to_reject
            ((check_approval_transition_iff row.status rejected).0 legal);
      result = refl;
      approvals = refl;
      jobs = refl;
      memories = refl;
      relations = refl;
      points = refl;
      next_id = refl;
    })

pub confirm-Decides :
    (p : Principal) (id : ℕ) (d : Decision) (w : World)
    → Ensures (Decides p id d w) (confirm p id d w)
unfolding confirm lock_for_org select_approval get_definition
confirm-Decides p id d w = Ensures-transaction w (
    after_org _ p (find approval_key id w.approvals) w λ row found org.
      after_definition _ (definition_of row.action_type) w λ def known.
        Ensures-if (is_foreign_content p row def) _ _ w (λ _. throws)
          (λ own. decide_current-Decides p id d row def w found org known own))

-- The statements that an execution ran.
pub data Ran (id : ℕ) (w : World) (res : Execution) (w' : World) : Type 0 where
  again :
      (row : ApprovalRow)
      → find approval_key id w.approvals ≡ some row
      → row.status ≡ executed
      → res.already_executed ≡ true
      → w' ≡ w
      → Ran id w res w'
  first :
      (row : ApprovalRow) (now : ℕ)
      → find approval_key id w.approvals ≡ some row
      → row.status ≡ approved
      → fits_schema row.action_type row.payload_json ≡ true
      → res.already_executed ≡ false
      → w'.approvals ≡ update approval_key id (mark_executed now) w.approvals
      → w'.next_id ≡ w.next_id
      → Effect (or_else row.requested_by "") w res.after_commit w' row.action_type row.payload_json
      → Ran id w res w'

execute_found-Ran :
    (id : ℕ) (o : Option ApprovalRow) (w : World)
    → find approval_key id w.approvals ≡ o
    → Ensures (Ran id w) (execute_found id o w)
unfolding update_approval write_audit get_definition
execute_found-Ran id none w found = throws
execute_found-Ran id (some row) w found =
    Ensures-if (same_approval row.status executed) _ _ w
      (λ done. returns (again row found (ground arith) refl refl))
      (λ _.
        Ensures-if (not (same_approval row.status approved)) _ _ w (λ _. throws)
          (λ ready. after_definition _ (definition_of row.action_type) w λ def known.
            Ensures-if (fits_schema row.action_type row.payload_json) _ _ w
              (λ fits.
                Ensures-bind _
                  (execute_action-both row.action_type (or_else row.requested_by "")
                    row.payload_json w)
                  λ res v same. returns (
                    first row v.now found (ground arith) fits refl
                      (ap (update approval_key id (mark_executed v.now)) same.0.approvals)
                      same.0.next_id (Effect-same refl refl refl refl same.1)))
              (λ _. throws)))

pub execute-Ran : (id : ℕ) (w : World) → Ensures (Ran id w) (execute id w)
unfolding execute select_approval
execute-Ran id w = execute_found-Ran id (find approval_key id w.approvals) w refl
