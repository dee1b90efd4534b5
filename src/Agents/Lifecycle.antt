-- ===== src/Agents/Lifecycle.antt =====
-- The approvals under any sequence of requests, decisions, expiry passes and executions.
use cogeto.Base.{
  ℕ, suc, ◌<◌, ◌≤◌, some, List, [], ◌∷◌, ◌≡◌, refl, arith, subst, sym, ap, ◌∙◌, ◌==◌, All,
  Bool-cases, inl, inr,
}
use cogeto.Base.Table.{
  find, update, find-key, find-All, find-update_same, find-update_other, UniqueKeys,
  UniqueKeys-insert, UniqueKeys-update, All-update,
}
use cogeto.Shared.{pending_approval, executed, Principal}
use cogeto.Db.{
  World, ApprovalRow, Payload, ActionType, approval_key, fresh_id, insert_approval, write_audit,
}
use cogeto.Db.Outcome.{Ensures, returns}
use cogeto.Agents.Machine.{MayFollow, execute, Follows, stay, then_, Follows-trans}
use cogeto.Agents.Registry.{ActionDefinition}
use cogeto.Agents.Approvals.{
  new_approval, insert_new, Decision, to_approve, to_reject, decide, decided_status, Execution,
  mark_executed,
}
use cogeto.Agents.Steps.{Decides, Ran, again, first}

-- Approval ids are unique and used up.
pub record ApprovalsOk (w : World) : Type 0 where
  pub below : All (λ r. approval_key r < w.next_id) w.approvals
  pub unique : UniqueKeys approval_key w.approvals

-- The row that a later state holds for an approval: the request is the same, the status follows.
pub record Later (k : ℕ) (row : ApprovalRow) (w' : World) : Type 0 where
  pub row' : ApprovalRow
  pub found : find approval_key k w'.approvals ≡ some row'
  pub action_type : row'.action_type ≡ row.action_type
  pub payload_json : row'.payload_json ≡ row.payload_json
  pub requested_by : row'.requested_by ≡ row.requested_by
  pub org_id : row'.org_id ≡ row.org_id
  pub follows : Follows row.status row'.status

pub record Advances (w w' : World) : Type 0 where
  pub ok_after : ApprovalsOk w → ApprovalsOk w'
  pub later :
      ApprovalsOk w
      → (k : ℕ) (row : ApprovalRow) → find approval_key k w.approvals ≡ some row
      → Later k row w'

pub Later-refl :
    (k : ℕ) (row : ApprovalRow) (w : World)
    → find approval_key k w.approvals ≡ some row
    → Later k row w
Later-refl k row w found = record {
  row' = row;
  found = found;
  action_type = refl;
  payload_json = refl;
  requested_by = refl;
  org_id = refl;
  follows = stay;
}

pub Later-trans :
    {k : ℕ} {row : ApprovalRow} {v w : World} (one : Later k row v)
    → Later k one.row' w
    → Later k row w
Later-trans one two = record {
  row' = two.row';
  found = two.found;
  action_type = two.action_type ∙ one.action_type;
  payload_json = two.payload_json ∙ one.payload_json;
  requested_by = two.requested_by ∙ one.requested_by;
  org_id = two.org_id ∙ one.org_id;
  follows = Follows-trans one.follows two.follows;
}

pub Advances-refl : (w : World) → Advances w w
Advances-refl w = record { ok_after = λ o. o; later = λ o k row found. Later-refl k row w found }

pub Advances-trans : {u v w : World} → Advances u v → Advances v w → Advances u w
Advances-trans a b = record {
  ok_after = λ o. b.ok_after (a.ok_after o);
  later = λ o k row found.
      let one = a.later o k row found in
      Later-trans one (b.later (a.ok_after o) k one.row' one.found);
}

decided_edge : (d : Decision) → MayFollow pending_approval (decided_status d)
decided_edge to_approve = MayFollow.approve
decided_edge to_reject = MayFollow.reject

-- A change of a row that keeps what was asked for and follows the lifecycle.
pub record Edits (f : ApprovalRow → ApprovalRow) (row : ApprovalRow) : Type 0 where
  pub action_type : (f row).action_type ≡ row.action_type
  pub payload_json : (f row).payload_json ≡ row.payload_json
  pub requested_by : (f row).requested_by ≡ row.requested_by
  pub org_id : (f row).org_id ≡ row.org_id
  pub follows : Follows row.status (f row).status

pub Edits-Later :
    (f : ApprovalRow → ApprovalRow) (k : ℕ) (row : ApprovalRow) (w' : World)
    → Edits f row
    → find approval_key k w'.approvals ≡ some (f row)
    → Later k row w'
Edits-Later f k row w' e found = record {
  row' = f row;
  found = found;
  action_type = e.action_type;
  payload_json = e.payload_json;
  requested_by = e.requested_by;
  org_id = e.org_id;
  follows = e.follows;
}

-- A step that changes one approval, by its id.
update-Advances :
    (w w' : World) (id : ℕ) (f : ApprovalRow → ApprovalRow)
    → w'.approvals ≡ update approval_key id f w.approvals
    → w'.next_id ≡ w.next_id
    → ((x : ApprovalRow) → (f x).id ≡ x.id)
    → ((row : ApprovalRow) → find approval_key id w.approvals ≡ some row → Edits f row)
    → Advances w w'
update-Advances w w' id f written nid keyed edits = record {
  ok_after = λ o. record {
    below = subst (All (λ r. approval_key r < w'.next_id)) (sym written) (
        All-update approval_key (λ r. approval_key r < w'.next_id) id f w.approvals
          (λ x lt. subst (λ k. k < w'.next_id) (sym (keyed x)) lt)
          (subst (λ n. All (λ r. approval_key r < n) w.approvals) (sym nid) o.below));
    unique =
        subst (UniqueKeys approval_key) (sym written)
          (UniqueKeys-update approval_key id f w.approvals keyed o.unique);
  };
  later = λ o k row found. elim (Bool-cases (id == k)) [
    | inl e ↦
        let same : id ≡ k = ground (arith, e) in
        let here = subst (λ j. find approval_key j w.approvals ≡ some row) (sym same) found in
        subst (λ j. Later j row w') same
          (Edits-Later f id row w' (edits row here)
            (rw written (find-update_same approval_key id f w.approvals row keyed here)))
    | inr e ↦ Later-refl k row w' (
        rw written
          (find-update_other approval_key id k f w.approvals keyed (ground (arith, e)) ∙ found))
  ];
}

pub decide-Advances :
    (p : Principal) (id : ℕ) (d : Decision) (w w' : World) (row' : ApprovalRow)
    → Decides p id d w row' w'
    → Advances w w'
decide-Advances p id d w w' row' t =
    update-Advances w w' id (decide p d w.now) t.approvals t.next_id (λ x. refl)
      λ row found. record {
        action_type = refl;
        payload_json = refl;
        requested_by = refl;
        org_id = refl;
        follows =
            let same : row ≡ t.row = cc (found, t.found) in
            then_ stay (
              subst (λ s. MayFollow s (decided_status d))
                (sym (ap (λ r. r.status) same ∙ t.pending)) (decided_edge d));
      }

pub execute-Advances : (id : ℕ) (w w' : World) (res : Execution) → Ran id w res w' → Advances w w'
execute-Advances id w w' res (again row found done _ same) =
    subst (Advances w) (sym same) (Advances-refl w)
execute-Advances id w w' res (first row now found ready _ _ written nid _) =
    update-Advances w w' id (mark_executed now) written nid (λ x. refl)
      λ other here. record {
        action_type = refl;
        payload_json = refl;
        requested_by = refl;
        org_id = refl;
        follows =
            let same : other ≡ row = cc (here, found) in
            then_ stay
              (subst (λ s. MayFollow s executed) (sym (ap (λ r. r.status) same ∙ ready)) execute);
      }

All-later :
    (m n : ℕ) (rows : List ApprovalRow)
    → m ≤ n
    → All (λ r. approval_key r < m) rows
    → All (λ r. approval_key r < n) rows
All-later m n [] le oks = tt
All-later m n (row ∷ rows) le oks = (omega (arith, oks.0, le), All-later m n rows le oks.1)

insert-Advances :
    (w w' : World) (row : ApprovalRow)
    → row.id ≡ w.next_id
    → w'.approvals ≡ row ∷ w.approvals
    → w'.next_id ≡ suc w.next_id
    → Advances w w'
unfolding find
insert-Advances w w' row fresh written nid = record {
  ok_after = λ o. record {
    below = subst (All (λ r. approval_key r < w'.next_id)) (sym written) (
      omega (arith, fresh, nid),
      All-later w.next_id w'.next_id w.approvals (omega (arith, nid)) o.below,
    );
    unique = subst (UniqueKeys approval_key) (sym written) (
        UniqueKeys-insert approval_key row w.approvals
          (subst (λ n. All (λ r. approval_key r < n) w.approvals) (sym fresh) o.below) o.unique);
  };
  later = λ o k old found.
      let lt : old.id < w.next_id =
        find-All approval_key (λ r. r.id < w.next_id) k w.approvals old o.below found in
      let key : old.id ≡ k = find-key approval_key k w.approvals old found in
      Later-refl k old w' (rw written (ground (arith, lt, key, fresh, found)));
}

pub insert_new-Advances :
    (p : Principal) (action : ActionType) (payload : Payload) (def : ActionDefinition) (w : World)
    → Ensures (λ _ w'. Advances w w') (insert_new p action payload def w)
unfolding fresh_id insert_approval write_audit
insert_new-Advances p action payload def w =
    returns (insert-Advances w _ (new_approval w.next_id p action payload def w.now) refl refl refl)
