-- ===== src/Tests/Agents.antt =====
-- Approvals on concrete states.
use cogeto.Base.{true, false, [], ◌∷◌, ◌≡◌, ◌↔◌, inl, refl, arith, dedup_ids}
use cogeto.Base.Table.{find, update}
use cogeto.Shared.{approved, rejected}
use cogeto.Db.{
  World, ok, err, internal, select_approval, update_approval, write_audit, enqueue, ApprovalRow,
  select_memory, update_memory,
}
use cogeto.Db.Outcome.{Ensures}
use cogeto.Agents.Machine.{
  MayFollow, allowed, check_approval_transition, check_approval_transition_iff,
}
use cogeto.Agents.Registry.{get_definition, fits_schema, execute_action}
use cogeto.Agents.Approvals.{to_approve, confirm, lock_for_org, execute}
use cogeto.Agents.Execution.{Decided, confirm-Decided, Executed, execute-Executed, execute_once}
use cogeto.Agents.Lifecycle.{ApprovalsOk, Later}
use cogeto.Agents.Sequence.{
  decide_on, expiry_pass, execution, approval_body, run_approval, run_approvals,
  run_approvals-Later, closed_never_executes,
}
use cogeto.Memory.Transition.{check_transition}
use cogeto.Memory.Facts.{lock_row, org_for}
use cogeto.Memory.Store.{transition_in_tx}
use cogeto.Memory.Store.Bulk.{bulk_step, bulk_loop, bulk_mark_outdated_for_owner}
use cogeto.Tests.Fixtures.{ana, request_of, request_world}

check_approval_transition_iff_example :
    (check_approval_transition approved rejected ≡ allowed) ↔ MayFollow approved rejected
check_approval_transition_iff_example = check_approval_transition_iff approved rejected

confirm-Decided_example :
    Ensures (Decided ana 5 to_approve request_world) (confirm ana 5 to_approve request_world)
confirm-Decided_example = confirm-Decided ana 5 to_approve request_world

-- The same world once the request is approved.
abbrev approved_world : World
approved_world = run_approvals (decide_on ana 5 to_approve ∷ []) request_world

execute-Executed_example : Ensures (Executed 5 approved_world) (execute 5 approved_world)
execute-Executed_example = execute-Executed 5 approved_world

request_world-ApprovalsOk : ApprovalsOk request_world
request_world-ApprovalsOk = record { below = (omega arith, tt); unique = (tt, tt) }

run_approvals-Later_example :
    Later 5
      (request_of 5)
      (run_approvals (decide_on ana 5 to_approve ∷ execution 5 ∷ expiry_pass ∷ []) request_world)
unfolding find
run_approvals-Later_example =
    run_approvals-Later (decide_on ana 5 to_approve ∷ execution 5 ∷ expiry_pass ∷ []) request_world
      5 (request_of 5) request_world-ApprovalsOk refl

abbrev rejected_request : ApprovalRow
rejected_request = record (request_of 5) { status = rejected }

abbrev rejected_world : World
rejected_world = record request_world { approvals = rejected_request ∷ [] }

closed_never_executes_example :
    execute 5 (run_approvals (decide_on ana 5 to_approve ∷ expiry_pass ∷ []) rejected_world)
    ≡ err internal (run_approvals (decide_on ana 5 to_approve ∷ expiry_pass ∷ []) rejected_world)
unfolding find
closed_never_executes_example =
    closed_never_executes (decide_on ana 5 to_approve ∷ expiry_pass ∷ []) rejected_world 5
      rejected_request (record { below = (omega arith, tt); unique = (tt, tt) }) refl (inl refl)

-- What the execution of the approved request leaves.
abbrev executed_world : World
executed_world = run_approvals (execution 5 ∷ []) approved_world

execute_once_example :
    execute 5 executed_world
    ≡ ok (record { already_executed = true; after_commit = [] }) executed_world
unfolding find update run_approvals run_approval approval_body confirm lock_for_org select_approval
    get_definition check_approval_transition update_approval write_audit enqueue execute fits_schema
    execute_action bulk_mark_outdated_for_owner bulk_loop bulk_step select_memory transition_in_tx
    lock_row check_transition org_for update_memory dedup_ids
execute_once_example =
    execute_once 5 approved_world executed_world
      (record { already_executed = false; after_commit = 1 ∷ [] }) refl
