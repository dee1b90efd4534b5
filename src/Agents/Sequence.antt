-- ===== src/Agents/Sequence.antt =====
-- Any sequence of requests, decisions, expiry passes and executions, whichever of them throw.
use cogeto.Base.{ℕ, some, List, [], ◌∷◌, ◌≡◌, arith, subst, sym, ◌⊎◌}
use cogeto.Base.Table.{find}
use cogeto.Shared.{rejected, expired, Principal}
use cogeto.Db.{
  World, Answer, err, M, ◌>>◌, pure, transaction, settle, bind, ApprovalRow, Payload, ActionType,
  approval_key, internal, select_approval,
}
use cogeto.Db.Outcome.{Ensures, returns, throws, Ensures-bind, Ensures-mono}
use cogeto.Memory.Command.{world_of}
use cogeto.Agents.Machine.{Follows-terminal}
use cogeto.Agents.Approvals.{create_approval, Decision, confirm, expire_stale, execute}
use cogeto.Agents.Steps.{confirm-Decides, execute-Ran}
use cogeto.Agents.Lifecycle.{
  ApprovalsOk, Later, Later-refl, Advances, Advances-refl, Advances-trans, decide-Advances,
  execute-Advances,
}
use cogeto.Agents.Runs.{create_approval-Advances, expire_stale-Advances}

pub data ApprovalCommand : Type 0 where
  request : Principal → ActionType → Payload → ApprovalCommand
  decide_on : Principal → ℕ → Decision → ApprovalCommand
  expiry_pass : ApprovalCommand
  execution : ℕ → ApprovalCommand

abbrev void {ℓ} : {A : Type ℓ} → M A → M (Unit {0})
void m = do m; pure tt

unfoldable pub approval_body : ApprovalCommand → M (Unit {0})
approval_body (request p action payload) = void (create_approval p action payload)
approval_body (decide_on p id d) = void (confirm p id d)
approval_body expiry_pass = void expire_stale
approval_body (execution id) = void (execute id)

unfoldable pub run_approval : ApprovalCommand → World → World
run_approval c w = world_of (transaction (approval_body c) w)

unfoldable pub run_approvals : List ApprovalCommand → World → World
run_approvals [] w = w
run_approvals (c ∷ cs) w = run_approvals cs (run_approval c w)

void-Advances {ℓ} :
    {A : Type ℓ} {w : World} {r : Answer A}
    → Ensures (λ _ w'. Advances w w') r
    → Ensures {0, 0} (λ _ w'. Advances w w') (bind r (λ _. pure (tt {0})))
void-Advances h = Ensures-bind _ h λ a w' advances. returns advances

approval_body-Advances :
    (c : ApprovalCommand) (w : World) → Ensures (λ _ w'. Advances w w') (approval_body c w)
unfolding approval_body
approval_body-Advances (request p action payload) w =
    void-Advances (create_approval-Advances p action payload w)
approval_body-Advances (decide_on p id d) w =
    void-Advances
      (Ensures-mono (confirm-Decides p id d w) λ row w' t. decide-Advances p id d w w' row t)
approval_body-Advances expiry_pass w = void-Advances (expire_stale-Advances w)
approval_body-Advances (execution id) w =
    void-Advances (Ensures-mono (execute-Ran id w) λ res w' t. execute-Advances id w w' res t)

settle-Advances {ℓ} :
    {A : Type ℓ} (w : World) (r : Answer A)
    → Ensures (λ _ w'. Advances w w') r
    → Advances w (world_of (settle w r))
settle-Advances w _ (returns a) = a
settle-Advances w _ throws = record {
  ok_after = λ o. record { below = o.below; unique = o.unique };
  later = λ o k row found. Later-refl k row _ found;
}

run_approvals-Advances : (cs : List ApprovalCommand) (w : World) → Advances w (run_approvals cs w)
unfolding run_approvals run_approval
run_approvals-Advances [] w = Advances-refl w
run_approvals-Advances (c ∷ cs) w =
    let one = settle-Advances w (approval_body c w) (approval_body-Advances c w) in
    Advances-trans one (run_approvals-Advances cs (run_approval c w))

-- Where approval ids are unique and used up, any sequence of requests, decisions, expiry passes and
-- executions, whichever of them throw, keeps every approval, what it asks for and who asked, and
-- moves its status along the lifecycle only.
pub run_approvals-Later :
    (cs : List ApprovalCommand) (w : World) (id : ℕ) (row : ApprovalRow)
    → ApprovalsOk w
    → find approval_key id w.approvals ≡ some row
    → Later id row (run_approvals cs w)
run_approvals-Later cs w id row fine found = (run_approvals-Advances cs w).later fine id row found

refused :
    (id : ℕ) (w : World) (row : ApprovalRow)
    → find approval_key id w.approvals ≡ some row
    → (row.status ≡ rejected) ⊎ (row.status ≡ expired)
    → execute id w ≡ err internal w
unfolding execute select_approval
refused id w row found over = rw found (ground (arith, over))

-- Where approval ids are unique and used up, an approval that was rejected or expired is never
-- executed, whatever sequence of approval operations follows: the execution fails and changes
-- nothing.
pub closed_never_executes :
    (cs : List ApprovalCommand) (w : World) (id : ℕ) (row : ApprovalRow)
    → ApprovalsOk w
    → find approval_key id w.approvals ≡ some row
    → (row.status ≡ rejected) ⊎ (row.status ≡ expired)
    → execute id (run_approvals cs w) ≡ err internal (run_approvals cs w)
closed_never_executes cs w id row fine found over =
    let l = run_approvals-Later cs w id row fine found in
    let same : l.row'.status ≡ row.status = Follows-terminal l.follows (ground (arith, over)) in
    refused id (run_approvals cs w) l.row' l.found
      (subst (λ s. (s ≡ rejected) ⊎ (s ≡ expired)) (sym same) over)
