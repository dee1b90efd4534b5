-- ===== src/Agents/Machine.antt =====
-- project/src/agents/domain/approval-machine.ts: the one transition function of an approval.
use cogeto.Base.{
  Bool, true, false, List, [], ◌∷◌, ◌≡◌, ◌≢◌, ◌↔◌, refl, subst, arith, any, if◌then◌else◌,
}
use cogeto.Shared.{
  ApprovalStatus, draft, pending_approval, approved, rejected, expired, executed, same_approval,
}

abbrev pub edges : ApprovalStatus → List ApprovalStatus
edges draft = pending_approval ∷ []
edges pending_approval = approved ∷ rejected ∷ expired ∷ []
edges approved = executed ∷ []
edges rejected = []
edges expired = []
edges executed = []

-- The reason of a refusal is the text of a message; it says whether the state is terminal.
pub data ApprovalTransitionCheck : Type 0 where
  allowed : ApprovalTransitionCheck
  terminal illegal : ApprovalTransitionCheck

abbrev reason_for : List ApprovalStatus → ApprovalTransitionCheck
reason_for [] = terminal
reason_for (s ∷ ss) = illegal

unfoldable pub check_approval_transition : ApprovalStatus → ApprovalStatus → ApprovalTransitionCheck
check_approval_transition from to =
    if any (same_approval to) (edges from) then allowed else reason_for (edges from)

-- The lifecycle that an approval may go through.
pub data MayFollow : ApprovalStatus → ApprovalStatus → Type 0 where
  submit : MayFollow draft pending_approval
  approve : MayFollow pending_approval approved
  reject : MayFollow pending_approval rejected
  lapse : MayFollow pending_approval expired
  execute : MayFollow approved executed

check_complete :
    {from to : ApprovalStatus} → MayFollow from to → check_approval_transition from to ≡ allowed
unfolding check_approval_transition
check_complete submit = refl
check_complete approve = refl
check_complete reject = refl
check_complete lapse = refl
check_complete execute = refl

check_sound :
    (from to : ApprovalStatus) → check_approval_transition from to ≡ allowed → MayFollow from to
unfolding check_approval_transition
check_sound draft pending_approval h = submit
check_sound pending_approval approved h = approve
check_sound pending_approval rejected h = reject
check_sound pending_approval expired h = lapse
check_sound approved executed h = execute
check_sound from to h = absurd (ground arith)

-- The check allows exactly the edges of the lifecycle, and no others.
pub check_approval_transition_iff :
    (from to : ApprovalStatus) → (check_approval_transition from to ≡ allowed) ↔ MayFollow from to
check_approval_transition_iff from to = (check_sound from to, check_complete)

-- Any number of edges.
pub data Follows (from : ApprovalStatus) : ApprovalStatus → Type 0 where
  stay : Follows from from
  then_ : {mid to : ApprovalStatus} → Follows from mid → MayFollow mid to → Follows from to

pub Follows-trans : {a b c : ApprovalStatus} → Follows a b → Follows b c → Follows a c
Follows-trans p stay = p
Follows-trans p (then_ q e) = then_ (Follows-trans p q) e

abbrev pub is_terminal : ApprovalStatus → Bool
is_terminal draft = false
is_terminal pending_approval = false
is_terminal approved = false
is_terminal rejected = true
is_terminal expired = true
is_terminal executed = true

MayFollow-open : {a b : ApprovalStatus} → MayFollow a b → is_terminal a ≡ false
MayFollow-open submit = refl
MayFollow-open approve = refl
MayFollow-open reject = refl
MayFollow-open lapse = refl
MayFollow-open execute = refl

-- A terminal state is never left.
pub Follows-terminal :
    {from to : ApprovalStatus} → Follows from to → is_terminal from ≡ true → to ≡ from
Follows-terminal stay t = refl
Follows-terminal (then_ p e) t =
    let same = Follows-terminal p t in absurd (ground (arith, same, MayFollow-open e, t))

MayFollow-executed : {a b : ApprovalStatus} → MayFollow a b → b ≡ executed → a ≡ approved
MayFollow-executed submit e = ground arith
MayFollow-executed approve e = ground arith
MayFollow-executed reject e = ground arith
MayFollow-executed lapse e = ground arith
MayFollow-executed execute e = refl

-- An approval that comes to be executed from another state was approved on the way.
pub Follows-executed :
    {from to : ApprovalStatus}
    → Follows from to
    → to ≡ executed
    → from ≢ executed
    → Follows from approved
Follows-executed stay e ne = absurd (ne e)
Follows-executed {from} (then_ p edge) e ne = subst (Follows from) (MayFollow-executed edge e) p
