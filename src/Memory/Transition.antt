-- ===== src/Memory/Transition.antt =====
-- project/src/memory/domain/transition.ts: the aggregate's transition function, with the actors,
-- the owners of each status and the refusals. The text of a refusal is a constructor.
pub mod Matrix
use cogeto.Base.{ℕ, String, Bool, true, false, List, [], ◌∷◌, ◌||◌, ◌==◌, if◌then◌else◌, ◌&&◌, not}
use cogeto.Shared.{
  MemoryStatus, active, outdated, contradicted, uncertain, replaced, user_approved, same_status,
}
use Prim.Native.String.{◌++◌ as text_append}

pub data MemoryActor : Type 0 where
  user : String → MemoryActor
  reconciliation consolidation verification deletion_saga : MemoryActor

pub data ActorKind : Type 0 where
  by_user by_reconciliation by_consolidation by_verification by_deletion_saga : ActorKind

abbrev pub kind : MemoryActor → ActorKind
kind (user _) = by_user
kind reconciliation = by_reconciliation
kind consolidation = by_consolidation
kind verification = by_verification
kind deletion_saga = by_deletion_saga

abbrev pub actor_kind_code : ActorKind → ℕ
actor_kind_code by_user = 0
actor_kind_code by_reconciliation = 1
actor_kind_code by_consolidation = 2
actor_kind_code by_verification = 3
actor_kind_code by_deletion_saga = 4

abbrev pub includes_kind : ActorKind → List ActorKind → Bool
includes_kind k [] = false
includes_kind k (j ∷ js) = actor_kind_code j == actor_kind_code k || includes_kind k js

-- Why a transition is refused.
pub data Refusal : Type 0 where
  replaced_is_terminal only_supersession : Refusal
  already : MemoryStatus → Refusal
  review_verdict : MemoryStatus → Refusal
  wrong_owner : MemoryStatus → ActorKind → Refusal

pub data TransitionCheck : Type 0 where
  allowed : TransitionCheck
  refused : Refusal → TransitionCheck

-- TRANSITION_OWNERS.
unfoldable pub transition_owners : MemoryStatus → List ActorKind
transition_owners contradicted = by_reconciliation ∷ []
transition_owners user_approved = by_user ∷ []
transition_owners outdated = by_consolidation ∷ by_user ∷ []
transition_owners uncertain = by_verification ∷ []
transition_owners active = by_user ∷ []
transition_owners replaced = []

unfoldable pub check_transition : MemoryStatus → MemoryStatus → MemoryActor → TransitionCheck
unfolding transition_owners
check_transition from to actor =
    if same_status from replaced
    then refused replaced_is_terminal
    else if same_status from to
    then refused (already to)
    else if same_status to replaced
    then refused only_supersession
    else if same_status to user_approved
        && not (same_status from uncertain)
        && not (same_status from contradicted)
    then refused (review_verdict from)
    else if not (includes_kind (kind actor) (transition_owners to))
    then refused (wrong_owner to (kind actor))
    else allowed

abbrev pub actor_label : MemoryActor → String
actor_label (user id) = text_append "user:" id
actor_label reconciliation = "reconciliation"
actor_label consolidation = "consolidation"
actor_label verification = "verification"
actor_label deletion_saga = "deletion_saga"
