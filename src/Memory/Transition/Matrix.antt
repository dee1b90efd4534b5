-- ===== src/Memory/Transition/Matrix.antt =====
-- The transition matrix as a relation, written from the rules that the aggregate documents.
use cogeto.Base.{String, ◌≡◌, refl, ◌≢◌, ◌↔◌, arith}
use cogeto.Shared.{MemoryStatus, active, outdated, contradicted, uncertain, replaced, user_approved}
use cogeto.Memory.Transition.{
  MemoryActor, user, reconciliation, consolidation, verification, allowed, check_transition,
}

-- Who may move a memory from one status to another.
pub data MayMove : MemoryStatus → MemoryStatus → MemoryActor → Type 0 where
  contradict :
      {from : MemoryStatus}
      → from ≢ replaced
      → from ≢ contradicted
      → MayMove from contradicted reconciliation
  approve_uncertain : {id : String} → MayMove uncertain user_approved (user id)
  approve_contradicted : {id : String} → MayMove contradicted user_approved (user id)
  consolidate :
      {from : MemoryStatus}
      → from ≢ replaced
      → from ≢ outdated
      → MayMove from outdated consolidation
  retire :
      {from : MemoryStatus} {id : String}
      → from ≢ replaced
      → from ≢ outdated
      → MayMove from outdated (user id)
  demote :
      {from : MemoryStatus}
      → from ≢ replaced
      → from ≢ uncertain
      → MayMove from uncertain verification
  reaffirm :
      {from : MemoryStatus} {id : String}
      → from ≢ replaced
      → from ≢ active
      → MayMove from active (user id)

check_transition_complete :
    {from to : MemoryStatus} {actor : MemoryActor}
    → MayMove from to actor
    → check_transition from to actor ≡ allowed
unfolding check_transition
check_transition_complete (contradict p q) = ground arith
check_transition_complete approve_uncertain = refl
check_transition_complete approve_contradicted = refl
check_transition_complete (consolidate p q) = ground arith
check_transition_complete (retire p q) = ground arith
check_transition_complete (demote p q) = ground arith
check_transition_complete (reaffirm p q) = ground arith

check_transition_sound :
    (from to : MemoryStatus) (actor : MemoryActor)
    → check_transition from to actor ≡ allowed
    → MayMove from to actor
unfolding check_transition
check_transition_sound from contradicted reconciliation h = contradict (ground arith) (ground arith)
check_transition_sound uncertain user_approved (user id) h = approve_uncertain
check_transition_sound contradicted user_approved (user id) h = approve_contradicted
check_transition_sound from outdated consolidation h = consolidate (ground arith) (ground arith)
check_transition_sound from outdated (user id) h = retire (ground arith) (ground arith)
check_transition_sound from uncertain verification h = demote (ground arith) (ground arith)
check_transition_sound from active (user id) h = reaffirm (ground arith) (ground arith)
check_transition_sound from to actor h = absurd (ground arith)

-- `check_transition` allows exactly the moves of the matrix: it refuses every other move, whoever
-- asks, and no listed move is refused.
pub check_transition_iff :
    (from to : MemoryStatus) (actor : MemoryActor)
    → (check_transition from to actor ≡ allowed) ↔ MayMove from to actor
check_transition_iff from to actor =
    (check_transition_sound from to actor, check_transition_complete)
