-- ===== src/Memory/Command.antt =====
-- The writes of the memory store and of the reconciliation (project/src/memory/memory.store.ts and
-- reconciliation.ts) as commands, each run in its own transaction, as their callers run them. The
-- deletion of a source (deletion-saga.ts) is not a command: it takes pointers to erased memories
-- away, so a `replaced` memory that outlives its successor names none afterwards.
pub mod Runs
use cogeto.Base.{ℕ, String, Bool, Option, List, [], ◌∷◌}
use cogeto.Shared.{MemoryStatus, MemoryScope, Principal}
use cogeto.Db.{World, Answer, ok, err, M, ◌>>=◌, ◌>>◌, pure, transaction}
use cogeto.Memory.Transition.{MemoryActor}
use cogeto.Memory.Facts.{NewFact}
use cogeto.Memory.Store.{
  create_from_fact, admit_extracted_fact, transition, toggle_sensitive, set_scope, reject_uncertain,
}
use cogeto.Memory.Store.Supersede.{supersede, edit_content}
use cogeto.Memory.Store.Bulk.{bulk_mark_outdated_for_owner}
use cogeto.Memory.Reconciliation.{merge_same_fact, create_contradiction, apply_supersession}
use cogeto.Memory.Reconciliation.Resolve.{
  ContradictionResolveAction, resolve_contradiction, lift_contradictions_before_deletion,
}

pub data Command : Type 0 where
  create : Principal → NewFact → Command
  admit : (owner : String) → NewFact → Command
  change_status : MemoryActor → ℕ → MemoryStatus → Command
  mark_sensitive : Principal → ℕ → Bool → Command
  change_scope : Principal → ℕ → MemoryScope → Command
  edit : Principal → ℕ → (content : String) → Command
  reject : Principal → ℕ → Command
  replace : MemoryActor → ℕ → NewFact → Command
  mark_outdated : (owner : String) → List ℕ → Command
  merge_pair_of : (incoming existing : ℕ) → Option String → Command
  contradict_pair_of : (incoming existing : ℕ) → (reason : String) → Command
  supersede_pair_of : (winner loser : ℕ) → Command
  resolve : Principal → ℕ → ContradictionResolveAction → Command
  lift_before_deletion : Option String → List ℕ → Command

abbrev void {ℓ} : {A : Type ℓ} → M A → M (Unit {0})
void m = do m; pure tt

unfoldable pub body : Command → M (Unit {0})
body (create p fact) = void (create_from_fact p fact)
body (admit owner fact) = void (admit_extracted_fact owner fact)
body (change_status actor id to) = void (transition actor id to)
body (mark_sensitive p id b) = void (toggle_sensitive p id b)
body (change_scope p id s) = void (set_scope p id s)
body (edit p id content) = void (edit_content p id content)
body (reject p id) = void (reject_uncertain p id)
body (replace actor id fact) = void (supersede actor id fact)
body (mark_outdated owner ids) = void (bulk_mark_outdated_for_owner owner ids)
body (merge_pair_of a b content) = void (merge_same_fact a b content)
body (contradict_pair_of a b reason) = void (create_contradiction a b reason)
body (supersede_pair_of winner loser) = void (apply_supersession winner loser)
body (resolve p id action) = void (resolve_contradiction p id action)
body (lift_before_deletion org doomed) = void (lift_contradictions_before_deletion org doomed)

abbrev pub world_of {ℓ} : {A : Type ℓ} → Answer A → World
world_of (ok a w) = w
world_of (err e w) = w

-- The world after a command, whether it returned or threw.
unfoldable pub run : Command → World → World
run c w = world_of (transaction (body c) w)

unfoldable pub run_all : List Command → World → World
run_all [] w = w
run_all (c ∷ cs) w = run_all cs (run c w)
