-- ===== src/Tests/Tasks.antt =====
-- The task rules on small inputs.
use cogeto.Base.{true, none, some, List, [], ◌∷◌, ◌≡◌, ◌↔◌, refl, keep, All}
use cogeto.Shared.{active, email, web, commitment}
use cogeto.Db.{MemoryRow, TaskRow}
use cogeto.Memory.Visibility.{get_many_for_principal, visible_to}
use cogeto.Tasks.Gate.{gate_foreign_tasks, may_see, gate_foreign_tasks-may_see}
use cogeto.Tasks.Derivation.{
  DerivationTrapInput, run_derivation_trap_eval, Met, run_derivation_trap_eval-Met,
  first_person_source,
}
use cogeto.Tests.Fixtures.{ana, note}

-- Tasks of Ana and of Bob; those of Bob derive from memories 1 and 7.
abbrev own_task : TaskRow
own_task = record { id = 0; owner_id = "ana"; derived_from_memory_id = 9 }

abbrev readable_task : TaskRow
readable_task = record { id = 1; owner_id = "bob"; derived_from_memory_id = 1 }

abbrev hidden_task : TaskRow
hidden_task = record { id = 2; owner_id = "bob"; derived_from_memory_id = 7 }

abbrev tasks : List TaskRow
tasks = own_task ∷ hidden_task ∷ readable_task ∷ []

abbrev memories : List MemoryRow
memories = note 1 active none none ∷ []

gated : gate_foreign_tasks ana memories tasks ≡ own_task ∷ readable_task ∷ []
unfolding gate_foreign_tasks get_many_for_principal visible_to
gated = refl

gate_foreign_tasks-may_see_example :
    gate_foreign_tasks ana memories tasks ≡ keep (may_see ana memories) tasks
gate_foreign_tasks-may_see_example = gate_foreign_tasks-may_see ana memories tasks

-- A sent mail with one commitment, and a web page with one.
abbrev traps : List DerivationTrapInput
traps =
    record {
      case_id = "sent";
      source_type = email;
      authored_by_user = some true;
      expected_tasks = 1;
      fact_kinds = some commitment ∷ none ∷ [];
    }
    ∷ record {
      case_id = "page";
      source_type = web;
      authored_by_user = none;
      expected_tasks = 0;
      fact_kinds = some commitment ∷ [];
    }
    ∷ []

no_failures : (run_derivation_trap_eval traps).failures ≡ []
unfolding run_derivation_trap_eval first_person_source
no_failures = refl

run_derivation_trap_eval-Met_example :
    ((run_derivation_trap_eval traps).failures ≡ []) ↔ All Met traps
run_derivation_trap_eval-Met_example = run_derivation_trap_eval-Met traps
