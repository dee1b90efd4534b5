-- ===== src/Memory/Command/Runs.antt =====
-- Any sequence of commands keeps the tables well formed and the replaced history in place.
use cogeto.Base.{ℕ, some, List, [], ◌∷◌, ◌≡◌, refl, All, dedup_ids}
use cogeto.Base.Table.{find}
use cogeto.Shared.{replaced}
use cogeto.Db.{World, Answer, bind, pure, MemoryRow, memory_key, settle}
use cogeto.Db.Outcome.{Ensures, returns, throws, Ensures-bind}
use cogeto.Memory.Store.{admit_extracted_fact}
use cogeto.Memory.Store.Bulk.{bulk_mark_outdated_for_owner}
use cogeto.Memory.Store.Steps.{StartsLive}
use cogeto.Memory.Store.Paths.{
  IsPath, insert_fact-IsPath, create_from_fact-IsPath, transition-IsPath, toggle_sensitive-IsPath,
  set_scope-IsPath,
}
use cogeto.Memory.Store.EditPaths.{
  supersede-IsPath, edit_content-IsPath, reject_uncertain-IsPath, bulk_loop-IsPath,
}
use cogeto.Memory.Reconciliation.MergePaths.{merge_same_fact-IsPath}
use cogeto.Memory.Reconciliation.Paths.{create_contradiction-IsPath, apply_supersession-IsPath}
use cogeto.Memory.Reconciliation.ResolvePaths.{
  resolve_contradiction-IsPath, lift_contradictions_before_deletion-IsPath,
}
use cogeto.Memory.Command.{
  Command, create, admit, change_status, mark_sensitive, change_scope, edit, reject, replace,
  mark_outdated, merge_pair_of, contradict_pair_of, supersede_pair_of, resolve,
  lift_before_deletion, body, world_of, run, run_all,
}
use cogeto.Memory.Machine.{WellFormed, Reach, here, quiet, Reach-Step, Reach-trans}
use cogeto.Memory.Machine.Invariant.{Reach-WellFormed}
use cogeto.Memory.Machine.History.{Holds, Reach-Holds}

-- The facts that a command brings start in a status other than `replaced`.
abbrev pub BringsLive : Command → Type 0
BringsLive (create p fact) = StartsLive fact
BringsLive (admit owner fact) = StartsLive fact
BringsLive (replace actor id fact) = StartsLive fact
BringsLive _ = Unit {0}

void-IsPath {ℓ} :
    {A : Type ℓ} {w : World} {r : Answer A}
    → Ensures (IsPath w) r
    → Ensures {0, 0} (IsPath w) (bind r (λ _. pure (tt {0})))
void-IsPath h = Ensures-bind _ h λ a w' path. returns path

body-IsPath :
    (c : Command) (w : World) → WellFormed w → BringsLive c → Ensures (IsPath w) (body c w)
unfolding body admit_extracted_fact bulk_mark_outdated_for_owner
body-IsPath (create p fact) w wf live = void-IsPath (create_from_fact-IsPath p fact w live)
body-IsPath (admit owner fact) w wf live =
    void-IsPath (insert_fact-IsPath owner fact "verification" w live)
body-IsPath (change_status actor id to) w wf live = void-IsPath (transition-IsPath actor id to w)
body-IsPath (mark_sensitive p id b) w wf live = void-IsPath (toggle_sensitive-IsPath p id b w)
body-IsPath (change_scope p id s) w wf live = void-IsPath (set_scope-IsPath p id s w)
body-IsPath (edit p id content) w wf live = void-IsPath (edit_content-IsPath p id content w wf)
body-IsPath (reject p id) w wf live = void-IsPath (reject_uncertain-IsPath p id w)
body-IsPath (replace actor id fact) w wf live =
    void-IsPath (supersede-IsPath actor id fact w wf live)
body-IsPath (mark_outdated owner ids) w wf live =
    void-IsPath (bulk_loop-IsPath owner (dedup_ids ids) w)
body-IsPath (merge_pair_of a b content) w wf live =
    void-IsPath (merge_same_fact-IsPath a b content w wf)
body-IsPath (contradict_pair_of a b reason) w wf live =
    void-IsPath (create_contradiction-IsPath a b reason w)
body-IsPath (supersede_pair_of winner loser) w wf live =
    void-IsPath (apply_supersession-IsPath winner loser w)
body-IsPath (resolve p id action) w wf live =
    void-IsPath (resolve_contradiction-IsPath p id action w wf)
body-IsPath (lift_before_deletion org doomed) w wf live =
    void-IsPath (lift_contradictions_before_deletion-IsPath org doomed w wf)

settle-Reach {ℓ} :
    {A : Type ℓ} (w : World) (r : Answer A) → Ensures (IsPath w) r → Reach w (world_of (settle w r))
settle-Reach w _ (returns path) = path
settle-Reach w _ throws =
    Reach-Step (quiet (record { memories = refl; relations = refl; next_id = refl }))

pub run-Reach : (c : Command) (w : World) → WellFormed w → BringsLive c → Reach w (run c w)
unfolding run
run-Reach c w wf live = settle-Reach w (body c w) (body-IsPath c w wf live)

-- The operations refine the abstract machine of the memory tables: from well-formed tables, any
-- sequence of commands whose new facts do not start as `replaced` is a path of the machine, whose
-- steps create a row, move one row, erase a doubtful one or touch relations only, and the commands
-- that throw are included.
pub run_all-Reach :
    (cs : List Command) (w : World) → WellFormed w → All BringsLive cs → Reach w (run_all cs w)
unfolding run_all
run_all-Reach [] w wf live = here
run_all-Reach (c ∷ cs) w wf live =
    let first : Reach w (run c w) = run-Reach c w wf live.0 in
    Reach-trans first (run_all-Reach cs (run c w) (Reach-WellFormed wf first) live.1)

-- From well-formed tables, any sequence of the writes of `MemoryStore` and of the reconciliation,
-- as `Command` lists them, whose new facts do not start as `replaced`, leaves well-formed tables,
-- whichever of them throw: uuids are unique and used up, every memory has an owner and a source, a
-- memory is `replaced` exactly when it names a successor, which is another memory of the table, and
-- then its interval is closed, and no relation records `replaced` as the status to restore. The
-- deletion of a source is not one of them: it takes the pointers to erased memories away.
pub run_all-WellFormed :
    (cs : List Command) (w : World) → WellFormed w → All BringsLive cs → WellFormed (run_all cs w)
run_all-WellFormed cs w wf live = Reach-WellFormed wf (run_all-Reach cs w wf live)

-- A replaced memory of well-formed tables survives any sequence of commands whose new facts do not
-- start as `replaced`: it is still in the table, `replaced`, with its content, provenance, interval
-- and successor as they were.
pub run_all-Holds :
    (cs : List Command) (w : World) (id : ℕ) (row : MemoryRow)
    → WellFormed w
    → All BringsLive cs
    → find memory_key id w.memories ≡ some row
    → row.status ≡ replaced
    → Holds id row (run_all cs w)
run_all-Holds cs w id row wf live found gone =
    Reach-Holds id row wf (run_all-Reach cs w wf live) found gone
