-- ===== src/Memory/Store/EditPaths.antt =====
-- Supersession, edits, rejections and the bulk action as paths of the abstract machine.
use cogeto.Base.{
  ℕ, String, false, Option, none, some, List, [], ◌∷◌, ◌≡◌, ◌≢◌, refl, arith, Bool-cases, inl, inr,
  sym, subst, str_eq, not, keep, All, All-keep,
}
use cogeto.Base.Table.{find, delete, find-key}
use cogeto.Shared.{replaced, uncertain, outdated, Principal, same_status}
use cogeto.Db.{
  World, MemoryRow, memory_key, write_audit, select_memory, delete_memory, enqueue, is_referenced,
  touches,
}
use cogeto.Db.Outcome.{
  Ensures, returns, throws, Ensures-bind, Ensures-mono, Ensures-transaction, Ensures-if,
  after_delete_point,
}
use cogeto.Memory.Transition.{MemoryActor, user}
use cogeto.Memory.Facts.{NewFact}
use cogeto.Memory.Store.{reject_uncertain, reject_found}
use cogeto.Memory.Store.Supersede.{
  may_supersede, supersede_core, supersede_in_tx, supersede, edited_fact, edit_content_in_tx,
  edit_content,
}
use cogeto.Memory.Store.Bulk.{mark_one, SkipReason, bulk_step, bulk_loop}
use cogeto.Memory.Store.Rules.{after_lock}
use cogeto.Memory.Store.Steps.{StartsLive, SupersededRun, supersede_core-Run}
use cogeto.Memory.Machine.{
  WellFormed, PriorsOk, Step, quiet, erased, here, next, Reach-Step, Reach-trans,
}
use cogeto.Memory.Store.Paths.{IsPath, transition_in_tx-IsPath}

pub supersede_core-IsPath :
    (actor : MemoryActor) (old : MemoryRow) (fact : NewFact) (w : World)
    → WellFormed w
    → StartsLive fact
    → find memory_key old.id w.memories ≡ some old
    → old.status ≢ replaced
    → Ensures (IsPath w) (supersede_core actor old fact w)
supersede_core-IsPath actor old fact w wf live found old_live =
    Ensures-mono (supersede_core-Run actor old fact w wf live found old_live) λ res w' run. run.path

-- The row that a lock found, under its own key.
pub own_key :
    (id : ℕ) (w : World) (row : MemoryRow)
    → find memory_key id w.memories ≡ some row
    → find memory_key row.id w.memories ≡ some row
own_key id w row found =
    subst (λ k. find memory_key k w.memories ≡ some row)
      (sym (find-key memory_key id w.memories row found)) found

pub supersede_in_tx-IsPath :
    (actor : MemoryActor) (id : ℕ) (fact : NewFact) (w : World)
    → WellFormed w
    → StartsLive fact
    → Ensures (IsPath w) (supersede_in_tx actor id fact w)
unfolding supersede_in_tx
supersede_in_tx-IsPath actor id fact w wf live =
    Ensures-if (may_supersede actor) _ _ w
      (λ _. after_lock _ id actor w λ row found touch.
        Ensures-if (same_status row.status replaced) _ _ w (λ _. throws)
          (λ e.
            supersede_core-IsPath actor row fact w wf live (own_key id w row found) (ground arith)))
      (λ _. throws)

pub edit_content_in_tx-IsPath :
    (p : Principal) (id : ℕ) (content : String) (w : World)
    → WellFormed w
    → Ensures (IsPath w) (edit_content_in_tx p id content w)
unfolding edit_content_in_tx write_audit enqueue
edit_content_in_tx-IsPath p id content w wf = after_lock _ id (user p.user_id) w λ old found touch.
    Ensures-if (same_status old.status replaced) _ _ w (λ _. throws)
      (λ e.
        Ensures-bind _
          (supersede_core-IsPath (user p.user_id) old (edited_fact old content) w wf (λ q. cc)
            (own_key id w old found) (ground arith))
          λ res w' path.
            returns
              (next path (quiet (record { memories = refl; relations = refl; next_id = refl }))))

pub supersede-IsPath :
    (actor : MemoryActor) (id : ℕ) (fact : NewFact) (w : World)
    → WellFormed w
    → StartsLive fact
    → Ensures (IsPath w) (supersede actor id fact w)
unfolding supersede
supersede-IsPath actor id fact w wf live =
    Ensures-transaction w (supersede_in_tx-IsPath actor id fact w wf live)

pub edit_content-IsPath :
    (p : Principal) (id : ℕ) (content : String) (w : World)
    → WellFormed w
    → Ensures (IsPath w) (edit_content p id content w)
unfolding edit_content
edit_content-IsPath p id content w wf =
    Ensures-transaction w (edit_content_in_tx-IsPath p id content w wf)

-- A deletion of an uncertain row that no other row names.
erase-Step :
    (w w' : World) (row : MemoryRow) (id : ℕ)
    → find memory_key id w.memories ≡ some row
    → row.status ≡ uncertain
    → is_referenced id w.memories ≡ false
    → w'.memories ≡ delete memory_key id w.memories
    → w'.relations ≡ keep (λ rel. not (touches id rel)) w.relations
    → w'.next_id ≡ w.next_id
    → Step w w'
erase-Step w w' row id found doubtful free gone rels nid =
    let key : row.id ≡ id = find-key memory_key id w.memories row found in
    erased row (record {
      found = own_key id w row found;
      doubtful = doubtful;
      unreferenced = subst (λ k. is_referenced k w.memories ≡ false) (sym key) free;
      memories = subst (λ k. w'.memories ≡ delete memory_key k w.memories) (sym key) gone;
      priors = λ ps. subst (All PriorsOk) (sym rels) (All-keep _ _ w.relations ps);
      next_id = nid;
    })

reject_found-IsPath :
    (p : Principal) (id : ℕ) (o : Option MemoryRow) (w : World)
    → find memory_key id w.memories ≡ o
    → Ensures (IsPath w) (reject_found p id o w)
unfolding delete_memory write_audit
reject_found-IsPath p id none w found = returns here
reject_found-IsPath p id (some row) w found =
    Ensures-if (not (str_eq row.owner_id p.user_id)) _ _ w (λ _. throws)
      (λ _.
        Ensures-if (not (same_status row.status uncertain)) _ _ w (λ _. throws)
          (λ e. elim (Bool-cases (is_referenced id w.memories)) [
            | inl r ↦ rw r throws
            | inr r ↦ rw r (
                after_delete_point _ id _ λ w' same. returns (
                  Reach-Step (
                    erase-Step w w' row id found (ground arith) r same.memories same.relations
                      same.next_id)))
          ]))

pub reject_uncertain-IsPath :
    (p : Principal) (id : ℕ) (w : World) → Ensures (IsPath w) (reject_uncertain p id w)
unfolding reject_uncertain select_memory
reject_uncertain-IsPath p id w =
    Ensures-transaction w (reject_found-IsPath p id (find memory_key id w.memories) w refl)

mark_one-IsPath :
    (owner : String) (id : ℕ) (why : Option SkipReason) (w : World)
    → Ensures (IsPath w) (mark_one owner id why w)
mark_one-IsPath owner id none w =
    Ensures-bind _ (transition_in_tx-IsPath (user owner) id outdated false w)
      λ row w' path. returns path
mark_one-IsPath owner id (some why) w = returns here

pub bulk_step-IsPath :
    (owner : String) (id : ℕ) (w : World) → Ensures (IsPath w) (bulk_step owner id w)
unfolding bulk_step select_memory
bulk_step-IsPath owner id w = mark_one-IsPath owner id _ w

pub bulk_loop-IsPath :
    (owner : String) (ids : List ℕ) (w : World) → Ensures (IsPath w) (bulk_loop owner ids w)
unfolding bulk_loop
bulk_loop-IsPath owner [] w = returns here
bulk_loop-IsPath owner (id ∷ ids) w = Ensures-bind _ (bulk_step-IsPath owner id w) λ outcome v one.
    Ensures-bind _ (bulk_loop-IsPath owner ids v) λ rest w' more. returns (Reach-trans one more)

-- The row that a supersession closes is the one that the table holds under the id.
pub supersede_in_tx-Run :
    (actor : MemoryActor) (id : ℕ) (old : MemoryRow) (fact : NewFact) (w : World)
    → WellFormed w
    → StartsLive fact
    → find memory_key id w.memories ≡ some old
    → Ensures (SupersededRun actor old fact w) (supersede_in_tx actor id fact w)
unfolding supersede_in_tx
supersede_in_tx-Run actor id old fact w wf live stored =
    Ensures-if (may_supersede actor) _ _ w
      (λ _. after_lock _ id actor w λ row found touch.
        Ensures-if (same_status row.status replaced) _ _ w (λ _. throws)
          (λ e.
            let same : row ≡ old = cc (found, stored) in
            subst (λ r. Ensures (SupersededRun actor r fact w) (supersede_core actor row fact w))
              same
              (supersede_core-Run actor row fact w wf live (own_key id w row found)
                (ground arith))))
      (λ _. throws)
