-- ===== src/Memory/Store/Steps.antt =====
-- The shared writes as steps of the abstract machine.
use cogeto.Base.{ℕ, String, some, ◌∷◌, ◌≡◌, ◌≢◌, ◌<◌, refl, arith, or_else, sym, ap, ◌∙◌, subst}
use cogeto.Base.Table.{find, update, find-key, find-All}
use cogeto.Shared.{MemoryStatus, active, replaced}
use cogeto.Db.{World, MemoryRow, memory_key, update_memory, write_audit, status_patch}
use cogeto.Db.Outcome.{Ensures, returns, SameTables, Ensures-bind, after_set_payload}
use cogeto.Memory.Transition.{MemoryActor, actor_label}
use cogeto.Memory.Transition.Matrix.{check_transition_iff}
use cogeto.Memory.Facts.{NewFact, fact_row, org_for}
use cogeto.Memory.Store.{set_status}
use cogeto.Memory.Store.Supersede.{close, Superseded, supersede_core}
use cogeto.Memory.Store.Rules.{Transitioned, Inserted, insert_fact-Inserted}
use cogeto.Memory.Machine.{
  WellFormed, Step, created, updated, quiet, Reach, here, next, transitioned, closed,
}
use cogeto.Memory.Machine.Invariant.{All-below}
use cogeto.Memory.Machine.History.{find_created}

pub quiet-Step : {w w' : World} → SameTables w w' → Step w w'
quiet-Step s =
    quiet (record { memories = s.memories; relations = s.relations; next_id = s.next_id })

pub transition-Step :
    {actor : MemoryActor} {id : ℕ} {to : MemoryStatus} {w w' : World} {row' : MemoryRow}
    → Transitioned actor id to w row' w'
    → Step w w'
transition-Step {actor} {id} {to} {w} {w'} t =
    let key : t.row.id ≡ id = find-key memory_key id w.memories t.row t.found in
    updated t.row (set_status to w.now) (record {
      found = subst (λ k. find memory_key k w.memories ≡ some t.row) (sym key) t.found;
      move =
          transitioned actor to w.now t.touch
            ((check_transition_iff t.row.status to actor).0 t.legal);
      same_key = λ x. refl;
      memories =
          subst (λ k. w'.memories ≡ update memory_key k (set_status to w.now) w.memories) (sym key)
            t.memories;
      relations = t.relations;
      next_id = t.next_id;
    })

-- A fact starts in a status other than `replaced`.
abbrev pub StartsLive : NewFact → Type 0
StartsLive fact = or_else fact.initial_status active ≢ replaced

pub insert-Step :
    {owner : String} {fact : NewFact} {actor : String} {w w' : World} {row : MemoryRow}
    → StartsLive fact
    → Inserted owner fact actor w row w'
    → Step w w'
insert-Step {owner} {fact} {actor} {w} {w'} {row} live i = created row (record {
  fresh = ap (λ r. r.id) i.result;
  owner = rw i.result (ground (arith, i.proper));
  source = rw i.result (ground (arith, i.proper));
  live = rw i.result live;
  unpointed = ap (λ r. r.superseded_by) i.result;
  memories = i.memories;
  relations = i.relations;
  next_id = i.next_id;
})

-- What a supersession leaves: the successor in the table, the predecessor closed and pointing at it.
pub record SupersededRun (actor : MemoryActor) (old : MemoryRow) (fact : NewFact) (w : World)
    (res : Superseded) (w' : World) : Type 0 where
  pub path : Reach w w'
  pub successor :
      res.successor
      ≡ fact_row w.next_id old.owner_id
          (record fact { valid_from = some (or_else fact.valid_from w.now) })
          w.now
  pub predecessor :
      res.predecessor ≡ close res.successor.id (or_else fact.valid_from w.now) w.now old
  pub memories :
      w'.memories
      ≡ update memory_key old.id
          (close res.successor.id (or_else fact.valid_from w.now) w.now)
          (res.successor ∷ w.memories)
  pub relations : w'.relations ≡ w.relations
  pub approvals : w'.approvals ≡ w.approvals
  pub events : w'.events ≡ w.events
  pub jobs : w'.jobs ≡ w.jobs
  pub now : w'.now ≡ w.now

close-Step :
    (w v w' : World) (old row : MemoryRow) (from now : ℕ)
    → WellFormed w
    → Step w v
    → find memory_key old.id w.memories ≡ some old
    → old.status ≢ replaced
    → row.id ≡ w.next_id
    → v.memories ≡ row ∷ w.memories
    → w'.memories ≡ update memory_key old.id (close row.id from now) v.memories
    → w'.relations ≡ v.relations
    → w'.next_id ≡ v.next_id
    → Step v w'
unfolding find
close-Step w v w' old row from now wf s found live fresh inserted written rel nid =
    let below : old.id < w.next_id =
      find-All memory_key (λ r. r.id < w.next_id) old.id w.memories old
        (All-below _ w.memories wf.rows) found in
    updated old (close row.id from now) (record {
      found = rw inserted (
          find_created old.id w.next_id old row w.memories (All-below _ w.memories wf.rows) fresh
            found);
      move =
          closed row.id from now live (rw inserted (ground arith))
            (λ e. omega (arith, fresh, e, below));
      same_key = λ x. refl;
      memories = written;
      relations = rel;
      next_id = nid;
    })

pub supersede_core-Run :
    (actor : MemoryActor) (old : MemoryRow) (fact : NewFact) (w : World)
    → WellFormed w
    → StartsLive fact
    → find memory_key old.id w.memories ≡ some old
    → old.status ≢ replaced
    → Ensures (SupersededRun actor old fact w) (supersede_core actor old fact w)
unfolding supersede_core update_memory org_for write_audit
supersede_core-Run actor old fact w wf live found old_live =
    Ensures-bind _ (insert_fact-Inserted old.owner_id _ (actor_label actor) w) λ row v i.
      after_set_payload _ old.id (status_patch replaced) _ λ w' same.
        let first : Step w v = insert-Step live i in
        returns (record {
          path = next (next here first) (
              close-Step w v w' old row (or_else fact.valid_from w.now) w.now wf first found
                old_live (ap (λ r. r.id) i.result) i.memories same.memories same.relations
                same.next_id);
          successor = i.result;
          predecessor = refl;
          memories = same.memories ∙ ap (update memory_key old.id _) i.memories;
          relations = same.relations ∙ i.relations;
          approvals = same.approvals ∙ i.approvals;
          events = same.events ∙ i.events;
          jobs = same.jobs ∙ i.jobs;
          now = same.now ∙ i.now;
        })
