-- ===== src/Memory/Store/Rules.antt =====
-- What the shared writes of the store establish: locks, checks, insertion and transition.
use cogeto.Base.{
  Bool-cases, inl, inr, ℕ, suc, String, Bool, true, false, Option, none, some, ◌∷◌, ◌≡◌, refl,
  if◌then◌else◌,
}
use cogeto.Base.Table.{find, update}
use cogeto.Shared.{MemoryStatus}
use cogeto.Db.{
  World, err, M, bind, pure, MemoryRow, memory_key, memory_status_transition, moved, status_patch,
  update_memory, write_audit, select_memory, fresh_id, insert_memory, Patch, not_found,
}
use cogeto.Db.Outcome.{Ensures, returns, throws, SameTables, SameTables-refl, after_set_payload}
use cogeto.Memory.Transition.{
  MemoryActor, actor_label, TransitionCheck, allowed, refused, check_transition,
}
use cogeto.Memory.Facts.{
  NewFact, org_for, found_or_throw, may_touch, lock_row, fact_row, created_entry, is_orphan,
  insert_fact,
}
use cogeto.Memory.Store.{set_status, memory_entry, allowed_or_throw, sync_payload, transition_in_tx}

module _ {κ ν} {B : Type κ} {P : B → World → Type ν} where
  after_found :
      (f : MemoryRow → M B) (actor : MemoryActor) (o : Option MemoryRow) (w : World)
      → ((row : MemoryRow) → o ≡ some row → may_touch actor row ≡ true → Ensures P (f row w))
      → Ensures P (bind (found_or_throw actor o w) f)
  after_found f actor none w go = throws
  after_found f actor (some row) w go = after_touch (may_touch actor row) refl
    where
      after_touch :
          (b : Bool)
          → may_touch actor row ≡ b
          → Ensures P (bind ((if b then pure row else (λ v. err not_found v)) w) f)
      after_touch true e = go row refl e
      after_touch false e = throws

  pub after_lock :
      (f : MemoryRow → M B) (id : ℕ) (actor : MemoryActor) (w : World)
      → ((row : MemoryRow)
          → find memory_key id w.memories ≡ some row
          → may_touch actor row ≡ true
          → Ensures P (f row w))
      → Ensures P (bind (lock_row id actor w) f)
  unfolding lock_row select_memory
  after_lock f id actor w go = after_found f actor (find memory_key id w.memories) w go

  pub after_check :
      (k : M B) (c : TransitionCheck) (w : World)
      → (c ≡ allowed → Ensures P (k w))
      → Ensures P (bind (allowed_or_throw c w) (λ _. k))
  after_check k allowed w go = go refl
  after_check k (refused why) w go = throws

  pub after_sync :
      (k : M B) (sync : Bool) (id : ℕ) (patch : Patch) (w : World)
      → ((w' : World) → SameTables w w' → Ensures P (k w'))
      → Ensures P (bind (sync_payload sync id patch w) (λ _. k))
  after_sync k true id patch w go = after_set_payload k id patch w go
  after_sync k false id patch w go = go w (SameTables-refl w)

-- A transition found the row, was allowed to its actor, and changed the row's status and nothing
-- else but the audit log.
pub record Transitioned (actor : MemoryActor) (id : ℕ) (to : MemoryStatus) (w : World)
    (row' : MemoryRow) (w' : World) : Type 0 where
  pub row : MemoryRow
  pub found : find memory_key id w.memories ≡ some row
  pub touch : may_touch actor row ≡ true
  pub legal : check_transition row.status to actor ≡ allowed
  pub result : row' ≡ set_status to w.now row
  pub memories : w'.memories ≡ update memory_key id (set_status to w.now) w.memories
  pub audit :
      w'.audit
      ≡ memory_entry
          (actor_label actor)
          memory_status_transition
          row
          (moved row.status to)
          (w.org_of row.owner_id)
        ∷ w.audit
  pub relations : w'.relations ≡ w.relations
  pub approvals : w'.approvals ≡ w.approvals
  pub events : w'.events ≡ w.events
  pub jobs : w'.jobs ≡ w.jobs
  pub now : w'.now ≡ w.now
  pub next_id : w'.next_id ≡ w.next_id

pub transition_in_tx-Transitioned :
    (actor : MemoryActor) (id : ℕ) (to : MemoryStatus) (sync : Bool) (w : World)
    → Ensures (Transitioned actor id to w) (transition_in_tx actor id to sync w)
unfolding transition_in_tx update_memory write_audit org_for
transition_in_tx-Transitioned actor id to sync w = after_lock _ id actor w λ row found touch.
    after_check _ (check_transition row.status to actor) w λ legal.
      after_sync _ sync id (status_patch to) _ λ w' same. returns (record {
        row = row;
        found = found;
        touch = touch;
        legal = legal;
        result = refl;
        memories = same.memories;
        audit = same.audit;
        relations = same.relations;
        approvals = same.approvals;
        events = same.events;
        jobs = same.jobs;
        now = same.now;
        next_id = same.next_id;
      })

-- An insertion writes the columns of the fact under the next uuid, and one audit entry.
pub record Inserted (owner : String) (fact : NewFact) (actor : String) (w : World) (row : MemoryRow)
    (w' : World) : Type 0 where
  pub proper : is_orphan owner fact ≡ false
  pub result : row ≡ fact_row w.next_id owner fact w.now
  pub memories : w'.memories ≡ row ∷ w.memories
  pub audit : w'.audit ≡ created_entry row actor (w.org_of owner) ∷ w.audit
  pub relations : w'.relations ≡ w.relations
  pub approvals : w'.approvals ≡ w.approvals
  pub events : w'.events ≡ w.events
  pub jobs : w'.jobs ≡ w.jobs
  pub now : w'.now ≡ w.now
  pub next_id : w'.next_id ≡ suc w.next_id
  pub org_of : w'.org_of ≡ w.org_of

pub insert_fact-Inserted :
    (owner : String) (fact : NewFact) (actor : String) (w : World)
    → Ensures (Inserted owner fact actor w) (insert_fact owner fact actor w)
unfolding insert_fact fresh_id insert_memory write_audit org_for
insert_fact-Inserted owner fact actor w = elim (Bool-cases (is_orphan owner fact)) [
  | inl e ↦ rw e throws
  | inr e ↦ rw e (
      returns (record {
        proper = e;
        result = refl;
        memories = refl;
        audit = refl;
        relations = refl;
        approvals = refl;
        events = refl;
        jobs = refl;
        now = refl;
        next_id = refl;
        org_of = refl;
      }))
]
