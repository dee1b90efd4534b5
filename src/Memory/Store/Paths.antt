-- ===== src/Memory/Store/Paths.antt =====
-- Every operation of the store, when it returns, is a path of the abstract machine.
use cogeto.Base.{ℕ, String, Bool, true, some, ◌≡◌, refl, sym, subst}
use cogeto.Base.Table.{find, update, find-key}
use cogeto.Shared.{MemoryStatus, Principal, MemoryScope, same_scope}
use cogeto.Db.{
  World, MemoryRow, memory_key, update_memory, write_audit, sensitive_patch, scope_patch,
}
use cogeto.Db.Outcome.{
  Ensures, returns, Ensures-mono, Ensures-transaction, Ensures-if, after_set_payload,
}
use cogeto.Memory.Transition.{MemoryActor, user}
use cogeto.Memory.Facts.{NewFact, insert_fact}
use cogeto.Memory.Store.{
  same_bool, set_sensitive, set_scope_of, create_from_fact, transition, transition_in_tx,
  toggle_sensitive, set_scope,
}
use cogeto.Memory.Store.Rules.{after_lock, insert_fact-Inserted, transition_in_tx-Transitioned}
use cogeto.Memory.Store.Steps.{StartsLive, insert-Step, transition-Step}
use cogeto.Memory.Machine.{Step, updated, Reach, here, Reach-Step, marked, rescoped}

-- A returning run ends in a world that the machine reaches.
abbrev pub IsPath {ℓ} : {A : Type ℓ} → World → A → World → Type 0
IsPath w _ w' = Reach w w'

pub insert_fact-IsPath :
    (owner : String) (fact : NewFact) (actor : String) (w : World)
    → StartsLive fact
    → Ensures (IsPath w) (insert_fact owner fact actor w)
insert_fact-IsPath owner fact actor w live =
    Ensures-mono (insert_fact-Inserted owner fact actor w)
      λ row w' i. Reach-Step (insert-Step live i)

pub create_from_fact-IsPath :
    (p : Principal) (fact : NewFact) (w : World)
    → StartsLive fact
    → Ensures (IsPath w) (create_from_fact p fact w)
unfolding create_from_fact
create_from_fact-IsPath p fact w live =
    Ensures-transaction w (insert_fact-IsPath p.user_id fact _ w live)

pub transition_in_tx-IsPath :
    (actor : MemoryActor) (id : ℕ) (to : MemoryStatus) (sync : Bool) (w : World)
    → Ensures (IsPath w) (transition_in_tx actor id to sync w)
transition_in_tx-IsPath actor id to sync w =
    Ensures-mono (transition_in_tx-Transitioned actor id to sync w)
      λ row w' t. Reach-Step (transition-Step t)

pub transition-IsPath :
    (actor : MemoryActor) (id : ℕ) (to : MemoryStatus) (w : World)
    → Ensures (IsPath w) (transition actor id to w)
unfolding transition
transition-IsPath actor id to w = Ensures-transaction w (transition_in_tx-IsPath actor id to true w)

-- A write of a flag of one row, then quiet statements.
mark-Step :
    (w w' : World) (row : MemoryRow) (id : ℕ) (b : Bool)
    → find memory_key id w.memories ≡ some row
    → w'.memories ≡ update memory_key id (set_sensitive b w.now) w.memories
    → w'.relations ≡ w.relations
    → w'.next_id ≡ w.next_id
    → Step w w'
mark-Step w w' row id b found written rel nid =
    let key : row.id ≡ id = find-key memory_key id w.memories row found in
    updated row (set_sensitive b w.now) (record {
      found = subst (λ k. find memory_key k w.memories ≡ some row) (sym key) found;
      move = marked b w.now;
      same_key = λ x. refl;
      memories =
          subst (λ k. w'.memories ≡ update memory_key k (set_sensitive b w.now) w.memories)
            (sym key) written;
      relations = rel;
      next_id = nid;
    })

rescope-Step :
    (w w' : World) (row : MemoryRow) (id : ℕ) (s : MemoryScope)
    → find memory_key id w.memories ≡ some row
    → w'.memories ≡ update memory_key id (set_scope_of s w.now) w.memories
    → w'.relations ≡ w.relations
    → w'.next_id ≡ w.next_id
    → Step w w'
rescope-Step w w' row id s found written rel nid =
    let key : row.id ≡ id = find-key memory_key id w.memories row found in
    updated row (set_scope_of s w.now) (record {
      found = subst (λ k. find memory_key k w.memories ≡ some row) (sym key) found;
      move = rescoped s w.now;
      same_key = λ x. refl;
      memories =
          subst (λ k. w'.memories ≡ update memory_key k (set_scope_of s w.now) w.memories) (sym key)
            written;
      relations = rel;
      next_id = nid;
    })

pub toggle_sensitive-IsPath :
    (p : Principal) (id : ℕ) (b : Bool) (w : World) → Ensures (IsPath w) (toggle_sensitive p id b w)
unfolding toggle_sensitive update_memory write_audit
toggle_sensitive-IsPath p id b w = Ensures-transaction w (
    after_lock _ id (user p.user_id) w λ row found touch.
      Ensures-if (same_bool row.sensitive b) _ _ w (λ _. returns here)
        (λ _. after_set_payload _ id (sensitive_patch b) _ λ w' same.
          returns
            (Reach-Step (mark-Step w w' row id b found same.memories same.relations same.next_id))))

pub set_scope-IsPath :
    (p : Principal) (id : ℕ) (s : MemoryScope) (w : World) → Ensures (IsPath w) (set_scope p id s w)
unfolding set_scope update_memory write_audit
set_scope-IsPath p id s w = Ensures-transaction w (
    after_lock _ id (user p.user_id) w λ row found touch.
      Ensures-if (same_scope row.scope s) _ _ w (λ _. returns here)
        (λ _. after_set_payload _ id (scope_patch s) _ λ w' same. returns (
          Reach-Step (rescope-Step w w' row id s found same.memories same.relations same.next_id))))
