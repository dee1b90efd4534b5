-- ===== src/Memory/Store/Outcomes.antt =====
-- When the operations of the store return: transitions, the bulk action and rejections.
use cogeto.Base.{
  ℕ, String, Bool, true, false, Option, none, some, ◌≡◌, ◌≢◌, ◌↔◌, refl, arith, eq_iff,
}
use cogeto.Base.Table.{find, update}
use cogeto.Shared.{MemoryStatus, outdated, replaced, user_approved}
use cogeto.Db.{
  World, Answer, ok, err, MemoryRow, memory_key, update_memory, write_audit, select_memory,
}
use cogeto.Db.Outcome.{Ensures-of_run}
use cogeto.Memory.Transition.{MemoryActor, user}
use cogeto.Memory.Transition.Matrix.{MayMove, retire, check_transition_iff}
use cogeto.Memory.Facts.{may_touch, lock_row, org_for}
use cogeto.Memory.Store.{set_status, transition_in_tx}
use cogeto.Memory.Store.Bulk.{SkipReason, skip_reason, bulk_step}
use cogeto.Memory.Store.Rules.{transition_in_tx-Transitioned}

abbrev pub is_ok {ℓ} : {A : Type ℓ} → Answer A → Bool
is_ok (ok a w) = true
is_ok (err e w) = false

-- A row that the actor may touch and move.
pub record Movable (actor : MemoryActor) (id : ℕ) (to : MemoryStatus) (w : World) : Type 0 where
  pub row : MemoryRow
  pub found : find memory_key id w.memories ≡ some row
  pub touch : may_touch actor row ≡ true
  pub legal : MayMove row.status to actor

Movable-returns :
    (actor : MemoryActor) (id : ℕ) (to : MemoryStatus) (w : World)
    → Movable actor id to w
    → is_ok (transition_in_tx actor id to false w) ≡ true
unfolding transition_in_tx lock_row select_memory update_memory write_audit org_for
Movable-returns actor id to w m =
    let legal = (check_transition_iff m.row.status to actor).1 m.legal in
    rw m.found (rw m.touch (rw legal refl))

returns-Movable :
    (actor : MemoryActor) (id : ℕ) (to : MemoryStatus) (w : World) (r : Answer MemoryRow)
    → transition_in_tx actor id to false w ≡ r
    → is_ok r ≡ true
    → Movable actor id to w
returns-Movable actor id to w (err e v) q h = absurd (cc h)
returns-Movable actor id to w (ok row' v) q h =
    let t = Ensures-of_run row' v (transition_in_tx-Transitioned actor id to false w) q in
    record {
      row = t.row;
      found = t.found;
      touch = t.touch;
      legal = (check_transition_iff t.row.status to actor).0 t.legal;
    }

-- A transition without a payload write returns exactly when the memory exists, the actor may touch
-- it, and the matrix allows the move.
pub transition_in_tx_iff :
    (actor : MemoryActor) (id : ℕ) (to : MemoryStatus) (w : World)
    → (is_ok (transition_in_tx actor id to false w) ≡ true) ↔ Movable actor id to w
transition_in_tx_iff actor id to w =
    (returns-Movable actor id to w _ refl, Movable-returns actor id to w)

-- A row that the bulk action does not skip may be retired by its owner.
pub eligible :
    (owner : String) (o : Option MemoryRow)
    → skip_reason owner o ≡ none
    → (row : MemoryRow) × (o ≡ some row)
      × (row.owner_id ≡ owner)
      × (row.status ≢ replaced)
      × (row.status ≢ outdated)
      × (row.status ≢ user_approved)
eligible owner none h = absurd (cc h)
eligible owner (some row) h =
    let same = eq_iff row.owner_id owner in
    (row, refl, ground (arith, h, same), ground (arith, h), ground (arith, h), ground (arith, h))

-- One round of the bulk loop: it passes the row over, or the row was eligible and is retired.
pub data Round (owner : String) (id : ℕ) (w w' : World) : Option SkipReason → Type 0 where
  passed :
      (why : SkipReason)
      → skip_reason owner (find memory_key id w.memories) ≡ some why
      → w' ≡ w
      → Round owner id w w' (some why)
  retired :
      (row : MemoryRow) (now : ℕ)
      → skip_reason owner (find memory_key id w.memories) ≡ none
      → find memory_key id w.memories ≡ some row
      → row.owner_id ≡ owner
      → w'.memories ≡ update memory_key id (set_status outdated now) w.memories
      → Round owner id w w' none

-- A round always returns.
pub record Rounded (owner : String) (id : ℕ) (w : World) : Type 0 where
  pub outcome : Option SkipReason
  pub after : World
  pub runs : bulk_step owner id w ≡ ok outcome after
  pub round : Round owner id w after outcome

retired_run :
    (owner : String) (id : ℕ) (w : World)
    → skip_reason owner (find memory_key id w.memories) ≡ none
    → (r : Answer MemoryRow) → transition_in_tx (user owner) id outdated false w ≡ r
    → is_ok r ≡ true
    → Rounded owner id w
unfolding bulk_step select_memory
retired_run owner id w e (err x v) q h = absurd (cc h)
retired_run owner id w e (ok row' v) q h =
    let t =
      Ensures-of_run row' v (transition_in_tx-Transitioned (user owner) id outdated false w) q in
    record {
      outcome = none;
      after = v;
      runs = rw e (rw q refl);
      round = retired t.row w.now e t.found ((eq_iff t.row.owner_id owner).0 t.touch) t.memories;
    }

mark_one-Rounded :
    (owner : String) (id : ℕ) (w : World) (why : Option SkipReason)
    → skip_reason owner (find memory_key id w.memories) ≡ why
    → Rounded owner id w
unfolding bulk_step select_memory
mark_one-Rounded owner id w (some why) e = record {
  outcome = some why;
  after = w;
  runs = rw e refl;
  round = passed why e refl;
}
mark_one-Rounded owner id w none e =
    let fit = eligible owner (find memory_key id w.memories) e in
    let mine : may_touch (user owner) fit.0 ≡ true = (eq_iff fit.0.owner_id owner).1 fit.2 in
    let returned =
      Movable-returns (user owner) id outdated w
        (record { row = fit.0; found = fit.1; touch = mine; legal = retire fit.3 fit.4 }) in
    retired_run owner id w e (transition_in_tx (user owner) id outdated false w) refl returned

pub bulk_step-Rounded : (owner : String) (id : ℕ) (w : World) → Rounded owner id w
bulk_step-Rounded owner id w = mark_one-Rounded owner id w _ refl
