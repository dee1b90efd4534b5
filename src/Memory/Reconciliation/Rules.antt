-- ===== src/Memory/Reconciliation/Rules.antt =====
-- What the shared writes of reconciliation establish: the lock of a pair, the close of a loser, and
-- the restoration of a contradicted row.
use cogeto.Base.{
  ℕ, String, true, Option, none, some, ◌≡◌, ◌≢◌, refl, arith, is_some, ◌==◌, or_else, first_some,
  not, ◌||◌, Bool-cases, inl, inr, ◌⊎◌, ◌∷◌,
}
use cogeto.Base.Table.{find, update}
use cogeto.Shared.{MemoryStatus, replaced, contradicted, same_status}
use cogeto.Db.{
  World, MemoryRow, memory_key, AuditAction, bind, M, select_memory, update_memory, write_audit,
  set_payload_if_any,
}
use cogeto.Db.Outcome.{Ensures, returns, throws, Ensures-if, Ensures-mono, set_payload_if_any-Same}
use cogeto.Memory.Facts.{org_for}
use cogeto.Memory.Store.{set_status, memory_entry}
use cogeto.Memory.Store.Supersede.{close}
use cogeto.Memory.Reconciliation.{
  both_or_throw, lock_pair, Closing, closing_action, closing_detail, close_and_point,
}
use cogeto.Memory.Reconciliation.Resolve.{restore_from_contradiction}
use cogeto.Memory.Machine.{Step, updated, Reach, here, Reach-Step, closed, restored}

module _ {κ ν} {B : Type κ} {P : B → World → Type ν} where
  after_both :
      (f : MemoryRow × MemoryRow → M B) (oa ob : Option MemoryRow) (w : World)
      → ((a b : MemoryRow) → oa ≡ some a → ob ≡ some b → Ensures P (f (a, b) w))
      → Ensures P (bind (both_or_throw oa ob w) f)
  after_both f none ob w go = throws
  after_both f (some a) none w go = throws
  after_both f (some a) (some b) w go = go a b refl refl

  pub after_pair :
      (f : MemoryRow × MemoryRow → M B) (one two : ℕ) (w : World)
      → ((a b : MemoryRow)
          → one ≢ two
          → find memory_key one w.memories ≡ some a
          → find memory_key two w.memories ≡ some b
          → Ensures P (f (a, b) w))
      → Ensures P (bind (lock_pair one two w) f)
  unfolding lock_pair select_memory
  after_pair f one two w go = elim (Bool-cases (one == two)) [
    | inl e ↦ rw e throws
    | inr e ↦ rw e (after_both f _ _ w λ a b p q. go a b (ground arith) p q)
  ]

abbrev pub close_end : Option ℕ → MemoryRow → ℕ → ℕ
close_end close_at target now = or_else (first_some close_at target.valid_from) now

-- The loser's row is closed and points at the target; nothing else but the audit log changes.
pub record Closed (loser target : MemoryRow) (how : Closing) (actor : String) (close_at : Option ℕ)
    (w w' : World) : Type 0 where
  pub memories :
      w'.memories
      ≡ update memory_key loser.id
          (close target.id (close_end close_at target w.now) w.now)
          w.memories
  pub audit :
      w'.audit
      ≡ memory_entry actor
          (closing_action how)
          loser
          (closing_detail how target.id (close_end close_at target w.now))
          (w.org_of loser.owner_id)
        ∷ w.audit
  pub relations : w'.relations ≡ w.relations
  pub next_id : w'.next_id ≡ w.next_id

pub close_and_point-Closed :
    (loser target : MemoryRow) (how : Closing) (actor : String) (close_at : Option ℕ) (w : World)
    → Ensures
        (λ _ w'. Closed loser target how actor close_at w w')
        (close_and_point loser target how actor close_at w)
unfolding close_and_point update_memory write_audit org_for set_payload_if_any
close_and_point-Closed loser target how actor close_at w =
    Ensures-mono (set_payload_if_any-Same _ _ _) λ a w' same. record {
      memories = same.memories;
      audit = same.audit;
      relations = same.relations;
      next_id = same.next_id;
    }

pub Closed-Step :
    {loser target : MemoryRow} {how : Closing} {actor : String} {close_at : Option ℕ} {w w' : World}
    → find memory_key loser.id w.memories ≡ some loser
    → loser.status ≢ replaced
    → is_some (find memory_key target.id w.memories) ≡ true
    → target.id ≢ loser.id
    → Closed loser target how actor close_at w w'
    → Step w w'
Closed-Step {loser} {target} {how} {actor} {close_at} {w} found live there ne c =
    updated loser (close target.id (close_end close_at target w.now) w.now) (record {
      found = found;
      move = closed target.id (close_end close_at target w.now) w.now live there ne;
      same_key = λ x. refl;
      memories = c.memories;
      relations = c.relations;
      next_id = c.next_id;
    })

-- A restoration changes nothing, or gives a contradicted row its prior status back.
pub restore-Reach :
    (row : MemoryRow) (prior : MemoryStatus) (action : AuditAction) (actor : String)
    (org : Option String) (w : World)
    → find memory_key row.id w.memories ≡ some row
    → prior ≢ replaced
    → Ensures
        (λ _ w'.
          Reach w w'
          × (w'.memories ≡ w.memories
              ⊎ w'.memories ≡ update memory_key row.id (set_status prior w.now) w.memories))
        (restore_from_contradiction row prior action actor org w)
unfolding restore_from_contradiction update_memory write_audit
restore-Reach row prior action actor org w found live =
    Ensures-if (not (same_status row.status contradicted) || same_status prior contradicted) _ _ w
      (λ _. returns (here, inl refl))
      (λ e. Ensures-mono (set_payload_if_any-Same _ _ _) λ a w' same. (
        Reach-Step (
            updated row (set_status prior w.now) (record {
              found = found;
              move = restored prior w.now (ground arith) live;
              same_key = λ x. refl;
              memories = same.memories;
              relations = same.relations;
              next_id = same.next_id;
            })),
        inr same.memories,
      ))
