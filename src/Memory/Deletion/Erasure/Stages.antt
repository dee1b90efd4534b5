-- ===== src/Memory/Deletion/Erasure/Stages.antt =====
-- The stages of the enumeration transaction, one lemma each.
use cogeto.Base.{
  ℕ, String, false, Option, none, some, List, [], ◌∷◌, ◌≡◌, refl, ap, ◌∙◌, ◌||◌, not, keep, All,
}
use cogeto.Base.Table.{find}
use cogeto.Shared.{MemoryStatus, same_status, contradicted}
use cogeto.Db.{
  World, MemoryRow, TaskRow, MemoryRelationRow, AuditAction, memory_key, select_memory,
  update_memory, write_audit,
}
use cogeto.Db.Outcome.{
  Ensures, returns, Ensures-if, Ensures-bind, Ensures-mono, set_payload_if_any-Same,
}
use cogeto.Memory.Store.{set_status}
use cogeto.Memory.Reconciliation.Resolve.{
  Side, restore_from_contradiction, lift_side, lift_one, lift_all, partner_side, partner, prior_of,
  restore_partner, is_open_on, lift_contradictions_before_deletion,
}
use cogeto.Memory.Deletion.Cascades.{is_derived, tasks_cascade}
use cogeto.Memory.Deletion.Erasure.Rows.{facts, facts-update, All-keep_others}

-- What every stage before the deletes keeps.
pub record Steady (w w' : World) : Type 0 where
  pub facts_same : facts w'.memories ≡ facts w.memories
  pub files : w'.vault.files ≡ w.vault.files
  pub sources : w'.vault.sources ≡ w.vault.sources
  pub receipts : w'.vault.receipts ≡ w.vault.receipts
  pub jobs : w'.jobs ≡ w.jobs
  pub next_id : w'.next_id ≡ w.next_id

pub Steady-refl : (w : World) → Steady w w
Steady-refl w = record {
  facts_same = refl;
  files = refl;
  sources = refl;
  receipts = refl;
  jobs = refl;
  next_id = refl;
}

pub Steady-trans : {u v w : World} → Steady u v → Steady v w → Steady u w
Steady-trans a b = record {
  facts_same = b.facts_same ∙ a.facts_same;
  files = b.files ∙ a.files;
  sources = b.sources ∙ a.sources;
  receipts = b.receipts ∙ a.receipts;
  jobs = b.jobs ∙ a.jobs;
  next_id = b.next_id ∙ a.next_id;
}

restore-Steady :
    (row : MemoryRow) (prior : MemoryStatus) (action : AuditAction) (actor : String)
    (org : Option String) (w : World)
    → Ensures (λ _ w'. Steady w w') (restore_from_contradiction row prior action actor org w)
unfolding restore_from_contradiction update_memory write_audit
restore-Steady row prior action actor org w =
    Ensures-if (not (same_status row.status contradicted) || same_status prior contradicted) _ _ w
      (λ _. returns (Steady-refl w))
      (λ _. Ensures-mono (set_payload_if_any-Same _ _ _) λ _ w' same. record {
        facts_same =
            ap facts same.memories
            ∙ facts-update row.id (set_status prior w.now) w.memories (λ x. refl);
        files = ap (λ v. v.files) same.vault;
        sources = ap (λ v. v.sources) same.vault;
        receipts = ap (λ v. v.receipts) same.vault;
        jobs = same.jobs;
        next_id = same.next_id;
      })

restore_partner-Steady :
    (org : Option String) (prior : MemoryStatus) (found : Option MemoryRow) (w : World)
    → Ensures (λ _ w'. Steady w w') (restore_partner org prior found w)
restore_partner-Steady org prior none w = returns (Steady-refl w)
restore_partner-Steady org prior (some row) w =
    Ensures-bind _ (restore-Steady row prior _ _ org w) λ _ w' s. returns s

lift_side-Steady :
    (org : Option String) (rel : MemoryRelationRow) (side : Option Side) (w : World)
    → Ensures (λ _ w'. Steady w w') (lift_side org rel side w)
unfolding select_memory
lift_side-Steady org rel none w = returns (Steady-refl w)
lift_side-Steady org rel (some side) w =
    restore_partner-Steady org (prior_of rel side) (find memory_key (partner rel side) w.memories) w

lift_all-Steady :
    (org : Option String) (doomed : List ℕ) (rels : List MemoryRelationRow) (w : World)
    → Ensures (λ _ w'. Steady w w') (lift_all org doomed rels w)
unfolding lift_all lift_one
lift_all-Steady org doomed [] w = returns (Steady-refl w)
lift_all-Steady org doomed (rel ∷ rels) w =
    Ensures-bind _ (lift_side-Steady org rel (partner_side doomed rel) w) λ _ v one.
      Ensures-bind _ (lift_all-Steady org doomed rels v) λ _ w' two. returns (Steady-trans one two)

pub lift-Steady :
    (org : Option String) (doomed : List ℕ) (w : World)
    → Ensures (λ _ w'. Steady w w') (lift_contradictions_before_deletion org doomed w)
unfolding lift_contradictions_before_deletion
lift-Steady org doomed w = lift_all-Steady org doomed (keep (is_open_on doomed) w.relations) w

nothing_derived : (tasks : List TaskRow) → All (λ t. is_derived [] t ≡ false) tasks
nothing_derived [] = tt
nothing_derived (t ∷ ts) = (refl, nothing_derived ts)

-- No task derives from the erased memories.
pub tasks_cascade-All :
    (ids : List ℕ) (w : World)
    → Ensures
        (λ _ w'. Steady w w' × All (λ t. is_derived ids t ≡ false) w'.vault.tasks)
        (tasks_cascade ids w)
unfolding tasks_cascade
tasks_cascade-All [] w = returns (Steady-refl w, nothing_derived w.vault.tasks)
tasks_cascade-All (id ∷ ids) w = returns (
  record {
    facts_same = refl;
    files = refl;
    sources = refl;
    receipts = refl;
    jobs = refl;
    next_id = refl;
  },
  All-keep_others (is_derived (id ∷ ids)) w.vault.tasks,
)
