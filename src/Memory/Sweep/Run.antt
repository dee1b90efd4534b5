-- ===== src/Memory/Sweep/Run.antt =====
-- project/src/memory/integrity-sweep.ts: `run`, its alerts and its entry in the audit log. The hash
-- and the check of a signature are parameters, and so is when an object was modified.
use cogeto.Base.{
  ℕ, ◌+◌, ◌==◌, String, Bool, true, false, Option, none, some, List, [], ◌∷◌, ◌++◌, if◌then◌else◌,
  ◌&&◌, keep, any, length, str_eq,
}
use cogeto.Db.{
  World, Alert, AlertKind, memory_row_present, qdrant_point_present, object_present, chain_broken,
  orphaned_memory, orphaned_object, payload_mismatch, AlertDetail, of_id, of_key, staging_left,
  unowned, point_missing, payload_stale, chain_fault, GateField, owner_field, scope_field,
  status_field, sensitive_field, ChainError, chain_forks, broken_linkage, hash_mismatch,
  signature_invalid, SweepReport, sweep_completed, sweep_entity, swept, M, ◌>>=◌, ◌>>◌, pure, gets,
  modify, fresh_id, write_audit,
}
use cogeto.Memory.ReceiptChain.{ReceiptChainPayload, ChainVerification, verify_chain}
use cogeto.Memory.Deletion.Executor.{is_confirmed, confirmed_receipts}
use cogeto.Memory.Sweep.Arms.{alert, check_receipts, find_orphaned_memories}
use cogeto.Memory.Sweep.Objects.{find_orphaned_objects}
use cogeto.Memory.Sweep.Payloads.{reconcile_payloads}

abbrev kind_code : AlertKind → ℕ
kind_code memory_row_present = 0
kind_code qdrant_point_present = 1
kind_code object_present = 2
kind_code chain_broken = 3
kind_code orphaned_memory = 4
kind_code orphaned_object = 5
kind_code payload_mismatch = 6

abbrev field_code : GateField → ℕ
field_code owner_field = 0
field_code scope_field = 1
field_code status_field = 2
field_code sensitive_field = 3

abbrev same_fields : List GateField → List GateField → Bool
same_fields [] [] = true
same_fields (x ∷ xs) (y ∷ ys) = (field_code x == field_code y) && same_fields xs ys
same_fields _ _ = false

abbrev fault_code : Option ChainError → ℕ
fault_code none = 0
fault_code (some chain_forks) = 1
fault_code (some broken_linkage) = 2
fault_code (some hash_mismatch) = 3
fault_code (some signature_invalid) = 4

abbrev same_detail : AlertDetail → AlertDetail → Bool
same_detail (of_id a) (of_id b) = a == b
same_detail (of_key a) (of_key b) = str_eq a b
same_detail (staging_left a) (staging_left b) = str_eq a b
same_detail (unowned a) (unowned b) = str_eq a b
same_detail (point_missing a) (point_missing b) = a == b
same_detail (payload_stale a xs) (payload_stale b ys) = (a == b) && same_fields xs ys
same_detail (chain_fault a) (chain_fault b) = fault_code a == fault_code b
same_detail _ _ = false

abbrev same_receipt : Option ℕ → Option ℕ → Bool
same_receipt none none = true
same_receipt (some a) (some b) = a == b
same_receipt _ _ = false

-- Equal by the unique index of migration 0010.
abbrev pub same_alert : Alert → Alert → Bool
same_alert a b =
    same_receipt a.receipt_id b.receipt_id
    && (kind_code a.kind == kind_code b.kind)
    && same_detail a.detail b.detail

abbrev push_alert : Alert → World → World
push_alert a w = record w { vault = record w.vault { alerts = a ∷ w.vault.alerts } }

-- `INSERT … ON CONFLICT DO NOTHING`: how many rows it wrote.
abbrev insert_unless : Alert → Bool → M ℕ
insert_unless a true = pure 0
insert_unless a false = do modify (push_alert a); pure 1

unfoldable pub insert_alerts : List Alert → M ℕ
insert_alerts [] = pure 0
insert_alerts (a ∷ found) = do
  one ← insert_unless a (← gets (λ w. any (same_alert a) w.vault.alerts))
  rest ← insert_alerts found
  pure (one + rest)

abbrev pub chain_alerts : ChainVerification → List Alert
chain_alerts chain = if chain.ok then [] else alert none chain_broken (chain_fault chain.error) ∷ []

module _ (hash : ReceiptChainPayload → String) (verify : (hash signature : String) → Bool)
    (last_modified : String → ℕ) where
  unfoldable pub run_sweep : M SweepReport
  run_sweep w =
      (do
        confirmed ← gets (λ v. keep (λ r. is_confirmed r.status) v.vault.receipts)
        receipts ← check_receipts confirmed
        orphans ← find_orphaned_memories
        objects ← find_orphaned_objects last_modified
        payloads ← reconcile_payloads
        let chain = verify_chain hash verify (confirmed_receipts confirmed)
        new ←
            insert_alerts (
              receipts.alerts ++ orphans ++ objects.alerts ++ payloads.alerts ++ chain_alerts chain)
        open_alerts ← gets (λ v. length v.vault.alerts)
        let report : SweepReport = record {
          receipts_checked = length confirmed;
          identifiers_checked = receipts.checked;
          objects_scanned = objects.scanned;
          payloads_checked = payloads.checked;
          payloads_healed = payloads.healed;
          new_alerts = new;
          open_alerts = open_alerts;
          chain_ok = chain.ok;
          chain_error = chain.error;
        }
        id ← fresh_id
        write_audit (record {
          actor = "integrity_sweep";
          action = sweep_completed;
          entity_type = sweep_entity;
          entity_id = id;
          detail = swept report;
          org_id = none;
          owner_id = none;
        })
        pure report)
        w
