-- ===== src/Memory/Sweep/Payloads.antt =====
-- project/src/memory/integrity-sweep.ts, `reconcilePayloads`: every embedded row is compared with its
-- payload copy, page by page in the order of the ids, and a stale copy is written again.
use cogeto.Base.{
  ℕ, zero, suc, ◌+◌, ltb, Bool, true, false, Option, none, some, List, [], ◌∷◌, ◌++◌, if◌then◌else◌,
  ◌&&◌, not, str_eq, keep, length, map, is_some, take, last,
}
use cogeto.Base.Table.{find, update}
use cogeto.Shared.{same_status, same_scope}
use cogeto.Db.{
  MemoryRow, Point, point_key, Alert, payload_mismatch, point_missing, payload_stale, GateField,
  owner_field, scope_field, status_field, sensitive_field, gate_patch, apply_patch, require_index,
  M, ◌>>=◌, ◌>>◌, pure, gets,
}
use cogeto.Memory.Visibility.PointInTime.{sort}
use cogeto.Memory.Sweep.Arms.{alert, retrieve_payloads}

abbrev pub is_after : Option ℕ → ℕ → Bool
is_after none id = true
is_after (some k) id = ltb k id

-- An embedded row past the last page.
abbrev pub is_due : Option ℕ → MemoryRow → Bool
is_due after row = is_some row.embedding_model && is_after after row.id

abbrev pub payload_page_size : ℕ
payload_page_size = 500

abbrev pub not_later : MemoryRow → MemoryRow → Bool
not_later a b = not (ltb b.id a.id)

abbrev pub page_after : Option ℕ → List MemoryRow → List MemoryRow
page_after after rows = take payload_page_size (sort not_later (keep (is_due after) rows))

abbrev pub same_flag : Bool → Bool → Bool
same_flag true b = b
same_flag false b = not b

abbrev pub unless : Bool → GateField → List GateField
unless same field = if same then [] else field ∷ []

-- The gate columns in which a payload differs from its row.
abbrev pub stale_fields : MemoryRow → Point → List GateField
stale_fields row p =
    unless (str_eq p.owner_id row.owner_id) owner_field
    ++ unless (same_scope p.scope row.scope) scope_field
    ++ unless (same_status p.status row.status) status_field
    ++ unless (same_flag p.sensitive row.sensitive) sensitive_field

-- The alerts of the rows so far, and how many payloads were written again.
pub record Healing : Type 0 where
  pub checked : ℕ
  pub healed : ℕ
  pub alerts : List Alert

abbrev nothing_found : Healing
nothing_found = record { checked = 0; healed = 0; alerts = [] }

abbrev pub payload_of_row : MemoryRow → Point → Point
payload_of_row row =
    apply_patch (gate_patch row.owner_id row.scope row.status row.sensitive row.valid_until)

abbrev pub heal : MemoryRow → List GateField → M Healing
heal row [] = pure nothing_found
heal row (field ∷ fields) = do
  (λ w. require_index (update point_key row.id (payload_of_row row)) w.points w)
  pure (record {
    checked = 0;
    healed = 1;
    alerts = alert none payload_mismatch (payload_stale row.id (field ∷ fields)) ∷ [];
  })

abbrev pub check_payload : MemoryRow → Option Point → M Healing
check_payload row none = pure (record {
  checked = 0;
  healed = 0;
  alerts = alert none payload_mismatch (point_missing row.id) ∷ [];
})
check_payload row (some p) = heal row (stale_fields row p)

abbrev plus : Healing → Healing → Healing
plus a b = record {
  checked = a.checked + b.checked;
  healed = a.healed + b.healed;
  alerts = a.alerts ++ b.alerts;
}

-- `for (const row of page)`.
unfoldable pub check_rows : List Point → List MemoryRow → M Healing
check_rows payloads [] = pure nothing_found
check_rows payloads (row ∷ rows) = do
  one ← check_payload row (find point_key row.id payloads)
  rest ← check_rows payloads rows
  pure (plus one rest)

abbrev pub page_ids : List MemoryRow → List ℕ
page_ids rows = map (λ row. row.id) rows

abbrev pub last_id : MemoryRow → List MemoryRow → ℕ
last_id row rows = (last row rows).id

-- One page, and what the later pages answer.
abbrev pub reconcile_page : (Option ℕ → M Healing) → List MemoryRow → M Healing
reconcile_page later [] = pure nothing_found
reconcile_page later (row ∷ rows) = do
  payloads ← retrieve_payloads (page_ids (row ∷ rows))
  here ← check_rows payloads (row ∷ rows)
  rest ← later (some (last_id row rows))
  pure (plus (plus (record { checked = length (row ∷ rows); healed = 0; alerts = [] }) here) rest)

-- The loop over the pages; it may run as many rounds as there are rows, and one.
unfoldable pub reconcile_from : (rounds : ℕ) → Option ℕ → M Healing
reconcile_from zero after = pure nothing_found
reconcile_from (suc rounds) after = do
  page ← gets (λ w. page_after after w.memories)
  reconcile_page (reconcile_from rounds) page

unfoldable pub reconcile_payloads : M Healing
reconcile_payloads w = reconcile_from (suc (length w.memories)) none w
