-- ===== src/Memory/Sweep/Arms.antt =====
-- project/src/memory/integrity-sweep.ts: the receipt side of the sweep, which looks for what a
-- confirmed receipt says is gone, and the source side, which looks for memories without a source.
use cogeto.Base.{
  ℕ, ◌+◌, String, Bool, true, false, Option, none, some, List, [], ◌∷◌, ◌++◌, if◌then◌else◌, ◌&&◌,
  ◌||◌, not, str_eq, keep, any, has_id, length, map, is_some,
}
use cogeto.Db.{
  World, MemoryRow, Point, ReceiptRow, ReceiptCounts, SourceKey, Alert, AlertKind,
  memory_row_present, qdrant_point_present, object_present, orphaned_memory, AlertDetail, of_id,
  of_key, index_down, store_down, internal, not_implemented, M, ◌>>=◌, pure, throw, gets, ok, err,
  read_external,
}
use cogeto.Memory.Deletion.Ports.{is_from, has_adapter, owner_of, has_source}

abbrev pub read_points : (List Point → List Point) → Option (List Point) → M (List Point)
read_points f none w = err not_implemented w
read_points f (some ps) w = read_external index_down (f ps) w.outages w

-- `vectors.retrievePayloads(ids)`: no call for no ids.
unfoldable pub retrieve_payloads : List ℕ → M (List Point)
retrieve_payloads [] w = ok [] w
retrieve_payloads (id ∷ ids) w =
    read_points (keep (λ (p : Point). has_id p.id (id ∷ ids))) w.points w

-- `objects.objectExists(key)`.
abbrev pub object_exists : String → M Bool
object_exists key w = read_external store_down (any (λ k. str_eq k key) w.objects) w.outages w

unfoldable pub present_objects : List String → M (List String)
present_objects [] = pure []
present_objects (key ∷ keys) = do
  here ← object_exists key
  rest ← present_objects keys
  pure (if here then key ∷ rest else rest)

abbrev pub alert : Option ℕ → AlertKind → AlertDetail → Alert
alert receipt kind detail = record { receipt_id = receipt; kind = kind; detail = detail }

-- A row of a deleted source whose id is not in the receipt.
abbrev pub is_resurrected : ReceiptRow → List ℕ → MemoryRow → Bool
is_resurrected receipt ids row =
    is_from receipt.source_type receipt.source_id row && not (has_id row.id ids)

-- What one arm found, and how many identifiers it checked.
pub record Findings : Type 0 where
  pub alerts : List Alert
  pub checked : ℕ

unfoldable pub check_receipt : ReceiptRow → ReceiptCounts → M Findings
check_receipt receipt counts = do
  rows ← gets (λ w. keep (λ (row : MemoryRow). has_id row.id counts.memory_ids) w.memories)
  points ← retrieve_payloads counts.point_ids
  objects ← present_objects counts.object_keys
  back ← gets (λ w. keep (is_resurrected receipt counts.memory_ids) w.memories)
  let at = some receipt.id
  pure (record {
    alerts =
        map (λ (row : MemoryRow). alert at memory_row_present (of_id row.id)) rows
        ++ map (λ (p : Point). alert at qdrant_point_present (of_id p.id)) points
        ++ map (λ key. alert at object_present (of_key key)) objects
        ++ map (λ (row : MemoryRow). alert at orphaned_memory (of_id row.id)) back;
    checked =
        length counts.memory_ids
        + length counts.point_ids
        + length counts.object_keys
        + length back;
  })

abbrev pub parsed_or_throw : Option ReceiptCounts → M ReceiptCounts
parsed_or_throw none = throw internal
parsed_or_throw (some counts) = pure counts

-- `for (const receipt of confirmed)`.
unfoldable pub check_receipts : List ReceiptRow → M Findings
check_receipts [] = pure (record { alerts = []; checked = 0 })
check_receipts (receipt ∷ receipts) = do
  counts ← parsed_or_throw receipt.counts_json
  one ← check_receipt receipt counts
  rest ← check_receipts receipts
  pure (record { alerts = one.alerts ++ rest.alerts; checked = one.checked + rest.checked })

-- `selectDistinct` of the sources of the rows whose type has an adapter.
abbrev pub groups_from : List SourceKey → List MemoryRow → List SourceKey
groups_from seen [] = []
groups_from seen (row ∷ rows) =
    let key : SourceKey = record { source_type = row.source_type; source_id = row.source_id } in
    elim (not (has_adapter row.source_type) || has_source row.source_type row.source_id seen) [
      | true ↦ groups_from seen rows
      | false ↦ key ∷ groups_from (key ∷ seen) rows
    ]

-- The memories of a group whose source has no owner any more.
abbrev pub orphans_of : World → SourceKey → List Alert
orphans_of w group =
    if is_some (owner_of group.source_type group.source_id w.vault)
    then []
    else map (λ (row : MemoryRow). alert none orphaned_memory (of_id row.id))
        (keep (is_from group.source_type group.source_id) w.memories)

abbrev pub orphans_in : World → List SourceKey → List Alert
orphans_in w [] = []
orphans_in w (group ∷ groups) = orphans_of w group ++ orphans_in w groups

unfoldable pub find_orphaned_memories : M (List Alert)
find_orphaned_memories = gets (λ w. orphans_in w (groups_from [] w.memories))
