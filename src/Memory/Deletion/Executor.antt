-- ===== src/Memory/Deletion/Executor.antt =====
-- project/src/memory/deletion-saga.ts: `DeletionExecutor`, the worker that deletes the points and the
-- objects of a receipt and confirms it as the next link of the chain. The hash of a payload and the
-- signature are parameters. The advisory lock is left out: one confirmation runs at a time.
pub mod Copies
pub mod Links
pub mod Growth
pub mod Log
pub mod Confirmation
pub mod Success
use cogeto.Base.{
  ℕ, String, Bool, true, false, Option, none, some, List, [], ◌∷◌, if◌then◌else◌, ◌&&◌, not, str_eq,
  keep, any, has_id, length, or_else, map,
}
use cogeto.Base.Table.{find, update}
use cogeto.Db.{
  World, Point, ReceiptRow, ReceiptStatus, pending, confirmed, ReceiptCounts,
  deletion_receipt_confirmed, receipt_entity, erased, Answer, M, ◌>>=◌, ◌>>◌, pure, throw, gets,
  modify, ok, err, internal, store_down, require_index, write_audit,
}
use cogeto.Memory.ReceiptChain.{ReceiptChainPayload, ConfirmedReceipt, genesis_hash}

abbrev pub receipt_key : ReceiptRow → ℕ
receipt_key r = r.id

-- `vectors.deletePoints(ids)`: no call for no points.
unfoldable pub delete_points : List ℕ → M (Unit {0})
delete_points [] w = ok tt w
delete_points (id ∷ ids) w =
    require_index (keep (λ (p : Point). not (has_id p.id (id ∷ ids)))) w.points w

-- `objects.deleteObject(key)`: a missing key is no error.
abbrev pub call_store : String → List Bool → M (Unit {0})
call_store key [] w = ok tt (record w { objects = keep (λ k. not (str_eq k key)) w.objects })
call_store key (true ∷ rest) w = err store_down (record w { outages = rest })
call_store key (false ∷ rest) w =
    ok tt (record w { objects = keep (λ k. not (str_eq k key)) w.objects; outages = rest })

unfoldable pub delete_objects : List String → M (Unit {0})
delete_objects [] = pure tt
delete_objects (key ∷ keys) = do (λ w. call_store key w.outages w); delete_objects keys

abbrev pub is_confirmed : ReceiptStatus → Bool
is_confirmed pending = false
is_confirmed confirmed = true

-- `=` of two nullable columns.
abbrev pub same_text : Option String → Option String → Bool
same_text none b = false
same_text (some a) none = false
same_text (some a) (some b) = str_eq a b

-- A confirmed receipt whose hash no confirmed receipt names.
abbrev pub is_tip_row : List ReceiptRow → ReceiptRow → Bool
is_tip_row rows r =
    is_confirmed r.status
    && not (any (λ s. is_confirmed s.status && same_text s.prev_hash r.hash) rows)

abbrev pub tip_hashes : List ReceiptRow → M String
tip_hashes [] = pure genesis_hash
tip_hashes (r ∷ []) = pure (or_else r.hash "")
tip_hashes (r ∷ s ∷ rs) = throw internal

-- More than one tip is a corrupted chain.
unfoldable pub chain_tip : List ReceiptRow → M String
chain_tip rows = tip_hashes (keep (is_tip_row rows) rows)

-- `toConfirmedReceipt` of integrity-sweep.ts.
abbrev pub to_confirmed_receipt : ReceiptRow → ConfirmedReceipt
to_confirmed_receipt row = record {
  payload = record {
    id = row.id;
    source_type = row.source_type;
    source_id = row.source_id;
    counts_json = row.counts_json;
    signed_at = row.signed_at;
    confirmed_at = row.confirmed_at;
    prev_hash = or_else row.prev_hash "";
  };
  hash = or_else row.hash "";
  signature = or_else row.signature "";
}

-- The receipts that the sweep verifies.
abbrev pub confirmed_receipts : List ReceiptRow → List ConfirmedReceipt
confirmed_receipts [] = []
confirmed_receipts (row ∷ rows) =
    if is_confirmed row.status
    then to_confirmed_receipt row ∷ confirmed_receipts rows
    else confirmed_receipts rows

pub record Executed : Type 0 where
  pub already_confirmed : Bool
  pub points : ℕ
  pub objects : ℕ

module _ (hash_receipt_payload : ReceiptChainPayload → String) (sign : String → String) where
  abbrev pub payload_of : ReceiptRow → String → ℕ → ReceiptChainPayload
  payload_of row prev now = record {
    id = row.id;
    source_type = row.source_type;
    source_id = row.source_id;
    counts_json = row.counts_json;
    signed_at = some now;
    confirmed_at = some now;
    prev_hash = prev;
  }

  abbrev pub confirm_row : ReceiptRow → String → ℕ → ReceiptRow → ReceiptRow
  confirm_row row prev now r =
      let hash = hash_receipt_payload (payload_of row prev now) in
      record r {
        status = confirmed;
        prev_hash = some prev;
        hash = some hash;
        signature = some (sign hash);
        signed_at = some now;
        confirmed_at = some now;
      }

  abbrev pub set_receipts : List ReceiptRow → World → World
  set_receipts rows w = record w { vault = record w.vault { receipts = rows } }

  -- The confirmation, once the external copies are gone.
  unfoldable pub confirm_receipt : ReceiptRow → ReceiptCounts → M Executed
  confirm_receipt row counts = do
    prev ← (λ w. chain_tip w.vault.receipts w)
    now ← gets (λ w. w.now)
    modify (λ w.
        set_receipts (update receipt_key row.id (confirm_row row prev now) w.vault.receipts) w)
    write_audit (record {
      actor = "deletion_saga";
      action = deletion_receipt_confirmed;
      entity_type = receipt_entity;
      entity_id = row.id;
      detail =
          erased (length counts.point_ids) (length counts.object_keys)
            (hash_receipt_payload (payload_of row prev now));
      org_id = none;
      owner_id = some counts.requested_by;
    })
    pure (record {
      already_confirmed = false;
      points = length counts.point_ids;
      objects = length counts.object_keys;
    })

  abbrev pub execute_pending : ReceiptRow → Option ReceiptCounts → M Executed
  execute_pending row none = throw internal
  execute_pending row (some counts) = do
    delete_points counts.point_ids
    delete_objects counts.object_keys
    confirm_receipt row counts

  abbrev pub execute_receipt_row : Option ReceiptRow → M Executed
  execute_receipt_row none = throw internal
  execute_receipt_row (some row) =
      if is_confirmed row.status
      then pure (record { already_confirmed = true; points = 0; objects = 0 })
      else execute_pending row row.counts_json

  unfoldable pub execute_receipt : ℕ → M Executed
  execute_receipt id = do execute_receipt_row (← gets (λ w. find receipt_key id w.vault.receipts))
