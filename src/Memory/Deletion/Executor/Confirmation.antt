-- ===== src/Memory/Deletion/Executor/Confirmation.antt =====
-- The executor: a receipt is confirmed only once its copies are gone, and as the next link of a log
-- that goes on verifying.
use cogeto.Base.{
  ℕ, ◌<◌, String, Bool, true, false, Option, none, some, List, ◌≡◌, ◌≢◌, inr, refl, sym, ap, subst,
  ◌∙◌, length, map, keep, has_id, All,
}
use cogeto.Base.Table.{
  find, update, UniqueKeys, UniqueKeys-update, All-update, find-key, find-update_same,
}
use cogeto.Db.{World, ok, ReceiptRow, ReceiptCounts, write_audit}
use cogeto.Db.Outcome.{Ensures, returns, throws, Ensures-if, Ensures-bind, Ensures-mono}
use cogeto.Memory.ReceiptChain.{ReceiptChainPayload, ConfirmedReceipt, genesis_hash, Chain, forks}
use cogeto.Memory.Deletion.Executor.{
  receipt_key, is_confirmed, chain_tip, to_confirmed_receipt, confirmed_receipts, Executed,
  payload_of, confirm_row, confirm_receipt, execute_pending, execute_receipt_row, execute_receipt,
}
use cogeto.Memory.Deletion.Executor.Copies.{
  External, External-trans, NoPoints, is_listed, delete_points-NoPoints, delete_objects-Gone,
}
use cogeto.Memory.Deletion.Executor.Links.{receipt_ids, is_tip, end_hash, end_of}
use cogeto.Memory.Deletion.Executor.Growth.{Known, Sealed, Sealed-insert}
use cogeto.Memory.Deletion.Executor.Log.{Filled, tip_rows, tip_of, Split, cut_at, pending_id}

module _ (hash : ReceiptChainPayload → String) (sign : String → String)
    (verify : (hash signature : String) → Bool) where
  -- The receipts of the table: ids are unique and used up, and the confirmed ones are one chain.
  pub record LogOk (w : World) : Type 0 where
    pub below : All (λ (r : ReceiptRow). r.id < w.next_id) w.vault.receipts
    pub unique : UniqueKeys receipt_key w.vault.receipts
    pub filled : All Filled w.vault.receipts
    pub log : Sealed hash verify (confirmed_receipts w.vault.receipts)

  pub LogOk-same : {w w' : World} → w'.vault ≡ w.vault → w'.next_id ≡ w.next_id → LogOk w → LogOk w'
  LogOk-same {w} {w'} same next good =
      let rows : w'.vault.receipts ≡ w.vault.receipts = ap (λ v. v.receipts) same in
      record {
        below = rw (rows, next) good.below;
        unique = rw rows good.unique;
        filled = rw rows good.filled;
        log = rw rows good.log;
      }

  pub chain_tip-end :
      (rows : List ReceiptRow) (w : World)
      → All Filled rows
      → (s : Sealed hash verify (confirmed_receipts rows))
      → chain_tip rows w ≡ ok (end_hash genesis_hash s.chain) w
  unfolding chain_tip
  chain_tip-end rows w f s =
      tip_of _ s.chain w (tip_rows rows rows f f ∙ ap (map (λ c. c.hash)) s.ends)

  abbrev carry :
      {rs qs : List ConfirmedReceipt} → rs ≡ qs → Sealed hash verify rs → Sealed hash verify qs
  carry e s = record {
    straight = subst (λ l. forks l ≡ false) e s.straight;
    chain = s.chain;
    linked = subst (λ l. Chain hash verify l genesis_hash s.chain) e s.linked;
    covers = subst (λ l. length s.chain ≡ length l) e s.covers;
    ends = subst (λ l. keep (is_tip l) l ≡ end_of s.chain) e s.ends;
    known = subst (λ l. All (Known hash verify l) l) e s.known;
  }

  -- A confirmation of a receipt: before it, its points and objects were deleted.
  pub record Confirmed (id : ℕ) (row : ReceiptRow) (counts : ReceiptCounts) (w : World)
      (res : Executed) (w' : World) : Type 0 where
    pub found : find receipt_key id w.vault.receipts ≡ some row
    pub was : is_confirmed row.status ≡ false
    pub counted : row.counts_json ≡ some counts
    pub prev : String
    pub now : ℕ
    pub is : find receipt_key id w'.vault.receipts ≡ some (confirm_row hash sign row prev now row)
    pub memories : w'.memories ≡ w.memories
    pub points : NoPoints counts.point_ids w'.points
    pub objects : All (λ k. is_listed counts.object_keys k ≡ false) w'.objects
    pub counts_of : res ≡ record {
      already_confirmed = false;
      points = length counts.point_ids;
      objects = length counts.object_keys;
    }

  -- What an execution of a receipt that returns has done.
  pub data Execution (id : ℕ) (w : World) (res : Executed) (w' : World) : Type 0 where
    repeated :
        (row : ReceiptRow)
        → find receipt_key id w.vault.receipts ≡ some row
        → is_confirmed row.status ≡ true
        → res ≡ record { already_confirmed = true; points = 0; objects = 0 }
        → w' ≡ w
        → Execution id w res w'
    done :
        (row : ReceiptRow) (counts : ReceiptCounts)
        → Confirmed id row counts w res w'
        → Execution id w res w'

  module _ (separates : (p q : ReceiptChainPayload) → hash p ≡ hash q → p.id ≡ q.id)
      (no_genesis : (p : ReceiptChainPayload) → hash p ≢ genesis_hash)
      (accepts : (h : String) → verify h (sign h) ≡ true) where
    grown :
        (row : ReceiptRow) (w : World) (now : ℕ)
        → find receipt_key row.id w.vault.receipts ≡ some row
        → is_confirmed row.status ≡ false
        → (good : LogOk w)
        → (let prev : String = end_hash genesis_hash good.log.chain in
            Sealed hash verify (
              confirmed_receipts
                (update receipt_key row.id (confirm_row hash sign row prev now) w.vault.receipts)))
    grown row w now found was good =
        let s : Sealed hash verify (confirmed_receipts w.vault.receipts) = good.log in
        let prev : String = end_hash genesis_hash s.chain in
        let f : ReceiptRow → ReceiptRow = confirm_row hash sign row prev now in
        let c : ConfirmedReceipt = to_confirmed_receipt (f row) in
        let cut : Split w.vault.receipts (update receipt_key row.id f w.vault.receipts) c =
          cut_at row.id f w.vault.receipts row good.unique found was refl in
        let fresh = pending_id row.id w.vault.receipts row good.unique found was in
        subst (Sealed hash verify) (sym cut.is) (
          Sealed-insert hash verify c cut.before cut.after separates no_genesis (carry cut.was s)
            refl (record { hashed = refl; signed = accepts _ })
            (subst (λ l. has_id row.id (receipt_ids l) ≡ false) cut.was fresh))

    confirm_row-Filled :
        (row : ReceiptRow) (prev : String) (now : ℕ) (r : ReceiptRow)
        → Filled (confirm_row hash sign row prev now r)
    confirm_row-Filled row prev now r =
        inr (hash (payload_of hash sign row prev now), prev, refl, refl)

    confirm_receipt-Confirmed :
        (row : ReceiptRow) (counts : ReceiptCounts) (w : World)
        → find receipt_key row.id w.vault.receipts ≡ some row
        → is_confirmed row.status ≡ false
        → row.counts_json ≡ some counts
        → NoPoints counts.point_ids w.points
        → All (λ k. is_listed counts.object_keys k ≡ false) w.objects
        → LogOk w
        → Ensures
            (λ res w'. LogOk w' × Confirmed row.id row counts w res w')
            (confirm_receipt hash sign row counts w)
    unfolding confirm_receipt write_audit
    confirm_receipt-Confirmed row counts w found was counted points objects good =
        let rows : List ReceiptRow = w.vault.receipts in
        let s : Sealed hash verify (confirmed_receipts rows) = good.log in
        let prev : String = end_hash genesis_hash s.chain in
        let f : ReceiptRow → ReceiptRow = confirm_row hash sign row prev w.now in
        rw (chain_tip-end rows w good.filled s) (
          returns (
            record {
              below =
                  All-update receipt_key (λ (r : ReceiptRow). r.id < w.next_id) row.id f rows
                    (λ r h. h) good.below;
              unique = UniqueKeys-update receipt_key row.id f rows (λ r. refl) good.unique;
              filled =
                  All-update receipt_key Filled row.id f rows
                    (λ r _. confirm_row-Filled row prev w.now r) good.filled;
              log = grown row w w.now found was good;
            },
            record {
              found = found;
              was = was;
              counted = counted;
              prev = prev;
              now = w.now;
              is = find-update_same receipt_key row.id f rows row (λ r. refl) found;
              memories = refl;
              points = points;
              objects = objects;
              counts_of = refl;
            },
          ))

    execute_pending-Execution :
        (row : ReceiptRow) (counts : Option ReceiptCounts) (w : World)
        → find receipt_key row.id w.vault.receipts ≡ some row
        → is_confirmed row.status ≡ false
        → row.counts_json ≡ counts
        → LogOk w
        → Ensures
            (λ res w'. LogOk w' × Execution row.id w res w')
            (execute_pending hash sign row counts w)
    execute_pending-Execution row none w found was counted good = throws
    execute_pending-Execution row (some counts) w found was counted good =
        Ensures-bind _ (delete_points-NoPoints counts.point_ids w) λ _ v (one, points).
          Ensures-bind _ (delete_objects-Gone counts.object_keys v) λ _ u two.
            let both : External w u = External-trans one two.external in
            let rows : u.vault.receipts ≡ w.vault.receipts = ap (λ t. t.receipts) both.vault in
            Ensures-mono
              (confirm_receipt-Confirmed row counts u (ap (find receipt_key row.id) rows ∙ found)
                was counted (subst (NoPoints counts.point_ids) (sym two.points) points) two.absent
                (LogOk-same both.vault both.next_id good))
              λ res w' (later, c). (
                later,
                done row counts (record {
                  found = found;
                  was = was;
                  counted = counted;
                  prev = c.prev;
                  now = c.now;
                  is = c.is;
                  memories = c.memories ∙ both.memories;
                  points = c.points;
                  objects = c.objects;
                  counts_of = c.counts_of;
                }),
              )

    -- Where no two receipts have payloads of one hash, no payload has the hash that stands for the
    -- genesis, each signature is accepted, and the receipts have unique, used ids and are one chain: an
    -- execution that returns found the receipt confirmed and changed nothing, or found it pending
    -- and has confirmed it, with no point and no object left of those that it lists. Either way
    -- the receipts are still one chain.
    pub execute_receipt-Execution :
        (id : ℕ) (w : World)
        → LogOk w
        → Ensures (λ res w'. LogOk w' × Execution id w res w') (execute_receipt hash sign id w)
    unfolding execute_receipt
    execute_receipt-Execution id w good = by_row (find receipt_key id w.vault.receipts) refl
      where
        by_row :
            (o : Option ReceiptRow)
            → find receipt_key id w.vault.receipts ≡ o
            → Ensures
                (λ res w'. LogOk w' × Execution id w res w')
                (execute_receipt_row hash sign o w)
        by_row none e = throws
        by_row (some row) e =
            let key : row.id ≡ id = find-key receipt_key id w.vault.receipts row e in
            Ensures-if (is_confirmed row.status) _ _ w
              (λ c. returns (good, repeated row e c refl refl))
              (λ c.
                subst
                  (λ k.
                    Ensures (λ res w'. LogOk w' × Execution k w res w')
                      (execute_pending hash sign row row.counts_json w))
                  key
                  (execute_pending-Execution row row.counts_json w
                    (ap (λ k. find receipt_key k w.vault.receipts) key ∙ e) c refl good))
