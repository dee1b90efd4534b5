-- ===== src/Memory/Deletion/Executor/Success.antt =====
-- The execution of a pending receipt returns where no external call fails.
use cogeto.Base.{
  ℕ, String, Bool, true, false, some, List, [], ◌∷◌, ◌≡◌, ◌≢◌, arith, subst, sym, ap, ◌∙◌, not,
  keep, has_id,
}
use cogeto.Base.Table.{find}
use cogeto.Db.{World, Point, ReceiptRow, ReceiptCounts, write_audit}
use cogeto.Db.Total.{
  Returns, returned, Returns-bind, Returns-both, Returns-mono, Calm, require_index-Calm,
}
use cogeto.Memory.ReceiptChain.{ReceiptChainPayload, genesis_hash}
use cogeto.Memory.Deletion.Executor.{
  receipt_key, Executed, is_confirmed, delete_points, call_store, delete_objects, confirm_receipt,
  execute_pending, execute_receipt,
}
use cogeto.Memory.Deletion.Executor.Copies.{
  External, External-trans, delete_points-NoPoints, delete_objects-Gone,
}
use cogeto.Memory.Deletion.Executor.Confirmation.{
  LogOk, LogOk-same, chain_tip-end, Confirmed, Execution, repeated, done, execute_receipt-Execution,
}

delete_points-Calm :
    (ids : List ℕ) (w : World) → Calm w → Returns (λ _ w'. Calm w') (delete_points ids w)
unfolding delete_points
delete_points-Calm [] w c = returned c
delete_points-Calm (id ∷ ids) w c =
    require_index-Calm (keep (λ (p : Point). not (has_id p.id (id ∷ ids)))) w.points w c c.index

call_store-Calm :
    (key : String) (os : List Bool) (w : World)
    → Calm w
    → os ≡ []
    → Returns (λ _ w'. Calm w') (call_store key os w)
call_store-Calm key [] w c e = returned (record { up = c.up; index = c.index })
call_store-Calm key (o ∷ os) w c e = absurd (cc e)

delete_objects-Calm :
    (keys : List String) (w : World) → Calm w → Returns (λ _ w'. Calm w') (delete_objects keys w)
unfolding delete_objects
delete_objects-Calm [] w c = returned c
delete_objects-Calm (key ∷ keys) w c =
    Returns-bind _ (call_store-Calm key w.outages w c c.up) λ _ v d. delete_objects-Calm keys v d

module _ (hash : ReceiptChainPayload → String) (sign : String → String)
    (verify : (hash signature : String) → Bool) where
  confirm_receipt-Calm :
      (row : ReceiptRow) (counts : ReceiptCounts) (w : World)
      → Calm w
      → LogOk hash sign verify w
      → Returns (λ _ w'. Calm w') (confirm_receipt hash sign row counts w)
  unfolding confirm_receipt write_audit
  confirm_receipt-Calm row counts w c good =
      rw (chain_tip-end hash sign verify w.vault.receipts w good.filled good.log)
        (returned (record { up = c.up; index = c.index }))

  execute_pending-Calm :
      (row : ReceiptRow) (counts : ReceiptCounts) (w : World)
      → Calm w
      → LogOk hash sign verify w
      → Returns (λ _ w'. Calm w') (execute_pending hash sign row (some counts) w)
  execute_pending-Calm row counts w c good =
      Returns-bind _
        (Returns-both (delete_points-NoPoints counts.point_ids w)
          (delete_points-Calm counts.point_ids w c))
        λ _ v ((one, _), d).
          Returns-bind _
            (Returns-both (delete_objects-Gone counts.object_keys v)
              (delete_objects-Calm counts.object_keys v d))
            λ _ u (two, e).
              let both : External w u = External-trans one two.external in
              confirm_receipt-Calm row counts u e
                (LogOk-same hash sign verify both.vault both.next_id good)

  execute_receipt-Calm :
      (id : ℕ) (row : ReceiptRow) (counts : ReceiptCounts) (w : World)
      → Calm w
      → LogOk hash sign verify w
      → find receipt_key id w.vault.receipts ≡ some row
      → is_confirmed row.status ≡ false
      → row.counts_json ≡ some counts
      → Returns (λ _ w'. Calm w') (execute_receipt hash sign id w)
  unfolding execute_receipt
  execute_receipt-Calm id row counts w c good found was counted = rw found (
      rw was (
        subst (λ o. Returns (λ _ w'. Calm w') (execute_pending hash sign row o w)) (sym counted)
          (execute_pending-Calm row counts w c good)))

  module _ (separates : (p q : ReceiptChainPayload) → hash p ≡ hash q → p.id ≡ q.id)
      (no_genesis : (p : ReceiptChainPayload) → hash p ≢ genesis_hash)
      (accepts : (h : String) → verify h (sign h) ≡ true) where
    -- A pending receipt that has its counts is confirmed by the next execution, where no external
    -- call fails: the execution returns, and no point and no object that it lists is left.
    pub execute_receipt-Returns :
        (id : ℕ) (row : ReceiptRow) (counts : ReceiptCounts) (w : World)
        → Calm w
        → LogOk hash sign verify w
        → find receipt_key id w.vault.receipts ≡ some row
        → is_confirmed row.status ≡ false
        → row.counts_json ≡ some counts
        → Returns
            (λ res w'.
              LogOk hash sign verify w' × Confirmed hash sign verify id row counts w res w')
            (execute_receipt hash sign id w)
    execute_receipt-Returns id row counts w c good found was counted =
        Returns-mono
          (Returns-both
            (execute_receipt-Execution hash sign verify separates no_genesis accepts id w good)
            (execute_receipt-Calm id row counts w c good found was counted))
          λ res w' both. (both.0.0, confirmed both.0.1)
      where
        confirmed :
            {res : Executed} {w' : World}
            → Execution hash sign verify id w res w'
            → Confirmed hash sign verify id row counts w res w'
        confirmed (repeated r f is out same) =
            let one : some r ≡ some row = sym f ∙ found in
            let status : is_confirmed r.status ≡ is_confirmed row.status = cc one in
            absurd (cc (sym is ∙ status ∙ was))
        confirmed {res} {w'} (done r cs d) =
            let one : some r ≡ some row = sym d.found ∙ found in
            let here : r ≡ row = ground (arith, one) in
            let both : some cs ≡ some counts =
              sym d.counted ∙ ap (λ (t : ReceiptRow). t.counts_json) here ∙ counted in
            let same : cs ≡ counts = ground (arith, both) in
            subst (λ n. Confirmed hash sign verify id row n w res w') same
              (subst (λ t. Confirmed hash sign verify id t cs w res w') here d)
