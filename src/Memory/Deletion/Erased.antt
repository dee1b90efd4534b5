-- ===== src/Memory/Deletion/Erased.antt =====
-- A deletion from its request to its confirmed receipt.
use cogeto.Base.{
  arith, has_id, ◌||◌, not, ℕ, String, Bool, true, false, some, List, [], ◌∷◌, ◌≡◌, ◌≢◌, refl, sym,
  ap, subst, ◌∙◌, keep, All, is_blank, ==_refl,
}
use cogeto.Base.Table.{find}
use cogeto.Shared.{SourceType, Principal}
use cogeto.Memory.Deletion.Ports.{is_from}
use cogeto.Memory.Sweep.Arms.{check_receipt}
use cogeto.Memory.Sweep.Residue.{Residueless, check_receipt-Residueless}
use cogeto.Memory.Deletion.Erasure.Remains.{survivors_unlisted, survivors_elsewhere}
use cogeto.Db.{
  MemoryRow, SourceKey, World, Answer, ok, err, settle, ReceiptRow, ReceiptCounts, bind, pure,
}
use cogeto.Db.Total.{Returns, returned, Returns-mono, Calm}
use cogeto.Db.Outcome.{Ensures, Ensures-mono}
use cogeto.Memory.ReceiptChain.{ReceiptChainPayload, genesis_hash, verify_chain}
use cogeto.Memory.Deletion.Saga.{row_ids, pending_receipt, request_source_deletion}
use cogeto.Memory.Deletion.Executor.{
  receipt_key, is_confirmed, Executed, confirmed_receipts, confirm_row, execute_receipt,
}
use cogeto.Memory.Deletion.Executor.Copies.{NoPoints, is_listed}
use cogeto.Memory.Deletion.Executor.Growth.{Sealed-verifies}
use cogeto.Memory.Deletion.Executor.Confirmation.{LogOk, Confirmed}
use cogeto.Memory.Deletion.Executor.Success.{execute_receipt-Returns}
use cogeto.Memory.Deletion.Erasure.Rows.{facts, stays}
use cogeto.Memory.Deletion.Erasure.Gathering.{derived_rows}
use cogeto.Memory.Deletion.Erasure.Members.{is_object_of}
use cogeto.Memory.Deletion.Erasure.Request.{Deletion}
use cogeto.Memory.Deletion.Erasure.Success.{MayDelete, request_source_deletion-Returns}
use cogeto.Memory.Deletion.Runs.{
  request, deliver, world_of, deliver_job, run_deletions, Deletion-LogOk,
}

-- The source is gone from the tables, the index and the object store, and its receipt says so.
pub record Gone (type : SourceType) (id : String) (w : World) (receipt : ℕ) (w' : World)
    : Type 0 where
  pub memories :
      facts w'.memories ≡ facts (keep (stays (row_ids (derived_rows type id w))) w.memories)
  pub points : NoPoints (row_ids (derived_rows type id w)) w'.points
  pub objects : All (λ k. is_object_of type id w k ≡ false) w'.objects
  pub row : ReceiptRow
  pub found : find receipt_key receipt w'.vault.receipts ≡ some row
  pub confirmed : is_confirmed row.status ≡ true
  pub source : (row.source_type ≡ type) × (row.source_id ≡ id)
  pub counts : ReceiptCounts
  pub counted : row.counts_json ≡ some counts
  pub unalarmed : Ensures (λ f _. f.alerts ≡ []) (check_receipt row counts w')

unlisted :
    (is_one listed : String → Bool) (objects : List String)
    → ((k : String) → (not (is_one k) || listed k) ≡ true)
    → All (λ k. listed k ≡ false) objects
    → All (λ k. is_one k ≡ false) objects
unlisted is_one listed [] f h = tt
unlisted is_one listed (k ∷ objects) f h =
    (ground (arith, f k, h.0), unlisted is_one listed objects f h.1)

find-head :
    (receipt : ℕ) (counts : ReceiptCounts) (rows : List ReceiptRow)
    → find receipt_key receipt (pending_receipt receipt counts ∷ rows)
      ≡ some (pending_receipt receipt counts)
unfolding find
find-head receipt counts rows = rw (==_refl receipt) refl

abbrev IsElsewhere : SourceKey → MemoryRow → Type 0
IsElsewhere s row = is_from s.source_type s.source_id row ≡ false

module _ (hash : ReceiptChainPayload → String) (sign : String → String)
    (verify : (hash signature : String) → Bool)
    (separates : (p q : ReceiptChainPayload) → hash p ≡ hash q → p.id ≡ q.id)
    (no_genesis : (p : ReceiptChainPayload) → hash p ≢ genesis_hash)
    (accepts : (h : String) → verify h (sign h) ≡ true) where
  Confirmed-Residueless :
      (p : Principal) (type : SourceType) (id : String) (w v : World) (receipt : ℕ)
      (d : Deletion p type id w receipt v) (res : Executed) (w' : World)
      → (let counts : ReceiptCounts = d.erased.receipted.counts in
          let row : ReceiptRow = pending_receipt receipt counts in
          (c : Confirmed hash sign verify receipt row counts v res w')
          → Residueless (confirm_row hash sign row c.prev c.now row) counts w')
  Confirmed-Residueless p type id w v receipt d res w' c =
      let r = d.erased.receipted in
      let left : facts w'.memories
          ≡ facts (keep (stays (row_ids (derived_rows type id w))) w.memories) =
        ap facts c.memories ∙ d.erased.survivors in
      record {
        memories =
            subst (λ ids. All (λ (row : MemoryRow). has_id row.id ids ≡ false) w'.memories)
              (sym r.memory_ids) (survivors_unlisted _ w'.memories w.memories left);
        points = c.points;
        objects = c.objects;
        source =
            subst (λ s. All (IsElsewhere s) w'.memories) (sym r.source)
              (survivors_elsewhere type id w'.memories w left);
      }

  Confirmed-Gone :
      (p : Principal) (type : SourceType) (id : String) (w v : World) (receipt : ℕ)
      (d : Deletion p type id w receipt v) (res : Executed) (w' : World)
      → (let counts : ReceiptCounts = d.erased.receipted.counts in
          Confirmed hash sign verify receipt (pending_receipt receipt counts) counts v res w')
      → Gone type id w receipt w'
  Confirmed-Gone p type id w v receipt d res w' c =
      let r = d.erased.receipted in
      record {
        memories = ap facts c.memories ∙ d.erased.survivors;
        points = subst (λ ids. NoPoints ids w'.points) r.point_ids c.points;
        objects =
            unlisted (is_object_of type id w) (is_listed r.counts.object_keys) w'.objects
              (λ k.
                subst (λ ks. (not (is_object_of type id w k) || is_listed ks k) ≡ true)
                  (sym r.object_keys) (d.complete k))
              c.objects;
        row =
            confirm_row hash sign (pending_receipt receipt r.counts) c.prev c.now
              (pending_receipt receipt r.counts);
        found = c.is;
        confirmed = refl;
        source = (ap (λ s. s.source_type) r.source, ap (λ s. s.source_id) r.source);
        counts = r.counts;
        counted = refl;
        unalarmed =
            Ensures-mono (check_receipt-Residueless _ r.counts w')
              λ f _ exact. exact.1 (Confirmed-Residueless p type id w v receipt d res w' c);
      }

  -- A request that its owner may make and the delivery of the job of its receipt, where no
  -- external call fails, erase the source: of the memories exactly those that derive from neither
  -- it nor its attachments are left, unchanged but for status, successor and time of the update;
  -- the index has no point of an erased memory, the object store no object of the source, its file
  -- or its attachments; the receipt that the request made is confirmed and names the source, the
  -- chain verifies, and the sweep's check of the receipt, if it returns, raises no alert. The hash
  -- is to give payloads of two receipts two hashes, none of them the genesis, the signatures are
  -- to be accepted, and the receipts before are to have unique, used ids and be one chain.
  pub run_deletions-Gone :
      (p : Principal) (type : SourceType) (id : String) (w : World)
      → is_blank id ≡ false
      → MayDelete p type id w
      → Calm w
      → LogOk hash sign verify w
      → (let w' : World = run_deletions hash sign (request p type id ∷ deliver w.next_id ∷ []) w in
          Gone type id w w.next_id w'
          × ((verify_chain hash verify (confirmed_receipts w'.vault.receipts)).ok ≡ true))
  unfolding run_deletions
  run_deletions-Gone p type id w named may calm good =
      after_request (request_source_deletion p type id w)
        (request_source_deletion-Returns p type id w named may calm)
    where
      Wanted : ℕ → World → Type 0
      Wanted n w' =
          Gone type id w n w'
          × ((verify_chain hash verify (confirmed_receipts w'.vault.receipts)).ok ≡ true)

      after_delivery :
          (n : ℕ) (r : Answer Executed)
          → Returns (λ _ w'. Wanted n w') r
          → (v : World) → Wanted n (world_of (settle v (bind r (λ _. pure tt))))
      after_delivery n (ok a w') (returned h) v = h
      after_delivery n (err e w') h v = elim h [ ]

      after_request :
          (r : Answer ℕ)
          → Returns (λ receipt v. Deletion p type id w receipt v × Calm v) r
          → Wanted w.next_id (world_of (deliver_job hash sign w.next_id (world_of r)))
      after_request (err e v) h = elim h [ ]
      after_request (ok receipt v) (returned (d, c)) =
          let log = Deletion-LogOk hash sign verify p type id w receipt v good d in
          let e = d.erased.receipted in
          let row : ReceiptRow = pending_receipt receipt e.counts in
          let found : find receipt_key receipt v.vault.receipts ≡ some row =
            ap (find receipt_key receipt) e.written ∙ find-head receipt e.counts w.vault.receipts in
          subst (λ n. Wanted n (world_of (deliver_job hash sign n v))) e.fresh
            (after_delivery receipt (execute_receipt hash sign receipt v)
              (Returns-mono
                (execute_receipt-Returns hash sign verify separates no_genesis accepts receipt row
                  e.counts v c log found refl refl)
                λ res w' (later, k). (
                  Confirmed-Gone p type id w v receipt d res w' k,
                  Sealed-verifies hash verify _ later.log,
                ))
              v)
