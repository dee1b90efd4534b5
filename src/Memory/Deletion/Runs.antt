-- ===== src/Memory/Deletion/Runs.antt =====
-- Deletions and their confirmations, in any order: the receipts are always one chain.
use cogeto.Base.{
  ℕ, suc, ◌<◌, String, Bool, true, List, [], ◌∷◌, ◌≡◌, ◌≢◌, refl, arith, sym, subst, All, is_blank,
  Bool-cases, inl, inr,
}
use cogeto.Base.Table.{UniqueKeys-insert}
use cogeto.Shared.{SourceType, Principal}
use cogeto.Db.{World, Answer, ok, err, M, ◌>>◌, pure, transaction, settle, ReceiptRow}
use cogeto.Db.Outcome.{Ensures, returns, Ensures-bind, Ensures-mono}
use cogeto.Memory.ReceiptChain.{ReceiptChainPayload, genesis_hash, verify_chain}
use cogeto.Memory.Deletion.Saga.{request_in_tx, request_source_deletion, pending_receipt}
use cogeto.Memory.Deletion.Erasure.Request.{Deletion, request_in_tx-Deletion}
use cogeto.Memory.Deletion.Executor.{receipt_key, confirmed_receipts, execute_receipt}
use cogeto.Memory.Deletion.Executor.Growth.{Sealed-verifies}
use cogeto.Memory.Deletion.Executor.Confirmation.{LogOk, LogOk-same, execute_receipt-Execution}

-- A request of a user, or a delivery of the job of a receipt.
pub data DeletionCommand : Type 0 where
  request : Principal → SourceType → String → DeletionCommand
  deliver : (receipt : ℕ) → DeletionCommand

abbrev pub world_of : {A : Type 0} → Answer A → World
world_of (ok a w) = w
world_of (err e w) = w

module _ (hash : ReceiptChainPayload → String) (sign : String → String) where
  -- The job's transaction: a failure rolls the confirmation back.
  abbrev pub deliver_job : ℕ → M (Unit {0})
  deliver_job receipt = transaction (do execute_receipt hash sign receipt; pure tt)

  abbrev pub run_deletion : DeletionCommand → World → World
  run_deletion (request p type id) w = world_of (request_source_deletion p type id w)
  run_deletion (deliver receipt) w = world_of (deliver_job receipt w)

  unfoldable pub run_deletions : List DeletionCommand → World → World
  run_deletions [] w = w
  run_deletions (c ∷ cs) w = run_deletions cs (run_deletion c w)

  module _ (verify : (hash signature : String) → Bool) where
    settled-LogOk :
        {A : Type 0} (w : World) (r : Answer A)
        → LogOk hash sign verify w
        → Ensures (λ _ w'. LogOk hash sign verify w') r
        → LogOk hash sign verify (world_of (settle w r))
    settled-LogOk w (ok a v) good (returns p) = p
    settled-LogOk w (err e v) good h = LogOk-same hash sign verify refl refl good

    below_more :
        (n : ℕ) (rows : List ReceiptRow)
        → All (λ (r : ReceiptRow). r.id < n) rows
        → All (λ (r : ReceiptRow). r.id < suc n) rows
    below_more n [] h = tt
    below_more n (r ∷ rows) h = (omega (arith, h.0), below_more n rows h.1)

    pub Deletion-LogOk :
        (p : Principal) (type : SourceType) (id : String) (w : World) (receipt : ℕ) (w' : World)
        → LogOk hash sign verify w
        → Deletion p type id w receipt w'
        → LogOk hash sign verify w'
    Deletion-LogOk p type id w receipt w' good d =
        let e = d.erased in
        let r = e.receipted in
        let below : All (λ (s : ReceiptRow). s.id < receipt) w.vault.receipts =
          subst (λ n. All (λ (s : ReceiptRow). s.id < n) w.vault.receipts) (sym r.fresh)
            good.below in
        record {
          below = rw r.written (
            omega (arith, r.fresh, r.next_id),
            subst (λ n. All (λ (s : ReceiptRow). s.id < n) w.vault.receipts) (sym r.next_id)
                (below_more w.next_id w.vault.receipts good.below),
          );
          unique = rw r.written (
              UniqueKeys-insert receipt_key (pending_receipt receipt r.counts) w.vault.receipts
                below good.unique);
          filled = rw r.written (inl refl, good.filled);
          log = rw r.written good.log;
        }

    module _ (separates : (p q : ReceiptChainPayload) → hash p ≡ hash q → p.id ≡ q.id)
        (no_genesis : (p : ReceiptChainPayload) → hash p ≢ genesis_hash)
        (accepts : (h : String) → verify h (sign h) ≡ true) where
      run_deletion-LogOk :
          (c : DeletionCommand) (w : World)
          → LogOk hash sign verify w
          → LogOk hash sign verify (run_deletion c w)
      unfolding request_source_deletion
      run_deletion-LogOk (request p type id) w good = elim (Bool-cases (is_blank id)) [
        | inl e ↦ rw e good
        | inr e ↦ rw e (
            settled-LogOk w (request_in_tx p type id w) good (
              Ensures-mono (request_in_tx-Deletion p type id w)
                λ receipt w' d. Deletion-LogOk p type id w receipt w' good d))
      ]
      run_deletion-LogOk (deliver receipt) w good = settled-LogOk w _ good (
          Ensures-bind (λ _. pure tt)
            (execute_receipt-Execution hash sign verify separates no_genesis accepts receipt w good)
            λ res w' both. returns both.0)

      run_deletions-LogOk :
          (cs : List DeletionCommand) (w : World)
          → LogOk hash sign verify w
          → LogOk hash sign verify (run_deletions cs w)
      unfolding run_deletions
      run_deletions-LogOk [] w good = good
      run_deletions-LogOk (c ∷ cs) w good =
          run_deletions-LogOk cs (run_deletion c w) (run_deletion-LogOk c w good)

      -- Where no two receipts have payloads of one hash, no payload has the hash that stands for the
      -- genesis and each signature is accepted, the confirmed receipts verify after any sequence of
      -- requests and deliveries, whichever of them fail, from a table whose receipts have unique,
      -- used ids and are one chain.
      pub run_deletions-verify_chain :
          (cs : List DeletionCommand) (w : World)
          → LogOk hash sign verify w
          → (verify_chain hash verify (confirmed_receipts (run_deletions cs w).vault.receipts)).ok
            ≡ true
      run_deletions-verify_chain cs w good =
          let after = run_deletions-LogOk cs w good in Sealed-verifies hash verify _ after.log
