-- ===== src/Tests/Deletion.antt =====
-- Deletions and confirmations on concrete states.
use Prim.Native.Char.{code}
use cogeto.Base.{
  ℕ, zero, suc, String, Bool, true, false, none, some, List, [], ◌∷◌, ◌≡◌, ◌≢◌, refl, arith, ap,
  inl, is_blank, is_space,
}
use cogeto.Base.Table.{find, update}
use cogeto.Shared.{active, replaced, user_note, email, file}
use cogeto.Db.{
  World, MemoryRow, citing, answer_redacted, ReceiptRow, ReceiptCounts, pending, enqueue, fresh_id,
  select_memory, set_payload_if_any, update_memory, write_audit, apply_patch,
}
use cogeto.Db.Outcome.{Ensures}
use cogeto.Memory.ReceiptChain.{ReceiptChainPayload, genesis_hash, verify_chain}
use cogeto.Memory.Deletion.Saga.{
  request_source_deletion, request_in_tx, resolve_source, enumerate_and_authorize, cascade_files,
  erase, cascade_file_sub_source, delete_memories, delete_own, erase_rows, write_receipt,
}
use cogeto.Memory.Deletion.Erasure.Request.{Deletion, request_source_deletion-Deletion}
use cogeto.Memory.Deletion.Executor.{
  execute_receipt, confirmed_receipts, chain_tip, confirm_receipt, delete_objects, delete_points,
}
use cogeto.Memory.Deletion.Executor.Growth.{empty-Sealed}
use cogeto.Memory.Deletion.Executor.Confirmation.{LogOk, Execution, execute_receipt-Execution}
use cogeto.Memory.Deletion.Runs.{
  DeletionCommand, request, deliver, run_deletions, run_deletions-verify_chain,
}
use cogeto.Memory.Reconciliation.Resolve.{
  lift_contradictions_before_deletion, lift_all, lift_one, restore_from_contradiction,
}
use cogeto.Memory.Deletion.Ports.{owner_of, cancel_pending, enumerate_cascade, delete_source}
use cogeto.Memory.Deletion.Cascades.{
  tasks_cascade, chat_answer_cascade, redact_batch, redact_batches, reply_draft_cascade,
}
use cogeto.Db.Total.{Returns, Calm}
use cogeto.Memory.Deletion.Erasure.Success.{MayDelete, request_source_deletion-Returns}
use cogeto.Memory.Deletion.Erased.{Gone, run_deletions-Gone}
use cogeto.Tests.Fixtures.{ana, note, point, world_with}

-- A hash of as many letters as the receipt's id says, and a signature that repeats what it signs.
abbrev letters : ℕ → String
letters zero = ""
letters (suc n) = String.◌∷◌ "x" (letters n)

abbrev id_hash : ReceiptChainPayload → String
id_hash p = letters p.id

abbrev echo : String → String
echo h = h

abbrev accept : String → String → Bool
accept h signature = true

abbrev first_code : String → ℕ
first_code String.[] = 0
first_code (String.◌∷◌ c s) = code c

letters_injective : (m n : ℕ) → letters m ≡ letters n → m ≡ n
letters_injective zero zero e = refl
letters_injective zero (suc n) e = absurd (cc e)
letters_injective (suc m) zero e = absurd (cc e)
letters_injective (suc m) (suc n) e = ap suc (letters_injective m n (cc e))

zero_apart : ◌≢◌ {A = ℕ} 0 99
zero_apart e = omega arith

letter_apart : ◌≢◌ {A = ℕ} 120 99
letter_apart e = omega arith

letters-genesis_hash : (n : ℕ) → letters n ≢ genesis_hash
letters-genesis_hash zero e = zero_apart (ap first_code e)
letters-genesis_hash (suc n) e = letter_apart (ap first_code e)

-- Memory 1 derives from the note; memory 0 of another note was replaced by it.
abbrev elsewhere : MemoryRow
elsewhere = record (note 0 replaced (some 1) (some 50)) { source_id = "note-0" }

abbrev noted_world : World
noted_world = record (world_with (note 1 active none none ∷ elsewhere ∷ []) [] 2) {
  points = some (point 1 active ∷ []);
  vault = record {
    files = [];
    sources =
        record {
          source_type = user_note;
          source_id = "note-1";
          owner_id = "ana";
          raw_object_key = none;
          html_object_key = none;
          attachments = [];
        }
        ∷ [];
    tasks = record { id = 5; owner_id = "ana"; derived_from_memory_id = 1 } ∷ [];
    messages =
        record { id = "m"; owner_id = "ana"; is_assistant = true; content = citing (1 ∷ []) } ∷ [];
    receipts = [];
    ingested = [];
    running = [];
    alerts = [];
  };
}

request_source_deletion-Deletion_example :
    Ensures
      (Deletion ana user_note "note-1" noted_world)
      (request_source_deletion ana user_note "note-1" noted_world)
request_source_deletion-Deletion_example =
    request_source_deletion-Deletion ana user_note "note-1" noted_world

noted_world-LogOk : LogOk id_hash echo accept noted_world
noted_world-LogOk = record {
  below = tt;
  unique = tt;
  filled = tt;
  log = empty-Sealed id_hash accept;
}

-- The note is deleted, and the job of its receipt is delivered twice.
abbrev deletions : List DeletionCommand
deletions = request ana user_note "note-1" ∷ deliver 2 ∷ deliver 2 ∷ []

run_deletions-verify_chain_example :
    (verify_chain id_hash accept
      (confirmed_receipts (run_deletions id_hash echo deletions noted_world).vault.receipts)).ok
    ≡ true
run_deletions-verify_chain_example =
    run_deletions-verify_chain id_hash echo accept (λ p q. letters_injective p.id q.id)
      (λ p. letters-genesis_hash p.id) (λ h. refl) deletions noted_world noted_world-LogOk

-- A pending receipt.
abbrev counts : ReceiptCounts
counts = record {
  source = record { source_type = user_note; source_id = "note-1" };
  requested_by = "ana";
  memory_ids = 1 ∷ [];
  memory_count = 1;
  tasks_removed = 0;
  chat_messages_redacted = 0;
  reply_drafts_redacted = 0;
  point_ids = 1 ∷ [];
  object_keys = [];
  superseded_by_nulled = [];
  enumerated_at = 100;
}

abbrev receipt_row : ReceiptRow
receipt_row = record {
  id = 1;
  source_type = user_note;
  source_id = "note-1";
  counts_json = some counts;
  status = pending;
  prev_hash = none;
  hash = none;
  signature = none;
  signed_at = none;
  confirmed_at = none;
}

abbrev receipt_world : World
receipt_world = record noted_world {
  vault = record noted_world.vault { receipts = receipt_row ∷ [] };
}

receipt_world-LogOk : LogOk id_hash echo accept receipt_world
receipt_world-LogOk = record {
  below = (omega arith, tt);
  unique = (tt, tt);
  filled = (inl refl, tt);
  log = empty-Sealed id_hash accept;
}

execute_receipt-Execution_example :
    Ensures
      (λ res w. LogOk id_hash echo accept w × Execution id_hash echo accept 1 receipt_world res w)
      (execute_receipt id_hash echo 1 receipt_world)
execute_receipt-Execution_example =
    execute_receipt-Execution id_hash echo accept (λ p q. letters_injective p.id q.id)
      (λ p. letters-genesis_hash p.id) (λ h. refl) 1 receipt_world receipt_world-LogOk

-- The run leaves no memory of the note, no task and no point, and a redacted answer.
abbrev after_deletions : World
after_deletions = run_deletions id_hash echo deletions noted_world

deletions_run :
    (after_deletions.memories ≡ record elsewhere { superseded_by = none; updated_at = 100 } ∷ [])
    × (after_deletions.points ≡ some [])
    × (after_deletions.vault.tasks ≡ [])
    × (after_deletions.vault.messages
        ≡ record { id = "m"; owner_id = "ana"; is_assistant = true; content = answer_redacted }
          ∷ [])
unfolding run_deletions execute_receipt request_source_deletion find is_blank update is_space
    enqueue fresh_id select_memory set_payload_if_any update_memory write_audit apply_patch
    lift_contradictions_before_deletion lift_all lift_one restore_from_contradiction owner_of
    cancel_pending enumerate_cascade delete_source tasks_cascade chat_answer_cascade redact_batch
    redact_batches reply_draft_cascade request_in_tx resolve_source enumerate_and_authorize
    cascade_files erase cascade_file_sub_source delete_memories delete_own erase_rows write_receipt
    chain_tip confirm_receipt delete_objects delete_points
deletions_run = (refl, refl, refl, refl)

-- A mail with its raw original and a stored attachment; a memory derives from each of the two.
abbrev mail_world : World
mail_world = record noted_world {
  memories =
      record (note 3 active none none) { source_type = email; source_id = "mail-1" }
      ∷ record (note 1 active none none) { source_type = file; source_id = "scan" }
      ∷ elsewhere
      ∷ [];
  objects = "raw" ∷ "scan" ∷ "other" ∷ [];
  next_id = 4;
  vault = record noted_world.vault {
    files = record { object_key = "scan"; owner_id = "ana" } ∷ [];
    sources =
        record {
          source_type = email;
          source_id = "mail-1";
          owner_id = "ana";
          raw_object_key = some "raw";
          html_object_key = none;
          attachments = some "scan" ∷ none ∷ [];
        }
        ∷ [];
  };
}

mail_world-MayDelete : MayDelete ana email "mail-1" mail_world
unfolding resolve_source owner_of enumerate_cascade
mail_world-MayDelete = record {
  source = record { file_row = none; adapter = true; owner = some "ana" };
  resolved = refl;
  owner = refl;
  memories = (refl, (refl, tt));
  attachments = (refl, tt);
}

mail_world-Calm : Calm mail_world
mail_world-Calm = record { up = refl; index = refl }

mail_world-LogOk : LogOk id_hash echo accept mail_world
mail_world-LogOk = record {
  below = tt;
  unique = tt;
  filled = tt;
  log = empty-Sealed id_hash accept;
}

named : is_blank "mail-1" ≡ false
unfolding is_blank is_space
named = refl

request_source_deletion-Returns_example :
    Returns
      (λ receipt w. Deletion ana email "mail-1" mail_world receipt w × Calm w)
      (request_source_deletion ana email "mail-1" mail_world)
request_source_deletion-Returns_example =
    request_source_deletion-Returns ana email "mail-1" mail_world named mail_world-MayDelete
      mail_world-Calm

abbrev after_mail : World
after_mail = run_deletions id_hash echo (request ana email "mail-1" ∷ deliver 4 ∷ []) mail_world

run_deletions-Gone_example :
    Gone email "mail-1" mail_world 4 after_mail
    × ((verify_chain id_hash accept (confirmed_receipts after_mail.vault.receipts)).ok ≡ true)
run_deletions-Gone_example =
    run_deletions-Gone id_hash echo accept (λ p q. letters_injective p.id q.id)
      (λ p. letters-genesis_hash p.id) (λ h. refl) ana email "mail-1" mail_world named
      mail_world-MayDelete mail_world-Calm mail_world-LogOk
