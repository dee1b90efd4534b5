-- ===== src/Memory/Store/Bulk.antt =====
-- project/src/memory/memory.store.ts: the bulk "mark outdated" of an owner's memories, and the
-- payload writes that follow its commit.
use cogeto.Base.{
  ℕ, String, false, Option, none, some, List, [], ◌∷◌, if◌then◌else◌, str_eq, not, dedup_ids,
}
use cogeto.Shared.{MemoryStatus, replaced, user_approved, outdated, same_status}
use cogeto.Db.{MemoryRow, M, ◌>>=◌, ◌>>◌, pure, select_memory, set_payload, status_patch}
use cogeto.Memory.Transition.{user}
use cogeto.Memory.Store.{transition_in_tx}

pub data SkipReason : Type 0 where
  not_found_or_foreign was_user_approved was_replaced already_outdated : SkipReason

pub record BulkResult : Type 0 where
  pub changed : List ℕ
  pub skipped : List (ℕ × SkipReason)

-- Why the bulk action passes a row over, if it does.
abbrev pub skip_reason : String → Option MemoryRow → Option SkipReason
skip_reason owner none = some not_found_or_foreign
skip_reason owner (some row) =
    if not (str_eq row.owner_id owner)
    then some not_found_or_foreign
    else if same_status row.status user_approved
    then some was_user_approved
    else if same_status row.status replaced
    then some was_replaced
    else if same_status row.status outdated
    then some already_outdated
    else none

abbrev pub mark_one : String → ℕ → Option SkipReason → M (Option SkipReason)
mark_one owner id (some why) = pure (some why)
mark_one owner id none = do transition_in_tx (user owner) id outdated false; pure none

-- One round of the loop: the reason for which the id was skipped, or none.
unfoldable pub bulk_step : String → ℕ → M (Option SkipReason)
bulk_step owner id = do mark_one owner id (skip_reason owner (← select_memory id))

abbrev pub tally : ℕ → Option SkipReason → BulkResult → BulkResult
tally id none r = record r { changed = id ∷ r.changed }
tally id (some why) r = record r { skipped = (id, why) ∷ r.skipped }

unfoldable pub bulk_loop : String → List ℕ → M BulkResult
bulk_loop owner [] = pure (record { changed = []; skipped = [] })
bulk_loop owner (id ∷ ids) = do
  outcome ← bulk_step owner id
  rest ← bulk_loop owner ids
  pure (tally id outcome rest)

unfoldable pub bulk_mark_outdated_for_owner : String → List ℕ → M BulkResult
bulk_mark_outdated_for_owner owner ids = bulk_loop owner (dedup_ids ids)

unfoldable pub sync_status_payloads : List ℕ → MemoryStatus → M (Unit {0})
sync_status_payloads [] status = pure tt
sync_status_payloads (id ∷ ids) status = do
  set_payload id (status_patch status)
  sync_status_payloads ids status
