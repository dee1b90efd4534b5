-- ===== src/Agents/Registry.antt =====
-- project/src/agents/action-registry.ts and the two actions of project/src/agents/actions: what an
-- action is, which payloads its schema takes, who may ask for it, and its effect.
use cogeto.Base.{
  ℕ, String, Bool, true, false, Option, none, some, List, [], ◌∷◌, ◌&&◌, not, leb, length, keep,
  map, has_id, if◌then◌else◌, text_length, ◌*◌,
}
use cogeto.Shared.{ApprovalStatus, pending_approval, Principal}
use cogeto.Db.{
  MemoryRow, Payload, bulk_outdate, reply_draft, ReplyDraft, ActionType, memory_bulk_outdate,
  email_reply_draft, unknown_action, Detail, approval_effect, approval_finalised, M, ◌>>=◌, ◌>>◌,
  pure, throw, gets, bad_request,
}
use cogeto.Memory.Store.Bulk.{bulk_mark_outdated_for_owner}
use cogeto.Memory.Visibility.{owns, get_many_for_principal}

pub record ActionDefinition : Type 0 where
  pub initial_status : ApprovalStatus
  pub ttl_seconds : ℕ
  pub content_bearing : Bool

-- A day to decide on a bulk change, a week to send a draft.
abbrev pub definition_of : ActionType → Option ActionDefinition
definition_of memory_bulk_outdate = some (record {
  initial_status = pending_approval;
  ttl_seconds = 24 * 60 * 60;
  content_bearing = false;
})
definition_of email_reply_draft = some (record {
  initial_status = pending_approval;
  ttl_seconds = 7 * 24 * 60 * 60;
  content_bearing = true;
})
definition_of (unknown_action name) = none

abbrev pub or_bad_request {ℓ} : {A : Type ℓ} → Option A → M A
or_bad_request none = throw bad_request
or_bad_request (some a) = pure a

unfoldable pub get_definition : ActionType → M ActionDefinition
get_definition action = or_bad_request (definition_of action)

abbrev pub reason_fits : Option String → Bool
reason_fits none = true
reason_fits (some reason) = leb (text_length reason) 500

abbrev pub draft_fits : ReplyDraft → Bool
draft_fits d =
    leb (text_length d.to) 320
    && leb (text_length d.subject) 998
    && leb 1 (text_length d.body)
    && leb (text_length d.body) 20000

-- `def.schema.safeParse(payload).success`.
unfoldable pub fits_schema : ActionType → Payload → Bool
fits_schema memory_bulk_outdate (bulk_outdate ids reason) =
    leb 1 (length ids) && leb (length ids) 500 && reason_fits reason
fits_schema email_reply_draft (reply_draft d) = draft_fits d
fits_schema _ _ = false

unfoldable pub parse_payload : ActionType → Payload → M Payload
parse_payload action raw = do
  get_definition action
  if fits_schema action raw then pure raw else throw bad_request

-- The targets that are not the caller's own.
unfoldable pub missing_targets : Principal → List ℕ → List MemoryRow → List ℕ
missing_targets p ids rows =
    let owned = keep (owns p) (get_many_for_principal p ids true rows) in
    keep (λ id. not (has_id id (map (λ row. row.id) owned))) ids

abbrev pub none_missing : List ℕ → M (Unit {0})
none_missing [] = pure tt
none_missing (id ∷ ids) = throw bad_request

abbrev pub authorize_targets : Principal → List ℕ → M (Unit {0})
authorize_targets p ids = do none_missing (← gets (λ w. missing_targets p ids w.memories))

-- `def.authorizeCreate?.(principal, payload)`: only the bulk change has one.
unfoldable pub authorize_create : Principal → ActionType → Payload → M (Unit {0})
authorize_create p memory_bulk_outdate (bulk_outdate ids reason) = authorize_targets p ids
authorize_create p _ _ = pure tt

-- The audit detail of an effect, and the memories whose payloads are synced after the commit.
pub record ActionResult : Type 0 where
  pub detail : Detail
  pub after_commit : List ℕ

abbrev pub bulk_effect : String → List ℕ → M ActionResult
bulk_effect user ids = do
  result ← bulk_mark_outdated_for_owner user ids
  pure (record {
    detail =
        approval_effect memory_bulk_outdate result.changed (map (λ skip. skip.0) result.skipped);
    after_commit = result.changed;
  })

-- `def.execute(tx, ctx, payload)`: a draft is only finalised; nothing is sent.
unfoldable pub execute_action : ActionType → String → Payload → M ActionResult
execute_action memory_bulk_outdate user (bulk_outdate ids reason) = bulk_effect user ids
execute_action email_reply_draft user (reply_draft d) =
    pure (record { detail = approval_finalised email_reply_draft d.to; after_commit = [] })
execute_action _ user _ = throw bad_request
