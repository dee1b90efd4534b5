-- ===== src/Agents/Effects.antt =====
-- What the effects of the two actions (project/src/agents/action-registry.ts and actions/) do to the
-- tables, told apart from the code.
use cogeto.Base.{
  ℕ, String, true, false, Option, none, some, List, [], ◌∷◌, ◌≡◌, refl, arith, subst, sym, ◌∙◌,
  dedup_ids, ◌≤◌, length, text_length,
}
use cogeto.Base.Table.{find}
use cogeto.Shared.{outdated}
use cogeto.Db.{
  World, Payload, bulk_outdate, reply_draft, ActionType, memory_bulk_outdate, email_reply_draft,
  unknown_action, select_memory, malformed, memory_key, ReplyDraft,
}
use cogeto.Db.Outcome.{Ensures, Ensures-both, returns, throws, Ensures-bind}
use cogeto.Memory.Transition.{user}
use cogeto.Memory.Store.Rules.{transition_in_tx-Transitioned}
use cogeto.Memory.Store.Bulk.{
  SkipReason, skip_reason, mark_one, bulk_step, bulk_loop, bulk_mark_outdated_for_owner, BulkResult,
}
use cogeto.Agents.Registry.{fits_schema, execute_action}
use cogeto.Base.Distinct.{Once}
use cogeto.Memory.Store.BulkSpec.{Reported}
use cogeto.Memory.Store.BulkLoop.{bulk_mark_outdated_for_owner-returns}

abbrev ShortReason : Option String → Type 0
ShortReason none = Unit {0}
ShortReason (some reason) = text_length reason ≤ 500

-- A payload that its action takes: one to five hundred memories with a short reason, or a draft
-- with a body and within the lengths of a mail.
pub data Fits : ActionType → Payload → Type 0 where
  fitting_targets :
      (ids : List ℕ) (reason : Option String)
      → 1 ≤ length ids
      → length ids ≤ 500
      → ShortReason reason
      → Fits memory_bulk_outdate (bulk_outdate ids reason)
  fitting_draft :
      (d : ReplyDraft)
      → text_length d.to ≤ 320
      → text_length d.subject ≤ 998
      → 1 ≤ text_length d.body
      → text_length d.body ≤ 20000
      → Fits email_reply_draft (reply_draft d)

pub fits_schema-Fits :
    (action : ActionType) (payload : Payload)
    → fits_schema action payload ≡ true
    → Fits action payload
unfolding fits_schema
fits_schema-Fits memory_bulk_outdate (bulk_outdate ids none) h =
    fitting_targets ids none (ground (arith, h)) (ground (arith, h)) tt
fits_schema-Fits memory_bulk_outdate (bulk_outdate ids (some reason)) h =
    fitting_targets ids (some reason) (ground (arith, h)) (ground (arith, h)) (ground (arith, h))
fits_schema-Fits memory_bulk_outdate (reply_draft d) h = absurd (cc h)
fits_schema-Fits memory_bulk_outdate malformed h = absurd (cc h)
fits_schema-Fits email_reply_draft (reply_draft d) h =
    fitting_draft d (ground (arith, h)) (ground (arith, h)) (ground (arith, h)) (ground (arith, h))
fits_schema-Fits email_reply_draft (bulk_outdate ids reason) h = absurd (cc h)
fits_schema-Fits email_reply_draft malformed h = absurd (cc h)
fits_schema-Fits (unknown_action name) payload h = absurd (cc h)

-- The effect in the name of `who`: the named memories are marked outdated as the bulk action reports
-- it, and the changed ones are synced after the commit; or a draft is finalised, which touches no
-- memory, relation, index point or job.
pub data Effect (who : String) (w : World) (after_commit : List ℕ) (w' : World)
    : ActionType → Payload → Type 0 where
  marks :
      (ids order : List ℕ) (reason : Option String) (r : BulkResult)
      → Once ids order
      → Reported who order w.memories r w'.memories
      → after_commit ≡ r.changed
      → Effect who w after_commit w' memory_bulk_outdate (bulk_outdate ids reason)
  finalises :
      (d : ReplyDraft)
      → w'.memories ≡ w.memories
      → w'.relations ≡ w.relations
      → w'.points ≡ w.points
      → w'.jobs ≡ w.jobs
      → after_commit ≡ []
      → Effect who w after_commit w' email_reply_draft (reply_draft d)

execute_action-Effect :
    (action : ActionType) (who : String) (payload : Payload) (w : World)
    → Ensures
        (λ res w'. Effect who w res.after_commit w' action payload)
        (execute_action action who payload w)
unfolding execute_action
execute_action-Effect memory_bulk_outdate who (bulk_outdate ids reason) w =
    let (order, r, after, once, run, reported) = bulk_mark_outdated_for_owner-returns who ids w in
    rw run (returns (marks ids order reason r once reported refl))
execute_action-Effect memory_bulk_outdate who (reply_draft d) w = throws
execute_action-Effect memory_bulk_outdate who malformed w = throws
execute_action-Effect email_reply_draft who (reply_draft d) w =
    returns (finalises d refl refl refl refl refl)
execute_action-Effect email_reply_draft who (bulk_outdate ids reason) w = throws
execute_action-Effect email_reply_draft who malformed w = throws
execute_action-Effect (unknown_action name) who payload w = throws

-- An effect is read off these tables.
pub Effect-same :
    {who : String} {w v v' : World} {ids : List ℕ} {action : ActionType} {payload : Payload}
    → v'.memories ≡ v.memories
    → v'.relations ≡ v.relations
    → v'.points ≡ v.points
    → v'.jobs ≡ v.jobs
    → Effect who w ids v action payload
    → Effect who w ids v' action payload
Effect-same {who} {w} m r p j (marks ids order reason res once reported is) =
    marks ids order reason res once (subst (Reported who order w.memories res) (sym m) reported) is
Effect-same m r p j (finalises d em er ep ej is) =
    finalises d (m ∙ em) (r ∙ er) (p ∙ ep) (j ∙ ej) is

-- The parts of the state that the effects of actions leave alone.
pub record SameApprovals (w w' : World) : Type 0 where
  pub approvals : w'.approvals ≡ w.approvals
  pub next_id : w'.next_id ≡ w.next_id

SameApprovals-trans : {u v w : World} → SameApprovals u v → SameApprovals v w → SameApprovals u w
SameApprovals-trans a b = record {
  approvals = b.approvals ∙ a.approvals;
  next_id = b.next_id ∙ a.next_id;
}

mark_one-SameApprovals :
    (owner : String) (id : ℕ) (why : Option SkipReason) (w : World)
    → Ensures (λ _ w'. SameApprovals w w') (mark_one owner id why w)
mark_one-SameApprovals owner id (some why) w = returns (record { approvals = refl; next_id = refl })
mark_one-SameApprovals owner id none w =
    Ensures-bind _ (transition_in_tx-Transitioned (user owner) id outdated false w)
      λ row w' t. returns (record { approvals = t.approvals; next_id = t.next_id })

bulk_loop-SameApprovals :
    (owner : String) (ids : List ℕ) (w : World)
    → Ensures (λ _ w'. SameApprovals w w') (bulk_loop owner ids w)
unfolding bulk_loop bulk_step select_memory
bulk_loop-SameApprovals owner [] w = returns (record { approvals = refl; next_id = refl })
bulk_loop-SameApprovals owner (id ∷ ids) w =
    Ensures-bind _
      (mark_one-SameApprovals owner id (skip_reason owner (find memory_key id w.memories)) w)
      λ outcome v one.
        Ensures-bind _ (bulk_loop-SameApprovals owner ids v)
          λ rest w' more. returns (SameApprovals-trans one more)

execute_action-SameApprovals :
    (action : ActionType) (who : String) (payload : Payload) (w : World)
    → Ensures (λ _ w'. SameApprovals w w') (execute_action action who payload w)
unfolding execute_action bulk_mark_outdated_for_owner
execute_action-SameApprovals memory_bulk_outdate who (bulk_outdate ids reason) w =
    Ensures-bind _ (bulk_loop-SameApprovals who (dedup_ids ids) w) λ res w' same. returns same
execute_action-SameApprovals memory_bulk_outdate who (reply_draft d) w = throws
execute_action-SameApprovals memory_bulk_outdate who malformed w = throws
execute_action-SameApprovals email_reply_draft who (reply_draft d) w =
    returns (record { approvals = refl; next_id = refl })
execute_action-SameApprovals email_reply_draft who (bulk_outdate ids reason) w = throws
execute_action-SameApprovals email_reply_draft who malformed w = throws
execute_action-SameApprovals (unknown_action name) who payload w = throws

pub execute_action-both :
    (action : ActionType) (who : String) (payload : Payload) (w : World)
    → Ensures
        (λ res w'. SameApprovals w w' × Effect who w res.after_commit w' action payload)
        (execute_action action who payload w)
execute_action-both action who payload w =
    Ensures-both (execute_action-SameApprovals action who payload w)
      (execute_action-Effect action who payload w)
