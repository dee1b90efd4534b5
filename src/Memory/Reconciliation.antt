-- ===== src/Memory/Reconciliation.antt =====
-- project/src/memory/reconciliation.ts: the pair actions of reconciliation on the tables. Logging
-- and the reasons that the source never stores are left out.
pub mod Resolve
pub mod Rules
pub mod MergePaths
pub mod Paths
pub mod ResolvePaths
pub mod Detection
pub mod RoundTrip
use cogeto.Base.{
  ℕ, String, Bool, true, false, Option, none, some, List, [], ◌∷◌, if◌then◌else◌, ◌==◌, ◌&&◌, ◌||◌,
  not, any, or_else, first_some, str_eq, is_blank, squeeze_spaces, union_texts,
}
use cogeto.Shared.{
  MemoryStatus, active, contradicted, uncertain, replaced, user_approved, same_status,
}
use cogeto.Db.{
  MemoryRow, MemoryRelationRow, AuditEntry, AuditAction, Detail, Mechanism, by_reconciliation,
  memory_merged, memory_superseded, memory_contradiction_detected, relation_entity, merged_into,
  superseded_as, pair, M, ◌>>=◌, ◌>>◌, pure, throw, gets, bad_request, not_found, names, fresh_id,
  write_audit, select_memory, update_memory, insert_relation, set_payload_if_any, closed_patch,
}
use cogeto.Memory.Transition.{MemoryActor, reconciliation, actor_label}
use cogeto.Memory.Policy.{
  PolicyParty, MergeDecision, merge, no_merge, choose_survivor, supersession_unambiguous,
}
use cogeto.Memory.Facts.{NewFact, org_for}
use cogeto.Memory.Store.{memory_entry, transition_in_tx}
use cogeto.Memory.Store.Supersede.{close, Superseded, supersede_in_tx}

pub data PairActionResult : Type 0 where
  merged : (survivor loser : ℕ) (enriched : Bool) → PairActionResult
  contradiction_created : ℕ → PairActionResult
  superseded : (winner loser : ℕ) → PairActionResult
  skipped : PairActionResult

abbrev pub as_party : MemoryRow → PolicyParty
as_party row = record {
  id = row.id;
  status = row.status;
  created_at = row.created_at;
  valid_from = row.valid_from;
  valid_until = row.valid_until;
}

abbrev pub both_or_throw : Option MemoryRow → Option MemoryRow → M (MemoryRow × MemoryRow)
both_or_throw (some a) (some b) = pure (a, b)
both_or_throw _ _ = throw not_found

abbrev pub select_pair : ℕ → ℕ → M (MemoryRow × MemoryRow)
select_pair one two = do a ← select_memory one; b ← select_memory two; both_or_throw a b

-- Both rows under lock, in the order asked for.
unfoldable pub lock_pair : ℕ → ℕ → M (MemoryRow × MemoryRow)
lock_pair one two = if one == two then throw bad_request else select_pair one two

abbrev pub is_replaced : MemoryRow → Bool
is_replaced row = same_status row.status replaced

-- How a close is recorded in the audit log.
pub data Closing : Type 0 where
  by_merge : (enriched : Bool) → Closing
  by_supersession : Mechanism → Closing

abbrev pub closing_action : Closing → AuditAction
closing_action (by_merge _) = memory_merged
closing_action (by_supersession _) = memory_superseded

abbrev pub closing_detail : Closing → ℕ → ℕ → Detail
closing_detail (by_merge enriched) target until = merged_into target enriched until
closing_detail (by_supersession how) target until = superseded_as target how until

-- The loser becomes `replaced` and points at an existing row; its interval ends at `close_at`, at
-- the target's start, or now.
unfoldable pub close_and_point : MemoryRow → MemoryRow → Closing → String → Option ℕ → M (Unit {0})
close_and_point loser target how actor close_at = do
  now ← gets (λ w. w.now)
  let until : ℕ = or_else (first_some close_at target.valid_from) now
  update_memory loser.id (close target.id until now)
  org ← org_for loser.owner_id
  write_audit
      (memory_entry actor (closing_action how) loser (closing_detail how target.id until) org)
  set_payload_if_any loser.id (closed_patch until)

abbrev pub is_mergeable : MemoryRow → Bool
is_mergeable row = same_status row.status active || same_status row.status uncertain

abbrev merged_text : Option String → String
merged_text content = squeeze_spaces (or_else content "")

-- Real new content, and a survivor that is not confirmed.
abbrev pub should_enrich : String → MemoryRow → Bool
should_enrich content survivor =
    not (str_eq content "")
    && not (same_status survivor.status user_approved)
    && not (str_eq content (merged_text survivor.content))
    && is_mergeable survivor

abbrev pub enriched_fact : String → MemoryRow → MemoryRow → NewFact
enriched_fact content survivor loser = record {
  content = content;
  scope = survivor.scope;
  source_type = survivor.source_type;
  source_id = survivor.source_id;
  entities = union_texts survivor.entities loser.entities;
  subject_entity = first_some survivor.subject_entity loser.subject_entity;
  kind = first_some survivor.kind loser.kind;
  authored_by_user = none;
  temporal_unresolved = [];
  sensitive = survivor.sensitive;
  valid_from = survivor.valid_from;
  valid_until = survivor.valid_until;
  initial_status = some survivor.status;
  embedding_model = none;
}

abbrev pub close_merged : MemoryRow → MemoryRow → Bool → M PairActionResult
close_merged loser target enriched = do
  close_and_point loser target (by_merge enriched) (actor_label reconciliation) none
  pure (merged target.id loser.id enriched)

abbrev pub enrich_and_close : String → MemoryRow → MemoryRow → M PairActionResult
enrich_and_close content survivor loser = do
  result ← supersede_in_tx reconciliation survivor.id (enriched_fact content survivor loser)
  close_merged loser result.successor true

abbrev pub merge_into : Option String → MemoryRow → MemoryRow → M PairActionResult
merge_into content survivor loser =
    if should_enrich (merged_text content) survivor
    then enrich_and_close (merged_text content) survivor loser
    else close_merged loser survivor false

-- The rows of the decision's parties, by id.
abbrev pub merge_decided :
    Option String → MemoryRow → MemoryRow → MergeDecision → M PairActionResult
merge_decided content incoming existing no_merge = pure skipped
merge_decided content incoming existing (merge survivor loser) =
    merge_into content (if survivor.id == incoming.id then incoming else existing)
      (if loser.id == incoming.id then incoming else existing)

abbrev pub merge_pair : Option String → MemoryRow × MemoryRow → M PairActionResult
merge_pair content (incoming, existing) =
    if is_replaced incoming || is_replaced existing
    then pure skipped
    else if names existing.id incoming.superseded_by || names incoming.id existing.superseded_by
    then pure skipped
    else merge_decided content incoming existing
        (choose_survivor (as_party incoming) (as_party existing))

unfoldable pub merge_same_fact : ℕ → ℕ → Option String → M PairActionResult
merge_same_fact incoming existing content = do merge_pair content (← lock_pair incoming existing)

-- The canonical-pair unique index: a relation of the pair exists, in either order.
abbrev pub same_pair : ℕ → ℕ → MemoryRelationRow → Bool
same_pair a b rel =
    (rel.a_memory_id == a && rel.b_memory_id == b) || (rel.a_memory_id == b && rel.b_memory_id == a)

abbrev pub is_related : ℕ → ℕ → List MemoryRelationRow → Bool
is_related a b rels = any (same_pair a b) rels

abbrev pub new_relation : ℕ → MemoryRow → MemoryRow → String → ℕ → MemoryRelationRow
new_relation id incoming existing reason now = record {
  id = id;
  a_memory_id = incoming.id;
  b_memory_id = existing.id;
  a_prior_status = incoming.status;
  b_prior_status = existing.status;
  detected_at = now;
  reason = some reason;
  resolved_at = none;
  resolution = none;
}

-- One round of the loop over the two parties.
abbrev pub contradict_one : MemoryRow → M (Unit {0})
contradict_one row =
    if same_status row.status contradicted
    then pure tt
    else (do transition_in_tx reconciliation row.id contradicted true; pure tt)

abbrev pub detected_entry : ℕ → MemoryRow → MemoryRow → Option String → AuditEntry
detected_entry id incoming existing org = record {
  actor = actor_label reconciliation;
  action = memory_contradiction_detected;
  entity_type = relation_entity;
  entity_id = id;
  detail = pair incoming.id existing.id;
  org_id = org;
  owner_id = some incoming.owner_id;
}

abbrev pub relate : MemoryRow → MemoryRow → String → M PairActionResult
relate incoming existing reason = do
  id ← fresh_id
  now ← gets (λ w. w.now)
  insert_relation (new_relation id incoming existing reason now)
  contradict_one incoming
  contradict_one existing
  org ← org_for incoming.owner_id
  write_audit (detected_entry id incoming existing org)
  pure (contradiction_created id)

-- `ON CONFLICT DO NOTHING`: the pair was detected before.
abbrev pub relate_unless : MemoryRow → MemoryRow → String → Bool → M PairActionResult
relate_unless incoming existing reason true = pure skipped
relate_unless incoming existing reason false = relate incoming existing reason

abbrev pub contradict_pair : String → MemoryRow × MemoryRow → M PairActionResult
contradict_pair reason (incoming, existing) =
    if is_replaced incoming || is_replaced existing then pure skipped else (do
      relate_unless incoming existing reason
          (← gets (λ w. is_related incoming.id existing.id w.relations)))

unfoldable pub create_contradiction : ℕ → ℕ → String → M PairActionResult
create_contradiction incoming existing reason = do
  contradict_pair reason (← lock_pair incoming existing)

abbrev pub close_superseded : MemoryRow → MemoryRow → M PairActionResult
close_superseded winner loser = do
  close_and_point loser winner (by_supersession by_reconciliation) (actor_label reconciliation) none
  pure (superseded winner.id loser.id)

abbrev pub supersede_pair : MemoryRow × MemoryRow → M PairActionResult
supersede_pair (winner, loser) =
    if is_replaced winner || is_replaced loser
    then pure skipped
    else if not (supersession_unambiguous (as_party winner) (as_party loser))
    then pure skipped
    else close_superseded winner loser

unfoldable pub apply_supersession : ℕ → ℕ → M PairActionResult
apply_supersession winner loser = do supersede_pair (← lock_pair winner loser)
