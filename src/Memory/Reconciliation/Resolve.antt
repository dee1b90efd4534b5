-- ===== src/Memory/Reconciliation/Resolve.antt =====
-- project/src/memory/reconciliation.ts: the owner's resolution of a contradiction, and the lifting
-- of contradictions whose evidence is about to be deleted.
use cogeto.Base.{
  ℕ, String, Bool, true, false, Option, none, some, List, [], ◌∷◌, if◌then◌else◌, ◌&&◌, ◌||◌, not,
  keep, is_some, str_eq, has_id, ◌+◌,
}
use cogeto.Shared.{
  MemoryStatus, outdated, contradicted, user_approved, RelationResolution, confirmed_a, confirmed_b,
  corrected, dismissed, Principal, same_status,
}
use cogeto.Db.{
  MemoryRow, MemoryRelationRow, AuditEntry, AuditAction, memory_contradiction_resolved,
  memory_contradiction_dismiss_restored, memory_contradiction_lifted, relation_entity, moved,
  resolved_as, by_contradiction_confirm, M, ◌>>=◌, ◌>>◌, pure, throw, gets, transaction,
  bad_request, not_found, write_audit, select_memory, update_memory, select_relation,
  update_relation, set_payload_if_any, status_patch,
}
use cogeto.Memory.Transition.{user, deletion_saga, actor_label}
use cogeto.Memory.Policy.{
  confirm_loser_outcome, LoserOutcome, loser_outdated, loser_replaced, event_time,
}
use cogeto.Memory.Store.{set_status, memory_entry, transition_in_tx}
use cogeto.Memory.Store.Supersede.{edit_content_in_tx}
use cogeto.Memory.Reconciliation.{as_party, lock_pair, close_and_point, by_supersession}

pub data Side : Type 0 where
  side_a side_b : Side

pub data ContradictionResolveAction : Type 0 where
  confirm : Side → ContradictionResolveAction
  correct : (a_content b_content : String) → ContradictionResolveAction
  dismiss : ContradictionResolveAction

abbrev pub restore : MemoryRow → MemoryStatus → AuditAction → String → Option String → M (Unit {0})
restore row prior action actor org = do
  now ← gets (λ w. w.now)
  update_memory row.id (set_status prior now)
  write_audit (memory_entry actor action row (moved contradicted prior) org)
  set_payload_if_any row.id (status_patch prior)

-- The second way past the transition matrix: only from `contradicted`, only to the recorded status.
unfoldable pub restore_from_contradiction :
    MemoryRow → MemoryStatus → AuditAction → String → Option String → M (Unit {0})
restore_from_contradiction row prior action actor org =
    if not (same_status row.status contradicted) || same_status prior contradicted
    then pure tt
    else restore row prior action actor org

abbrev side_label : Side → RelationResolution
side_label side_a = confirmed_a
side_label side_b = confirmed_b

abbrev pub settle_loser : Principal → MemoryRow → MemoryRow → LoserOutcome → M (Unit {0})
settle_loser p confirmed loser loser_outdated = do
  transition_in_tx (user p.user_id) loser.id outdated true
  pure tt
settle_loser p confirmed loser loser_replaced =
    close_and_point loser confirmed (by_supersession by_contradiction_confirm)
      (actor_label (user p.user_id)) (some (event_time (as_party confirmed)))

abbrev pub confirm_winner : Principal → MemoryRow → MemoryRow → M (Unit {0})
confirm_winner p winner loser = do
  confirmed ← transition_in_tx (user p.user_id) winner.id user_approved true
  settle_loser p confirmed loser (confirm_loser_outcome (as_party confirmed) (as_party loser))

abbrev pub both_contradicted : MemoryRow → MemoryRow → Bool
both_contradicted a b = same_status a.status contradicted && same_status b.status contradicted

abbrev pub confirm_checked : Principal → MemoryRow → MemoryRow → M (Unit {0})
confirm_checked p winner loser =
    if both_contradicted winner loser then confirm_winner p winner loser else throw bad_request

unfoldable pub apply_confirm : Principal → MemoryRow → MemoryRow → Side → M RelationResolution
apply_confirm p a b side_a = do confirm_checked p a b; pure confirmed_a
apply_confirm p a b side_b = do confirm_checked p b a; pure confirmed_b

unfoldable pub apply_correct :
    Principal → MemoryRow → MemoryRow → String → String → M RelationResolution
apply_correct p a b a_content b_content = do
  edit_content_in_tx p a.id a_content
  edit_content_in_tx p b.id b_content
  pure corrected

unfoldable pub apply_dismiss :
    Principal → MemoryRow → MemoryRow → MemoryRelationRow → M RelationResolution
apply_dismiss p a b rel = do
  restore_from_contradiction a rel.a_prior_status memory_contradiction_dismiss_restored
      (actor_label (user p.user_id)) (some p.org_id)
  restore_from_contradiction b rel.b_prior_status memory_contradiction_dismiss_restored
      (actor_label (user p.user_id)) (some p.org_id)
  pure dismissed

abbrev pub apply_action :
    Principal
    → MemoryRow
    → MemoryRow
    → MemoryRelationRow
    → ContradictionResolveAction
    → M RelationResolution
apply_action p a b rel (confirm side) = apply_confirm p a b side
apply_action p a b rel (correct a_content b_content) = apply_correct p a b a_content b_content
apply_action p a b rel dismiss = apply_dismiss p a b rel

abbrev pub resolve_with : RelationResolution → ℕ → MemoryRelationRow → MemoryRelationRow
resolve_with resolution now rel = record rel {
  resolved_at = some now;
  resolution = some resolution;
}

-- The relation as it is returned, and whether it was resolved before.
pub record Resolved : Type 0 where
  pub relation : MemoryRelationRow
  pub already_resolved : Bool

abbrev resolved_entry : Principal → ℕ → RelationResolution → MemoryRow → MemoryRow → AuditEntry
resolved_entry p id resolution a b = record {
  actor = actor_label (user p.user_id);
  action = memory_contradiction_resolved;
  entity_type = relation_entity;
  entity_id = id;
  detail = resolved_as resolution a.id b.id;
  org_id = some p.org_id;
  owner_id = some p.user_id;
}

abbrev pub resolve_owned :
    Principal → MemoryRelationRow → ContradictionResolveAction → MemoryRow → MemoryRow → M Resolved
resolve_owned p rel action a b = do
  resolution ← apply_action p a b rel action
  now ← gets (λ w. w.now)
  update_relation rel.id (resolve_with resolution now)
  write_audit (resolved_entry p rel.id resolution a b)
  pure (record { relation = resolve_with resolution now rel; already_resolved = false })

abbrev pub owns_both : Principal → MemoryRow → MemoryRow → Bool
owns_both p a b = str_eq a.owner_id p.user_id && str_eq b.owner_id p.user_id

abbrev pub resolve_pair :
    Principal → MemoryRelationRow → ContradictionResolveAction → MemoryRow × MemoryRow → M Resolved
resolve_pair p rel action (a, b) =
    if owns_both p a b then resolve_owned p rel action a b else throw not_found

abbrev pub resolve_open : Principal → MemoryRelationRow → ContradictionResolveAction → M Resolved
resolve_open p rel action = do
  resolve_pair p rel action (← lock_pair rel.a_memory_id rel.b_memory_id)

abbrev pub resolve_found :
    Principal → ContradictionResolveAction → Option MemoryRelationRow → M Resolved
resolve_found p action none = throw not_found
resolve_found p action (some rel) =
    if is_some rel.resolved_at
    then pure (record { relation = rel; already_resolved = true })
    else resolve_open p rel action

unfoldable pub resolve_contradiction : Principal → ℕ → ContradictionResolveAction → M Resolved
resolve_contradiction p id action = transaction (do resolve_found p action (← select_relation id))

-- The side of a relation that survives the deletion of `doomed`, if one does.
abbrev pub partner_side : List ℕ → MemoryRelationRow → Option Side
partner_side doomed rel =
    if has_id rel.a_memory_id doomed
    then (if has_id rel.b_memory_id doomed then none else some side_b)
    else some side_a

abbrev pub partner : MemoryRelationRow → Side → ℕ
partner rel side_a = rel.a_memory_id
partner rel side_b = rel.b_memory_id

abbrev pub prior_of : MemoryRelationRow → Side → MemoryStatus
prior_of rel side_a = rel.a_prior_status
prior_of rel side_b = rel.b_prior_status

abbrev pub restore_partner : Option String → MemoryStatus → Option MemoryRow → M ℕ
restore_partner org prior none = pure 0
restore_partner org prior (some row) = do
  restore_from_contradiction row prior memory_contradiction_lifted (actor_label deletion_saga) org
  pure 1

abbrev pub lift_side : Option String → MemoryRelationRow → Option Side → M ℕ
lift_side org rel none = pure 0
lift_side org rel (some side) = do
  restore_partner org (prior_of rel side) (← select_memory (partner rel side))

-- One round of the loop; the result is 1 where a partner was found.
unfoldable pub lift_one : Option String → List ℕ → MemoryRelationRow → M ℕ
lift_one org doomed rel = lift_side org rel (partner_side doomed rel)

abbrev pub is_open_on : List ℕ → MemoryRelationRow → Bool
is_open_on doomed rel =
    not (is_some rel.resolved_at)
    && (has_id rel.a_memory_id doomed || has_id rel.b_memory_id doomed)

unfoldable pub lift_all : Option String → List ℕ → List MemoryRelationRow → M ℕ
lift_all org doomed [] = pure 0
lift_all org doomed (rel ∷ rels) = do
  one ← lift_one org doomed rel
  rest ← lift_all org doomed rels
  pure (one + rest)

unfoldable pub lift_contradictions_before_deletion : Option String → List ℕ → M ℕ
unfolding lift_all
lift_contradictions_before_deletion org doomed = do
  open_relations ← gets (λ w. keep (is_open_on doomed) w.relations)
  lift_all org doomed open_relations
