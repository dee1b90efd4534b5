-- ===== src/Tests/Memory.antt =====
-- The memory module on concrete states.
use cogeto.Base.{
  zero, suc, ℕ, String, Bool, Option, true, false, none, some, List, [], ◌∷◌, ◌≡◌, ◌↔◌, ◌⊎◌, refl,
  arith, is_blank, All, ◌&&◌, length, ◌≤◌, squeeze_spaces,
}
use cogeto.Base.Table.{find, update}
use cogeto.Shared.{
  MemoryStatus, active, outdated, uncertain, replaced, user_approved, private, shared, file,
}
use cogeto.Db.{
  World, Answer, MemoryRow, select_relation, update_relation, insert_relation, memory_key, ok, err,
  constraint_violation, fresh_id, insert_memory, write_audit, select_memory, update_memory,
  set_payload, set_payload_if_any, enqueue,
}
use cogeto.Memory.Transition.{user, check_transition, allowed}
use cogeto.Memory.Transition.Matrix.{MayMove, check_transition_iff}
use cogeto.Memory.Policy.{confidence, choose_survivor, supersession_unambiguous, interval_holds_at}
use cogeto.Memory.Policy.Survivor.{
  Entitled, choose_survivor-Entitled, choose_survivor_comm, supersession_asymmetric,
}
use cogeto.Memory.Policy.Interval.{EndsAfter, interval_holds_at_iff, interval_disjoint}
use cogeto.Memory.Reconciliation.{
  as_party, lock_pair, merge_same_fact, close_and_point, create_contradiction,
  contradiction_created, skipped,
}
use cogeto.Memory.Command.{Command, create, edit, merge_pair_of, reject, run, run_all, body}
use cogeto.Memory.Command.Runs.{BringsLive, run_all-WellFormed, run_all-Holds, run_all-Reach}
use cogeto.Memory.Machine.{WellFormed, RowOk, Reach}
use cogeto.Memory.Machine.History.{Holds}
use cogeto.Memory.Facts.{insert_fact, org_for, lock_row}
use cogeto.Memory.Store.{create_from_fact, transition_in_tx, reject_uncertain}
use cogeto.Memory.Store.Supersede.{supersede_core, edit_content, edit_content_in_tx}
use cogeto.Memory.Store.Bulk.{BulkResult, bulk_mark_outdated_for_owner}
use cogeto.Memory.Store.Outcomes.{is_ok, Movable, transition_in_tx_iff}
use cogeto.Base.Distinct.{Once}
use cogeto.Memory.Store.BulkSpec.{Reported}
use cogeto.Memory.Store.BulkLoop.{bulk_mark_outdated_for_owner-returns}
use cogeto.Memory.Store.Rejection.{reject_referenced_fails}
use cogeto.Memory.Visibility.{visible_to, SearchOptions, search_filter, admits, get_chain}
use cogeto.Memory.Visibility.Gates.{wished, visible_to_iff, search_filter-visible_to}
use cogeto.Memory.Visibility.Chain.{Linked, Seen, get_chain-Chained}
use cogeto.Memory.ReceiptChain.{
  ReceiptChainPayload, ConfirmedReceipt, Chain, forks, verify_chain, genesis_hash, verify_chain_iff,
}
use cogeto.Db.Outcome.{Ensures}
use cogeto.Db.Total.{Returns}
use cogeto.Memory.Reconciliation.Resolve.{
  resolve_contradiction, dismiss, apply_dismiss, restore_from_contradiction,
}
use cogeto.Memory.Reconciliation.Detection.{
  Detection, create_contradiction-Detection, create_contradiction_once,
}
use cogeto.Memory.Reconciliation.RoundTrip.{Unmoved, create_contradiction-dismiss}
use cogeto.Memory.Visibility.PointInTime.{PointInTimeOptions, point_in_time}
use cogeto.Memory.Visibility.PointInTime.Recall.{
  Holding, point_in_time-Holding, point_in_time_recall,
}
use cogeto.Tests.Fixtures.{ana, note, point, new_fact, replaced_world, doubtful_world, world_with}

abbrev edits : List Command
edits = create ana (new_fact "Ana drinks tea") ∷ edit ana 1 "Ana drinks coffee" ∷ reject ana 1 ∷ []

edits-BringsLive : All BringsLive edits
edits-BringsLive = (λ e. cc e, (tt, (tt, tt)))

live_note : RowOk 2 (note 1 active none none)
unfolding is_blank
live_note = record {
  below = omega arith;
  owner = refl;
  source = refl;
  pointed = refl;
  closed = λ e. absurd (cc e);
  elsewhere = λ e. cc e;
}

replaced_note : RowOk 2 (note 0 replaced (some 1) (some 50))
unfolding is_blank
replaced_note = record {
  below = omega arith;
  owner = refl;
  source = refl;
  pointed = refl;
  closed = λ e. refl;
  elsewhere = λ e. ground (arith, e);
}

replaced_world-WellFormed : WellFormed replaced_world
unfolding find
replaced_world-WellFormed = record {
  rows = (live_note, (replaced_note, tt));
  unique = ((λ e. omega (arith, e), tt), (tt, tt));
  linked = (tt, (refl, tt));
  priors = tt;
}

run_all-WellFormed_example : WellFormed (run_all edits replaced_world)
run_all-WellFormed_example =
    run_all-WellFormed edits replaced_world replaced_world-WellFormed edits-BringsLive

run_all-Reach_example : Reach replaced_world (run_all edits replaced_world)
run_all-Reach_example =
    run_all-Reach edits replaced_world replaced_world-WellFormed edits-BringsLive

run_all-Holds_example : Holds 0 (note 0 replaced (some 1) (some 50)) (run_all edits replaced_world)
unfolding find
run_all-Holds_example =
    run_all-Holds edits replaced_world 0 (note 0 replaced (some 1) (some 50))
      replaced_world-WellFormed edits-BringsLive refl refl

check_transition_iff_example :
    (check_transition active outdated (user "ana") ≡ allowed) ↔ MayMove active outdated (user "ana")
check_transition_iff_example = check_transition_iff active outdated (user "ana")

-- The edit and the rejection of the world above, run.
edit_closes :
    find memory_key 1 (run_all edits replaced_world).memories
    ≡ some (record (note 1 active none none) {
      status = replaced;
      valid_until = some 100;
      superseded_by = some 3;
      updated_at = 100;
    })
unfolding run_all run body create_from_fact insert_fact fresh_id insert_memory org_for write_audit
    edit_content edit_content_in_tx lock_row select_memory supersede_core update_memory set_payload
    enqueue reject_uncertain find update is_blank
edit_closes = refl

transition_in_tx_iff_example :
    (is_ok (transition_in_tx (user "ana") 1 outdated false replaced_world) ≡ true)
    ↔ Movable (user "ana") 1 outdated replaced_world
transition_in_tx_iff_example = transition_in_tx_iff (user "ana") 1 outdated replaced_world

bulk_mark_outdated_for_owner-returns_example :
    (order : List ℕ) × (result : BulkResult) × (after : World) × Once (1 ∷ 0 ∷ 1 ∷ []) order
    × (bulk_mark_outdated_for_owner "ana" (1 ∷ 0 ∷ 1 ∷ []) replaced_world ≡ ok result after)
    × Reported "ana" order replaced_world.memories result after.memories
bulk_mark_outdated_for_owner-returns_example =
    bulk_mark_outdated_for_owner-returns "ana" (1 ∷ 0 ∷ 1 ∷ []) replaced_world

-- What reconciliation makes of the two uncertain memories: 0 is merged into 1.
abbrev merged_world : World
merged_world = run_all (merge_pair_of 1 0 none ∷ []) doubtful_world

reject_referenced_fails_example :
    reject_uncertain ana 1 merged_world ≡ err constraint_violation merged_world
unfolding run_all run body merge_same_fact lock_pair select_memory choose_survivor confidence
    close_and_point update_memory org_for write_audit set_payload_if_any find update squeeze_spaces
reject_referenced_fails_example =
    reject_referenced_fails ana 1 (note 1 uncertain none none) merged_world refl refl refl refl

choose_survivor-Entitled_example :
    Entitled
      (as_party (note 1 active none none))
      (as_party (note 0 user_approved none none))
      (as_party (note 0 user_approved none none))
      (as_party (note 1 active none none))
unfolding choose_survivor confidence
choose_survivor-Entitled_example =
    choose_survivor-Entitled (as_party (note 1 active none none))
      (as_party (note 0 user_approved none none)) (as_party (note 0 user_approved none none))
      (as_party (note 1 active none none)) refl

choose_survivor_comm_example :
    choose_survivor (as_party (note 1 active none none)) (as_party (note 0 uncertain none none))
    ≡ choose_survivor (as_party (note 0 uncertain none none)) (as_party (note 1 active none none))
choose_survivor_comm_example =
    choose_survivor_comm (as_party (note 1 active none none))
      (as_party (note 0 uncertain none none)) (λ e. omega (arith, e))

supersession_asymmetric_example :
    supersession_unambiguous
      (as_party (note 0 active none none))
      (record (as_party (note 1 active none none)) { valid_from = some 9 })
    ≡ false
unfolding supersession_unambiguous
supersession_asymmetric_example =
    supersession_asymmetric (record (as_party (note 1 active none none)) { valid_from = some 9 })
      (as_party (note 0 active none none)) refl

interval_holds_at_iff_example :
    (interval_holds_at (as_party (note 0 replaced (some 1) (some 50))) 50 ≡ true)
    ↔ ((5 ≤ 50) × EndsAfter (some 50) 50)
interval_holds_at_iff_example =
    interval_holds_at_iff (as_party (note 0 replaced (some 1) (some 50))) 50

interval_disjoint_example :
    interval_holds_at (record (as_party (note 1 active none none)) { valid_from = some 50 }) 40
    ≡ false
unfolding interval_holds_at
interval_disjoint_example =
    interval_disjoint (as_party (note 0 replaced (some 1) (some 50)))
      (record (as_party (note 1 active none none)) { valid_from = some 50 }) 50 40 refl refl refl

visible_to_iff_example : (visible_to ana true (note 1 active none none) ≡ true) ↔ (
    ((ana.user_id ≡ ana.user_id) ⊎ (private ≡ shared))
    × (false ≡ true → (true ≡ true) × (ana.user_id ≡ ana.user_id)))
visible_to_iff_example = visible_to_iff ana true (note 1 active none none)

abbrev narrow : SearchOptions
narrow = record {
  include_sensitive = false;
  scope = some private;
  owner_only = true;
  statuses = active ∷ [];
}

search_filter-visible_to_example : admits (search_filter ana narrow) (point 1 active) ≡ (
    visible_to ana false (note 1 active none none) && wished ana narrow (note 1 active none none))
search_filter-visible_to_example =
    search_filter-visible_to ana narrow (point 1 active) (note 1 active none none)
      (record { owner_id = refl; scope = refl; sensitive = refl; status = refl })

get_chain-Chained_example :
    Linked (get_chain ana 0 false replaced_world.memories)
    × All (Seen ana false) (get_chain ana 0 false replaced_world.memories)
    × (length (get_chain ana 0 false replaced_world.memories) ≤ 101)
get_chain-Chained_example = get_chain-Chained ana 0 false replaced_world.memories

-- A hash and a signature for the tests: the hash has as many letters as the id says.
abbrev letters : ℕ → String
letters zero = ""
letters (suc n) = String.◌∷◌ "x" (letters n)

abbrev id_hash : ReceiptChainPayload → String
id_hash payload = letters payload.id

abbrev always_signed : String → String → Bool
always_signed hash signature = true

abbrev receipt : ℕ → String → ConfirmedReceipt
receipt id prev = record {
  payload = record {
    id = id;
    source_type = file;
    source_id = "f";
    counts_json = none;
    signed_at = some 0;
    confirmed_at = some 0;
    prev_hash = prev;
  };
  hash = letters id;
  signature = "s";
}

abbrev receipts : List ConfirmedReceipt
receipts = receipt 2 "x" ∷ receipt 1 genesis_hash ∷ []

verify_chain_iff_example : ((verify_chain id_hash always_signed receipts).ok ≡ true) ↔ (
    (forks receipts ≡ false)
    × ((chain : List ConfirmedReceipt) × Chain id_hash always_signed receipts genesis_hash chain
        × (length chain ≡ length receipts)))
verify_chain_iff_example = verify_chain_iff id_hash always_signed receipts

-- Memories 0 and 1 contradict each other.
abbrev clashing_world : World
clashing_world = world_with (note 1 active none none ∷ note 0 uncertain none none ∷ []) [] 2

abbrev status_in : Option MemoryRow → Option MemoryStatus
status_in none = none
status_in (some m) = some m.status

abbrev status_of : ℕ → World → Option MemoryStatus
status_of id w = status_in (find memory_key id w.memories)

abbrev after : {A : Type 0} → Answer A → World
after (ok a w) = w
after (err e w) = w

abbrev contradicted_world : World
contradicted_world = after (create_contradiction 1 0 "tea or coffee" clashing_world)

detection_runs :
    create_contradiction 1 0 "tea or coffee" clashing_world
    ≡ ok (contradiction_created 2) contradicted_world
unfolding create_contradiction lock_pair select_memory fresh_id insert_relation org_for write_audit
    transition_in_tx lock_row update_memory set_payload_if_any find update check_transition
    set_payload
detection_runs = refl

create_contradiction_once_example :
    (create_contradiction 1 0 "again" contradicted_world ≡ ok skipped contradicted_world)
    × (create_contradiction 0 1 "again" contradicted_world ≡ ok skipped contradicted_world)
create_contradiction_once_example =
    create_contradiction_once 1 0 2 "tea or coffee" "again" clashing_world contradicted_world
      detection_runs

create_contradiction-Detection_example :
    Ensures
      (Detection 1 0 "tea or coffee" clashing_world)
      (create_contradiction 1 0 "tea or coffee" clashing_world)
create_contradiction-Detection_example =
    create_contradiction-Detection 1 0 "tea or coffee" clashing_world

create_contradiction-dismiss_example :
    Ensures
      (λ _ w. Unmoved clashing_world w 1 × Unmoved clashing_world w 0)
      (resolve_contradiction ana 2 dismiss contradicted_world)
create_contradiction-dismiss_example =
    create_contradiction-dismiss ana 1 0 2 "tea or coffee" clashing_world contradicted_world
      detection_runs

-- The dismissal of that contradiction returns, with both statuses as they were.
dismissal_restores :
    (status_of 1 (after (resolve_contradiction ana 2 dismiss contradicted_world)) ≡ some active)
    × (status_of 0 (after (resolve_contradiction ana 2 dismiss contradicted_world))
        ≡ some uncertain)
    × (is_ok (resolve_contradiction ana 2 dismiss contradicted_world) ≡ true)
unfolding create_contradiction lock_pair select_memory fresh_id insert_relation org_for write_audit
    transition_in_tx lock_row update_memory set_payload_if_any find update check_transition
    set_payload resolve_contradiction select_relation apply_dismiss restore_from_contradiction
    update_relation
dismissal_restores = (refl, refl, refl)

-- A trigram operator that holds of no names, and a search that scores nothing.
abbrev unlike : String → String → Bool
unlike entity name = false

abbrev unscored : ℕ → Option ℕ
unscored id = none

abbrev past_query : PointInTimeOptions
past_query = record { include_sensitive = false; top_k = 2; ranked = true; entities = "Tea" ∷ [] }

-- At instant 40 the replaced memory 0 held.
point_in_time-Holding_example :
    Ensures
      (λ hits _. All (λ hit. Holding ana false 40 hit.memory) hits × (length hits ≤ 2))
      (point_in_time unlike unscored ana 40 past_query replaced_world)
point_in_time-Holding_example =
    point_in_time-Holding unlike unscored ana 40 past_query replaced_world

-- The same memories with an index.
abbrev indexed_world : World
indexed_world = record replaced_world { points = some [] }

point_in_time_recall_example :
    Returns
      (λ hits _. 1 ≤ length hits)
      (point_in_time unlike unscored ana 40 past_query indexed_world)
unfolding visible_to interval_holds_at
point_in_time_recall_example =
    point_in_time_recall unlike unscored ana 40 past_query indexed_world
      (record { up = refl; index = refl }) (omega arith) refl
