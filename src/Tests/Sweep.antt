-- ===== src/Tests/Sweep.antt =====
-- The integrity sweep on concrete states.
use cogeto.Base.{ℕ, none, some, [], ◌∷◌, ◌≡◌, ◌↔◌, refl, All, arith, Option, List, keep}
use cogeto.Shared.{active, uncertain, user_note}
use cogeto.Db.{
  World, MemoryRow, ReceiptRow, ReceiptCounts, confirmed, Answer, ok, err, Point, Alert,
  apply_patch, object_present, orphaned_memory, of_key, of_id,
}
use cogeto.Db.Outcome.{Ensures}
use cogeto.Db.Total.{Returns}
use cogeto.Memory.Sweep.Arms.{check_receipt, Findings, alert, retrieve_payloads, present_objects}
use cogeto.Memory.Sweep.Payloads.{reconcile_payloads, Healing, reconcile_from, check_rows}
use cogeto.Memory.Sweep.Residue.{Residueless, check_receipt-Residueless}
use cogeto.Memory.Sweep.Healing.{copied}
use cogeto.Memory.Sweep.Mirrors.{Mirrored, is_embedded}
use cogeto.Memory.Sweep.Rounds.{reconcile_payloads-Healed}
use cogeto.Base.Table.{find, update}
use cogeto.Tests.Fixtures.{note, point, world_with}

abbrev erased_note : ReceiptCounts
erased_note = record {
  source = record { source_type = user_note; source_id = "note-1" };
  requested_by = "ana";
  memory_ids = 1 ∷ [];
  memory_count = 1;
  tasks_removed = 0;
  chat_messages_redacted = 0;
  reply_drafts_redacted = 0;
  point_ids = 1 ∷ [];
  object_keys = "scan" ∷ [];
  superseded_by_nulled = [];
  enumerated_at = 100;
}

abbrev erased_receipt : ReceiptRow
erased_receipt = record {
  id = 7;
  source_type = user_note;
  source_id = "note-1";
  counts_json = some erased_note;
  status = confirmed;
  prev_hash = none;
  hash = none;
  signature = none;
  signed_at = none;
  confirmed_at = none;
}

abbrev embedded : ℕ → MemoryRow
embedded id = record (note id active none none) { embedding_model = some "small" }

-- Memory 2 came back under the erased source, the copy of memory 1 is stale, and an object is left.
abbrev damaged_world : World
damaged_world = record (world_with (embedded 2 ∷ embedded 1 ∷ []) [] 9) {
  points = some (point 1 uncertain ∷ point 2 active ∷ []);
  objects = "scan" ∷ "other" ∷ [];
}

check_receipt-Residueless_example :
    Ensures
      (λ f w'. (f.alerts ≡ []) ↔ Residueless erased_receipt erased_note damaged_world)
      (check_receipt erased_receipt erased_note damaged_world)
check_receipt-Residueless_example =
    check_receipt-Residueless erased_receipt erased_note damaged_world

reconcile_payloads-Healed_example :
    Returns
      (λ _ w'.
        (w'.memories ≡ damaged_world.memories)
        × All (Mirrored w') (keep is_embedded w'.memories)
        × (copied w' ≡ copied damaged_world))
      (reconcile_payloads damaged_world)
reconcile_payloads-Healed_example =
    reconcile_payloads-Healed damaged_world (record { up = refl; index = refl })
      (((λ e. omega (arith, e)), tt), (tt, tt))

-- The stale copy is written again, and only that.
abbrev healing : Answer Healing
healing = reconcile_payloads damaged_world

abbrev points_of_answer : {A : Type 0} → Answer A → Option (List Point)
points_of_answer (ok a w) = w.points
points_of_answer (err e w) = none

healing_run : points_of_answer healing ≡ some (point 1 active ∷ point 2 active ∷ [])
unfolding reconcile_payloads reconcile_from retrieve_payloads check_rows find update apply_patch
healing_run = refl

-- The memory that came back is not among the listed ones, the object is.
abbrev alerts_of : Answer Findings → List Alert
alerts_of (ok f w) = f.alerts
alerts_of (err e w) = []

found_run :
    alerts_of (
      check_receipt erased_receipt
        (record erased_note { memory_ids = 5 ∷ []; point_ids = [] })
        damaged_world)
    ≡ alert (some 7) object_present (of_key "scan")
      ∷ alert (some 7) orphaned_memory (of_id 2)
      ∷ alert (some 7) orphaned_memory (of_id 1)
      ∷ []
unfolding check_receipt retrieve_payloads present_objects
found_run = refl
