-- ===== src/Memory/Store/BulkLoop.antt =====
-- The whole bulk action: it always returns, retires what it reports as changed, and leaves the rest
-- alone.
use cogeto.Base.{
  ℕ, String, false, Option, none, some, List, [], ◌∷◌, ◌≡◌, ◌≢◌, refl, arith, subst, sym, ap, ◌∙◌,
  ◌==◌, All, has_id, dedup_ids,
}
use cogeto.Base.Distinct.{Distinct, Once, dedup_ids-Once}
use cogeto.Base.Table.{find, find-update_same, find-update_other}
use cogeto.Shared.{outdated, replaced, user_approved}
use cogeto.Db.{World, ok, MemoryRow, memory_key}
use cogeto.Memory.Store.{set_status}
use cogeto.Memory.Store.Bulk.{
  SkipReason, BulkResult, bulk_step, tally, bulk_loop, bulk_mark_outdated_for_owner,
}
use cogeto.Memory.Store.BulkSpec.{
  Skipped, skip_reason-Skipped, Retires, Splits, all_reported, as_changed, as_skipped, Reported,
}
use cogeto.Memory.Store.Outcomes.{Round, passed, retired, bulk_step-Rounded, eligible}

-- An id that is not among the listed ones is in neither report.
changed-apart :
    {ids changed : List ℕ} {skips : List (ℕ × SkipReason)} (k : ℕ)
    → has_id k ids ≡ false
    → Splits ids changed skips
    → has_id k changed ≡ false
changed-apart k out all_reported = refl
changed-apart k out (as_changed id rest) =
    let later = changed-apart k (ground (arith, out)) rest in ground (arith, out, later)
changed-apart k out (as_skipped id why rest) = changed-apart k (ground (arith, out)) rest

module _ (owner : String) (before between after : List MemoryRow) (k : ℕ)
    (same : (j : ℕ) → (k == j) ≡ false → find memory_key j between ≡ find memory_key j before) where
  changed_before :
      (changed : List ℕ)
      → has_id k changed ≡ false
      → All (Retires owner between after) changed
      → All (Retires owner before after) changed
  changed_before [] out h = tt
  changed_before (j ∷ js) out h = (
    record {
      row = h.0.row;
      at = h.0.at;
      found = sym (same j (ground (arith, out))) ∙ h.0.found;
      mine = h.0.mine;
      not_trusted = h.0.not_trusted;
      not_superseded = h.0.not_superseded;
      not_outdated = h.0.not_outdated;
      retired = h.0.retired;
    },
    changed_before js (ground (arith, out)) h.1,
  )

  skipped_before :
      {ids changed : List ℕ} {skips : List (ℕ × SkipReason)}
      → has_id k ids ≡ false
      → Splits ids changed skips
      → All (λ skip. Skipped owner (find memory_key skip.0 between) skip.1) skips
      → All (λ skip. Skipped owner (find memory_key skip.0 before) skip.1) skips
  skipped_before out all_reported h = tt
  skipped_before out (as_changed id rest) h = skipped_before (ground (arith, out)) rest h
  skipped_before out (as_skipped id why rest) h = (
    subst (λ o. Skipped owner o why) (same id (ground (arith, out))) h.0,
    skipped_before (ground (arith, out)) rest h.1,
  )

-- A whole run of the loop.
record BulkRun (owner : String) (ids : List ℕ) (w : World) : Type 0 where
  pub result : BulkResult
  pub after : World
  pub runs : bulk_loop owner ids w ≡ ok result after
  pub reported : Reported owner ids w.memories result after.memories

-- What the later rounds report, with a first round before them.
first_passed :
    (owner : String) (id : ℕ) (ids : List ℕ) (before after : List MemoryRow) (why : SkipReason)
    (r : BulkResult)
    → Skipped owner (find memory_key id before) why
    → Reported owner ids before r after
    → Reported owner (id ∷ ids) before (tally id (some why) r) after
first_passed owner id ids before after why r because rest = record {
  splits = as_skipped id why rest.splits;
  changed = rest.changed;
  skipped = (because, rest.skipped);
  others = rest.others;
}

first_retired :
    (owner : String) (id : ℕ) (ids : List ℕ) (w v : World) (after : List MemoryRow) (r : BulkResult)
    → has_id id ids ≡ false
    → Round owner id w v none
    → Reported owner ids v.memories r after
    → Reported owner (id ∷ ids) w.memories (tally id none r) after
first_retired owner id ids w v after r new (retired row now e found mine written) rest =
    let fit = eligible owner (find memory_key id w.memories) e in
    let one : fit.0 ≡ row = ground (arith, fit.1, found) in
    record {
      splits = as_changed id rest.splits;
      changed = (
        record {
          row = row;
          at = now;
          found = found;
          mine = mine;
          not_trusted = subst (λ (x : MemoryRow). x.status ≢ user_approved) one fit.5;
          not_superseded = subst (λ (x : MemoryRow). x.status ≢ replaced) one fit.3;
          not_outdated = subst (λ (x : MemoryRow). x.status ≢ outdated) one fit.4;
          retired =
              rest.others id (changed-apart id new rest.splits)
              ∙ ap (find memory_key id) written
              ∙ find-update_same memory_key id (set_status outdated now) w.memories row (λ x. refl)
                  found;
        },
        changed_before owner w.memories v.memories after id untouched r.changed
            (changed-apart id new rest.splits) rest.changed,
      );
      skipped =
          skipped_before owner w.memories v.memories after id untouched new rest.splits
            rest.skipped;
      others = λ k out. rest.others k (ground (arith, out)) ∙ untouched k (ground (arith, out));
    }
  where
    untouched :
        (j : ℕ) → (id == j) ≡ false → find memory_key j v.memories ≡ find memory_key j w.memories
    untouched j apart =
        ap (find memory_key j) written
        ∙ find-update_other memory_key id j (set_status outdated now) w.memories (λ x. refl)
            (ground (arith, apart))

loop_cons :
    (owner : String) (id : ℕ) (ids : List ℕ) (w v : World) (o : Option SkipReason)
    → has_id id ids ≡ false
    → bulk_step owner id w ≡ ok o v
    → Round owner id w v o
    → BulkRun owner ids v
    → BulkRun owner (id ∷ ids) w
unfolding bulk_loop
loop_cons owner id ids w v (some why) new step (passed _ e same) rest = record {
  result = tally id (some why) rest.result;
  after = rest.after;
  runs = rw step (rw rest.runs refl);
  reported =
      first_passed owner id ids w.memories rest.after.memories why rest.result
        (skip_reason-Skipped owner (find memory_key id w.memories) why e)
        (subst (λ u. Reported owner ids u.memories rest.result rest.after.memories) same
          rest.reported);
}
loop_cons owner id ids w v none new step round rest = record {
  result = tally id none rest.result;
  after = rest.after;
  runs = rw step (rw rest.runs refl);
  reported = first_retired owner id ids w v rest.after.memories rest.result new round rest.reported;
}

bulk_loop-BulkRun : (owner : String) (ids : List ℕ) (w : World) → Distinct ids → BulkRun owner ids w
unfolding bulk_loop
bulk_loop-BulkRun owner [] w distinct = record {
  result = record { changed = []; skipped = [] };
  after = w;
  runs = refl;
  reported = record { splits = all_reported; changed = tt; skipped = tt; others = λ k out. refl };
}
bulk_loop-BulkRun owner (id ∷ ids) w distinct =
    let one = bulk_step-Rounded owner id w in
    loop_cons owner id ids w one.after one.outcome distinct.0 one.runs one.round
      (bulk_loop-BulkRun owner ids one.after distinct.1)

-- The bulk action always returns. With the ids that it is given, each once, it reports every one
-- either as changed or as skipped. A changed memory is the owner's, was neither approved by the
-- user nor replaced nor outdated, and is outdated afterwards with the rest of its row as it was; a
-- skipped one is missing or foreign, or has the status that the reason names; and every memory that
-- is not changed is as it was.
pub bulk_mark_outdated_for_owner-returns :
    (owner : String) (ids : List ℕ) (w : World)
    → (order : List ℕ) × (result : BulkResult) × (after : World) × Once ids order
      × (bulk_mark_outdated_for_owner owner ids w ≡ ok result after)
      × Reported owner order w.memories result after.memories
unfolding bulk_mark_outdated_for_owner
bulk_mark_outdated_for_owner-returns owner ids w =
    let once = dedup_ids-Once ids in
    let run = bulk_loop-BulkRun owner (dedup_ids ids) w once.distinct in
    (dedup_ids ids, run.result, run.after, once, run.runs, run.reported)
