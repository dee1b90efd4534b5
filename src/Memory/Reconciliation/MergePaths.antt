-- ===== src/Memory/Reconciliation/MergePaths.antt =====
-- The merge of two memories as a path of the abstract machine.
use cogeto.Base.{
  ℕ, ◌<◌, String, Bool, true, false, Option, some, ◌≡◌, ◌≢◌, refl, arith, is_some, ◌==◌, sym,
  if◌then◌else◌, ◌||◌, inl, inr, ◌∙◌, ap, ◌∷◌, ◌⊎◌,
}
use cogeto.Base.Table.{find, find-key, find-update_other, find-All}
use cogeto.Shared.{replaced}
use cogeto.Db.{World, MemoryRow, memory_key, names}
use cogeto.Db.Outcome.{Ensures, returns, Ensures-if, Ensures-bind, Ensures-mono}
use cogeto.Memory.Transition.{MemoryActor, reconciliation}
use cogeto.Memory.Policy.{PolicyParty, MergeDecision, merge, no_merge, choose_survivor}
use cogeto.Memory.Policy.Survivor.{choose_survivor-Entitled}
use cogeto.Memory.Facts.{NewFact}
use cogeto.Memory.Store.Supersede.{Superseded}
use cogeto.Memory.Store.Steps.{SupersededRun}
use cogeto.Memory.Store.Paths.{IsPath}
use cogeto.Memory.Store.EditPaths.{supersede_in_tx-Run, own_key}
use cogeto.Memory.Reconciliation.{
  Closing, close_and_point, should_enrich, enriched_fact, close_merged, enrich_and_close,
  merge_into, merge_decided, merge_same_fact, as_party, is_replaced, merged_text,
}
use cogeto.Memory.Reconciliation.Rules.{after_pair, close_and_point-Closed, Closed-Step}
use cogeto.Memory.Machine.{WellFormed, here, Reach-Step, Reach-trans}
use cogeto.Memory.Machine.Invariant.{All-below}
use cogeto.Memory.Machine.History.{find_created}

pub close_and_point-IsPath :
    (loser target : MemoryRow) (how : Closing) (actor : String) (close_at : Option ℕ) (w : World)
    → find memory_key loser.id w.memories ≡ some loser
    → loser.status ≢ replaced
    → is_some (find memory_key target.id w.memories) ≡ true
    → target.id ≢ loser.id
    → Ensures (IsPath w) (close_and_point loser target how actor close_at w)
close_and_point-IsPath loser target how actor close_at w found live there ne =
    Ensures-mono (close_and_point-Closed loser target how actor close_at w)
      λ a w' c. Reach-Step (Closed-Step found live there ne c)

-- Two rows of the table, live and different, under their own keys.
pub record LivePair (w : World) (a b : MemoryRow) : Type 0 where
  pub found_a : find memory_key a.id w.memories ≡ some a
  pub found_b : find memory_key b.id w.memories ≡ some b
  pub apart : a.id ≢ b.id
  pub live_a : a.status ≢ replaced
  pub live_b : b.status ≢ replaced

pub LivePair-swap : {w : World} {a b : MemoryRow} → LivePair w a b → LivePair w b a
LivePair-swap p = record {
  found_a = p.found_b;
  found_b = p.found_a;
  apart = λ e. p.apart (sym e);
  live_a = p.live_b;
  live_b = p.live_a;
}

pub locked-apart :
    (one two : ℕ) (w : World) (a b : MemoryRow)
    → one ≢ two
    → find memory_key one w.memories ≡ some a
    → find memory_key two w.memories ≡ some b
    → a.id ≢ b.id
locked-apart one two w a b ne fa fb =
    let ka : a.id ≡ one = find-key memory_key one w.memories a fa in
    let kb : b.id ≡ two = find-key memory_key two w.memories b fb in
    λ e. ne (omega (arith, ka, kb, e))

pub LivePair-locked :
    (one two : ℕ) (w : World) (a b : MemoryRow)
    → one ≢ two
    → find memory_key one w.memories ≡ some a
    → find memory_key two w.memories ≡ some b
    → a.status ≢ replaced
    → b.status ≢ replaced
    → LivePair w a b
LivePair-locked one two w a b ne fa fb la lb = record {
  found_a = own_key one w a fa;
  found_b = own_key two w b fb;
  apart = locked-apart one two w a b ne fa fb;
  live_a = la;
  live_b = lb;
}

close_merged-IsPath :
    (loser target : MemoryRow) (enriched : Bool) (w : World)
    → find memory_key loser.id w.memories ≡ some loser
    → loser.status ≢ replaced
    → is_some (find memory_key target.id w.memories) ≡ true
    → target.id ≢ loser.id
    → Ensures (IsPath w) (close_merged loser target enriched w)
close_merged-IsPath loser target enriched w found live there ne =
    Ensures-bind _ (close_and_point-IsPath loser target _ _ _ w found live there ne)
      λ a w' path. returns path

-- After the survivor is superseded by the enriched fact, the loser's row is as it was, and the
-- successor is in the table under another id.
record Enriched (loser successor : MemoryRow) (w' : World) : Type 0 where
  found : find memory_key loser.id w'.memories ≡ some loser
  there : is_some (find memory_key successor.id w'.memories) ≡ true
  apart : successor.id ≢ loser.id

run-Enriched :
    {actor : MemoryActor} {survivor loser : MemoryRow} {fact : NewFact} {w w' : World}
    {res : Superseded}
    → WellFormed w
    → LivePair w survivor loser
    → SupersededRun actor survivor fact w res w'
    → Enriched loser res.successor w'
unfolding find
run-Enriched {actor} {survivor} {loser} {fact} {w} {w'} {res} wf pair run =
    let fresh : res.successor.id ≡ w.next_id = ap (λ r. r.id) run.successor in
    let below : loser.id < w.next_id =
      find-All memory_key (λ r. r.id < w.next_id) loser.id w.memories loser
        (All-below _ w.memories wf.rows) pair.found_b in
    let below_s : survivor.id < w.next_id =
      find-All memory_key (λ r. r.id < w.next_id) survivor.id w.memories survivor
        (All-below _ w.memories wf.rows) pair.found_a in
    record {
      found = rw run.memories (
          find-update_other memory_key survivor.id loser.id _ (res.successor ∷ w.memories)
            (λ x. refl) pair.apart
          ∙ find_created loser.id w.next_id loser res.successor w.memories
              (All-below _ w.memories wf.rows) fresh pair.found_b);
      there = rw run.memories (
          ap is_some (
            find-update_other memory_key survivor.id res.successor.id _ (res.successor ∷ w.memories)
              (λ x. refl) (λ e. omega (arith, fresh, e, below_s)))
          ∙ ground arith);
      apart = λ e. omega (arith, fresh, e, below);
    }

enrich_and_close-IsPath :
    (content : String) (survivor loser : MemoryRow) (w : World)
    → WellFormed w
    → LivePair w survivor loser
    → Ensures (IsPath w) (enrich_and_close content survivor loser w)
enrich_and_close-IsPath content survivor loser w wf pair =
    Ensures-bind _
      (supersede_in_tx-Run reconciliation survivor.id survivor
        (enriched_fact content survivor loser) w wf pair.live_a pair.found_a)
      λ res v run.
        let e : Enriched loser res.successor v = run-Enriched wf pair run in
        Ensures-mono
          (close_merged-IsPath loser res.successor true v e.found pair.live_b e.there e.apart)
          λ r w' path. Reach-trans run.path path

merge_into-IsPath :
    (content : Option String) (survivor loser : MemoryRow) (w : World)
    → WellFormed w
    → LivePair w survivor loser
    → Ensures (IsPath w) (merge_into content survivor loser w)
merge_into-IsPath content survivor loser w wf pair =
    Ensures-if (should_enrich (merged_text content) survivor) _ _ w
      (λ _. enrich_and_close-IsPath (merged_text content) survivor loser w wf pair)
      (λ _.
        close_merged-IsPath loser survivor false w pair.found_b pair.live_b (rw pair.found_a refl)
          pair.apart)

-- The rows that `merge_decided` picks for the parties of a decision.
abbrev row_for : PolicyParty → MemoryRow → MemoryRow → MemoryRow
row_for party incoming existing = if party.id == incoming.id then incoming else existing

pub picked :
    (a b : MemoryRow) (s l : PolicyParty)
    → a.id ≢ b.id
    → choose_survivor (as_party a) (as_party b) ≡ merge s l
    → ((row_for s a b ≡ a) × (row_for l a b ≡ b)) ⊎ ((row_for s a b ≡ b) × (row_for l a b ≡ a))
picked a b s l ne e = elim (choose_survivor-Entitled (as_party a) (as_party b) s l e).parties [
  | inl (es, el) ↦ inl (rw es (ground arith), rw el (ground arith))
  | inr (es, el) ↦ inr (rw es (ground arith), rw el (ground arith))
]

merge_decided-IsPath :
    (content : Option String) (a b : MemoryRow) (d : MergeDecision) (w : World)
    → WellFormed w
    → LivePair w a b
    → choose_survivor (as_party a) (as_party b) ≡ d
    → Ensures (IsPath w) (merge_decided content a b d w)
merge_decided-IsPath content a b no_merge w wf pair e = returns here
merge_decided-IsPath content a b (merge s l) w wf pair e = elim (picked a b s l pair.apart e) [
  | inl (es, el) ↦ rw (es, el) (merge_into-IsPath content a b w wf pair)
  | inr (es, el) ↦ rw (es, el) (merge_into-IsPath content b a w wf (LivePair-swap pair))
]

pub merge_same_fact-IsPath :
    (incoming existing : ℕ) (content : Option String) (w : World)
    → WellFormed w
    → Ensures (IsPath w) (merge_same_fact incoming existing content w)
unfolding merge_same_fact
merge_same_fact-IsPath incoming existing content w wf =
    after_pair _ incoming existing w λ a b ne fa fb.
      Ensures-if (is_replaced a || is_replaced b) _ _ w (λ _. returns here)
        (λ live.
          Ensures-if (names b.id a.superseded_by || names a.id b.superseded_by) _ _ w
            (λ _. returns here)
            (λ _.
              merge_decided-IsPath content a b _ w wf
                (LivePair-locked incoming existing w a b ne fa fb (ground arith) (ground arith))
                refl))
