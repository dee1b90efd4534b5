-- ===== src/Memory/Reconciliation/ResolvePaths.antt =====
-- The owner's resolution of a contradiction, and the lifting before a deletion, as paths of the
-- abstract machine.
use cogeto.Base.{
  ℕ, String, true, Option, none, some, List, [], ◌∷◌, ◌≡◌, ◌≢◌, refl, arith, is_some, sym, inl, inr,
  ◌∙◌, All, All-keep, keep,
}
use cogeto.Base.Table.{find, update, find-update_other, find-update_same, find-All, All-update}
use cogeto.Shared.{MemoryStatus, replaced, outdated, user_approved, Principal}
use cogeto.Db.{
  World, MemoryRow, MemoryRelationRow, memory_key, relation_key, select_relation, update_relation,
  select_memory, write_audit,
}
use cogeto.Db.Outcome.{
  Ensures, returns, throws, Ensures-if, Ensures-bind, Ensures-mono, Ensures-transaction,
}
use cogeto.Memory.Transition.{MemoryActor, user}
use cogeto.Memory.Policy.{LoserOutcome, loser_outdated, loser_replaced}
use cogeto.Memory.Store.{set_status}
use cogeto.Memory.Store.Rules.{Transitioned, transition_in_tx-Transitioned}
use cogeto.Memory.Store.Steps.{transition-Step}
use cogeto.Memory.Store.Paths.{IsPath, transition_in_tx-IsPath}
use cogeto.Memory.Store.EditPaths.{edit_content_in_tx-IsPath, own_key}
use cogeto.Memory.Reconciliation.Rules.{after_pair, restore-Reach}
use cogeto.Memory.Reconciliation.MergePaths.{LivePair, locked-apart, close_and_point-IsPath}
use cogeto.Memory.Reconciliation.Resolve.{
  Side, side_a, side_b, ContradictionResolveAction, confirm, correct, dismiss, settle_loser,
  both_contradicted, confirm_winner, confirm_checked, apply_confirm, apply_correct, apply_dismiss,
  apply_action, resolve_owned, resolve_found, owns_both, resolve_contradiction, partner_side,
  restore_partner, lift_side, lift_one, is_open_on, lift_all, lift_contradictions_before_deletion,
}
use cogeto.Memory.Machine.{WellFormed, PriorsOk, here, next, Reach-Step, Reach-trans, related}
use cogeto.Memory.Machine.Invariant.{Reach-WellFormed}

-- The winner was approved: the loser is still as it was.
settle_loser-IsPath :
    (p : Principal) (confirmed loser : MemoryRow) (o : LoserOutcome) (w : World)
    → LivePair w confirmed loser
    → Ensures (IsPath w) (settle_loser p confirmed loser o w)
settle_loser-IsPath p confirmed loser loser_outdated w pair =
    Ensures-bind _ (transition_in_tx-IsPath (user p.user_id) loser.id outdated true w)
      λ _ w' path. returns path
settle_loser-IsPath p confirmed loser loser_replaced w pair =
    close_and_point-IsPath loser confirmed _ _ _ w pair.found_b pair.live_b (rw pair.found_a refl)
      pair.apart

-- An approved row and another row, live, in the table that the approval left.
pub approved-LivePair :
    {actor : MemoryActor} {w w' : World} {winner loser row' : MemoryRow}
    → LivePair w winner loser
    → Transitioned actor winner.id user_approved w row' w'
    → LivePair w' row' loser
approved-LivePair {actor} {w} {w'} {winner} {loser} {row'} pair t =
    let same : t.row ≡ winner = cc (t.found, pair.found_a) in
    let now_is : row' ≡ set_status user_approved w.now winner = rw t.result (rw same refl) in
    record {
      found_a =
          rw (t.memories, now_is)
            (find-update_same memory_key winner.id (set_status user_approved w.now) w.memories
              winner (λ x. refl) pair.found_a);
      found_b = rw t.memories (
          find-update_other memory_key winner.id loser.id (set_status user_approved w.now)
            w.memories (λ x. refl) pair.apart
          ∙ pair.found_b);
      apart = rw now_is pair.apart;
      live_a = rw now_is (λ e. cc);
      live_b = pair.live_b;
    }

confirm_winner-IsPath :
    (p : Principal) (winner loser : MemoryRow) (w : World)
    → LivePair w winner loser
    → Ensures (IsPath w) (confirm_winner p winner loser w)
confirm_winner-IsPath p winner loser w pair =
    Ensures-bind _ (transition_in_tx-Transitioned (user p.user_id) winner.id user_approved true w)
      λ row v t.
        Ensures-mono (settle_loser-IsPath p row loser _ v (approved-LivePair pair t))
          λ _ w' path. Reach-trans (Reach-Step (transition-Step t)) path

-- Two locked rows, and whether each is live is for the test of the action to say.
record Locked (w : World) (a b : MemoryRow) : Type 0 where
  found_a : find memory_key a.id w.memories ≡ some a
  found_b : find memory_key b.id w.memories ≡ some b
  apart : a.id ≢ b.id

confirm_checked-IsPath :
    (p : Principal) (winner loser : MemoryRow) (w : World)
    → Locked w winner loser
    → Ensures (IsPath w) (confirm_checked p winner loser w)
confirm_checked-IsPath p winner loser w l =
    Ensures-if (both_contradicted winner loser) _ _ w
      (λ both. confirm_winner-IsPath p winner loser w (record {
        found_a = l.found_a;
        found_b = l.found_b;
        apart = l.apart;
        live_a = ground arith;
        live_b = ground arith;
      }))
      (λ _. throws)

Locked-swap : {w : World} {a b : MemoryRow} → Locked w a b → Locked w b a
Locked-swap l = record { found_a = l.found_b; found_b = l.found_a; apart = λ e. l.apart (sym e) }

apply_confirm-IsPath :
    (p : Principal) (a b : MemoryRow) (side : Side) (w : World)
    → Locked w a b
    → Ensures (IsPath w) (apply_confirm p a b side w)
unfolding apply_confirm
apply_confirm-IsPath p a b side_a w l =
    Ensures-bind _ (confirm_checked-IsPath p a b w l) λ _ w' path. returns path
apply_confirm-IsPath p a b side_b w l =
    Ensures-bind _ (confirm_checked-IsPath p b a w (Locked-swap l)) λ _ w' path. returns path

apply_correct-IsPath :
    (p : Principal) (a b : MemoryRow) (a_content b_content : String) (w : World)
    → WellFormed w
    → Ensures (IsPath w) (apply_correct p a b a_content b_content w)
unfolding apply_correct
apply_correct-IsPath p a b a_content b_content w wf =
    Ensures-bind _ (edit_content_in_tx-IsPath p a.id a_content w wf) λ _ v one.
      Ensures-bind _ (edit_content_in_tx-IsPath p b.id b_content v (Reach-WellFormed wf one))
        λ _ w' two. returns (Reach-trans one two)

apply_dismiss-IsPath :
    (p : Principal) (a b : MemoryRow) (rel : MemoryRelationRow) (w : World)
    → Locked w a b
    → PriorsOk rel
    → Ensures (IsPath w) (apply_dismiss p a b rel w)
unfolding apply_dismiss
apply_dismiss-IsPath p a b rel w l ok =
    Ensures-bind _ (restore-Reach a rel.a_prior_status _ _ _ w l.found_a ok.0) λ _ v (one, changed).
      let found : find memory_key b.id v.memories ≡ some b = elim changed [
        | inl e ↦ rw e l.found_b
        | inr e ↦ rw e (
            find-update_other memory_key a.id b.id (set_status rel.a_prior_status w.now) w.memories
              (λ x. refl) l.apart
            ∙ l.found_b)
      ] in
      Ensures-bind _ (restore-Reach b rel.b_prior_status _ _ _ v found ok.1)
        λ _ w' (two, _). returns (Reach-trans one two)

apply_action-IsPath :
    (p : Principal) (a b : MemoryRow) (rel : MemoryRelationRow)
    (action : ContradictionResolveAction) (w : World)
    → WellFormed w
    → Locked w a b
    → PriorsOk rel
    → Ensures (IsPath w) (apply_action p a b rel action w)
apply_action-IsPath p a b rel (confirm side) w wf l ok = apply_confirm-IsPath p a b side w l
apply_action-IsPath p a b rel (correct x y) w wf l ok = apply_correct-IsPath p a b x y w wf
apply_action-IsPath p a b rel dismiss w wf l ok = apply_dismiss-IsPath p a b rel w l ok

All-update_priors :
    (k : ℕ) (f : MemoryRelationRow → MemoryRelationRow) (rels : List MemoryRelationRow)
    → ((x : MemoryRelationRow) → PriorsOk x → PriorsOk (f x))
    → All PriorsOk rels
    → All PriorsOk (update relation_key k f rels)
All-update_priors k f rels keeps ps = All-update relation_key PriorsOk k f rels keeps ps

resolve_owned-IsPath :
    (p : Principal) (rel : MemoryRelationRow) (action : ContradictionResolveAction)
    (a b : MemoryRow) (w : World)
    → WellFormed w
    → Locked w a b
    → PriorsOk rel
    → Ensures (IsPath w) (resolve_owned p rel action a b w)
unfolding update_relation write_audit
resolve_owned-IsPath p rel action a b w wf l ok =
    Ensures-bind _ (apply_action-IsPath p a b rel action w wf l ok) λ _ v path. returns (
      next path (
        related (record {
          priors = λ ps. All-update_priors rel.id _ v.relations (λ x q. q) ps;
          memories = refl;
          later = omega arith;
        })))

resolve_found-IsPath :
    (p : Principal) (action : ContradictionResolveAction) (o : Option MemoryRelationRow) (w : World)
    → WellFormed w
    → ((rel : MemoryRelationRow) → o ≡ some rel → PriorsOk rel)
    → Ensures (IsPath w) (resolve_found p action o w)
resolve_found-IsPath p action none w wf ok = throws
resolve_found-IsPath p action (some rel) w wf ok =
    Ensures-if (is_some rel.resolved_at) _ _ w (λ _. returns here)
      (λ _. after_pair _ rel.a_memory_id rel.b_memory_id w λ a b ne fa fb.
        Ensures-if (owns_both p a b) _ _ w
          (λ _.
            resolve_owned-IsPath p rel action a b w wf
              (record {
                found_a = own_key rel.a_memory_id w a fa;
                found_b = own_key rel.b_memory_id w b fb;
                apart = locked-apart rel.a_memory_id rel.b_memory_id w a b ne fa fb;
              })
              (ok rel refl))
          (λ _. throws))

pub resolve_contradiction-IsPath :
    (p : Principal) (id : ℕ) (action : ContradictionResolveAction) (w : World)
    → WellFormed w
    → Ensures (IsPath w) (resolve_contradiction p id action w)
unfolding resolve_contradiction select_relation
resolve_contradiction-IsPath p id action w wf = Ensures-transaction w (
    resolve_found-IsPath p action (find relation_key id w.relations) w wf
      λ rel e. find-All relation_key PriorsOk id w.relations rel wf.priors e)

restore_partner-IsPath :
    (org : Option String) (prior : MemoryStatus) (id : ℕ) (o : Option MemoryRow) (w : World)
    → find memory_key id w.memories ≡ o
    → prior ≢ replaced
    → Ensures (IsPath w) (restore_partner org prior o w)
restore_partner-IsPath org prior id none w found live = returns here
restore_partner-IsPath org prior id (some row) w found live =
    Ensures-bind _ (restore-Reach row prior _ _ org w (own_key id w row found) live)
      λ _ w' (path, _). returns path

lift_side-IsPath :
    (org : Option String) (rel : MemoryRelationRow) (side : Option Side) (w : World)
    → PriorsOk rel
    → Ensures (IsPath w) (lift_side org rel side w)
unfolding select_memory
lift_side-IsPath org rel none w ok = returns here
lift_side-IsPath org rel (some side_a) w ok =
    restore_partner-IsPath org rel.a_prior_status rel.a_memory_id _ w refl ok.0
lift_side-IsPath org rel (some side_b) w ok =
    restore_partner-IsPath org rel.b_prior_status rel.b_memory_id _ w refl ok.1

lift_all-IsPath :
    (org : Option String) (doomed : List ℕ) (rels : List MemoryRelationRow) (w : World)
    → All PriorsOk rels
    → Ensures (IsPath w) (lift_all org doomed rels w)
unfolding lift_all lift_one
lift_all-IsPath org doomed [] w ok = returns here
lift_all-IsPath org doomed (rel ∷ rels) w ok =
    Ensures-bind _ (lift_side-IsPath org rel (partner_side doomed rel) w ok.0) λ _ v one.
      Ensures-bind _ (lift_all-IsPath org doomed rels v ok.1)
        λ _ w' two. returns (Reach-trans one two)

pub lift_contradictions_before_deletion-IsPath :
    (org : Option String) (doomed : List ℕ) (w : World)
    → WellFormed w
    → Ensures (IsPath w) (lift_contradictions_before_deletion org doomed w)
unfolding lift_contradictions_before_deletion
lift_contradictions_before_deletion-IsPath org doomed w wf =
    lift_all-IsPath org doomed (keep (is_open_on doomed) w.relations) w
      (All-keep _ _ w.relations wf.priors)
