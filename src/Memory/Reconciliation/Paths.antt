-- ===== src/Memory/Reconciliation/Paths.antt =====
-- Contradictions and supersessions of a pair as paths of the abstract machine.
use cogeto.Base.{ℕ, String, Bool, true, false, ◌≢◌, refl, arith, not, ◌||◌}
use cogeto.Shared.{replaced, contradicted, same_status}
use cogeto.Db.{World, MemoryRow, fresh_id, insert_relation, write_audit}
use cogeto.Db.Outcome.{Ensures, returns, Ensures-if, Ensures-bind}
use cogeto.Memory.Transition.{reconciliation}
use cogeto.Memory.Policy.{supersession_unambiguous}
use cogeto.Memory.Facts.{org_for}
use cogeto.Memory.Store.Paths.{IsPath, transition_in_tx-IsPath}
use cogeto.Memory.Reconciliation.{
  as_party, is_replaced, apply_supersession, relate, relate_unless, create_contradiction,
  contradict_one, is_related,
}
use cogeto.Memory.Reconciliation.Rules.{after_pair}
use cogeto.Memory.Machine.{quiet, here, next, Reach-Step, Reach-trans, related}
use cogeto.Memory.Reconciliation.MergePaths.{LivePair, LivePair-locked, close_and_point-IsPath}

pub apply_supersession-IsPath :
    (winner loser : ℕ) (w : World) → Ensures (IsPath w) (apply_supersession winner loser w)
unfolding apply_supersession
apply_supersession-IsPath winner loser w = after_pair _ winner loser w λ a b ne fa fb.
    Ensures-if (is_replaced a || is_replaced b) _ _ w (λ _. returns here)
      (λ live.
        Ensures-if (not (supersession_unambiguous (as_party a) (as_party b))) _ _ w
          (λ _. returns here)
          (λ _.
            let pair : LivePair w a b =
              LivePair-locked winner loser w a b ne fa fb (ground arith) (ground arith) in
            Ensures-bind _
              (close_and_point-IsPath b a _ _ _ w pair.found_b pair.live_b (rw pair.found_a refl)
                pair.apart)
              λ _ w' path. returns path))

contradict_one-IsPath : (row : MemoryRow) (w : World) → Ensures (IsPath w) (contradict_one row w)
contradict_one-IsPath row w =
    Ensures-if (same_status row.status contradicted) _ _ w (λ _. returns here)
      (λ _.
        Ensures-bind _ (transition_in_tx-IsPath reconciliation row.id contradicted true w)
          λ _ w' path. returns path)

relate-IsPath :
    (a b : MemoryRow) (reason : String) (w : World)
    → a.status ≢ replaced
    → b.status ≢ replaced
    → Ensures (IsPath w) (relate a b reason w)
unfolding fresh_id insert_relation write_audit org_for
relate-IsPath a b reason w la lb = Ensures-bind _ (contradict_one-IsPath a _) λ _ v one.
    Ensures-bind _ (contradict_one-IsPath b v) λ _ w' two. returns (
      next
        (Reach-trans
          (Reach-Step (
            related
              (record { priors = λ ps. ((la, lb), ps); memories = refl; later = omega arith })))
          (Reach-trans one two))
        (quiet (record { memories = refl; relations = refl; next_id = refl })))

relate_unless-IsPath :
    (a b : MemoryRow) (reason : String) (known : Bool) (w : World)
    → a.status ≢ replaced
    → b.status ≢ replaced
    → Ensures (IsPath w) (relate_unless a b reason known w)
relate_unless-IsPath a b reason true w la lb = returns here
relate_unless-IsPath a b reason false w la lb = relate-IsPath a b reason w la lb

pub create_contradiction-IsPath :
    (incoming existing : ℕ) (reason : String) (w : World)
    → Ensures (IsPath w) (create_contradiction incoming existing reason w)
unfolding create_contradiction
create_contradiction-IsPath incoming existing reason w =
    after_pair _ incoming existing w λ a b ne fa fb.
      Ensures-if (is_replaced a || is_replaced b) _ _ w (λ _. returns here)
        (λ live.
          relate_unless-IsPath a b reason (is_related a.id b.id w.relations) w (ground arith)
            (ground arith))
