-- ===== src/Memory/Reconciliation/RoundTrip.antt =====
-- A contradiction that is detected and then dismissed leaves the statuses as they were.
use cogeto.Base.{
  ℕ, String, true, Option, some, ◌≡◌, ◌≢◌, refl, arith, subst, sym, ap, ◌∙◌, ==_refl, ◌||◌, not,
}
use cogeto.Base.Table.{find, find-key, find-update_same, find-update_other}
use cogeto.Shared.{MemoryStatus, contradicted, same_status, same_status_iff, Principal}
use cogeto.Db.{
  World, ok, MemoryRow, MemoryRelationRow, memory_key, relation_key, AuditAction, update_memory,
  write_audit, update_relation, select_relation,
}
use cogeto.Db.Outcome.{
  Ensures, returns, throws, Ensures-if, Ensures-bind, Ensures-mono, Ensures-transaction,
  Ensures-of_run, set_payload_if_any-Same,
}
use cogeto.Memory.Store.{set_status}
use cogeto.Memory.Reconciliation.{new_relation, contradiction_created, create_contradiction}
use cogeto.Memory.Store.EditPaths.{own_key}
use cogeto.Memory.Reconciliation.MergePaths.{locked-apart}
use cogeto.Memory.Reconciliation.Rules.{after_pair}
use cogeto.Memory.Reconciliation.Detection.{
  Accused, Detected, Detection, known, detected, create_contradiction-Detection,
}
use cogeto.Memory.Reconciliation.Resolve.{
  dismiss, restore_from_contradiction, apply_dismiss, owns_both, resolve_contradiction,
}

-- The memory under an id has a status.
pub record HasStatus (w : World) (id : ℕ) (status : MemoryStatus) : Type 0 where
  pub row : MemoryRow
  pub found : find memory_key id w.memories ≡ some row
  pub is : row.status ≡ status

record Restored (row : MemoryRow) (prior : MemoryStatus) (w w' : World) : Type 0 where
  back : HasStatus w' row.id prior
  others : (k : ℕ) → row.id ≢ k → find memory_key k w'.memories ≡ find memory_key k w.memories

restore-Restored :
    (row : MemoryRow) (prior : MemoryStatus) (action : AuditAction) (actor : String)
    (org : Option String) (w : World)
    → find memory_key row.id w.memories ≡ some row
    → row.status ≡ contradicted
    → Ensures
        (λ _ w'. Restored row prior w w')
        (restore_from_contradiction row prior action actor org w)
unfolding restore_from_contradiction update_memory write_audit
restore-Restored row prior action actor org w found was =
    Ensures-if (not (same_status row.status contradicted) || same_status prior contradicted) _ _ w
      (λ e.
        let same : same_status prior contradicted ≡ true = ground (arith, e, was) in
        returns (record {
          back = record {
            row = row;
            found = found;
            is = was ∙ sym ((same_status_iff prior contradicted).0 same);
          };
          others = λ k ne. refl;
        }))
      (λ _. Ensures-mono (set_payload_if_any-Same _ _ _) λ _ w' same. record {
        back = record {
          row = set_status prior w.now row;
          found = rw same.memories (
              find-update_same memory_key row.id (set_status prior w.now) w.memories row (λ x. refl)
                found);
          is = refl;
        };
        others = λ k ne. rw same.memories (
            find-update_other memory_key row.id k (set_status prior w.now) w.memories (λ x. refl)
              ne);
      })

apply_dismiss-HasStatus :
    (p : Principal) (a b : MemoryRow) (rel : MemoryRelationRow) (w : World)
    → find memory_key a.id w.memories ≡ some a
    → find memory_key b.id w.memories ≡ some b
    → a.id ≢ b.id
    → a.status ≡ contradicted
    → b.status ≡ contradicted
    → Ensures
        (λ _ w'. HasStatus w' a.id rel.a_prior_status × HasStatus w' b.id rel.b_prior_status)
        (apply_dismiss p a b rel w)
unfolding apply_dismiss
apply_dismiss-HasStatus p a b rel w fa fb ne ca cb =
    Ensures-bind _ (restore-Restored a rel.a_prior_status _ _ _ w fa ca) λ _ v one.
      Ensures-bind _ (restore-Restored b rel.b_prior_status _ _ _ v (one.others b.id ne ∙ fb) cb)
        λ _ w' two.
          let first = one.back in
          returns (
            record {
              row = first.row;
              found = two.others a.id (λ e. ne (sym e)) ∙ first.found;
              is = first.is;
            },
            two.back,
          )

-- The relation of a detection is found under its id.
relation_found :
    (a b : MemoryRow) (reason : String) (w v : World)
    → Detected a b reason w v
    → find relation_key w.next_id v.relations ≡ some (new_relation w.next_id a b reason w.now)
unfolding find
relation_found a b reason w v d = rw d.relations (rw (==_refl w.next_id) refl)

Accused-status :
    (id : ℕ) (v : World) (old x : MemoryRow)
    → (acc : Accused v id old) → find memory_key id v.memories ≡ some x
    → x.status ≡ contradicted
Accused-status id v old x acc found =
    let same : acc.row ≡ x = cc (acc.found, found) in ap (λ r. r.status) (sym same) ∙ acc.status

at_key : (i j : ℕ) (w : World) (s : MemoryStatus) → i ≡ j → HasStatus w i s → HasStatus w j s
at_key i j w s e h = subst (λ k. HasStatus w k s) e h

dismiss-HasStatus :
    (p : Principal) (a b : MemoryRow) (reason : String) (w v : World)
    → a.id ≢ b.id
    → Detected a b reason w v
    → Ensures
        (λ _ w'. HasStatus w' a.id a.status × HasStatus w' b.id b.status)
        (resolve_contradiction p w.next_id dismiss v)
unfolding resolve_contradiction select_relation update_relation write_audit
dismiss-HasStatus p a b reason w v ne d = rw (relation_found a b reason w v d) (
    Ensures-transaction v (
      after_pair _ a.id b.id v λ x y apart fx fy.
        Ensures-if (owns_both p x y) _ _ v
          (λ _.
            let kx : x.id ≡ a.id = find-key memory_key a.id v.memories x fx in
            let ky : y.id ≡ b.id = find-key memory_key b.id v.memories y fy in
            let sx : x.status ≡ contradicted = Accused-status a.id v a x d.accused_a fx in
            let sy : y.status ≡ contradicted = Accused-status b.id v b y d.accused_b fy in
            Ensures-bind _
              (apply_dismiss-HasStatus p x y (new_relation w.next_id a b reason w.now) v
                (own_key a.id v x fx) (own_key b.id v y fy)
                (locked-apart a.id b.id v x y apart fx fy) sx sy)
              λ _ w' both.
                let one = at_key x.id a.id w' a.status kx both.0 in
                let two = at_key y.id b.id w' b.status ky both.1 in
                returns (
                  record { row = one.row; found = one.found; is = one.is },
                  record { row = two.row; found = two.found; is = two.is },
                ))
          (λ _. throws)))

-- A memory has the status that it had.
abbrev pub Unmoved : (w w' : World) → ℕ → Type 0
Unmoved w w' id = (s : MemoryStatus) → HasStatus w id s → HasStatus w' id s

detected-Unmoved :
    (w w' : World) (id : ℕ) (a : MemoryRow)
    → find memory_key id w.memories ≡ some a
    → HasStatus w' a.id a.status
    → Unmoved w w' id
detected-Unmoved w w' id a fa back s before =
    let key : a.id ≡ id = find-key memory_key id w.memories a fa in
    let same : before.row ≡ a = cc (before.found, fa) in
    at_key a.id id w' s key (record {
      row = back.row;
      found = back.found;
      is = back.is ∙ sym (ap (λ r. r.status) same) ∙ before.is;
    })

dismiss-Detection :
    (p : Principal) (one two id : ℕ) (reason : String) (w v : World)
    → Detection one two reason w (contradiction_created id) v
    → Ensures (λ _ w'. Unmoved w w' one × Unmoved w w' two) (resolve_contradiction p id dismiss v)
dismiss-Detection p one two id reason w v (known e same) = absurd (cc e)
dismiss-Detection p one two id reason w v (detected a b fa fb la lb ne fresh e d) =
    let named : w.next_id ≡ id = cc e in
    subst
      (λ n.
        Ensures (λ _ w'. Unmoved w w' one × Unmoved w w' two) (resolve_contradiction p n dismiss v))
      named
      (Ensures-mono
        (dismiss-HasStatus p a b reason w v
          (λ q. ne (
            sym (find-key memory_key one w.memories a fa)
            ∙ q
            ∙ find-key memory_key two w.memories b fb))
          d)
        λ _ w' both. (detected-Unmoved w w' one a fa both.0, detected-Unmoved w w' two b fb both.1))

-- Where the detection of a contradiction recorded it, a dismissal of it that returns gives both
-- memories the status that they had before the detection.
pub create_contradiction-dismiss :
    (p : Principal) (one two id : ℕ) (reason : String) (w v : World)
    → create_contradiction one two reason w ≡ ok (contradiction_created id) v
    → Ensures (λ _ w'. Unmoved w w' one × Unmoved w w' two) (resolve_contradiction p id dismiss v)
create_contradiction-dismiss p one two id reason w v ran =
    dismiss-Detection p one two id reason w v (
      Ensures-of_run (contradiction_created id) v (create_contradiction-Detection one two reason w)
        ran)
