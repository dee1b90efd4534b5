-- ===== src/Memory/Reconciliation/Detection.antt =====
-- What the detection of a contradiction leaves, and that detecting a pair again changes nothing.
use cogeto.Base.{
  ℕ, String, Bool, true, false, some, List, ◌∷◌, ◌≡◌, ◌≢◌, refl, arith, subst, sym, ◌∙◌, ◌==◌, ◌||◌,
  Bool-cases, inl, inr,
}
use cogeto.Base.Table.{find, find-key, find-update_same, find-update_other}
use cogeto.Shared.{replaced, contradicted, same_status, same_status_iff}
use cogeto.Db.{
  World, ok, MemoryRow, MemoryRelationRow, memory_key, fresh_id, insert_relation, write_audit,
  select_memory,
}
use cogeto.Db.Outcome.{Ensures, returns, Ensures-if, Ensures-bind, Ensures-mono, Ensures-of_run}
use cogeto.Memory.Transition.{reconciliation}
use cogeto.Memory.Facts.{org_for}
use cogeto.Memory.Store.{set_status}
use cogeto.Memory.Store.Rules.{transition_in_tx-Transitioned}
use cogeto.Memory.Store.EditPaths.{own_key}
use cogeto.Memory.Reconciliation.{
  PairActionResult, contradiction_created, skipped, is_replaced, is_related, new_relation,
  contradict_one, relate, relate_unless, lock_pair, create_contradiction,
}
use cogeto.Memory.Reconciliation.Rules.{after_pair}
use cogeto.Memory.Reconciliation.MergePaths.{locked-apart}

-- The row of the table under an id, contradicted.
pub record Accused (w : World) (id : ℕ) (old : MemoryRow) : Type 0 where
  pub row : MemoryRow
  pub found : find memory_key id w.memories ≡ some row
  pub status : row.status ≡ contradicted
  pub owner_id : row.owner_id ≡ old.owner_id
  pub same_id : row.id ≡ old.id

-- One round: the row is contradicted afterwards, and no other row has changed.
record Struck (row : MemoryRow) (w w' : World) : Type 0 where
  accused : Accused w' row.id row
  others : (k : ℕ) → row.id ≢ k → find memory_key k w'.memories ≡ find memory_key k w.memories
  relations : w'.relations ≡ w.relations
  next_id : w'.next_id ≡ w.next_id

contradict_one-Struck :
    (row : MemoryRow) (w : World)
    → find memory_key row.id w.memories ≡ some row
    → Ensures (λ _ w'. Struck row w w') (contradict_one row w)
contradict_one-Struck row w found =
    Ensures-if (same_status row.status contradicted) _ _ w
      (λ e. returns (record {
        accused = record {
          row = row;
          found = found;
          status = (same_status_iff row.status contradicted).0 e;
          owner_id = refl;
          same_id = refl;
        };
        others = λ k ne. refl;
        relations = refl;
        next_id = refl;
      }))
      (λ _.
        Ensures-bind _ (transition_in_tx-Transitioned reconciliation row.id contradicted true w)
          λ row' w' t.
            let same : t.row ≡ row = cc (t.found, found) in
            returns (record {
              accused = record {
                row = set_status contradicted w.now row;
                found = rw t.memories (
                    find-update_same memory_key row.id (set_status contradicted w.now) w.memories
                      row (λ x. refl) found);
                status = refl;
                owner_id = refl;
                same_id = refl;
              };
              others = λ k ne. rw t.memories (
                  find-update_other memory_key row.id k (set_status contradicted w.now) w.memories
                    (λ x. refl) ne);
              relations = t.relations;
              next_id = t.next_id;
            }))

-- A detection: the relation records the pair and its statuses, and both memories are contradicted.
pub record Detected (a b : MemoryRow) (reason : String) (w w' : World) : Type 0 where
  pub relations : w'.relations ≡ new_relation w.next_id a b reason w.now ∷ w.relations
  pub accused_a : Accused w' a.id a
  pub accused_b : Accused w' b.id b
  pub others :
      (k : ℕ) → a.id ≢ k → b.id ≢ k → find memory_key k w'.memories ≡ find memory_key k w.memories

relate-Detected :
    (a b : MemoryRow) (reason : String) (w : World)
    → find memory_key a.id w.memories ≡ some a
    → find memory_key b.id w.memories ≡ some b
    → a.id ≢ b.id
    → Ensures
        (λ res w'. (res ≡ contradiction_created w.next_id) × Detected a b reason w w')
        (relate a b reason w)
unfolding fresh_id insert_relation write_audit org_for
relate-Detected a b reason w fa fb ne = Ensures-bind _ (contradict_one-Struck a _ fa) λ _ v one.
    Ensures-bind _ (contradict_one-Struck b v (one.others b.id ne ∙ fb)) λ _ w' two.
      let accused = one.accused in
      returns (
        refl,
        record {
          relations = two.relations ∙ one.relations;
          accused_a = record {
            row = accused.row;
            found = two.others a.id (λ e. ne (sym e)) ∙ accused.found;
            status = accused.status;
            owner_id = accused.owner_id;
            same_id = accused.same_id;
          };
          accused_b = record {
            row = two.accused.row;
            found = two.accused.found;
            status = two.accused.status;
            owner_id = two.accused.owner_id;
            same_id = two.accused.same_id;
          };
          others = λ k na nb. two.others k nb ∙ one.others k na;
        },
      )

-- The outcomes of a detection that returns.
pub data Detection (one two : ℕ) (reason : String) (w : World) (res : PairActionResult) (w' : World)
    : Type 0 where
  known : res ≡ skipped → w' ≡ w → Detection one two reason w res w'
  detected :
      (a b : MemoryRow)
      → find memory_key one w.memories ≡ some a
      → find memory_key two w.memories ≡ some b
      → a.status ≢ replaced
      → b.status ≢ replaced
      → one ≢ two
      → is_related one two w.relations ≡ false
      → res ≡ contradiction_created w.next_id
      → Detected a b reason w w'
      → Detection one two reason w res w'

relate_unless-Detection :
    (one two : ℕ) (reason : String) (a b : MemoryRow) (w : World) (related : Bool)
    → find memory_key one w.memories ≡ some a
    → find memory_key two w.memories ≡ some b
    → one ≢ two
    → a.id ≢ b.id
    → a.status ≢ replaced
    → b.status ≢ replaced
    → is_related one two w.relations ≡ related
    → Ensures (Detection one two reason w) (relate_unless a b reason related w)
relate_unless-Detection one two reason a b w true fa fb apart ne la lb e = returns (known refl refl)
relate_unless-Detection one two reason a b w false fa fb apart ne la lb e =
    Ensures-mono (relate-Detected a b reason w (own_key one w a fa) (own_key two w b fb) ne)
      λ res w' d. detected a b fa fb la lb apart e d.0 d.1

-- A detection that returns skips the pair and changes nothing, or it found two memories of which
-- none is replaced and which were not related, records them with their statuses in a new relation,
-- leaves both contradicted, and leaves every other memory as it was.
pub create_contradiction-Detection :
    (one two : ℕ) (reason : String) (w : World)
    → Ensures (Detection one two reason w) (create_contradiction one two reason w)
unfolding create_contradiction
create_contradiction-Detection one two reason w = after_pair _ one two w λ a b ne fa fb.
    Ensures-if (is_replaced a || is_replaced b) _ _ w (λ _. returns (known refl refl))
      (λ live.
        let ka : a.id ≡ one = find-key memory_key one w.memories a fa in
        let kb : b.id ≡ two = find-key memory_key two w.memories b fb in
        relate_unless-Detection one two reason a b w _ fa fb ne
          (locked-apart one two w a b ne fa fb) (ground arith) (ground arith) (cc (ka, kb)))

-- A pair that is related is skipped, whichever comes first.
tombstone :
    (one two : ℕ) (reason : String) (w : World) (a b : MemoryRow)
    → one ≢ two
    → find memory_key one w.memories ≡ some a
    → find memory_key two w.memories ≡ some b
    → is_related a.id b.id w.relations ≡ true
    → create_contradiction one two reason w ≡ ok skipped w
unfolding create_contradiction lock_pair select_memory
tombstone one two reason w a b ne fa fb related =
    let apart : (one == two) ≡ false = ground (arith, ne) in
    elim (Bool-cases (is_replaced a || is_replaced b)) [
      | inl gone ↦ rw apart (rw (fa, fb) (rw gone refl))
      | inr live ↦ rw apart (rw (fa, fb) (rw live (rw related refl)))
    ]

related_head :
    (a b n now : ℕ) (one two : MemoryRow) (reason : String) (rels : List MemoryRelationRow)
    → one.id ≡ a
    → two.id ≡ b
    → (is_related a b (new_relation n one two reason now ∷ rels) ≡ true)
      × (is_related b a (new_relation n one two reason now ∷ rels) ≡ true)
related_head a b n now one two reason rels ea eb = (ground (arith, ea, eb), ground (arith, ea, eb))

twice :
    (one two id : ℕ) (reason again : String) (w w' : World)
    → Detection one two reason w (contradiction_created id) w'
    → (create_contradiction one two again w' ≡ ok skipped w')
      × (create_contradiction two one again w' ≡ ok skipped w')
twice one two id reason again w w' (known e same) = absurd (cc e)
twice one two id reason again w w' (detected a b fa fb la lb ne fresh e d) =
    let ka : a.id ≡ one = find-key memory_key one w.memories a fa in
    let kb : b.id ≡ two = find-key memory_key two w.memories b fb in
    let x = d.accused_a in
    let y = d.accused_b in
    let fx : find memory_key one w'.memories ≡ some x.row =
      subst (λ k. find memory_key k w'.memories ≡ some x.row) ka x.found in
    let fy : find memory_key two w'.memories ≡ some y.row =
      subst (λ k. find memory_key k w'.memories ≡ some y.row) kb y.found in
    let both =
      related_head x.row.id y.row.id w.next_id w.now a b reason w.relations (sym x.same_id)
        (sym y.same_id) in
    (
      tombstone one two again w' x.row y.row ne fx fy (rw d.relations both.0),
      tombstone two one again w' y.row x.row (λ q. ne (sym q)) fy fx (rw d.relations both.1),
    )

-- Once a contradiction was recorded, detecting the pair again, in either order and for whatever
-- reason, is skipped and changes nothing.
pub create_contradiction_once :
    (one two id : ℕ) (reason again : String) (w w' : World)
    → create_contradiction one two reason w ≡ ok (contradiction_created id) w'
    → (create_contradiction one two again w' ≡ ok skipped w')
      × (create_contradiction two one again w' ≡ ok skipped w')
create_contradiction_once one two id reason again w w' ran = twice one two id reason again w w' (
    Ensures-of_run (contradiction_created id) w' (create_contradiction-Detection one two reason w)
      ran)
