-- ===== src/Memory/Deletion/Erasure/Total.antt =====
-- The erasure returns where no call of the index fails: no statement of it is refused.
use cogeto.Base.{
  ℕ, zero, suc, String, Bool, true, false, Option, none, some, List, [], ◌∷◌, ◌≡◌, refl, ◌||◌, not,
  keep, map, any, Bool-cases, inl, inr, length, drop,
}
use cogeto.Shared.{
  SourceType, MemoryStatus, contradicted, same_status, same_source_type, email, Principal,
}
use cogeto.Db.{
  World, MemoryRow, MemoryRelationRow, FileRow, AuditAction, Cancellation, fresh_id, write_audit,
  enqueue, select_memory, update_memory, status_patch, ok,
}
use cogeto.Db.Total.{Returns, returned, Returns-bind, Calm, set_payload_if_any-Calm}
use cogeto.Memory.Reconciliation.Resolve.{
  Side, restore_from_contradiction, restore_partner, lift_side, lift_one, lift_all, partner_side,
  prior_of, is_open_on, lift_contradictions_before_deletion,
}
use cogeto.Memory.Deletion.Cascades.{
  tasks_cascade, redact_batch, redact_batches, ids_per_statement, chat_answer_cascade,
  reply_draft_cascade,
}
use cogeto.Memory.Deletion.Saga.{
  ResolvedSource, is_orphaned, null_pointer, delete_memories, erase_rows, delete_own, write_receipt,
  erase,
}

restore-Calm :
    (row : MemoryRow) (prior : MemoryStatus) (action : AuditAction) (actor : String)
    (org : Option String) (w : World)
    → Calm w
    → Returns (λ _ w'. Calm w') (restore_from_contradiction row prior action actor org w)
unfolding restore_from_contradiction update_memory write_audit
restore-Calm row prior action actor org w c =
    elim (Bool-cases
      (not (same_status row.status contradicted) || same_status prior contradicted)) [
        | inl kept ↦ rw kept (returned c)
        | inr lifted ↦ rw lifted (
            set_payload_if_any-Calm row.id (status_patch prior) _
              (record { up = c.up; index = c.index }))
      ]

restore_partner-Calm :
    (org : Option String) (prior : MemoryStatus) (row : Option MemoryRow) (w : World)
    → Calm w
    → Returns (λ _ w'. Calm w') (restore_partner org prior row w)
restore_partner-Calm org prior none w c = returned c
restore_partner-Calm org prior (some row) w c =
    Returns-bind (λ _ v. ok 1 v) (restore-Calm row prior _ _ org w c) λ _ v d. returned d

lift_side-Calm :
    (org : Option String) (rel : MemoryRelationRow) (side : Option Side) (w : World)
    → Calm w
    → Returns (λ _ w'. Calm w') (lift_side org rel side w)
unfolding select_memory
lift_side-Calm org rel none w c = returned c
lift_side-Calm org rel (some side) w c = restore_partner-Calm org (prior_of rel side) _ w c

lift_all-Calm :
    (org : Option String) (doomed : List ℕ) (rels : List MemoryRelationRow) (w : World)
    → Calm w
    → Returns (λ _ w'. Calm w') (lift_all org doomed rels w)
unfolding lift_all lift_one
lift_all-Calm org doomed [] w c = returned c
lift_all-Calm org doomed (rel ∷ rels) w c =
    Returns-bind _ (lift_side-Calm org rel (partner_side doomed rel) w c)
      λ one v d. Returns-bind _ (lift_all-Calm org doomed rels v d) λ rest u e. returned e

lift-Calm :
    (org : Option String) (doomed : List ℕ) (w : World)
    → Calm w
    → Returns (λ _ w'. Calm w') (lift_contradictions_before_deletion org doomed w)
unfolding lift_contradictions_before_deletion
lift-Calm org doomed w c = lift_all-Calm org doomed (keep (is_open_on doomed) w.relations) w c

tasks_cascade-Calm :
    (ids : List ℕ) (w : World) → Calm w → Returns (λ _ w'. Calm w') (tasks_cascade ids w)
unfolding tasks_cascade
tasks_cascade-Calm [] w c = returned c
tasks_cascade-Calm (id ∷ ids) w c = returned (record { up = c.up; index = c.index })

redact_batches-Calm :
    (rounds : ℕ) (ids : List ℕ) (w : World)
    → Calm w
    → Returns (λ _ w'. Calm w') (redact_batches rounds ids w)
unfolding redact_batches redact_batch
redact_batches-Calm zero ids w c = returned c
redact_batches-Calm (suc rounds) [] w c = returned c
redact_batches-Calm (suc rounds) (id ∷ ids) w c =
    Returns-bind _
      (redact_batches-Calm rounds (drop ids_per_statement (id ∷ ids)) _
        (record { up = c.up; index = c.index }))
      λ rest v d. returned d

reply_draft_cascade-Calm :
    (type : SourceType) (id : String) (w : World)
    → Calm w
    → Returns (λ _ w'. Calm w') (reply_draft_cascade type id w)
unfolding reply_draft_cascade
reply_draft_cascade-Calm type id w c = elim (Bool-cases (same_source_type type email)) [
  | inl e ↦ rw e (returned (record { up = c.up; index = c.index }))
  | inr e ↦ rw e (returned c)
]

-- Once the pointers are nulled, the deletion of the rows is not refused.
none_orphaned :
    (ids : List ℕ) (now : ℕ) (rows : List MemoryRow)
    → any (is_orphaned ids) (map (null_pointer ids now) rows) ≡ false
none_orphaned ids now [] = refl
none_orphaned ids now (row ∷ rows) = elim (Bool-cases (is_orphaned ids row)) [
  | inl e ↦ rw e (none_orphaned ids now rows)
  | inr e ↦ rw e (rw e (none_orphaned ids now rows))
]

erase_rows-Calm : (ids : List ℕ) (w : World) → Calm w → Returns (λ _ w'. Calm w') (erase_rows ids w)
unfolding erase_rows delete_memories
erase_rows-Calm [] w c = returned c
erase_rows-Calm (id ∷ ids) w c =
    rw (none_orphaned (id ∷ ids) w.now w.memories)
      (returned (record { up = c.up; index = c.index }))

delete_own-Calm :
    (type : SourceType) (id : String) (row : Option FileRow) (adapter : Bool) (w : World)
    → Calm w
    → Returns (λ _ w'. Calm w') (delete_own type id row adapter w)
unfolding delete_own
delete_own-Calm type id none true w c = returned (record { up = c.up; index = c.index })
delete_own-Calm type id none false w c = returned c
delete_own-Calm type id (some row) true w c = returned (record { up = c.up; index = c.index })
delete_own-Calm type id (some row) false w c = returned (record { up = c.up; index = c.index })

pub erase-Calm :
    (p : Principal) (type : SourceType) (id : String) (source : ResolvedSource)
    (ingestion : Cancellation) (doomed : List ℕ) (keys : List String) (w : World)
    → Calm w
    → Returns (λ _ w'. Calm w') (erase p type id source ingestion doomed keys w)
unfolding erase write_receipt fresh_id enqueue write_audit chat_answer_cascade
erase-Calm p type id source ingestion doomed keys w c =
    Returns-bind _ (lift-Calm (some p.org_id) doomed w c) λ lifted v1 c1.
      Returns-bind _ (tasks_cascade-Calm doomed v1 c1) λ tasks v2 c2.
        Returns-bind _ (redact_batches-Calm (length doomed) doomed v2 c2) λ answers v3 c3.
          Returns-bind _ (reply_draft_cascade-Calm type id v3 c3) λ drafts v4 c4.
            Returns-bind _ (erase_rows-Calm doomed v4 c4) λ nulled v5 c5.
              Returns-bind _ (delete_own-Calm type id source.file_row source.adapter v5 c5)
                λ own v6 c6. returned (record { up = c6.up; index = c6.index })
