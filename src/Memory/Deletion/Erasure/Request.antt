-- ===== src/Memory/Deletion/Erasure/Request.antt =====
-- What a deletion leaves: nothing of the source, and a receipt that says what is gone.
use cogeto.Base.{
  not, ◌||◌, ℕ, suc, String, Bool, true, false, Option, none, some, List, ◌∷◌, ◌++◌, ◌≡◌, refl, sym,
  ap, ◌∙◌, subst, keep, first, All, All-append, length, is_blank,
}
use cogeto.Shared.{SourceType, Principal}
use cogeto.Db.{
  World, Vault, FileRow, ReceiptRow, ReceiptCounts, Cancellation, execute_deletion, fresh_id,
  write_audit, enqueue,
}
use cogeto.Db.Outcome.{
  Ensures, returns, throws, Ensures-if, Ensures-bind, Ensures-mono, Ensures-both,
  Ensures-transaction,
}
use cogeto.Memory.Deletion.Ports.{is_file, is_from, owner_of, enumerate_cascade}
use cogeto.Memory.Deletion.Cascades.{is_derived}
use cogeto.Memory.Deletion.Saga.{
  ResolvedSource, is_foreign, row_ids, push_keys, pending_receipt, counts_for, write_receipt, erase,
  request_in_tx, request_source_deletion,
}
use cogeto.Memory.Deletion.Erasure.Rows.{facts, stays, PointsElsewhere, facts-survivors}
use cogeto.Memory.Deletion.Erasure.Stages.{Steady, Steady-trans, lift-Steady, tasks_cascade-All}
use cogeto.Memory.Deletion.Erasure.Redactions.{
  Silent, Withdrawn, chat_answer_cascade-All, reply_draft_cascade-All,
}
use cogeto.Memory.Deletion.Erasure.Gathering.{
  Gathering, Gathering-refl, Gathering-trans, cancel_pending-Gathering, resolve_source-Resolution,
  hide_if-false, enumerate-Own, cascade_files-Own, enumerate_cascade-sources, derived_rows,
  attached_rows, Own,
}
use cogeto.Memory.Deletion.Executor.Copies.{is_listed}
use cogeto.Memory.Deletion.Erasure.Members.{is_object_of}
use cogeto.Memory.Deletion.Erasure.Objects.{
  keys_complete, cancel_pending-files, cascade_files-Listed, resolve_source-file,
}
use cogeto.Memory.Deletion.Erasure.Deletes.{
  erase_rows-RowsErased, source_left, Resolution, a_file, kept, own_keys, delete_own-RowGone,
}

-- The receipt of a deletion.
pub record Receipted (p : Principal) (type : SourceType) (id : String) (doomed : List ℕ)
    (keys : List String) (w : World) (receipt : ℕ) (w' : World) : Type 0 where
  pub counts : ReceiptCounts
  pub written : w'.vault.receipts ≡ pending_receipt receipt counts ∷ w.vault.receipts
  pub source : counts.source ≡ record { source_type = type; source_id = id }
  pub requester : counts.requested_by ≡ p.user_id
  pub memory_ids : counts.memory_ids ≡ doomed
  pub memory_count : counts.memory_count ≡ length doomed
  pub point_ids : counts.point_ids ≡ doomed
  pub object_keys : counts.object_keys ≡ keys
  pub job : w'.jobs ≡ execute_deletion receipt ∷ w.jobs
  pub fresh : receipt ≡ w.next_id
  pub next_id : w'.next_id ≡ suc w.next_id

-- What is left once the memories `doomed` and their source are erased from `w`.
pub record Erased (p : Principal) (type : SourceType) (id : String) (doomed : List ℕ)
    (keys : List String) (w : World) (receipt : ℕ) (w' : World) : Type 0 where
  pub survivors : facts w'.memories ≡ facts (keep (stays doomed) w.memories)
  pub elsewhere : All (PointsElsewhere doomed) w'.memories
  pub tasks : All (λ t. is_derived doomed t ≡ false) w'.vault.tasks
  pub answers : All (Silent doomed) w'.vault.messages
  pub drafts : All (Withdrawn type id) w'.approvals
  pub gone : source_left type id w'.vault ≡ none
  pub receipted : Receipted p type id doomed keys w receipt w'

Resolution-later :
    (type : SourceType) (id : String) (row : Option FileRow) (adapter : Bool) (w w' : World)
    → (first (is_file id) w.vault.files ≡ none → first (is_file id) w'.vault.files ≡ none)
    → Resolution type id row adapter w
    → Resolution type id row adapter w'
Resolution-later type id row adapter w w' keeps (a_file is off none_left) =
    a_file is off (λ e. keeps (none_left e))
Resolution-later type id row adapter w w' keeps (kept other is none_left) = kept other is none_left

source_left-receipts :
    (type : SourceType) (id : String) (v : Vault) (receipts : List ReceiptRow)
    → source_left type id (record v { receipts = receipts }) ≡ source_left type id v
unfolding owner_of
source_left-receipts type id v receipts = refl

erase-Erased :
    (p : Principal) (type : SourceType) (id : String) (source : ResolvedSource)
    (ingestion : Cancellation) (doomed : List ℕ) (keys : List String) (w : World)
    → Resolution type id source.file_row source.adapter w
    → Ensures
        (Erased p type id doomed (push_keys (own_keys id source.file_row) keys) w)
        (erase p type id source ingestion doomed keys w)
unfolding erase write_receipt fresh_id enqueue write_audit
erase-Erased p type id source ingestion doomed keys w res =
    Ensures-bind _ (lift-Steady (some p.org_id) doomed w) λ lifted v1 s1.
      Ensures-bind _ (tasks_cascade-All doomed v1) λ tasks v2 (s2, no_tasks).
        Ensures-bind _ (chat_answer_cascade-All doomed v2) λ answers v3 (s3, same_tasks, silent).
          Ensures-bind _ (reply_draft_cascade-All type id v3)
            λ drafts v4 (s4, same_vault, withdrawn).
              let s : Steady w v4 = Steady-trans (Steady-trans (Steady-trans s1 s2) s3) s4 in
              Ensures-bind _ (erase_rows-RowsErased doomed v4) λ nulled v5 e.
                let files : v5.vault.files ≡ w.vault.files = ap (λ v. v.files) e.vault ∙ s.files in
                Ensures-bind _
                  (delete_own-RowGone type id source.file_row source.adapter v5 (
                    Resolution-later type id source.file_row source.adapter w v5
                      (λ q. ap (first (is_file id)) files ∙ q) res))
                  λ own v6 (keyed, g).
                    let counts : ReceiptCounts =
                      counts_for p type id doomed (push_keys own keys) tasks answers drafts nulled
                        v6.now in
                    returns (record {
                      survivors =
                          ap facts g.memories
                          ∙ e.survivors
                          ∙ facts-survivors doomed v4.memories w.memories s.facts_same;
                      elsewhere = subst (All (PointsElsewhere doomed)) (sym g.memories) e.elsewhere;
                      tasks =
                          subst (All (λ t. is_derived doomed t ≡ false))
                            (sym (
                              g.tasks
                              ∙ ap (λ v. v.tasks) e.vault
                              ∙ ap (λ v. v.tasks) same_vault
                              ∙ same_tasks))
                            no_tasks;
                      answers = g.silent doomed (
                          subst (All (Silent doomed))
                            (sym (ap (λ v. v.messages) e.vault ∙ ap (λ v. v.messages) same_vault))
                            silent);
                      drafts =
                          subst (All (Withdrawn type id)) (sym (g.approvals ∙ e.approvals))
                            withdrawn;
                      gone = source_left-receipts type id v6.vault _ ∙ g.gone;
                      receipted = record {
                        counts = counts;
                        written =
                            ap (λ l. pending_receipt v6.next_id counts ∷ l)
                              (g.receipts ∙ ap (λ v. v.receipts) e.vault ∙ s.receipts);
                        source = refl;
                        requester = refl;
                        memory_ids = refl;
                        memory_count = refl;
                        point_ids = refl;
                        object_keys = ap (λ l. push_keys l keys) keyed;
                        job = ap (λ l. execute_deletion v6.next_id ∷ l) (g.jobs ∙ e.jobs ∙ s.jobs);
                        fresh = g.next_id ∙ e.next_id ∙ s.next_id;
                        next_id = ap suc (g.next_id ∙ e.next_id ∙ s.next_id);
                      };
                    })

-- What a deletion leaves of a source that it was entitled to delete.
pub record Deletion (p : Principal) (type : SourceType) (id : String) (w : World) (receipt : ℕ)
    (w' : World) : Type 0 where
  pub keys : List String
  pub entitled : All (Own p) (derived_rows type id w)
  pub complete : (k : String) → (not (is_object_of type id w k) || is_listed keys k) ≡ true
  pub erased : Erased p type id (row_ids (derived_rows type id w)) keys w receipt w'

Erased-from :
    (p : Principal) (type : SourceType) (id : String) (doomed ids : List ℕ) (keys : List String)
    (w v : World) (receipt : ℕ) (w' : World)
    → Gathering w v
    → doomed ≡ ids
    → Erased p type id doomed keys v receipt w'
    → Erased p type id ids keys w receipt w'
Erased-from p type id doomed ids keys w v receipt w' g same e =
    let r = e.receipted in
    let back : Erased p type id doomed keys w receipt w' = record {
      survivors = e.survivors ∙ ap (λ m. facts (keep (stays doomed) m)) g.memories;
      elsewhere = e.elsewhere;
      tasks = e.tasks;
      answers = e.answers;
      drafts = e.drafts;
      gone = e.gone;
      receipted = record {
        counts = r.counts;
        written = r.written ∙ ap (λ l. pending_receipt receipt r.counts ∷ l) g.receipts;
        source = r.source;
        requester = r.requester;
        memory_ids = r.memory_ids;
        memory_count = r.memory_count;
        point_ids = r.point_ids;
        object_keys = r.object_keys;
        job = r.job ∙ ap (λ l. execute_deletion receipt ∷ l) g.jobs;
        fresh = r.fresh ∙ g.next_id;
        next_id = r.next_id ∙ ap suc g.next_id;
      };
    } in
    subst (λ d. Erased p type id d keys w receipt w') same back

implied : (a b : Bool) → (a ≡ true → b ≡ true) → (not a || b) ≡ true
implied true b f = f refl
implied false b f = refl

pub request_in_tx-Deletion :
    (p : Principal) (type : SourceType) (id : String) (w : World)
    → Ensures (Deletion p type id w) (request_in_tx p type id w)
unfolding request_in_tx
request_in_tx-Deletion p type id w =
    Ensures-bind _
      (Ensures-both (resolve_source-Resolution type id w) (resolve_source-file type id w))
      λ source v0 ((e0, res), own_file).
        Ensures-bind _ (hide_if-false (is_foreign p source.owner) v0) λ _ v1 (e1, own_source).
          Ensures-bind _
            (Ensures-both (cancel_pending-Gathering type id _ v1)
              (cancel_pending-files type id _ v1))
            λ ingestion v2 (g2, f2).
              Ensures-bind _ (enumerate-Own p type id source.owner v2) λ rows v3 (e3, are, mine).
                let members = enumerate_cascade type id v3.vault in
                Ensures-bind _
                  (Ensures-both (cascade_files-Own p members.file_sub_source_keys v3)
                    (cascade_files-Listed p members.file_sub_source_keys v3))
                  λ r v4 ((g4, sub, theirs), attached).
                    let g1 : Gathering w v1 =
                      subst (Gathering w) (sym (e1 ∙ e0)) (Gathering-refl w) in
                    let g3 : Gathering w v3 =
                      subst (Gathering w) (sym e3) (Gathering-trans g1 g2) in
                    let g : Gathering w v4 = Gathering-trans g3 g4 in
                    let files : v3.vault.files ≡ w.vault.files =
                      ap (λ v. v.vault.files) e3 ∙ f2 ∙ ap (λ v. v.vault.files) (e1 ∙ e0) in
                    let first_part : rows ≡ keep (is_from type id) w.memories =
                      are
                      ∙ ap (keep (is_from type id)) (ap (λ u. u.memories) (sym e3) ∙ g3.memories) in
                    let same_members =
                      enumerate_cascade-sources type id w.vault v3.vault g3.sources in
                    let second_part : r.0
                        ≡ attached_rows (enumerate_cascade type id w.vault).file_sub_source_keys
                            w.memories =
                      sub
                      ∙ ap (attached_rows members.file_sub_source_keys) g3.memories
                      ∙ ap (λ m. attached_rows m.file_sub_source_keys w.memories) same_members in
                    let all_rows : rows ++ r.0 ≡ derived_rows type id w =
                      ap (λ l. l ++ r.0) first_part
                      ∙ ap (λ l. keep (is_from type id) w.memories ++ l) second_part in
                    Ensures-mono
                      (erase-Erased p type id source ingestion (row_ids (rows ++ r.0))
                        (members.object_keys ++ r.1) v4
                        (Resolution-later type id source.file_row source.adapter w v4
                          (g.no_files id) res))
                      λ receipt w' e. record {
                        keys = push_keys (own_keys id source.file_row) (members.object_keys ++ r.1);
                        complete = λ k. implied (is_object_of type id w k) _ (
                            keys_complete type id w v3 source.file_row r.1 same_members files
                              (λ e. own_file e) attached k);
                        entitled =
                            subst (All (Own p)) all_rows (All-append (Own p) rows r.0 mine theirs);
                        erased =
                            Erased-from p type id (row_ids (rows ++ r.0))
                              (row_ids (derived_rows type id w)) _ w v4 receipt w' g
                              (ap row_ids all_rows) e;
                      }

-- A deletion that returns was one of a source of which no derived memory is foreign. It erases the
-- memories that derive from the source or its attachments: it leaves exactly the rows of other ids,
-- in their order and unchanged but for status, successor and time of the update, and none of them
-- names an erased one as its successor. No task derives from an erased memory, no answer cites one, the
-- drafts of replies to the source are redacted, and the source's row is gone. A pending receipt
-- lists the erased memories and every object of the source, its file and its stored attachments, and
-- the job that executes it is enqueued.
pub request_source_deletion-Deletion :
    (p : Principal) (type : SourceType) (id : String) (w : World)
    → Ensures (Deletion p type id w) (request_source_deletion p type id w)
unfolding request_source_deletion
request_source_deletion-Deletion p type id w =
    Ensures-if (is_blank id) _ _ w (λ _. throws)
      (λ _. Ensures-transaction w (request_in_tx-Deletion p type id w))
