-- ===== src/Memory/Deletion/Erasure/Deletes.antt =====
-- The deletes of the enumeration transaction: the memories, and the source's own row.
use cogeto.Base.{
  ℕ, String, Bool, true, false, Option, none, some, List, [], ◌∷◌, ◌≡◌, refl, sym, ap,
  if◌then◌else◌, keep, first, map, All, All-keep, Bool-cases, inl, inr, any,
}
use cogeto.Shared.{SourceType, file, same_source_type}
use cogeto.Db.{World, Vault, MemoryRow, FileRow}
use cogeto.Db.Outcome.{Ensures, returns, throws, Ensures-bind}
use cogeto.Memory.Deletion.Ports.{is_file, is_chat, is_message, is_source, owner_of, delete_source}
use cogeto.Memory.Deletion.Saga.{
  file_owner, is_orphaned, null_pointer, names_one_of, delete_memories, erase_rows, delete_own,
  delete_kept,
}
use cogeto.Memory.Deletion.Erasure.Rows.{
  facts, stays, PointsElsewhere, facts-null_pointer, facts-survivors, survivors-PointsElsewhere,
  first-keep_others,
}
use cogeto.Memory.Deletion.Erasure.Redactions.{Silent}

-- The rows of the erased memories are gone; nothing else has changed but rows' pointers.
pub record RowsErased (ids : List ℕ) (w w' : World) : Type 0 where
  pub survivors : facts w'.memories ≡ facts (keep (stays ids) w.memories)
  pub elsewhere : All (PointsElsewhere ids) w'.memories
  pub vault : w'.vault ≡ w.vault
  pub approvals : w'.approvals ≡ w.approvals
  pub jobs : w'.jobs ≡ w.jobs
  pub next_id : w'.next_id ≡ w.next_id

keep_all : (rows : List MemoryRow) → keep (stays []) rows ≡ rows
keep_all [] = refl
keep_all (row ∷ rows) = ap (λ l. row ∷ l) (keep_all rows)

no_pointers : (rows : List MemoryRow) → All (PointsElsewhere []) rows
no_pointers [] = tt
no_pointers (row ∷ rows) = (by_pointer row.superseded_by, no_pointers rows)
  where
    by_pointer : (o : Option ℕ) → names_one_of [] o ≡ false
    by_pointer none = refl
    by_pointer (some id) = refl

pub erase_rows-RowsErased :
    (ids : List ℕ) (w : World) → Ensures (λ _ w'. RowsErased ids w w') (erase_rows ids w)
unfolding erase_rows delete_memories
erase_rows-RowsErased [] w = returns (record {
  survivors = ap facts (sym (keep_all w.memories));
  elsewhere = no_pointers w.memories;
  vault = refl;
  approvals = refl;
  jobs = refl;
  next_id = refl;
})
erase_rows-RowsErased (id ∷ ids) w =
    let doomed : List ℕ = id ∷ ids in
    let nulled : List MemoryRow = map (null_pointer doomed w.now) w.memories in
    elim (Bool-cases (any (is_orphaned doomed) nulled)) [
      | inl refused ↦ rw refused throws
      | inr free ↦ rw free (
          returns (record {
            survivors =
                facts-survivors doomed nulled w.memories
                  (facts-null_pointer doomed w.now w.memories);
            elsewhere = survivors-PointsElsewhere doomed w.now w.memories;
            vault = refl;
            approvals = refl;
            jobs = refl;
            next_id = refl;
          }))
    ]

-- The owner of the row that is left of a source.
abbrev pub source_left : SourceType → String → Vault → Option String
source_left type id v =
    if same_source_type type file
    then file_owner (first (is_file id) v.files)
    else owner_of type id v

-- How a source was resolved: as a file, whose row may be missing, or as a connector's row.
pub data Resolution (type : SourceType) (id : String) (row : Option FileRow) (adapter : Bool)
    (w : World) : Type 0 where
  a_file :
      same_source_type type file ≡ true
      → adapter ≡ false
      → (row ≡ none → first (is_file id) w.vault.files ≡ none)
      → Resolution type id row adapter w
  kept :
      same_source_type type file ≡ false
      → adapter ≡ true
      → row ≡ none
      → Resolution type id row adapter w

delete_source-owner_of :
    (type : SourceType) (id : String) (v : Vault)
    → owner_of type id (delete_source type id v) ≡ none
unfolding owner_of delete_source
delete_source-owner_of type id v = elim (Bool-cases (is_chat type)) [
  | inl e ↦ rw e (rw (first-keep_others (is_message id) v.messages) refl)
  | inr e ↦ rw e (rw (first-keep_others (is_source type id) v.sources) refl)
]

-- The own keys of a source.
abbrev pub own_keys : String → Option FileRow → List String
own_keys id none = []
own_keys id (some row) = id ∷ []

-- The source's row is gone; nothing of the rest has appeared.
pub record RowGone (type : SourceType) (id : String) (w w' : World) : Type 0 where
  pub memories : w'.memories ≡ w.memories
  pub approvals : w'.approvals ≡ w.approvals
  pub tasks : w'.vault.tasks ≡ w.vault.tasks
  pub silent :
      (ids : List ℕ) → All (Silent ids) w.vault.messages → All (Silent ids) w'.vault.messages
  pub receipts : w'.vault.receipts ≡ w.vault.receipts
  pub jobs : w'.jobs ≡ w.jobs
  pub next_id : w'.next_id ≡ w.next_id
  pub gone : source_left type id w'.vault ≡ none

delete_source-Silent :
    (type : SourceType) (id : String) (v : Vault) (ids : List ℕ)
    → All (Silent ids) v.messages
    → All (Silent ids) (delete_source type id v).messages
unfolding delete_source
delete_source-Silent type id v ids h = elim (Bool-cases (is_chat type)) [
  | inl e ↦ rw e (All-keep (Silent ids) _ v.messages h)
  | inr e ↦ rw e h
]

delete_source-rest :
    (type : SourceType) (id : String) (v : Vault)
    → ((delete_source type id v).tasks ≡ v.tasks)
      × ((delete_source type id v).receipts ≡ v.receipts)
unfolding delete_source
delete_source-rest type id v = elim (Bool-cases (is_chat type)) [
  | inl e ↦ rw e (refl, refl)
  | inr e ↦ rw e (refl, refl)
]

delete_kept-RowGone :
    (type : SourceType) (id : String) (w : World)
    → same_source_type type file ≡ false
    → Ensures (λ _ w'. RowGone type id w w') (delete_kept type id true w)
delete_kept-RowGone type id w other =
    let rest = delete_source-rest type id w.vault in
    returns (record {
      memories = refl;
      approvals = refl;
      tasks = rest.0;
      silent = delete_source-Silent type id w.vault;
      receipts = rest.1;
      jobs = refl;
      next_id = refl;
      gone = rw other (delete_source-owner_of type id w.vault);
    })

pub delete_own-RowGone :
    (type : SourceType) (id : String) (row : Option FileRow) (adapter : Bool) (w : World)
    → Resolution type id row adapter w
    → Ensures
        (λ own w'. (own ≡ own_keys id row) × RowGone type id w w')
        (delete_own type id row adapter w)
unfolding delete_own
delete_own-RowGone type id (some row) true w (a_file is off none_left) = absurd (cc off)
delete_own-RowGone type id (some row) true w (kept other is none_left) = absurd (cc none_left)
delete_own-RowGone type id (some row) false w (kept other is none_left) = absurd (cc is)
delete_own-RowGone type id none false w (kept other is none_left) = absurd (cc is)
delete_own-RowGone type id none true w (a_file is off none_left) = absurd (cc off)
delete_own-RowGone type id none true w (kept other is none_left) =
    Ensures-bind _ (delete_kept-RowGone type id w other) λ _ w' g. returns (refl, g)
delete_own-RowGone type id none false w (a_file is off none_left) = returns (
  refl,
  record {
    memories = refl;
    approvals = refl;
    tasks = refl;
    silent = λ ids h. h;
    receipts = refl;
    jobs = refl;
    next_id = refl;
    gone = rw is (rw (none_left refl) refl);
  },
)
delete_own-RowGone type id (some row) false w (a_file is off none_left) = returns (
  refl,
  record {
    memories = refl;
    approvals = refl;
    tasks = refl;
    silent = λ ids h. h;
    receipts = refl;
    jobs = refl;
    next_id = refl;
    gone = rw is (rw (first-keep_others (is_file id) w.vault.files) refl);
  },
)
