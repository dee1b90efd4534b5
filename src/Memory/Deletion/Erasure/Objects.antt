-- ===== src/Memory/Deletion/Erasure/Objects.antt =====
-- That the receipt of a deletion lists every object of the source.
use cogeto.Base.{
  String, Bool, true, false, Option, none, some, List, [], ◌∷◌, ◌++◌, ◌≡◌, refl, arith, sym, ap,
  subst, ◌∙◌, ◌&&◌, ◌||◌, not, keep, first, is_some, any, str_eq, eq_iff, Bool-cases, inl, inr,
}
use cogeto.Shared.{SourceType, file, same_source_type, Principal}
use cogeto.Db.{World, FileRow}
use cogeto.Db.Outcome.{Ensures, returns, throws, Ensures-if, Ensures-bind}
use cogeto.Memory.Deletion.Ports.{
  SourceCascade, is_file, is_from, has_adapter, enumerate_cascade, cancel_pending, consume_key,
  has_source,
}
use cogeto.Memory.Deletion.Saga.{
  is_foreign_row, resolve_source, remove_file, push_key, push_keys, cascade_file_sub_source,
  cascade_files,
}
use cogeto.Memory.Deletion.Executor.Copies.{is_listed}
use cogeto.Memory.Deletion.Erasure.Gathering.{hide_if-false}
use cogeto.Memory.Deletion.Erasure.Deletes.{own_keys}
use cogeto.Memory.Deletion.Erasure.Members.{
  has_file, is_object_in, is_object_of, is_object_of-enumerated, is_listed-append,
}

-- The removal of one attachment: its key is named, and the files of other keys stay.
pub record Removal (key : String) (files : List FileRow) (removed : List String)
    (later : List FileRow) : Type 0 where
  pub listed :
      (k : String) → str_eq k key ≡ true → has_file k files ≡ true → is_listed removed k ≡ true
  pub others :
      (k : String) → str_eq k key ≡ false → has_file k files ≡ true → has_file k later ≡ true

has_file-keep :
    (k key : String) (files : List FileRow)
    → str_eq k key ≡ false
    → has_file k files ≡ true
    → has_file k (keep (λ f. not (is_file key f)) files) ≡ true
has_file-keep k key [] ne h = h
has_file-keep k key (f ∷ files) ne h = elim (Bool-cases (is_file key f)) [
  | inl dropped ↦
      let other : is_file k f ≡ false = elim (Bool-cases (is_file k f)) [
        | inl same ↦
            let one : k ≡ key =
              sym ((eq_iff f.object_key k).0 same) ∙ (eq_iff f.object_key key).0 dropped in
            absurd (cc (sym ne ∙ (eq_iff k key).1 one))
        | inr e ↦ e
      ] in
      rw dropped (has_file-keep k key files ne (ground (arith, other, h)))
  | inr kept ↦ elim (Bool-cases (is_file k f)) [
    | inl hit ↦ rw (kept, hit) refl
    | inr miss ↦ rw kept (rw miss (has_file-keep k key files ne (ground (arith, miss, h))))
  ]
]

remove_file-Removal :
    (p : Principal) (key : String) (row : Option FileRow) (w : World)
    → first (is_file key) w.vault.files ≡ row
    → Ensures
        (λ removed w'. Removal key w.vault.files removed w'.vault.files)
        (remove_file p key row w)
remove_file-Removal p key none w e = returns (record {
  listed = λ k same has.
      let one : k ≡ key = (eq_iff k key).0 same in
      let there : has_file key w.vault.files ≡ true =
        subst (λ j. has_file j w.vault.files ≡ true) one has in
      absurd (cc (sym there ∙ ap is_some e));
  others = λ k ne has. has;
})
remove_file-Removal p key (some row) w e =
    Ensures-if (not (str_eq row.owner_id p.user_id)) _ _ w (λ _. throws)
      λ _. returns (record {
        listed = λ k same has. rw same refl;
        others = λ k ne has. has_file-keep k key w.vault.files ne has;
      })

-- The cancellation of a run touches no file.
pub cancel_pending-files :
    (type : SourceType) (id : String) (wait : Bool) (w : World)
    → Ensures (λ _ w'. w'.vault.files ≡ w.vault.files) (cancel_pending type id wait w)
unfolding cancel_pending
cancel_pending-files type id wait w =
    Ensures-if (has_source type id w.vault.running && not wait) _ _ w (λ _. returns refl)
      λ _. consumed (has_source type id w.vault.ingested)
  where
    consumed :
        (known : Bool)
        → Ensures (λ _ w'. w'.vault.files ≡ w.vault.files) (consume_key type id known w)
    consumed true = returns refl
    consumed false = returns refl

cascade_file-Removal :
    (p : Principal) (key : String) (w : World)
    → Ensures
        (λ r w'. Removal key w.vault.files r.1 w'.vault.files)
        (cascade_file_sub_source p key w)
unfolding cascade_file_sub_source
cascade_file-Removal p key w = Ensures-bind _ (cancel_pending-files file key false w) λ _ v same.
    Ensures-bind _ (hide_if-false (any (is_foreign_row p) (keep (is_from file key) v.memories)) v)
      λ _ u (still, _).
        let files : u.vault.files ≡ w.vault.files = ap (λ x. x.vault.files) still ∙ same in
        Ensures-bind _ (remove_file-Removal p key (first (is_file key) u.vault.files) u refl)
          λ removed w' h. returns (subst (λ l. Removal key l removed w'.vault.files) files h)

-- The keys of stored attachments are all among those that their cascade removes.
pub cascade_files-Listed :
    (p : Principal) (keys : List String) (w : World)
    → Ensures
        (λ r w'.
          (k : String)
          → is_listed keys k ≡ true
          → has_file k w.vault.files ≡ true
          → is_listed r.1 k ≡ true)
        (cascade_files p keys w)
unfolding cascade_files
cascade_files-Listed p [] w = returns λ k h has. h
cascade_files-Listed p (key ∷ keys) w = Ensures-bind _ (cascade_file-Removal p key w) λ r v here.
    Ensures-bind _ (cascade_files-Listed p keys v) λ s w' rest. returns λ k h has.
      is_listed-append r.1 s.1 k ∙ (elim (Bool-cases (str_eq k key)) [
        | inl same ↦ rw (here.listed k same has) refl
        | inr ne ↦ rw (rest k (ground (arith, ne, h)) (here.others k ne has)) (ground arith)
      ])

known_key :
    (keys : List String) (key k : String)
    → any (λ j. str_eq j key) keys ≡ true
    → str_eq k key ≡ true
    → is_listed keys k ≡ true
known_key [] key k known same = known
known_key (j ∷ keys) key k known same = elim (Bool-cases (str_eq j key)) [
  | inl hit ↦ rw ((eq_iff k j).1 ((eq_iff k key).0 same ∙ sym ((eq_iff j key).0 hit))) refl
  | inr miss ↦ rw (known_key keys key k (ground (arith, miss, known)) same) (ground arith)
]

known_listed :
    (keys : List String) (key k : String)
    → any (λ j. str_eq j key) keys ≡ true
    → is_listed keys k ≡ (is_listed keys k || str_eq k key)
known_listed keys key k known = elim (Bool-cases (str_eq k key)) [
  | inl same ↦ rw (same, known_key keys key k known same) refl
  | inr ne ↦ rw ne (ground arith)
]

push_key-listed :
    (keys : List String) (key k : String)
    → is_listed (push_key keys key) k ≡ (is_listed keys k || str_eq k key)
push_key-listed keys key k = elim (Bool-cases (any (λ j. str_eq j key) keys)) [
  | inl known ↦ rw known (known_listed keys key k known)
  | inr new ↦ rw new (is_listed-append keys (key ∷ []) k ∙ ground arith)
]

-- Keys are pushed without a loss.
push_keys-listed :
    (keys more : List String) (k : String)
    → is_listed (push_keys keys more) k ≡ (is_listed keys k || is_listed more k)
push_keys-listed keys [] k = ground arith
push_keys-listed keys (key ∷ more) k =
    push_keys-listed (push_key keys key) more k ∙ rw (push_key-listed keys key k) (ground arith)

-- A file's own key.
pub resolve_source-file :
    (type : SourceType) (id : String) (w : World)
    → Ensures
        (λ s w'. same_source_type type file ≡ true → s.file_row ≡ first (is_file id) w.vault.files)
        (resolve_source type id w)
unfolding resolve_source
resolve_source-file type id w =
    Ensures-if (same_source_type type file) _ _ w (λ e. returns (λ _. refl))
      λ e.
        Ensures-if (has_adapter type) _ _ w (λ _. returns (λ is. absurd (cc (sym e ∙ is))))
          (λ _. throws)

own_key-listed :
    (type : SourceType) (id : String) (row : Option FileRow) (files : List FileRow) (k : String)
    → row ≡ first (is_file id) files
    → str_eq k id ≡ true
    → has_file id files ≡ true
    → is_listed (own_keys id row) k ≡ true
own_key-listed type id none files k is same has = absurd (cc (ap is_some is ∙ has))
own_key-listed type id (some row) files k is same has = rw same refl

listed_in :
    (type : SourceType) (id : String) (members : SourceCascade) (files : List FileRow)
    (row : Option FileRow) (removed : List String) (k : String)
    → (same_source_type type file ≡ true → row ≡ first (is_file id) files)
    → (is_listed members.file_sub_source_keys k ≡ true
        → has_file k files ≡ true
        → is_listed removed k ≡ true)
    → is_object_in type id members files k ≡ true
    → is_listed (push_keys (own_keys id row) (members.object_keys ++ removed)) k ≡ true
listed_in type id members files row removed k own attached is =
    push_keys-listed (own_keys id row) (members.object_keys ++ removed) k
    ∙ ap (λ b. is_listed (own_keys id row) k || b) (is_listed-append members.object_keys removed k)
    ∙ (elim (Bool-cases (same_source_type type file && str_eq k id && has_file id files)) [
      | inl e ↦
          rw
            (own_key-listed type id row files k (own (ground (arith, e))) (ground (arith, e))
              (ground (arith, e)))
            refl
      | inr e ↦ elim (Bool-cases (is_listed members.object_keys k)) [
        | inl here ↦ rw here (ground arith)
        | inr not_here ↦
            rw (attached (ground (arith, is, e, not_here)) (ground (arith, is, e, not_here)))
              (ground arith)
      ]
    ])

-- The keys that the receipt lists, of what the enumeration found in a later state of the tables.
pub keys_complete :
    (type : SourceType) (id : String) (w v : World) (row : Option FileRow) (removed : List String)
    → enumerate_cascade type id v.vault ≡ enumerate_cascade type id w.vault
    → v.vault.files ≡ w.vault.files
    → (same_source_type type file ≡ true → row ≡ first (is_file id) w.vault.files)
    → ((k : String)
        → is_listed (enumerate_cascade type id v.vault).file_sub_source_keys k ≡ true
        → has_file k v.vault.files ≡ true
        → is_listed removed k ≡ true)
    → (k : String) → is_object_of type id w k ≡ true
    → is_listed
        (push_keys (own_keys id row) ((enumerate_cascade type id v.vault).object_keys ++ removed))
        k
      ≡ true
keys_complete type id w v row removed members files own attached k is =
    listed_in type id (enumerate_cascade type id v.vault) v.vault.files row removed k
      (λ e. own e ∙ ap (first (is_file id)) (sym files)) (attached k)
      (rw (members, files) (sym (is_object_of-enumerated type id w k) ∙ is))
