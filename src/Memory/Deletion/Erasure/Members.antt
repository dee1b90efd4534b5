-- ===== src/Memory/Deletion/Erasure/Members.antt =====
-- The objects of a source, told apart from the enumeration of the ports, and that the enumeration of
-- project/src/connectors/email.source-deletion.ts and web.source-deletion.ts is of just these.
use cogeto.Base.{
  String, Bool, false, Option, none, some, List, [], ◌∷◌, ◌++◌, ◌≡◌, refl, arith, ap, ◌∙◌, ◌&&◌,
  ◌||◌, not, first, is_some, any, str_eq, opt_str_eq,
}
use cogeto.Shared.{
  SourceType, user_note, chat, email, calendar_event, file, task_conclusion, web, same_source_type,
}
use cogeto.Db.{World, FileRow, SourceRow}
use cogeto.Memory.Deletion.Ports.{
  SourceCascade, is_source, key_list, present, email_members, web_members, is_file,
  enumerate_cascade,
}
use cogeto.Memory.Deletion.Executor.Copies.{is_listed}

-- There is a file row of the key.
abbrev pub has_file : String → List FileRow → Bool
has_file k files = is_some (first (is_file k) files)

-- The same for an enumeration of the source's members.
abbrev pub is_object_in : SourceType → String → SourceCascade → List FileRow → String → Bool
is_object_in type id members files k =
    (same_source_type type file && str_eq k id && has_file id files)
    || is_listed members.object_keys k
    || (is_listed members.file_sub_source_keys k && has_file k files)

-- The key is the one in a column of the source's row; an empty one is none.
abbrev is_key : Option String → String → Bool
is_key none k = false
is_key (some key) k = str_eq k key && not (str_eq key "")

abbrev is_some_key : List (Option String) → String → Bool
is_some_key keys k = any (λ key. opt_str_eq (some k) key) keys

-- A mail keeps its raw original and its HTML body, a web page its raw original.
abbrev is_stored_for : SourceType → Option SourceRow → String → Bool
is_stored_for email (some row) k = is_key row.raw_object_key k || is_key row.html_object_key k
is_stored_for web (some row) k = is_key row.raw_object_key k
is_stored_for _ _ k = false

abbrev is_attached_to : SourceType → Option SourceRow → String → Bool
is_attached_to email (some row) k = is_some_key row.attachments k
is_attached_to _ _ k = false

-- The key is of the source's own file, of an object that the source's row names, or of a stored
-- attachment of its mail.
abbrev pub is_object_of : SourceType → String → World → String → Bool
is_object_of type id w k =
    let row = first (is_source type id) w.vault.sources in
    (same_source_type type file && str_eq k id && has_file id w.vault.files)
    || is_stored_for type row k
    || (is_attached_to type row k && has_file k w.vault.files)

pub is_listed-append :
    (xs ys : List String) (k : String) → is_listed (xs ++ ys) k ≡ (is_listed xs k || is_listed ys k)
is_listed-append [] ys k = refl
is_listed-append (x ∷ xs) ys k = rw (is_listed-append xs ys k) (ground arith)

key_list-listed : (o : Option String) (k : String) → is_listed (key_list o) k ≡ is_key o k
key_list-listed none k = refl
key_list-listed (some key) k = ground arith

present-listed :
    (keys : List (Option String)) (k : String) → is_listed (present keys) k ≡ is_some_key keys k
present-listed [] k = refl
present-listed (none ∷ keys) k = present-listed keys k
present-listed (some key ∷ keys) k = ap (λ b. str_eq k key || b) (present-listed keys k)

-- The enumeration lists what the row stores.
stored-listed :
    (type : SourceType) (id : String) (w : World) (k : String)
    → is_listed (enumerate_cascade type id w.vault).object_keys k
      ≡ is_stored_for type (first (is_source type id) w.vault.sources) k
unfolding enumerate_cascade
stored-listed email id w k = by_row (first (is_source email id) w.vault.sources)
  where
    by_row :
        (o : Option SourceRow) → is_listed (email_members o).object_keys k ≡ is_stored_for email o k
    by_row none = refl
    by_row (some row) =
        is_listed-append (key_list row.raw_object_key) (key_list row.html_object_key) k
        ∙ ap (λ b. b || is_listed (key_list row.html_object_key) k)
            (key_list-listed row.raw_object_key k)
        ∙ ap (λ b. is_key row.raw_object_key k || b) (key_list-listed row.html_object_key k)
stored-listed web id w k = by_row (first (is_source web id) w.vault.sources)
  where
    by_row :
        (o : Option SourceRow) → is_listed (web_members o).object_keys k ≡ is_stored_for web o k
    by_row none = refl
    by_row (some row) = key_list-listed row.raw_object_key k
stored-listed user_note id w k = refl
stored-listed chat id w k = refl
stored-listed calendar_event id w k = refl
stored-listed file id w k = refl
stored-listed task_conclusion id w k = refl

attached-listed :
    (type : SourceType) (id : String) (w : World) (k : String)
    → is_listed (enumerate_cascade type id w.vault).file_sub_source_keys k
      ≡ is_attached_to type (first (is_source type id) w.vault.sources) k
unfolding enumerate_cascade
attached-listed email id w k = by_row (first (is_source email id) w.vault.sources)
  where
    by_row :
        (o : Option SourceRow)
        → is_listed (email_members o).file_sub_source_keys k ≡ is_attached_to email o k
    by_row none = refl
    by_row (some row) = present-listed row.attachments k
attached-listed web id w k = by_row (first (is_source web id) w.vault.sources)
  where
    by_row :
        (o : Option SourceRow)
        → is_listed (web_members o).file_sub_source_keys k ≡ is_attached_to web o k
    by_row none = refl
    by_row (some row) = refl
attached-listed user_note id w k = refl
attached-listed chat id w k = refl
attached-listed calendar_event id w k = refl
attached-listed file id w k = refl
attached-listed task_conclusion id w k = refl

pub is_object_of-enumerated :
    (type : SourceType) (id : String) (w : World) (k : String)
    → is_object_of type id w k
      ≡ is_object_in type id (enumerate_cascade type id w.vault) w.vault.files k
is_object_of-enumerated type id w k =
    rw (stored-listed type id w k, attached-listed type id w k) refl
