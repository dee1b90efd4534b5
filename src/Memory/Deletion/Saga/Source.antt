-- ===== src/Memory/Deletion/Saga/Source.antt =====
-- project/src/memory/deletion-saga.ts: the source of a deletion, who may delete it, and the preview
-- of what a deletion would remove.
use cogeto.Base.{
  ℕ, ◌+◌, String, Bool, true, false, Option, none, some, List, [], ◌∷◌, if◌then◌else◌, ◌&&◌, ◌||◌,
  not, str_eq, first, keep, any, length, is_some,
}
use cogeto.Shared.{SourceType, file, same_source_type, Principal}
use cogeto.Db.{
  World, MemoryRow, FileRow, M, ◌>>=◌, ◌>>◌, pure, throw, gets, transaction, bad_request, not_found,
}
use cogeto.Memory.Deletion.Ports.{is_file, is_from, has_adapter, owner_of, enumerate_cascade}

-- A source: its file row, whether a connector keeps it, and its owner.
pub record ResolvedSource : Type 0 where
  pub file_row : Option FileRow
  pub adapter : Bool
  pub owner : Option String

abbrev pub file_owner : Option FileRow → Option String
file_owner none = none
file_owner (some row) = some row.owner_id

unfoldable pub resolve_source : SourceType → String → M ResolvedSource
resolve_source type id =
    if same_source_type type file
    then gets (λ w.
      let row = first (is_file id) w.vault.files in
      record { file_row = row; adapter = false; owner = file_owner row })
    else if has_adapter type
    then gets (λ w. record { file_row = none; adapter = true; owner = owner_of type id w.vault })
    else throw bad_request

abbrev pub is_foreign : Principal → Option String → Bool
is_foreign p none = false
is_foreign p (some owner) = not (str_eq owner p.user_id)

abbrev pub is_foreign_row : Principal → MemoryRow → Bool
is_foreign_row p row = not (str_eq row.owner_id p.user_id)

abbrev pub is_empty : List MemoryRow → Bool
is_empty [] = true
is_empty (row ∷ rows) = false

abbrev pub admit_rows : Principal → Option String → List MemoryRow → M (List MemoryRow)
admit_rows p owner rows =
    if (not (is_some owner) && is_empty rows) || any (is_foreign_row p) rows
    then throw not_found
    else pure rows

unfoldable pub enumerate_and_authorize :
    Principal → SourceType → String → Option String → M (List MemoryRow)
enumerate_and_authorize p type id owner = do
  admit_rows p owner (← gets (λ w. keep (is_from type id) w.memories))

-- Not to leak what exists, a foreign source is not found.
abbrev pub hide_if : Bool → M (Unit {0})
hide_if true = throw not_found
hide_if false = pure tt

pub record DeletionPreview : Type 0 where
  pub memory_count : ℕ
  pub object_count : ℕ

abbrev count_file : Option FileRow → ℕ
count_file none = 0
count_file (some row) = 1

abbrev preview_members : World → List String → DeletionPreview → DeletionPreview
preview_members w [] seen = seen
preview_members w (key ∷ keys) seen = preview_members w keys (record {
  memory_count = seen.memory_count + length (keep (is_from file key) w.memories);
  object_count = seen.object_count + length (keep (is_file key) w.vault.files);
})

unfoldable pub preview_source_deletion : Principal → SourceType → String → M DeletionPreview
preview_source_deletion p type id = transaction do
  source ← resolve_source type id
  hide_if (is_foreign p source.owner)
  rows ← enumerate_and_authorize p type id source.owner
  members ← gets (λ w. enumerate_cascade type id w.vault)
  gets (λ w. preview_members w members.file_sub_source_keys (record {
    memory_count = length rows;
    object_count = count_file source.file_row + length members.object_keys;
  }))
