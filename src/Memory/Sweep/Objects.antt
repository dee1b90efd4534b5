-- ===== src/Memory/Sweep/Objects.antt =====
-- project/src/memory/integrity-sweep.ts: the objects of the bucket that no row accounts for, by the
-- adapters of project/src/connectors/email.source-deletion.ts and web.source-deletion.ts.
use Prim.Native.Char.{code}
use cogeto.Base.{
  ℕ, ◌+◌, ◌*◌, ◌==◌, ltb, String, Bool, Option, none, some, List, ◌++◌, if◌then◌else◌, ◌&&◌, ◌||◌,
  not, opt_str_eq, keep, any, length, map,
}
use cogeto.Shared.{email, web, same_source_type}
use cogeto.Db.{
  World, Vault, SourceRow, Alert, orphaned_object, staging_left, unowned, store_down, M, ◌>>=◌,
  pure, gets, read_external,
}
use cogeto.Memory.Deletion.Ports.{is_file}
use cogeto.Memory.Sweep.Arms.{alert}

-- The text past the first slash.
unfoldable pub past_slash : String → Option String
past_slash String.[] = none
past_slash (String.◌∷◌ c s) = if code c == 47 then some s else past_slash s

unfoldable pub up_to_slash : String → String
up_to_slash String.[] = ""
up_to_slash (String.◌∷◌ c s) =
    let rest = up_to_slash s in if code c == 47 then "" else String.◌∷◌ c rest

abbrev pub then_past : Option String → Option String
then_past none = none
then_past (some s) = past_slash s

abbrev pub first_part : Option String → Option String
first_part none = none
first_part (some s) = some (up_to_slash s)

-- `key.split('/')[2]`.
abbrev pub folder_of : String → Option String
folder_of key = first_part (then_past (past_slash key))

abbrev pub in_folder : String → String → Bool
in_folder folder key = opt_str_eq (folder_of key) (some folder)

-- `ownsObjectKeys` of the mails and of the web pages.
abbrev pub owns_key : String → SourceRow → Bool
owns_key key row =
    (same_source_type row.source_type email
      && (opt_str_eq row.raw_object_key (some key) || opt_str_eq row.html_object_key (some key)))
    || (same_source_type row.source_type web && opt_str_eq row.raw_object_key (some key))

-- The key is of a file or of a live row of a connector. The batches of the code bound its statements.
abbrev pub is_known : Vault → String → Bool
is_known v key = any (is_file key) v.files || any (owns_key key) v.sources

abbrev pub object_grace : ℕ
object_grace = 60 * 60000

pub record ObjectScan : Type 0 where
  pub scanned : ℕ
  pub alerts : List Alert

module _ (last_modified : String → ℕ) where
  -- Older than the grace time, and no export.
  abbrev pub is_aged : ℕ → String → Bool
  is_aged now key = ltb (last_modified key + object_grace) now && not (in_folder "exports" key)

  abbrev pub object_alerts : World → List Alert
  object_alerts w =
      let aged = keep (is_aged w.now) w.objects in
      let staged = keep (in_folder "staging") aged in
      let durable = keep (λ key. not (in_folder "staging" key)) aged in
      map (λ key. alert none orphaned_object (staging_left key)) staged
      ++ map (λ key. alert none orphaned_object (unowned key))
          (keep (λ key. not (is_known w.vault key)) durable)

  unfoldable pub find_orphaned_objects : M ObjectScan
  find_orphaned_objects w =
      (do
        objects ← read_external store_down w.objects w.outages
        found ← gets object_alerts
        pure (record { scanned = length objects; alerts = found }))
        w
