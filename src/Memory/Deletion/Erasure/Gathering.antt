-- ===== src/Memory/Deletion/Erasure/Gathering.antt =====
-- The enumeration of a source's memories: what it finds, and what it keeps.
use cogeto.Base.{
  String, Bool, true, false, Option, none, some, List, [], ◌∷◌, ◌++◌, ◌≡◌, refl, arith, sym, ap,
  ◌∙◌, subst, ◌&&◌, ◌||◌, not, keep, first, All, All-append, is_some, any, str_eq,
}
use cogeto.Shared.{
  SourceType, user_note, chat, email, calendar_event, file, task_conclusion, web, same_source_type,
  Principal,
}
use cogeto.Db.{World, Vault, MemoryRow, FileRow}
use cogeto.Db.Outcome.{Ensures, returns, throws, Ensures-if, Ensures-bind}
use cogeto.Memory.Deletion.Ports.{
  is_file, is_from, has_adapter, enumerate_cascade, cancel_pending, consume_key, has_source,
}
use cogeto.Memory.Deletion.Saga.{
  is_foreign_row, is_empty, resolve_source, enumerate_and_authorize, remove_file,
  cascade_file_sub_source, cascade_files, hide_if,
}
use cogeto.Memory.Deletion.Erasure.Rows.{first-keep_dropped, All_of_any}
use cogeto.Memory.Deletion.Erasure.Deletes.{Resolution, a_file, kept}

-- What gathering the memories keeps.
pub record Gathering (w w' : World) : Type 0 where
  pub memories : w'.memories ≡ w.memories
  pub sources : w'.vault.sources ≡ w.vault.sources
  pub receipts : w'.vault.receipts ≡ w.vault.receipts
  pub jobs : w'.jobs ≡ w.jobs
  pub next_id : w'.next_id ≡ w.next_id
  pub no_files :
      (key : String)
      → first (is_file key) w.vault.files ≡ none
      → first (is_file key) w'.vault.files ≡ none

pub Gathering-refl : (w : World) → Gathering w w
Gathering-refl w = record {
  memories = refl;
  sources = refl;
  receipts = refl;
  jobs = refl;
  next_id = refl;
  no_files = λ key e. e;
}

pub Gathering-trans : {u v w : World} → Gathering u v → Gathering v w → Gathering u w
Gathering-trans a b = record {
  memories = b.memories ∙ a.memories;
  sources = b.sources ∙ a.sources;
  receipts = b.receipts ∙ a.receipts;
  jobs = b.jobs ∙ a.jobs;
  next_id = b.next_id ∙ a.next_id;
  no_files = λ key e. b.no_files key (a.no_files key e);
}

pub cancel_pending-Gathering :
    (type : SourceType) (id : String) (wait : Bool) (w : World)
    → Ensures (λ _ w'. Gathering w w') (cancel_pending type id wait w)
unfolding cancel_pending
cancel_pending-Gathering type id wait w =
    Ensures-if (has_source type id w.vault.running && not wait) _ _ w
      (λ _. returns (Gathering-refl w)) (λ _. consumed (has_source type id w.vault.ingested))
  where
    consumed : (known : Bool) → Ensures (λ _ w'. Gathering w w') (consume_key type id known w)
    consumed true = returns (Gathering-refl w)
    consumed false = returns (record {
      memories = refl;
      sources = refl;
      receipts = refl;
      jobs = refl;
      next_id = refl;
      no_files = λ key e. e;
    })

pub resolve_source-Resolution :
    (type : SourceType) (id : String) (w : World)
    → Ensures
        (λ s w'. (w' ≡ w) × Resolution type id s.file_row s.adapter w)
        (resolve_source type id w)
unfolding resolve_source
resolve_source-Resolution type id w =
    Ensures-if (same_source_type type file) _ _ w (λ e. returns (refl, a_file e refl (λ q. q)))
      λ e. Ensures-if (has_adapter type) _ _ w (λ _. returns (refl, kept e refl refl)) (λ _. throws)

abbrev pub Own : Principal → MemoryRow → Type 0
Own p row = is_foreign_row p row ≡ false

pub hide_if-false : (b : Bool) (w : World) → Ensures (λ _ w'. (w' ≡ w) × (b ≡ false)) (hide_if b w)
hide_if-false true w = throws
hide_if-false false w = returns (refl, refl)

pub enumerate-Own :
    (p : Principal) (type : SourceType) (id : String) (owner : Option String) (w : World)
    → Ensures
        (λ rows w'. (w' ≡ w) × (rows ≡ keep (is_from type id) w.memories) × All (Own p) rows)
        (enumerate_and_authorize p type id owner w)
unfolding enumerate_and_authorize
enumerate-Own p type id owner w =
    let rows : List MemoryRow = keep (is_from type id) w.memories in
    Ensures-if ((not (is_some owner) && is_empty rows) || any (is_foreign_row p) rows) _ _ w
      (λ _. throws)
      (λ e. returns (refl, refl, All_of_any (is_foreign_row p) rows (ground (arith, e))))

remove_file-Gathering :
    (p : Principal) (key : String) (row : Option FileRow) (w : World)
    → Ensures (λ _ w'. Gathering w w') (remove_file p key row w)
remove_file-Gathering p key none w = returns (Gathering-refl w)
remove_file-Gathering p key (some row) w =
    Ensures-if (not (str_eq row.owner_id p.user_id)) _ _ w (λ _. throws)
      λ _. returns (record {
        memories = refl;
        sources = refl;
        receipts = refl;
        jobs = refl;
        next_id = refl;
        no_files = λ k e. first-keep_dropped (is_file k) _ w.vault.files e;
      })

-- The memories of attachments.
abbrev pub attached_rows : List String → List MemoryRow → List MemoryRow
attached_rows [] rows = []
attached_rows (key ∷ keys) rows = keep (is_from file key) rows ++ attached_rows keys rows

cascade_file-Own :
    (p : Principal) (key : String) (w : World)
    → Ensures
        (λ r w'. Gathering w w' × (r.0 ≡ keep (is_from file key) w.memories) × All (Own p) r.0)
        (cascade_file_sub_source p key w)
unfolding cascade_file_sub_source
cascade_file-Own p key w = Ensures-bind _ (cancel_pending-Gathering file key false w) λ _ v g.
    let rows : List MemoryRow = keep (is_from file key) v.memories in
    Ensures-bind _ (hide_if-false (any (is_foreign_row p) rows) v) λ _ u (same, mine).
      Ensures-bind _ (remove_file-Gathering p key (first (is_file key) u.vault.files) u)
        λ removed w' h. returns (
          Gathering-trans (Gathering-trans g (subst (Gathering v) (sym same) (Gathering-refl v))) h,
          ap (keep (is_from file key)) g.memories,
          All_of_any (is_foreign_row p) rows mine,
        )

pub cascade_files-Own :
    (p : Principal) (keys : List String) (w : World)
    → Ensures
        (λ r w'. Gathering w w' × (r.0 ≡ attached_rows keys w.memories) × All (Own p) r.0)
        (cascade_files p keys w)
unfolding cascade_files
cascade_files-Own p [] w = returns (Gathering-refl w, refl, tt)
cascade_files-Own p (key ∷ keys) w =
    Ensures-bind _ (cascade_file-Own p key w) λ r v (g, here, mine).
      Ensures-bind _ (cascade_files-Own p keys v) λ s w' (h, more, theirs).
        let rest : s.0 ≡ attached_rows keys w.memories =
          more ∙ ap (attached_rows keys) g.memories in
        returns (Gathering-trans g h, rw (here, rest) refl, All-append (Own p) r.0 s.0 mine theirs)

pub enumerate_cascade-sources :
    (type : SourceType) (id : String) (v v' : Vault)
    → v'.sources ≡ v.sources
    → enumerate_cascade type id v' ≡ enumerate_cascade type id v
unfolding enumerate_cascade
enumerate_cascade-sources email id v v' e = rw e refl
enumerate_cascade-sources web id v v' e = rw e refl
enumerate_cascade-sources user_note id v v' e = refl
enumerate_cascade-sources chat id v v' e = refl
enumerate_cascade-sources calendar_event id v v' e = refl
enumerate_cascade-sources file id v v' e = refl
enumerate_cascade-sources task_conclusion id v v' e = refl

-- The memories that derive from a source or from its attachments.
abbrev pub derived_rows : SourceType → String → World → List MemoryRow
derived_rows type id w =
    let members = enumerate_cascade type id w.vault in
    keep (is_from type id) w.memories ++ attached_rows members.file_sub_source_keys w.memories
