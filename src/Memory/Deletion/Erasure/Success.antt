-- ===== src/Memory/Deletion/Erasure/Success.antt =====
-- The request of a deletion that its owner may make returns.
use cogeto.Base.{
  String, Bool, true, false, Option, none, some, List, [], ◌∷◌, ◌++◌, ◌≡◌, refl, arith, subst, ◌∙◌,
  ◌&&◌, not, keep, first, All, All-keep, any, is_blank, str_eq, eq_iff, Bool-cases, inl, inr,
}
use cogeto.Shared.{SourceType, file, Principal}
use cogeto.Db.{World, FileRow, ok}
use cogeto.Db.Total.{Returns, returned, Returns-bind, Returns-both, Returns-transaction, Calm}
use cogeto.Memory.Deletion.Ports.{
  is_file, is_from, enumerate_cascade, cancel_pending, consume_key, has_source,
}
use cogeto.Memory.Deletion.Saga.{
  ResolvedSource, is_foreign, is_foreign_row, resolve_source, enumerate_and_authorize, remove_file,
  cascade_file_sub_source, cascade_files, request_in_tx, request_source_deletion,
}
use cogeto.Memory.Deletion.Executor.Copies.{is_listed}
use cogeto.Memory.Deletion.Erasure.Gathering.{
  Own, derived_rows, attached_rows, enumerate_cascade-sources,
}
use cogeto.Memory.Deletion.Erasure.Total.{erase-Calm}
use cogeto.Memory.Deletion.Erasure.Request.{Deletion, request_source_deletion-Deletion}

-- A file is the principal's, or no attachment with one of the keys.
abbrev pub OwnFile : Principal → List String → FileRow → Type 0
OwnFile p keys f = (is_listed keys f.object_key && not (str_eq f.owner_id p.user_id)) ≡ false

-- The enumeration goes on as it began: with the same memories, and attachments of the principal.
record Going (p : Principal) (keys : List String) (w w' : World) : Type 0 where
  pub calm : Calm w'
  pub files : All (OwnFile p keys) w'.vault.files
  pub memories : w'.memories ≡ w.memories
  pub sources : w'.vault.sources ≡ w.vault.sources

any_of_All :
    {A : Type 0} (q : A → Bool) (xs : List A) → All (λ x. q x ≡ false) xs → any q xs ≡ false
any_of_All q [] h = refl
any_of_All q (x ∷ xs) h = rw (h.0, any_of_All q xs h.1) refl

OwnFile-rest :
    (p : Principal) (key : String) (keys : List String) (files : List FileRow)
    → All (OwnFile p (key ∷ keys)) files
    → All (OwnFile p keys) files
OwnFile-rest p key keys [] h = tt
OwnFile-rest p key keys (f ∷ files) h = (ground (arith, h.0), OwnFile-rest p key keys files h.1)

first-own :
    (p : Principal) (key : String) (keys : List String) (files : List FileRow) (row : FileRow)
    → All (OwnFile p (key ∷ keys)) files
    → first (is_file key) files ≡ some row
    → not (str_eq row.owner_id p.user_id) ≡ false
first-own p key keys [] row h e = absurd (cc e)
first-own p key keys (f ∷ files) row h e = elim (Bool-cases (is_file key f)) [
  | inl hit ↦
      let one : f ≡ row = ground (arith, hit, e) in
      subst (λ (r : FileRow). not (str_eq r.owner_id p.user_id) ≡ false) one
        (ground (arith, h.0, hit))
  | inr miss ↦ first-own p key keys files row h.1 (ground (arith, miss, e))
]

cancel_pending-Going :
    (p : Principal) (keys : List String) (type : SourceType) (id : String) (wait : Bool) (w : World)
    → Calm w
    → All (OwnFile p keys) w.vault.files
    → Returns (λ _ w'. Going p keys w w') (cancel_pending type id wait w)
unfolding cancel_pending
cancel_pending-Going p keys type id wait w c h =
    elim (Bool-cases (has_source type id w.vault.running && not wait)) [
      | inl e ↦ rw e (returned (record { calm = c; files = h; memories = refl; sources = refl }))
      | inr e ↦ rw e (consumed (has_source type id w.vault.ingested))
    ]
  where
    consumed : (known : Bool) → Returns (λ _ w'. Going p keys w w') (consume_key type id known w)
    consumed true = returned (record { calm = c; files = h; memories = refl; sources = refl })
    consumed false = returned (record {
      calm = record { up = c.up; index = c.index };
      files = h;
      memories = refl;
      sources = refl;
    })

remove_file-Going :
    (p : Principal) (key : String) (keys : List String) (row : Option FileRow) (w : World)
    → Calm w
    → All (OwnFile p (key ∷ keys)) w.vault.files
    → first (is_file key) w.vault.files ≡ row
    → Returns (λ _ w'. Going p keys w w') (remove_file p key row w)
remove_file-Going p key keys none w c h e = returned (record {
  calm = c;
  files = OwnFile-rest p key keys w.vault.files h;
  memories = refl;
  sources = refl;
})
remove_file-Going p key keys (some row) w c h e = rw (first-own p key keys w.vault.files row h e) (
    returned (record {
      calm = record { up = c.up; index = c.index };
      files = All-keep (OwnFile p keys) _ w.vault.files (OwnFile-rest p key keys w.vault.files h);
      memories = refl;
      sources = refl;
    }))

cascade_file-Going :
    (p : Principal) (key : String) (keys : List String) (w : World)
    → Calm w
    → All (OwnFile p (key ∷ keys)) w.vault.files
    → All (Own p) (keep (is_from file key) w.memories)
    → Returns (λ _ w'. Going p keys w w') (cascade_file_sub_source p key w)
unfolding cascade_file_sub_source
cascade_file-Going p key keys w c h mine =
    Returns-bind _ (cancel_pending-Going p (key ∷ keys) file key false w c h) λ _ v g.
      let free : any (is_foreign_row p) (keep (is_from file key) v.memories) ≡ false =
        rw g.memories (any_of_All (is_foreign_row p) (keep (is_from file key) w.memories) mine) in
      rw free (
        Returns-bind _ (remove_file-Going p key keys _ v g.calm g.files refl) λ removed w' d.
          returned (record {
            calm = d.calm;
            files = d.files;
            memories = d.memories ∙ g.memories;
            sources = d.sources ∙ g.sources;
          }))

All-left : {A : Type 0} (P : A → Type 0) (xs ys : List A) → All P (xs ++ ys) → All P xs × All P ys
All-left P [] ys h = (tt, h)
All-left P (x ∷ xs) ys h = let rest = All-left P xs ys h.1 in ((h.0, rest.0), rest.1)

cascade_files-Calm :
    (p : Principal) (keys : List String) (w : World)
    → Calm w
    → All (OwnFile p keys) w.vault.files
    → All (Own p) (attached_rows keys w.memories)
    → Returns (λ _ w'. Calm w') (cascade_files p keys w)
unfolding cascade_files
cascade_files-Calm p [] w c h mine = returned c
cascade_files-Calm p (key ∷ keys) w c h mine =
    let both = All-left (Own p) (keep (is_from file key) w.memories) _ mine in
    Returns-bind _ (cascade_file-Going p key keys w c h both.0) λ r v g.
      Returns-bind _ (cascade_files-Calm p keys v g.calm g.files (rw g.memories both.1))
        λ s w' d. returned d

-- The principal may delete the source: it resolves to one of theirs, and so do the memories and
-- the stored attachments.
pub record MayDelete (p : Principal) (type : SourceType) (id : String) (w : World) : Type 0 where
  pub source : ResolvedSource
  pub resolved : resolve_source type id w ≡ ok source w
  pub owner : source.owner ≡ some p.user_id
  pub memories : All (Own p) (derived_rows type id w)
  pub attachments :
      All (OwnFile p (enumerate_cascade type id w.vault).file_sub_source_keys) w.vault.files

own_owner :
    (p : Principal) (owner : Option String) → owner ≡ some p.user_id → is_foreign p owner ≡ false
own_owner p none e = absurd (cc e)
own_owner p (some owner) e =
    let same : owner ≡ p.user_id = ground (arith, e) in rw ((eq_iff owner p.user_id).1 same) refl

enumerate-returns :
    (p : Principal) (type : SourceType) (id : String) (owner : Option String) (w : World)
    → owner ≡ some p.user_id
    → All (Own p) (keep (is_from type id) w.memories)
    → enumerate_and_authorize p type id owner w ≡ ok (keep (is_from type id) w.memories) w
unfolding enumerate_and_authorize
enumerate-returns p type id none w e mine = absurd (cc e)
enumerate-returns p type id (some owner) w e mine =
    rw (any_of_All (is_foreign_row p) (keep (is_from type id) w.memories) mine) refl

request_in_tx-Calm :
    (p : Principal) (type : SourceType) (id : String) (w : World)
    → MayDelete p type id w
    → Calm w
    → Returns (λ _ w'. Calm w') (request_in_tx p type id w)
unfolding request_in_tx
request_in_tx-Calm p type id w may calm =
    let parts = All-left (Own p) (keep (is_from type id) w.memories) _ may.memories in
    rw may.resolved (
      rw (own_owner p may.source.owner may.owner) (
        Returns-bind _
          (cancel_pending-Going p (enumerate_cascade type id w.vault).file_sub_source_keys type id _
            w calm may.attachments)
          λ ingestion v g.
            let members : enumerate_cascade type id v.vault ≡ enumerate_cascade type id w.vault =
              enumerate_cascade-sources type id w.vault v.vault g.sources in
            rw (enumerate-returns p type id may.source.owner v may.owner (rw g.memories parts.0)) (
              Returns-bind _
                (cascade_files-Calm p (enumerate_cascade type id v.vault).file_sub_source_keys v
                  g.calm (rw members g.files) (rw (members, g.memories) parts.1))
                λ r u c. erase-Calm p type id may.source ingestion _ _ u c)))

-- The owner of a source, of all memories that derive from it and of its stored attachments gets
-- its deletion done, where no call of the index fails: a request that names it returns, and leaves
-- nothing of the source and a receipt.
pub request_source_deletion-Returns :
    (p : Principal) (type : SourceType) (id : String) (w : World)
    → is_blank id ≡ false
    → MayDelete p type id w
    → Calm w
    → Returns
        (λ receipt w'. Deletion p type id w receipt w' × Calm w')
        (request_source_deletion p type id w)
unfolding request_source_deletion
request_source_deletion-Returns p type id w named may calm =
    Returns-both (request_source_deletion-Deletion p type id w)
      (rw named (Returns-transaction w (request_in_tx-Calm p type id w may calm)))
