-- ===== src/Memory/Sweep/Rounds.antt =====
-- The payload check as a whole: its pages reach every row, and their number is enough.
use cogeto.Base.{
  ℕ, zero, suc, ◌<◌, ◌==◌, ==_iff, Bool, true, false, Option, none, some, List, [], ◌∷◌, ◌≡◌, refl,
  arith, sym, ap, subst, ◌∙◌, inl, inr, keep, last, length, map, has_id, is_some, length-keep-le,
  All, All-keep, Bool-cases,
}
use cogeto.Base.Table.{find, find-All, UniqueKeys}
use cogeto.Db.{World, MemoryRow, memory_key, point_key}
use cogeto.Db.Total.{Returns, returned, Returns-bind, Returns-mono, Calm}
use cogeto.Memory.Visibility.PointInTime.{sort}
use cogeto.Memory.Visibility.PointInTime.Recall.{All-sort, All-take}
use cogeto.Memory.Sweep.Payloads.{
  is_after, is_due, payload_page_size, not_later, page_after, Healing, page_ids, last_id,
  reconcile_page, reconcile_from, reconcile_payloads,
}
use cogeto.Memory.Sweep.Residue.{none_kept}
use cogeto.Memory.Sweep.Pages.{Covered, page-Covered, fewer, All-last, All-weaken}
use cogeto.Memory.Sweep.Healing.{
  copies, copied, Fresh, Stored, Keeps, Ready, one_row, check_rows-Checked,
}
use cogeto.Memory.Sweep.Mirrors.{Mirrored, is_embedded, Fresh-Mirrored}
use cogeto.Memory.Sweep.Snapshots.{
  empty_page, find-keep, kept_all, listed_all, of_kept, retrieve_payloads-Retrieved, unique-Stored,
}

module _ (rows : List MemoryRow) (stored : All (Stored rows) rows) where
  -- The embedded rows up to the last page are fresh.
  abbrev Done : Option ℕ → World → Type 0
  Done after w =
      (r : MemoryRow)
      → Stored rows r
      → is_some r.embedding_model ≡ true
      → is_after after r.id ≡ false
      → Fresh r w

  abbrev AllFresh : World → Type 0
  AllFresh w = (r : MemoryRow) → Stored rows r → is_some r.embedding_model ≡ true → Fresh r w

  -- A row whose id is on a fresh page is fresh.
  page-Fresh :
      (w : World) (r : MemoryRow) (page : List MemoryRow)
      → Stored rows r
      → All (Stored rows) page
      → All (λ x. Fresh x w) page
      → has_id r.id (page_ids page) ≡ true
      → Fresh r w
  page-Fresh w r [] sr sp f e = absurd (cc e)
  page-Fresh w r (x ∷ page) sr sp f e = elim (Bool-cases (x.id == r.id)) [
    | inl hit ↦ subst (λ y. Fresh y w) (one_row rows x r sp.0 sr ((==_iff x.id r.id).0 hit)) f.0
    | inr miss ↦ page-Fresh w r page sr sp.1 f.1 (ground (arith, miss, e))
  ]

  page-Done :
      (after : Option ℕ) (row : MemoryRow) (more : List MemoryRow) (w v : World)
      → page_after after rows ≡ row ∷ more
      → All (Stored rows) (row ∷ more)
      → Done after w
      → Keeps rows w v
      → All (λ x. Fresh x v) (row ∷ more)
      → Done (some (last_id row more)) v
  page-Done after row more w v e sp done keeps fresh r sr emb not_past =
      elim (Bool-cases (is_after after r.id)) [
        | inr old ↦ keeps r sr (done r sr emb old)
        | inl due ↦ elim (covers (ground (arith, emb, due))) [
          | inl on ↦ page-Fresh v r (row ∷ more) sr sp fresh on
          | inr past ↦ absurd (ground (arith, past, not_past))
        ]
      ]
    where
      covers : is_due after r ≡ true → Covered row more r
      covers is =
          find-All memory_key (λ x. is_due after x ≡ true → Covered row more x) r.id rows r
            (of_kept (Covered row more) (is_due after) rows
              (page-Covered 499 (keep (is_due after) rows) row more e))
            sr is

  -- Fewer rows are due after a page.
  page_fewer :
      (after : Option ℕ) (row : MemoryRow) (more : List MemoryRow)
      → All (Stored rows) (row ∷ more)
      → All (λ r. is_due after r ≡ true) (row ∷ more)
      → length (keep (is_due (some (last_id row more))) rows) < length (keep (is_due after) rows)
  page_fewer after row more sp due =
      let final = last row more in
      let final_due : is_due after final ≡ true =
        All-last (λ r. is_due after r ≡ true) row more due in
      fewer memory_key_due (is_due after) final.id rows final (λ x e. past after x final_due e)
        (All-last (Stored rows) row more sp) final_due (ground (arith))
    where
      memory_key_due : MemoryRow → Bool
      memory_key_due = is_due (some (last_id row more))

      past :
          (a : Option ℕ) (x : MemoryRow)
          → is_due a (last row more) ≡ true
          → is_due (some (last_id row more)) x ≡ true
          → is_due a x ≡ true
      past none x d e = ground (arith, e)
      past (some k) x d e = ground (arith, d, e)

  reconcile_from-AllFresh :
      (rounds : ℕ) (after : Option ℕ) (w : World)
      → Calm w
      → w.memories ≡ rows
      → Done after w
      → length (keep (is_due after) rows) < rounds
      → Returns
          (λ _ w'. (w'.memories ≡ rows) × AllFresh w' × (copied w' ≡ copied w))
          (reconcile_from rounds after w)
  unfolding reconcile_from
  reconcile_from-AllFresh zero after w c same done enough = absurd (omega (arith, enough))
  reconcile_from-AllFresh (suc rounds) after w c same done enough =
      by_page (λ a u d e f g. reconcile_from-AllFresh rounds a u d e f g)
        (page_after after w.memories) (ap (page_after after) (sym same))
    where
      Wanted : World → Healing → World → Type 0
      Wanted from _ w' = (w'.memories ≡ rows) × AllFresh w' × (copied w' ≡ copied from)

      on_page :
          (Q : MemoryRow → Type 0) (page : List MemoryRow)
          → page_after after rows ≡ page
          → All Q (keep (is_due after) rows)
          → All Q page
      on_page Q page e h = subst (All Q) e (
          All-take Q payload_page_size (sort not_later (keep (is_due after) rows))
            (All-sort Q not_later (keep (is_due after) rows) h))

      by_page :
          ((a : Option ℕ) (u : World)
            → Calm u
            → u.memories ≡ rows
            → Done a u
            → length (keep (is_due a) rows) < rounds
            → Returns (Wanted u) (reconcile_from rounds a u))
          → (page : List MemoryRow) → page_after after rows ≡ page
          → Returns (Wanted w) (reconcile_page (reconcile_from rounds) page w)
      by_page again [] e =
          let none_due =
            none_kept (is_due after) rows (empty_page 499 (keep (is_due after) rows) e) in
          returned (
            same,
            λ r sr emb. done r sr emb (
                ground (
                  arith,
                  emb,
                  find-All memory_key (λ x. is_due after x ≡ false) r.id rows r none_due sr,
                )),
            refl,
          )
      by_page again (row ∷ more) e =
          let sp =
            on_page (Stored rows) (row ∷ more) e
              (All-keep (Stored rows) (is_due after) rows stored) in
          let due =
            on_page (λ r. is_due after r ≡ true) (row ∷ more) e (kept_all (is_due after) rows) in
          Returns-bind _ (retrieve_payloads-Retrieved row.id (page_ids more) w c) λ ps v got.
            Returns-bind _
              (check_rows-Checked rows ps (row ∷ more) v got.calm sp (
                All-weaken (λ (r : MemoryRow). has_id r.id (page_ids (row ∷ more)) ≡ true)
                  (Ready ps v) (row ∷ more)
                  (λ r is. inl (
                    ap (find point_key r.id) got.are
                    ∙ find-keep (page_ids (row ∷ more)) r.id (copies w.points) is
                    ∙ ap (λ o. find point_key r.id (copies o)) (sym got.points)))
                  (listed_all (row ∷ more))))
              λ here u d.
                Returns-bind _
                  (again (some (last_id row more)) u d.calm (d.memories ∙ got.memories ∙ same)
                    (page-Done after row more w u e sp done
                      (λ r sr f. d.keeps r sr λ p found.
                        f p (ap (λ o. find point_key r.id (copies o)) (sym got.points) ∙ found))
                      d.fresh)
                    (omega (arith, page_fewer after row more sp due, enough)))
                  λ rest z (same_rows, fresh, ids). returned (
                    same_rows,
                    fresh,
                    ids ∙ d.copied ∙ ap (λ o. map point_key (copies o)) got.points,
                  )

fewer_due :
    (after : Option ℕ) (rows : List MemoryRow)
    → length (keep (is_due after) rows) < suc (length rows)
fewer_due after rows = omega (arith, length-keep-le (is_due after) rows)

all_embedded :
    (rows : List MemoryRow) (stored : All (Stored rows) rows) (xs : List MemoryRow) (w : World)
    → All (Stored rows) xs
    → AllFresh rows stored w
    → All (Mirrored w) (keep is_embedded xs)
all_embedded rows all [] w stored fresh = tt
all_embedded rows all (x ∷ xs) w stored fresh =
    let rest = all_embedded rows all xs w stored.1 fresh in
    elim (Bool-cases (is_embedded x)) [
      | inl e ↦ rw e (Fresh-Mirrored w x (fresh x stored.0 e), rest)
      | inr e ↦ rw e rest
    ]

-- Where the ids of the memories are unique and no external call fails, the payload check returns,
-- changes no memory, and leaves every copy that the index has of an embedded memory with the owner,
-- the scope, the status and the sensitive flag of its row. The index has copies of the same ids as
-- before.
pub reconcile_payloads-Healed :
    (w : World)
    → Calm w
    → UniqueKeys memory_key w.memories
    → Returns
        (λ _ w'.
          (w'.memories ≡ w.memories)
          × All (Mirrored w') (keep is_embedded w'.memories)
          × (copied w' ≡ copied w))
        (reconcile_payloads w)
unfolding reconcile_payloads
reconcile_payloads-Healed w c unique =
    let stored = unique-Stored w.memories unique in
    Returns-mono
      (reconcile_from-AllFresh w.memories stored (suc (length w.memories)) none w c refl
        (λ r sr emb e. absurd (cc e)) (fewer_due none w.memories))
      λ _ w' (same, fresh, ids). (
        same,
        subst (λ rows. All (Mirrored w') (keep is_embedded rows)) (sym same)
            (all_embedded w.memories stored w.memories w' stored fresh),
        ids,
      )
