-- ===== src/Memory/Sweep/Residue.antt =====
-- The receipt side of the sweep finds nothing exactly where nothing is left.
use cogeto.Base.{
  ℕ, String, Bool, true, false, Option, none, some, List, [], ◌∷◌, ◌++◌, ◌≡◌, ◌↔◌, refl, arith, sym,
  ap, ◌∙◌, str_eq, keep, any, map, has_id, All, Bool-cases, inl, inr,
}
use cogeto.Db.{
  World, MemoryRow, Point, ReceiptRow, ReceiptCounts, store_down, index_down, read_external,
}
use cogeto.Db.Outcome.{Ensures, returns, throws, Ensures-bind}
use cogeto.Memory.Deletion.Ports.{is_from}
use cogeto.Memory.Deletion.Executor.Copies.{NoPoints, is_listed}
use cogeto.Memory.Sweep.Arms.{
  read_points, retrieve_payloads, present_objects, is_resurrected, check_receipt,
}

-- Nothing of what a receipt lists is left, and no memory has its source.
pub record Residueless (receipt : ReceiptRow) (counts : ReceiptCounts) (w : World) : Type 0 where
  pub memories : All (λ (row : MemoryRow). has_id row.id counts.memory_ids ≡ false) w.memories
  pub points : NoPoints counts.point_ids w.points
  pub objects : All (λ k. is_listed counts.object_keys k ≡ false) w.objects
  pub source :
      All
        (λ (row : MemoryRow). is_from receipt.source_type receipt.source_id row ≡ false)
        w.memories

module _ {A : Type 0} where
  keep-none : (p : A → Bool) (xs : List A) → All (λ x. p x ≡ false) xs → keep p xs ≡ []
  keep-none p [] h = refl
  keep-none p (x ∷ xs) h = rw h.0 (keep-none p xs h.1)

  pub none_kept : (p : A → Bool) (xs : List A) → keep p xs ≡ [] → All (λ x. p x ≡ false) xs
  none_kept p [] e = tt
  none_kept p (x ∷ xs) e = elim (Bool-cases (p x)) [
    | inl hit ↦ absurd (ground (arith, hit, e))
    | inr miss ↦ (miss, none_kept p xs (ground (arith, miss, e)))
  ]

  both_empty : (xs ys : List A) → xs ++ ys ≡ [] → (xs ≡ []) × (ys ≡ [])
  both_empty [] ys e = (refl, e)
  both_empty (x ∷ xs) ys e = absurd (cc e)

  map_empty : {B : Type 0} (f : A → B) (xs : List A) → map f xs ≡ [] → xs ≡ []
  map_empty f [] e = refl
  map_empty f (x ∷ xs) e = absurd (cc e)

-- The same objects, seen from the keys.
abbrev is_stored : List String → String → Bool
is_stored objects key = any (λ k. str_eq k key) objects

unlisted_first :
    (key : String) (keys objects : List String)
    → All (λ k. is_listed (key ∷ keys) k ≡ false) objects
    → (is_stored objects key ≡ false) × All (λ k. is_listed keys k ≡ false) objects
unlisted_first key keys [] h = (refl, tt)
unlisted_first key keys (k ∷ objects) h =
    let rest = unlisted_first key keys objects h.1 in
    (ground (arith, h.0, rest.0), (ground (arith, h.0), rest.1))

listed_first :
    (key : String) (keys objects : List String)
    → is_stored objects key ≡ false
    → All (λ k. is_listed keys k ≡ false) objects
    → All (λ k. is_listed (key ∷ keys) k ≡ false) objects
listed_first key keys [] e h = tt
listed_first key keys (k ∷ objects) e h =
    (ground (arith, e, h.0), listed_first key keys objects (ground (arith, e)) h.1)

all_unlisted : (objects : List String) → All (λ k. is_listed [] k ≡ false) objects
all_unlisted [] = tt
all_unlisted (k ∷ objects) = (refl, all_unlisted objects)

stored-unlisted :
    (keys objects : List String)
    → (All (λ key. is_stored objects key ≡ false) keys)
      ↔ All (λ k. is_listed keys k ≡ false) objects
stored-unlisted [] objects = (λ h. all_unlisted objects, λ h. tt)
stored-unlisted (key ∷ keys) objects =
    let rest = stored-unlisted keys objects in
    (
      λ h. listed_first key keys objects h.0 (rest.0 h.1),
      λ h. let parts = unlisted_first key keys objects h in (parts.0, rest.1 parts.1),
    )

-- A read changes nothing but the coming answers.
record Read (w w' : World) : Type 0 where
  pub memories : w'.memories ≡ w.memories
  pub points : w'.points ≡ w.points
  pub objects : w'.objects ≡ w.objects

read_external-Read :
    {A : Type 0} (e : _) (a : A) (os : List Bool) (w : World)
    → Ensures (λ r w'. (r ≡ a) × Read w w') (read_external e a os w)
read_external-Read e a [] w =
    returns (refl, record { memories = refl; points = refl; objects = refl })
read_external-Read e a (true ∷ os) w = throws
read_external-Read e a (false ∷ os) w =
    returns (refl, record { memories = refl; points = refl; objects = refl })

-- What the index has of the points.
abbrev points_of : List ℕ → Option (List Point) → List Point
points_of ids none = []
points_of ids (some ps) = keep (λ (p : Point). has_id p.id ids) ps

none_of_none : (ps : List Point) → keep (λ (p : Point). has_id p.id []) ps ≡ []
none_of_none [] = refl
none_of_none (p ∷ ps) = none_of_none ps

retrieve-Read :
    (ids : List ℕ) (w : World)
    → Ensures (λ ps w'. (ps ≡ points_of ids w.points) × Read w w') (retrieve_payloads ids w)
unfolding retrieve_payloads
retrieve-Read [] w =
    returns (nothing w.points, record { memories = refl; points = refl; objects = refl })
  where
    nothing : (o : Option (List Point)) → [] ≡ points_of [] o
    nothing none = refl
    nothing (some ps) = sym (none_of_none ps)
retrieve-Read (id ∷ ids) w = by_index w.points
  where
    by_index :
        (o : Option (List Point))
        → Ensures
            (λ ps w'. (ps ≡ points_of (id ∷ ids) o) × Read w w')
            (read_points (keep (λ (p : Point). has_id p.id (id ∷ ids))) o w)
    by_index none = throws
    by_index (some ps) = read_external-Read index_down _ w.outages w

present_objects-Read :
    (keys : List String) (w : World)
    → Ensures
        (λ found w'. (found ≡ keep (is_stored w.objects) keys) × Read w w')
        (present_objects keys w)
unfolding present_objects
present_objects-Read [] w =
    returns (refl, record { memories = refl; points = refl; objects = refl })
present_objects-Read (key ∷ keys) w =
    Ensures-bind _ (read_external-Read store_down (is_stored w.objects key) w.outages w)
      λ here v (e, a). Ensures-bind _ (present_objects-Read keys v) λ rest u (f, b). returns (
        rw (e, f, a.objects) refl,
        record {
          memories = b.memories ∙ a.memories;
          points = b.points ∙ a.points;
          objects = b.objects ∙ a.objects;
        },
      )

resurrected-parts :
    (receipt : ReceiptRow) (ids : List ℕ) (rows : List MemoryRow)
    → All (λ (row : MemoryRow). has_id row.id ids ≡ false) rows
    → (All (λ row. is_resurrected receipt ids row ≡ false) rows)
      ↔ All (λ (row : MemoryRow). is_from receipt.source_type receipt.source_id row ≡ false) rows
resurrected-parts receipt ids [] h = (λ a. tt, λ a. tt)
resurrected-parts receipt ids (row ∷ rows) h =
    let rest = resurrected-parts receipt ids rows h.1 in
    (λ a. (ground (arith, a.0, h.0), rest.0 a.1), λ a. (ground (arith, a.0), rest.1 a.1))

NoPoints-points_of :
    (ids : List ℕ) (o : Option (List Point)) → (points_of ids o ≡ []) ↔ NoPoints ids o
NoPoints-points_of ids none = (λ e. tt, λ h. refl)
NoPoints-points_of ids (some ps) =
    (none_kept (λ (p : Point). has_id p.id ids) ps, keep-none (λ (p : Point). has_id p.id ids) ps)

-- The check of a receipt that returns raises no alert exactly where no memory, point or object that
-- the receipt lists is left and no memory has the receipt's source.
pub check_receipt-Residueless :
    (receipt : ReceiptRow) (counts : ReceiptCounts) (w : World)
    → Ensures
        (λ f w'. (f.alerts ≡ []) ↔ Residueless receipt counts w)
        (check_receipt receipt counts w)
unfolding check_receipt
check_receipt-Residueless receipt counts w =
    Ensures-bind _ (retrieve-Read counts.point_ids w) λ ps v (is_points, a).
      Ensures-bind _ (present_objects-Read counts.object_keys v) λ keys u (is_keys, b).
        let listed = λ (row : MemoryRow). has_id row.id counts.memory_ids in
        let back = is_resurrected receipt counts.memory_ids in
        let same : u.memories ≡ w.memories = b.memories ∙ a.memories in
        let stored : keys ≡ keep (is_stored w.objects) counts.object_keys =
          is_keys ∙ ap (λ os. keep (is_stored os) counts.object_keys) a.objects in
        returns (
          (λ e.
              let one = both_empty _ _ e in
              let two = both_empty _ _ one.0 in
              let three = both_empty _ _ two.0 in
              let rows = none_kept listed w.memories (map_empty _ _ three.0) in
              record {
                memories = rows;
                points =
                    (NoPoints-points_of counts.point_ids w.points).0
                      (sym is_points ∙ map_empty _ _ three.1);
                objects = (stored-unlisted counts.object_keys w.objects).0 (
                    none_kept (is_stored w.objects) counts.object_keys
                      (sym stored ∙ map_empty _ _ two.1));
                source =
                    (resurrected-parts receipt counts.memory_ids w.memories rows).0
                      (none_kept back w.memories (ap (keep back) (sym same) ∙ map_empty _ _ one.1));
              }),
          (λ r.
              rw
                (
                  keep-none listed w.memories r.memories,
                  is_points,
                  (NoPoints-points_of counts.point_ids w.points).1 r.points,
                  stored,
                  keep-none (is_stored w.objects) counts.object_keys
                      ((stored-unlisted counts.object_keys w.objects).1 r.objects),
                  same,
                  keep-none back w.memories (
                      (resurrected-parts receipt counts.memory_ids w.memories r.memories).1
                        r.source),
                )
                refl),
        )
