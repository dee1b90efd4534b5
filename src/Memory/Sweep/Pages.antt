-- ===== src/Memory/Sweep/Pages.antt =====
-- The pages of the payload check: each holds the due rows up to its last, so a row is on a page or
-- due after it, and fewer are due after each page.
use cogeto.Base.{
  ℕ, zero, suc, ◌<◌, ◌≤◌, ◌==◌, ==_refl, Bool, true, false, some, List, [], ◌∷◌, ◌≡◌, refl, arith,
  ap, subst, ◌∙◌, ◌⊎◌, inl, inr, keep, take, last, length, has_id, All, Bool-cases,
}
use cogeto.Base.Table.{find}
use cogeto.Db.{MemoryRow, memory_key}
use cogeto.Memory.Visibility.PointInTime.{insert, sort}
use cogeto.Memory.Visibility.PointInTime.Recall.{All-insert}
use cogeto.Memory.Sweep.Payloads.{not_later, page_ids, last_id}

-- In the order of the ids.
abbrev Ascending : List MemoryRow → Type 0
Ascending [] = Unit {0}
Ascending (row ∷ rows) = All (λ (r : MemoryRow). row.id ≤ r.id) rows × Ascending rows

module _ (Q : MemoryRow → Type 0) where
  of_insert : (x : MemoryRow) (xs : List MemoryRow) → All Q (insert not_later x xs) → Q x × All Q xs
  of_insert x [] h = (h.0, tt)
  of_insert x (y ∷ ys) h = elim (Bool-cases (not_later y x)) [
    | inl e ↦ let h' = rw e at h in let rest = of_insert x ys h'.1 in (rest.0, (h'.0, rest.1))
    | inr e ↦ rw e at h
  ]

  of_sort : (xs : List MemoryRow) → All Q (sort not_later xs) → All Q xs
  of_sort [] h = tt
  of_sort (x ∷ xs) h =
      let parts = of_insert x (sort not_later xs) h in (parts.0, of_sort xs parts.1)

  pub All-last : (x : MemoryRow) (xs : List MemoryRow) → All Q (x ∷ xs) → Q (last x xs)
  All-last x [] h = h.0
  All-last x (y ∷ ys) h = All-last y ys h.1

  pub All-weaken :
      (R : MemoryRow → Type 0) (xs : List MemoryRow)
      → ((r : MemoryRow) → Q r → R r)
      → All Q xs
      → All R xs
  All-weaken R [] f h = tt
  All-weaken R (x ∷ xs) f h = (f x h.0, All-weaken R xs f h.1)

above :
    (x y : MemoryRow) (ys : List MemoryRow)
    → x.id ≤ y.id
    → All (λ (r : MemoryRow). y.id ≤ r.id) ys
    → All (λ (r : MemoryRow). x.id ≤ r.id) ys
above x y ys le h = All-weaken _ _ ys (λ r l. omega (arith, l, le)) h

insert-Ascending :
    (x : MemoryRow) (xs : List MemoryRow) → Ascending xs → Ascending (insert not_later x xs)
insert-Ascending x [] h = (tt, tt)
insert-Ascending x (y ∷ ys) h = elim (Bool-cases (not_later y x)) [
  | inl e ↦
      let le : y.id ≤ x.id = ground (arith, e) in
      rw e (
        All-insert (λ (r : MemoryRow). y.id ≤ r.id) not_later x ys le h.0,
        insert-Ascending x ys h.1,
      )
  | inr e ↦ let le : x.id ≤ y.id = ground (arith, e) in rw e ((le, above x y ys le h.0), h)
]

sort-Ascending : (xs : List MemoryRow) → Ascending (sort not_later xs)
sort-Ascending [] = tt
sort-Ascending (x ∷ xs) = insert-Ascending x (sort not_later xs) (sort-Ascending xs)

-- On the page, or past its last row.
abbrev pub Covered : MemoryRow → List MemoryRow → MemoryRow → Type 0
Covered row rows r = (has_id r.id (page_ids (row ∷ rows)) ≡ true) ⊎ (last_id row rows < r.id)

first_covers :
    (x : MemoryRow) (ys : List MemoryRow)
    → All (λ (r : MemoryRow). x.id ≤ r.id) ys
    → All (Covered x []) ys
first_covers x ys h = All-weaken _ (Covered x []) ys covers h
  where
    covers : (r : MemoryRow) → x.id ≤ r.id → Covered x [] r
    covers r le = elim (Bool-cases (x.id == r.id)) [
      | inl e ↦ inl (rw e refl)
      | inr e ↦ inr (ground (arith, e, le))
    ]

later_covers :
    (x y : MemoryRow) (ys : List MemoryRow) (r : MemoryRow) → Covered y ys r → Covered x (y ∷ ys) r
later_covers x y ys r (inl e) = inl (rw e (ground arith))
later_covers x y ys r (inr l) = inr l

take_covers :
    (n : ℕ) (x : MemoryRow) (xs : List MemoryRow)
    → Ascending (x ∷ xs)
    → All (Covered x (take n xs)) (x ∷ xs)
take_covers zero x xs h = (inl (rw (==_refl x.id) refl), first_covers x xs h.0)
take_covers (suc n) x [] h = (inl (rw (==_refl x.id) refl), tt)
take_covers (suc n) x (y ∷ ys) h = (
  inl (rw (==_refl x.id) refl),
  All-weaken _ (Covered x (y ∷ take n ys)) (y ∷ ys) (later_covers x y (take n ys))
      (take_covers n y ys h.1),
)

-- What a page that is not empty covers, and is made of.
pub page-Covered :
    (n : ℕ) (zs : List MemoryRow) (row : MemoryRow) (rows : List MemoryRow)
    → take (suc n) (sort not_later zs) ≡ row ∷ rows
    → All (Covered row rows) zs
page-Covered n zs row rows e =
    of_sort (Covered row rows) zs (of_sorted (sort not_later zs) (sort-Ascending zs) e)
  where
    of_sorted :
        (ys : List MemoryRow)
        → Ascending ys
        → take (suc n) ys ≡ row ∷ rows
        → All (Covered row rows) ys
    of_sorted [] h q = absurd (cc q)
    of_sorted (y ∷ ys) h q =
        let one : y ≡ row = ground (arith, q) in
        let rest : take n ys ≡ rows = ground (arith, q) in
        subst (λ r. All (Covered r rows) (y ∷ ys)) one
          (subst (λ l. All (Covered y l) (y ∷ ys)) rest (take_covers n y ys h))

-- Fewer rows are due once one that was due is not.
pub fewer :
    (p q : MemoryRow → Bool) (k : ℕ) (rows : List MemoryRow) (r : MemoryRow)
    → ((x : MemoryRow) → p x ≡ true → q x ≡ true)
    → find memory_key k rows ≡ some r
    → q r ≡ true
    → p r ≡ false
    → length (keep p rows) < length (keep q rows)
unfolding find
fewer p q k [] r f e hq hp = absurd (cc e)
fewer p q k (x ∷ rows) r f e hq hp = elim (Bool-cases (x.id == k)) [
  | inl hit ↦
      let one : x ≡ r = ground (arith, hit, e) in
      let qx : q x ≡ true = ap q one ∙ hq in
      let px : p x ≡ false = ap p one ∙ hp in rw (qx, px) (omega (arith, no_more rows))
  | inr miss ↦
      let rest = fewer p q k rows r f (ground (arith, miss, e)) hq hp in
      elim (Bool-cases (p x)) [
        | inl px ↦ rw (px, f x px) (omega (arith, rest))
        | inr px ↦ elim (Bool-cases (q x)) [
          | inl qx ↦ rw (px, qx) (omega (arith, rest))
          | inr qx ↦ rw (px, qx) rest
        ]
      ]
]
  where
    no_more : (xs : List MemoryRow) → length (keep p xs) ≤ length (keep q xs)
    no_more [] = omega arith
    no_more (y ∷ ys) = elim (Bool-cases (p y)) [
      | inl py ↦ rw (py, f y py) (omega (arith, no_more ys))
      | inr py ↦ elim (Bool-cases (q y)) [
        | inl qy ↦ rw (py, qy) (omega (arith, no_more ys))
        | inr qy ↦ rw (py, qy) (no_more ys)
      ]
    ]
