-- ===== src/Memory/Deletion/Erasure/Rows.antt =====
-- The memory rows through a deletion: what never changes, and what is left.
use cogeto.Base.{
  ℕ, Bool, false, none, List, [], ◌∷◌, ◌≡◌, refl, arith, sym, ap, ◌∙◌, ◌==◌, not, keep, first, map,
  All, Bool-cases, inl, inr, any,
}
use cogeto.Base.Table.{update}
use cogeto.Shared.{active}
use cogeto.Db.{MemoryRow, memory_key}
use cogeto.Memory.Deletion.Saga.{is_doomed, is_orphaned, null_pointer, names_one_of}

-- A row without the columns that a deletion may change in a survivor.
abbrev pub facts_of : MemoryRow → MemoryRow
facts_of row = record row { status = active; superseded_by = none; updated_at = 0 }

abbrev pub facts : List MemoryRow → List MemoryRow
facts rows = map facts_of rows

abbrev pub stays : List ℕ → MemoryRow → Bool
stays ids row = not (is_doomed ids row)

pub facts-update :
    (k : ℕ) (f : MemoryRow → MemoryRow) (rows : List MemoryRow)
    → ((row : MemoryRow) → facts_of (f row) ≡ facts_of row)
    → facts (update memory_key k f rows) ≡ facts rows
unfolding update
facts-update k f [] same = refl
facts-update k f (row ∷ rows) same = elim (Bool-cases (row.id == k)) [
  | inl e ↦ rw e (rw (same row, facts-update k f rows same) refl)
  | inr e ↦ rw e (rw (facts-update k f rows same) refl)
]

null_pointer-facts :
    (ids : List ℕ) (now : ℕ) (row : MemoryRow) → facts_of (null_pointer ids now row) ≡ facts_of row
null_pointer-facts ids now row = elim (Bool-cases (is_orphaned ids row)) [
  | inl e ↦ rw e refl
  | inr e ↦ rw e refl
]

pub facts-null_pointer :
    (ids : List ℕ) (now : ℕ) (rows : List MemoryRow)
    → facts (map (null_pointer ids now) rows) ≡ facts rows
facts-null_pointer ids now [] = refl
facts-null_pointer ids now (row ∷ rows) =
    rw (null_pointer-facts ids now row, facts-null_pointer ids now rows) refl

facts-keep :
    (ids : List ℕ) (rows : List MemoryRow)
    → facts (keep (stays ids) rows) ≡ keep (stays ids) (facts rows)
facts-keep ids [] = refl
facts-keep ids (row ∷ rows) = elim (Bool-cases (is_doomed ids row)) [
  | inl e ↦ rw e (facts-keep ids rows)
  | inr e ↦ rw e (ap (λ l. facts_of row ∷ l) (facts-keep ids rows))
]

pub facts-survivors :
    (ids : List ℕ) (rows old : List MemoryRow)
    → facts rows ≡ facts old
    → facts (keep (stays ids) rows) ≡ facts (keep (stays ids) old)
facts-survivors ids rows old e =
    facts-keep ids rows ∙ ap (keep (stays ids)) e ∙ sym (facts-keep ids old)

-- A row names no deleted row.
abbrev pub PointsElsewhere : List ℕ → MemoryRow → Type 0
PointsElsewhere ids row = names_one_of ids row.superseded_by ≡ false

pub survivors-PointsElsewhere :
    (ids : List ℕ) (now : ℕ) (rows : List MemoryRow)
    → All (PointsElsewhere ids) (keep (stays ids) (map (null_pointer ids now) rows))
survivors-PointsElsewhere ids now [] = tt
survivors-PointsElsewhere ids now (row ∷ rows) =
    let rest = survivors-PointsElsewhere ids now rows in
    elim (Bool-cases (names_one_of ids row.superseded_by)) [
      | inl named ↦ elim (Bool-cases (is_doomed ids row)) [
        | inl e ↦ rw (named, e) (rw e rest)
        | inr e ↦ rw (named, e) (rw e (refl, rest))
      ]
      | inr free ↦ elim (Bool-cases (is_doomed ids row)) [
        | inl e ↦ rw (free, e) rest
        | inr e ↦ rw (free, e) (free, rest)
      ]
    ]

module _ {A : Type 0} where
  pub first-keep_dropped :
      (p q : A → Bool) (xs : List A) → first p xs ≡ none → first p (keep q xs) ≡ none
  first-keep_dropped p q [] e = refl
  first-keep_dropped p q (x ∷ xs) e = elim (Bool-cases (p x)) [
    | inl hit ↦ absurd (ground (arith, hit, e))
    | inr miss ↦
        let rest = first-keep_dropped p q xs (ground (arith, miss, e)) in
        elim (Bool-cases (q x)) [ inl kept ↦ rw (kept, miss) rest | inr gone ↦ rw gone rest ]
  ]

  pub first-keep_others : (p : A → Bool) (xs : List A) → first p (keep (λ x. not (p x)) xs) ≡ none
  first-keep_others p [] = refl
  first-keep_others p (x ∷ xs) = elim (Bool-cases (p x)) [
    | inl hit ↦ rw hit (first-keep_others p xs)
    | inr miss ↦ rw miss (rw miss (first-keep_others p xs))
  ]

  pub All-keep_others :
      (p : A → Bool) (xs : List A) → All (λ x. p x ≡ false) (keep (λ x. not (p x)) xs)
  All-keep_others p [] = tt
  All-keep_others p (x ∷ xs) = elim (Bool-cases (p x)) [
    | inl hit ↦ rw hit (All-keep_others p xs)
    | inr miss ↦ rw miss (miss, All-keep_others p xs)
  ]

  pub All_of_any : (p : A → Bool) (xs : List A) → any p xs ≡ false → All (λ x. p x ≡ false) xs
  All_of_any p [] e = tt
  All_of_any p (x ∷ xs) e = (ground (arith, e), All_of_any p xs (ground (arith, e)))
