-- ===== src/Memory/Deletion/Executor/Links.antt =====
-- A confirmed receipt more, wherever it stands in the table: the chain is one link longer.
use cogeto.Base.{
  ℕ, suc, String, Bool, true, false, none, some, List, [], ◌∷◌, ◌++◌, ◌≡◌, inl, inr, refl, arith,
  ap, ◌&&◌, ◌||◌, ◌==◌, not, str_eq, eq_iff, keep, map, has_id, length, All, Bool-cases, is_some,
  last,
}
use cogeto.Memory.ReceiptChain.{ConfirmedReceipt, by_prev, forks}

abbrev pub prev_of : ConfirmedReceipt → String
prev_of r = r.payload.prev_hash

abbrev pub receipt_ids : List ConfirmedReceipt → List ℕ
receipt_ids rs = map (λ r. r.payload.id) rs

-- No receipt of the log names this one.
abbrev pub is_tip : List ConfirmedReceipt → ConfirmedReceipt → Bool
is_tip rs r = not (is_some (by_prev r.hash rs))

-- The hash at which a chain ends.
abbrev pub end_hash : String → List ConfirmedReceipt → String
end_hash prev [] = prev
end_hash prev (r ∷ rs) = end_hash r.hash rs

abbrev pub end_of : List ConfirmedReceipt → List ConfirmedReceipt
end_of [] = []
end_of (r ∷ rs) = last r rs ∷ []

module _ (r : ConfirmedReceipt) where
  pub by_prev-other :
      (q : String) (xs ys : List ConfirmedReceipt)
      → str_eq (prev_of r) q ≡ false
      → by_prev q (xs ++ r ∷ ys) ≡ by_prev q (xs ++ ys)
  unfolding by_prev
  by_prev-other q [] ys other = rw other refl
  by_prev-other q (x ∷ xs) ys other = elim (Bool-cases (str_eq (prev_of x) q)) [
    | inl e ↦ rw e refl
    | inr e ↦ rw e (by_prev-other q xs ys other)
  ]

  pub by_prev-same :
      (xs ys : List ConfirmedReceipt)
      → by_prev (prev_of r) (xs ++ ys) ≡ none
      → by_prev (prev_of r) (xs ++ r ∷ ys) ≡ some r
  unfolding by_prev
  by_prev-same [] ys free = rw ((eq_iff (prev_of r) (prev_of r)).1 refl) refl
  by_prev-same (x ∷ xs) ys free = elim (Bool-cases (str_eq (prev_of x) (prev_of r))) [
    | inl e ↦ absurd (ground (arith, e, free))
    | inr e ↦ rw e (by_prev-same xs ys (ground (arith, e, free)))
  ]

  pub forks-insert :
      (xs ys : List ConfirmedReceipt)
      → by_prev (prev_of r) (xs ++ ys) ≡ none
      → forks (xs ++ ys) ≡ false
      → forks (xs ++ r ∷ ys) ≡ false
  unfolding forks by_prev
  forks-insert [] ys free straight = rw free straight
  forks-insert (x ∷ xs) ys free straight = elim (Bool-cases (str_eq (prev_of x) (prev_of r))) [
    | inl e ↦ absurd (ground (arith, e, free))
    | inr e ↦
        let apart : str_eq (prev_of r) (prev_of x) ≡ false =
          ground (arith, e, eq_iff (prev_of r) (prev_of x), eq_iff (prev_of x) (prev_of r)) in
        let other = by_prev-other (prev_of x) xs ys apart in
        elim (Bool-cases (is_some (by_prev (prev_of x) (xs ++ ys)))) [
          | inl taken ↦ absurd (ground (arith, taken, straight))
          | inr unlinked ↦ rw other (
              rw unlinked
                (forks-insert xs ys (ground (arith, e, free)) (ground (arith, unlinked, straight))))
        ]
  ]

module _ {A : Type 0} where
  pub keep-and : (p q : A → Bool) (xs : List A) → keep (λ x. p x && q x) xs ≡ keep q (keep p xs)
  keep-and p q [] = refl
  keep-and p q (x ∷ xs) = elim (Bool-cases (p x)) [
    | inl e ↦ elim (Bool-cases (q x)) [
      | inl f ↦ rw (e, f) (ap (λ l. x ∷ l) (keep-and p q xs))
      | inr f ↦ rw (e, f) (keep-and p q xs)
    ]
    | inr e ↦ rw e (keep-and p q xs)
  ]

  pub keep-cong : (p q : A → Bool) (xs : List A) → ((x : A) → p x ≡ q x) → keep p xs ≡ keep q xs
  keep-cong p q [] same = refl
  keep-cong p q (x ∷ xs) same = rw (same x, keep-cong p q xs same) refl

  pub keep-insert :
      (p : A → Bool) (r : A) (xs ys : List A)
      → p r ≡ true
      → keep p (xs ++ ys) ≡ []
      → keep p (xs ++ r ∷ ys) ≡ r ∷ []
  keep-insert p r [] ys hit e = rw hit (ap (λ l. r ∷ l) e)
  keep-insert p r (x ∷ xs) ys hit e = elim (Bool-cases (p x)) [
    | inl f ↦ absurd (ground (arith, f, e))
    | inr f ↦ rw f (keep-insert p r xs ys hit (ground (arith, f, e)))
  ]

  pub keep-one : (p : A → Bool) (r : A) (xs : List A) → keep p xs ≡ r ∷ [] → p r ≡ true
  keep-one p r [] e = absurd (cc e)
  keep-one p r (x ∷ xs) e = elim (Bool-cases (p x)) [
    | inl f ↦ ground (arith, f, e)
    | inr f ↦ keep-one p r xs (ground (arith, f, e))
  ]

  pub length-insert : (r : A) (xs ys : List A) → length (xs ++ r ∷ ys) ≡ suc (length (xs ++ ys))
  length-insert r [] ys = refl
  length-insert r (x ∷ xs) ys = ap suc (length-insert r xs ys)

  pub All-insert {κ} :
      (P : A → Type κ) (r : A) (xs ys : List A) → P r → All P (xs ++ ys) → All P (xs ++ r ∷ ys)
  All-insert P r [] ys pr h = (pr, h)
  All-insert P r (x ∷ xs) ys pr h = (h.0, All-insert P r xs ys pr h.1)

  pub All-imp {κ} : (P Q : A → Type κ) (xs : List A) → ((x : A) → P x → Q x) → All P xs → All Q xs
  All-imp P Q [] f h = tt
  All-imp P Q (x ∷ xs) f h = (f x h.0, All-imp P Q xs f h.1)

pub keep-id :
    (p : ConfirmedReceipt → Bool) (r : ConfirmedReceipt) (xs : List ConfirmedReceipt)
    → keep p xs ≡ r ∷ []
    → has_id r.payload.id (receipt_ids xs) ≡ true
keep-id p r [] e = absurd (cc e)
keep-id p r (x ∷ xs) e = elim (Bool-cases (p x)) [
  | inl f ↦
      let same : x ≡ r = ground (arith, f, e) in
      let ids : x.payload.id ≡ r.payload.id = ap (λ c. c.payload.id) same in ground (arith, ids)
  | inr f ↦ ground (arith, keep-id p r xs (ground (arith, f, e)))
]

pub ids-insert :
    (k : ℕ) (r : ConfirmedReceipt) (xs ys : List ConfirmedReceipt)
    → has_id k (receipt_ids (xs ++ r ∷ ys))
      ≡ (r.payload.id == k || has_id k (receipt_ids (xs ++ ys)))
ids-insert k r [] ys = refl
ids-insert k r (x ∷ xs) ys = rw (ids-insert k r xs ys) (ground arith)
