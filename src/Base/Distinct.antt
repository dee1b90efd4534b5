-- ===== src/Base/Distinct.antt =====
-- A list of ids without its repetitions: what `new Set(ids)` leaves.
use Prim.Native.Nat.{ℕ}
use mathlib.Core.Path.{◌≡◌, refl, sym, ap, subst, ◌∙◌}
use mathlib.Core.Logic.{inl, inr}
use mathlib.Core.Bool.{true, false, not, ◌&&◌}
use mathlib.Core.List.{List, [], ◌∷◌}
use native.Mathlib.Omega.{arith}
use cogeto.Base.Tests.{◌==◌, Bool-cases, ==_iff}
use cogeto.Base.Lists.{has_id, dedup_ids_from, dedup_ids}

abbrev pub Distinct : List ℕ → Type 0
Distinct [] = Unit {0}
Distinct (id ∷ ids) = (has_id id ids ≡ false) × Distinct ids

-- The ids that were asked for, each once.
pub record Once (ids order : List ℕ) : Type 0 where
  pub distinct : Distinct order
  pub members : (k : ℕ) → has_id k order ≡ has_id k ids

dedup_ids_from-known :
    (j : ℕ) (seen ids : List ℕ)
    → has_id j seen ≡ true
    → dedup_ids_from seen (j ∷ ids) ≡ dedup_ids_from seen ids
unfolding dedup_ids_from
dedup_ids_from-known j seen ids e = rw (dedup_ids_from, e) refl

dedup_ids_from-new :
    (j : ℕ) (seen ids : List ℕ)
    → has_id j seen ≡ false
    → dedup_ids_from seen (j ∷ ids) ≡ j ∷ dedup_ids_from (j ∷ seen) ids
unfolding dedup_ids_from
dedup_ids_from-new j seen ids e = rw (dedup_ids_from, e) refl

has_id-dedup_ids_from :
    (k : ℕ) (seen ids : List ℕ)
    → has_id k (dedup_ids_from seen ids) ≡ (has_id k ids && not (has_id k seen))
unfolding dedup_ids_from
has_id-dedup_ids_from k seen [] = refl
has_id-dedup_ids_from k seen (j ∷ ids) = elim (Bool-cases (has_id j seen)) [
  | inl known ↦
      ap (has_id k) (dedup_ids_from-known j seen ids known)
      ∙ has_id-dedup_ids_from k seen ids
      ∙ elim (Bool-cases (j == k)) [
        | inl e ↦
            let here : has_id k seen ≡ true =
              subst (λ i. has_id i seen ≡ true) ((==_iff j k).0 e) known in
            ground (arith, here)
        | inr e ↦ ground (arith, e)
      ]
  | inr new ↦
      let rest = has_id-dedup_ids_from k (j ∷ seen) ids in
      ap (has_id k) (dedup_ids_from-new j seen ids new) ∙ elim (Bool-cases (j == k)) [
        | inl e ↦
            let fresh : has_id k seen ≡ false =
              subst (λ i. has_id i seen ≡ false) ((==_iff j k).0 e) new in
            ground (arith, e, fresh)
        | inr e ↦ ground (arith, e, rest)
      ]
]

dedup_ids_from-Distinct : (seen ids : List ℕ) → Distinct (dedup_ids_from seen ids)
unfolding dedup_ids_from
dedup_ids_from-Distinct seen [] = tt
dedup_ids_from-Distinct seen (j ∷ ids) = elim (Bool-cases (has_id j seen)) [
  | inl known ↦
      subst Distinct (sym (dedup_ids_from-known j seen ids known))
        (dedup_ids_from-Distinct seen ids)
  | inr new ↦
      let apart = has_id-dedup_ids_from j (j ∷ seen) ids in
      subst Distinct (sym (dedup_ids_from-new j seen ids new))
        (ground (arith, apart), dedup_ids_from-Distinct (j ∷ seen) ids)
]

pub dedup_ids-Once : (ids : List ℕ) → Once ids (dedup_ids ids)
unfolding dedup_ids
dedup_ids-Once ids = record {
  distinct = dedup_ids_from-Distinct [] ids;
  members = λ k. let from = has_id-dedup_ids_from k [] ids in ground (arith, from);
}
