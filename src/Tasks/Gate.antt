-- ===== src/Tasks/Gate.antt =====
-- project/src/tasks/task-visibility.ts: a shared task is seen through the gates of the memory that
-- it derives from.
use cogeto.Base.{
  ℕ, Bool, true, false, List, [], ◌∷◌, ◌≡◌, refl, arith, subst, ap, ◌∙◌, sym, not, ◌&&◌, ◌||◌, ◌==◌,
  str_eq, has_id, keep, any, map, All, Bool-cases, inl, inr,
}
use cogeto.Shared.{Principal}
use cogeto.Db.{MemoryRow, TaskRow}
use cogeto.Memory.Visibility.{visible_to, get_many_for_principal}

abbrev pub is_own : Principal → TaskRow → Bool
is_own p t = str_eq t.owner_id p.user_id

abbrev pub foreign : Principal → List TaskRow → List TaskRow
foreign p rows = keep (λ t. not (is_own p t)) rows

abbrev derived_ids : List TaskRow → List ℕ
derived_ids rows = map (λ t. t.derived_from_memory_id) rows

abbrev memory_ids : List MemoryRow → List ℕ
memory_ids rows = map (λ m. m.id) rows

abbrev admitted : Principal → List ℕ → TaskRow → Bool
admitted p visible t = is_own p t || has_id t.derived_from_memory_id visible

abbrev gate_with :
    Principal → List MemoryRow → List TaskRow → (others : List TaskRow) → List TaskRow
gate_with p memories rows [] = rows
gate_with p memories rows (t ∷ ts) =
    let readable = get_many_for_principal p (derived_ids (t ∷ ts)) true memories in
    keep (admitted p (memory_ids readable)) rows

unfoldable pub gate_foreign_tasks : Principal → List MemoryRow → List TaskRow → List TaskRow
gate_foreign_tasks p memories rows = gate_with p memories rows (foreign p rows)

-- Whether the gates let a reader see the memory of an id.
abbrev pub can_read : Principal → List MemoryRow → ℕ → Bool
can_read p memories k = any (λ m. m.id == k && visible_to p true m) memories

abbrev pub may_see : Principal → List MemoryRow → TaskRow → Bool
may_see p memories t = is_own p t || can_read p memories t.derived_from_memory_id

readable_lem :
    (p : Principal) (ids : List ℕ) (k : ℕ) (memories : List MemoryRow)
    → has_id k ids ≡ true
    → has_id k (memory_ids (get_many_for_principal p ids true memories)) ≡ can_read p memories k
unfolding get_many_for_principal
readable_lem p ids k [] asked = refl
readable_lem p ids k (m ∷ ms) asked =
    let rest = readable_lem p ids k ms asked in
    elim (Bool-cases (m.id == k)) [
      | inl e ↦
          let same : m.id ≡ k = ground (arith, e) in
          let known : has_id m.id ids ≡ true = ap (λ j. has_id j ids) same ∙ asked in
          ground (arith, rest, e, known)
      | inr e ↦ ground (arith, rest, e)
    ]

Asked : Principal → List ℕ → TaskRow → Type 0
Asked p ids t = is_own p t ≡ false → has_id t.derived_from_memory_id ids ≡ true

Asked-more :
    (p : Principal) (x : TaskRow) (rows rest : List TaskRow)
    → All (Asked p (derived_ids (foreign p rest))) rows
    → All (Asked p (derived_ids (foreign p (x ∷ rest)))) rows
unfolding Asked
Asked-more p x [] rest h = tt
Asked-more p x (t ∷ ts) rest h = ((λ e. ground (arith, h.0 e)), Asked-more p x ts rest h.1)

foreign-Asked :
    (p : Principal) (rows : List TaskRow) → All (Asked p (derived_ids (foreign p rows))) rows
unfolding Asked
foreign-Asked p [] = tt
foreign-Asked p (t ∷ ts) = ((λ e. ground (arith, e)), Asked-more p t ts ts (foreign-Asked p ts))

keep-admitted :
    (p : Principal) (memories : List MemoryRow) (ids : List ℕ) (rows : List TaskRow)
    → All (Asked p ids) rows
    → keep (admitted p (memory_ids (get_many_for_principal p ids true memories))) rows
      ≡ keep (may_see p memories) rows
unfolding Asked
keep-admitted p memories ids [] h = refl
keep-admitted p memories ids (t ∷ ts) h =
    let rest = keep-admitted p memories ids ts h.1 in
    elim (Bool-cases (is_own p t)) [
      | inl e ↦ rw (e, rest) refl
      | inr e ↦ rw (e, readable_lem p ids t.derived_from_memory_id memories (h.0 e), rest) refl
    ]

own_kept :
    (p : Principal) (memories : List MemoryRow) (rows : List TaskRow)
    → foreign p rows ≡ []
    → keep (may_see p memories) rows ≡ rows
own_kept p memories [] e = refl
own_kept p memories (t ∷ ts) e = elim (Bool-cases (is_own p t)) [
  | inl own ↦ rw own (ap (λ l. t ∷ l) (own_kept p memories ts (ground (arith, e, own))))
  | inr other ↦ absurd (ground (arith, e, other))
]

-- Of a list of tasks the gate keeps, in their order, exactly the reader's own and those whose
-- deriving memory is in the table and passes the gates for the reader.
pub gate_foreign_tasks-may_see :
    (p : Principal) (memories : List MemoryRow) (rows : List TaskRow)
    → gate_foreign_tasks p memories rows ≡ keep (may_see p memories) rows
unfolding gate_foreign_tasks
gate_foreign_tasks-may_see p memories rows = by_others (foreign p rows) refl
  where
    by_others :
        (others : List TaskRow)
        → foreign p rows ≡ others
        → gate_with p memories rows others ≡ keep (may_see p memories) rows
    by_others [] e = sym (own_kept p memories rows e)
    by_others (t ∷ ts) e =
        keep-admitted p memories (derived_ids (t ∷ ts)) rows
          (subst (λ l. All (Asked p (derived_ids l)) rows) e (foreign-Asked p rows))
