-- ===== src/Memory/Sweep/Healing.antt =====
-- The payload check leaves no stale copy: every embedded row is on some page, and what is written
-- for one row stays.
use cogeto.Base.{
  ℕ, ◌==◌, ==_iff, Bool, true, false, Option, none, some, List, [], ◌∷◌, ◌≡◌, ◌≢◌, refl, arith, sym,
  ap, subst, ◌∙◌, ◌⊎◌, inl, inr, is_some, map, All, Bool-cases, eq_iff,
}
use cogeto.Base.Table.{find, update, find-update_other}
use cogeto.Shared.{MemoryScope, private, shared, same_scope, MemoryStatus, same_status}
use cogeto.Db.{
  World, MemoryRow, memory_key, Point, point_key, GateField, apply_patch, require_index, call_index,
}
use cogeto.Db.Total.{Returns, returned, Returns-bind, Calm}
use cogeto.Memory.Sweep.Payloads.{
  same_flag, stale_fields, payload_of_row, heal, check_payload, check_rows,
}

-- The copies that the index has.
abbrev pub copies : Option (List Point) → List Point
copies none = []
copies (some ps) = ps

-- The ids that the index has copies for.
abbrev pub copied : World → List ℕ
copied w = map point_key (copies w.points)

-- A payload copy of the row, if there is one, agrees with it.
abbrev pub Fresh : MemoryRow → World → Type 0
Fresh row w =
    (p : Point) → find point_key row.id (copies w.points) ≡ some p → stale_fields row p ≡ []

-- The row of its id in the table.
abbrev pub Stored : List MemoryRow → MemoryRow → Type 0
Stored rows row = find memory_key row.id rows ≡ some row

payload-current : (row : MemoryRow) (p : Point) → stale_fields row (payload_of_row row p) ≡ []
unfolding apply_patch
payload-current row p =
    rw
      (
        (eq_iff row.owner_id row.owner_id).1 refl,
        scope_same row.scope,
        status_same row.status,
        flag_same row.sensitive,
      )
      refl
  where
    scope_same : (s : MemoryScope) → same_scope s s ≡ true
    scope_same private = refl
    scope_same shared = refl

    status_same : (s : MemoryStatus) → same_status s s ≡ true
    status_same s = ground arith

    flag_same : (b : Bool) → same_flag b b ≡ true
    flag_same true = refl
    flag_same false = refl

payload-id : (row : MemoryRow) (p : Point) → (payload_of_row row p).id ≡ p.id
unfolding apply_patch
payload-id row p = refl

written-current :
    (row : MemoryRow) (ps : List Point) (p : Point)
    → find point_key row.id (update point_key row.id (payload_of_row row) ps) ≡ some p
    → stale_fields row p ≡ []
unfolding find update
written-current row [] p e = absurd (cc e)
written-current row (x ∷ xs) p e = elim (Bool-cases (x.id == row.id)) [
  | inl hit ↦
      let same : payload_of_row row x ≡ p = ground (arith, hit, e, payload-id row x) in
      subst (λ q. stale_fields row q ≡ []) same (payload-current row x)
  | inr miss ↦ written-current row xs p (ground (arith, miss, e))
]

map-update :
    {A : Type 0}
    → (key : A → ℕ) (k : ℕ) (f : A → A) (xs : List A) → ((x : A) → key (f x) ≡ key x)
    → map key (update key k f xs) ≡ map key xs
unfolding update
map-update key k f [] same = refl
map-update key k f (x ∷ xs) same =
    let rest = map-update key k f xs same in
    elim (Bool-cases (key x == k)) [
      | inl e ↦ rw (e, same x) (ap (λ ys. key x ∷ ys) rest)
      | inr e ↦ rw e (ap (λ ys. key x ∷ ys) rest)
    ]

-- Another copy of the index after the row's is written.
record Healed (row : MemoryRow) (w w' : World) : Type 0 where
  pub calm : Calm w'
  pub memories : w'.memories ≡ w.memories
  pub fresh : Fresh row w'
  pub copied : copied w' ≡ copied w
  pub others :
      (j : ℕ)
      → row.id ≢ j
      → find point_key j (copies w'.points) ≡ find point_key j (copies w.points)

-- The payloads of a page say of a row what the index says, or the row is fresh.
abbrev pub Ready : List Point → World → MemoryRow → Type 0
Ready payloads w row =
    (find point_key row.id payloads ≡ find point_key row.id (copies w.points)) ⊎ Fresh row w

written-Healed :
    (row : MemoryRow) (ps : List Point) (os : List Bool) (w : World)
    → w.points ≡ some ps
    → w.outages ≡ os
    → os ≡ []
    → Returns
        (λ _ w'. Healed row w w')
        (call_index (update point_key row.id (payload_of_row row)) ps os w)
written-Healed row ps [] w is e up = returned (record {
  calm = record { up = e; index = refl };
  memories = refl;
  fresh = written-current row ps;
  copied =
      map-update point_key row.id (payload_of_row row) ps (payload-id row)
      ∙ ap (λ o. map point_key (copies o)) (sym is);
  others = λ j ne.
      find-update_other point_key row.id j (payload_of_row row) ps (payload-id row) ne
      ∙ ap (λ o. find point_key j (copies o)) (sym is);
})
written-Healed row ps (o ∷ os) w is e up = absurd (cc up)

check_payload-Healed :
    (row : MemoryRow) (payloads : List Point) (w : World)
    → Calm w
    → Ready payloads w row
    → Returns (λ _ w'. Healed row w w') (check_payload row (find point_key row.id payloads) w)
check_payload-Healed row payloads w c ready = by_copy (find point_key row.id payloads) refl
  where
    kept : Fresh row w → Healed row w w
    kept f = record { calm = c; memories = refl; fresh = f; copied = refl; others = λ j ne. refl }

    fresh_unless :
        (o : Option Point)
        → find point_key row.id payloads ≡ o
        → ((q : Point) → o ≡ some q → stale_fields row q ≡ [])
        → Fresh row w
    fresh_unless o e f = elim ready [
      | inl same ↦ λ q found. f q (sym e ∙ same ∙ found)
      | inr fresh ↦ fresh
    ]

    write :
        (ps : Option (List Point))
        → w.points ≡ ps
        → Returns
            (λ _ w'. Healed row w w')
            (require_index (update point_key row.id (payload_of_row row)) ps w)
    write none is = absurd (cc (sym c.index ∙ ap is_some is))
    write (some ps) is = written-Healed row ps w.outages w is refl c.up

    by_stale :
        (p : Point) (fields : List GateField)
        → find point_key row.id payloads ≡ some p
        → stale_fields row p ≡ fields
        → Returns (λ _ w'. Healed row w w') (heal row fields w)
    by_stale p [] e none_stale = returned (
        kept (
          fresh_unless (some p) e λ q same.
            let one : p ≡ q = ground (arith, same) in
            subst (λ x. stale_fields row x ≡ []) one none_stale))
    by_stale p (field ∷ fields) e some_stale =
        Returns-bind _ (write w.points refl) λ _ v h. returned h

    by_copy :
        (o : Option Point)
        → find point_key row.id payloads ≡ o
        → Returns (λ _ w'. Healed row w w') (check_payload row o w)
    by_copy none e = returned (kept (fresh_unless none e λ q same. absurd (cc same)))
    by_copy (some p) e = by_stale p (stale_fields row p) e refl

-- A stored row that is fresh stays so.
module _ (rows : List MemoryRow) where
  -- Rows that were fresh still are.
  abbrev pub Keeps : World → World → Type 0
  Keeps w w' = (r : MemoryRow) → Stored rows r → Fresh r w → Fresh r w'

  pub one_row : (a b : MemoryRow) → Stored rows a → Stored rows b → a.id ≡ b.id → a ≡ b
  one_row a b sa sb same =
      let both : some a ≡ some b = sym sa ∙ ap (λ k. find memory_key k rows) same ∙ sb in
      ground (arith, both)

  Healed-Keeps : (row : MemoryRow) (w w' : World) → Stored rows row → Healed row w w' → Keeps w w'
  Healed-Keeps row w w' stored h r sr f = elim (Bool-cases (row.id == r.id)) [
    | inl e ↦ subst (λ x. Fresh x w') (one_row row r stored sr ((==_iff row.id r.id).0 e)) h.fresh
    | inr e ↦ λ p found. f p (sym (h.others r.id (ground (arith, e))) ∙ found)
  ]

  Healed-Ready :
      (payloads : List Point) (row : MemoryRow) (w w' : World) (r : MemoryRow)
      → Stored rows row
      → Stored rows r
      → Healed row w w'
      → Ready payloads w r
      → Ready payloads w' r
  Healed-Ready payloads row w w' r stored sr h (inr f) = inr (Healed-Keeps row w w' stored h r sr f)
  Healed-Ready payloads row w w' r stored sr h (inl same) = elim (Bool-cases (row.id == r.id)) [
    | inl e ↦
        inr (subst (λ x. Fresh x w') (one_row row r stored sr ((==_iff row.id r.id).0 e)) h.fresh)
    | inr e ↦ inl (same ∙ sym (h.others r.id (ground (arith, e))))
  ]

  -- What the check of rows leaves.
  pub record Checked (xs : List MemoryRow) (w w' : World) : Type 0 where
    pub calm : Calm w'
    pub memories : w'.memories ≡ w.memories
    pub fresh : All (λ r. Fresh r w') xs
    pub copied : copied w' ≡ copied w
    pub keeps : Keeps w w'

  pub check_rows-Checked :
      (payloads : List Point) (xs : List MemoryRow) (w : World)
      → Calm w
      → All (Stored rows) xs
      → All (Ready payloads w) xs
      → Returns (λ _ w'. Checked xs w w') (check_rows payloads xs w)
  unfolding check_rows
  check_rows-Checked payloads [] w c s ready =
      returned
        (record { calm = c; memories = refl; fresh = tt; copied = refl; keeps = λ r sr f. f })
  check_rows-Checked payloads (row ∷ xs) w c s ready =
      Returns-bind _ (check_payload-Healed row payloads w c ready.0) λ one v h.
        Returns-bind _
          (check_rows-Checked payloads xs v h.calm s.1 (still_ready xs v h s.1 ready.1))
          λ rest u d. returned (record {
            calm = d.calm;
            memories = d.memories ∙ h.memories;
            fresh = (d.keeps row s.0 h.fresh, d.fresh);
            copied = d.copied ∙ h.copied;
            keeps = λ r sr f. d.keeps r sr (Healed-Keeps row w v s.0 h r sr f);
          })
    where
      still_ready :
          (ys : List MemoryRow) (v : World)
          → Healed row w v
          → All (Stored rows) ys
          → All (Ready payloads w) ys
          → All (Ready payloads v) ys
      still_ready [] v h sy ry = tt
      still_ready (y ∷ ys) v h sy ry =
          (Healed-Ready payloads row w v y s.0 sy.0 h ry.0, still_ready ys v h sy.1 ry.1)
