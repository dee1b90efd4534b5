-- ===== src/Memory/Visibility/Gates.antt =====
-- What the gates let through, and that the filter of the vector index is the gate of the tables.
use cogeto.Base.{
  Bool, true, false, Option, none, some, List, [], ◌∷◌, ◌++◌, ◌≡◌, ◌↔◌, ◌⊎◌, refl, arith, not, ◌&&◌,
  ◌||◌, eq_iff, all, all-append, ◌∙◌, ap,
}
use cogeto.Shared.{MemoryStatus, MemoryScope, shared, Principal, has_status}
use cogeto.Db.{MemoryRow, Point}
use cogeto.Memory.Visibility.{
  scope_clause, scope_narrowing, owner_narrowing, status_narrowing, owns, visible_to,
  build_gate_filter, SearchOptions, search_filter, condition_holds, admits,
}

owns_iff : (p : Principal) (row : MemoryRow) → (owns p row ≡ true) ↔ (row.owner_id ≡ p.user_id)
owns_iff p row = eq_iff row.owner_id p.user_id

-- A row passes the gates exactly when it is the caller's own or shared, and, where it is sensitive,
-- the caller opted in and owns it.
pub visible_to_iff :
    (p : Principal) (inc : Bool) (row : MemoryRow)
    → (visible_to p inc row ≡ true) ↔ (
        ((row.owner_id ≡ p.user_id) ⊎ (row.scope ≡ shared))
        × (row.sensitive ≡ true → (inc ≡ true) × (row.owner_id ≡ p.user_id)))
unfolding visible_to
visible_to_iff p inc row =
    let same = owns_iff p row in (λ e. ground (arith, e, same), λ h. ground (arith, h, same))

-- The payload of a point is a copy of these columns of its row.
pub record Mirrors (pt : Point) (row : MemoryRow) : Type 0 where
  pub owner_id : pt.owner_id ≡ row.owner_id
  pub scope : pt.scope ≡ row.scope
  pub sensitive : pt.sensitive ≡ row.sensitive
  pub status : pt.status ≡ row.status

-- On a point that mirrors its row, the filter of the vector index decides as the gates of the
-- tables do.
pub build_gate_filter-visible_to :
    (p : Principal) (inc : Bool) (pt : Point) (row : MemoryRow)
    → Mirrors pt row
    → admits (build_gate_filter p inc) pt ≡ visible_to p inc row
unfolding admits build_gate_filter visible_to
build_gate_filter-visible_to p inc pt row m = rw (m.owner_id, m.scope, m.sensitive) (ground arith)

build_gate_filter-admits :
    (p : Principal) (inc : Bool) (pt : Point) (row : MemoryRow)
    → Mirrors pt row
    → all (condition_holds pt) (build_gate_filter p inc).must ≡ visible_to p inc row
unfolding admits
build_gate_filter-admits p inc pt row m = build_gate_filter-visible_to p inc pt row m

abbrev status_wish : List MemoryStatus → MemoryRow → Bool
status_wish [] row = true
status_wish (s ∷ ss) row = has_status row.status (s ∷ ss)

-- What a search asks for beside the gates.
abbrev pub wished : Principal → SearchOptions → MemoryRow → Bool
wished p opts row =
    scope_clause opts.scope row
    && ((not opts.owner_only || owns p row) && status_wish opts.statuses row)

narrowing_scope :
    (o : Option MemoryScope) (pt : Point) (row : MemoryRow)
    → Mirrors pt row
    → all (condition_holds pt) (scope_narrowing o) ≡ scope_clause o row
narrowing_scope none pt row m = refl
narrowing_scope (some s) pt row m = rw m.scope (ground arith)

narrowing_owner :
    (p : Principal) (b : Bool) (pt : Point) (row : MemoryRow)
    → Mirrors pt row
    → all (condition_holds pt) (owner_narrowing p b) ≡ (not b || owns p row)
narrowing_owner p true pt row m = rw m.owner_id (ground arith)
narrowing_owner p false pt row m = refl

and_true : (b : Bool) → (b && true) ≡ b
and_true b = ground arith

narrowing_status :
    (ss : List MemoryStatus) (pt : Point) (row : MemoryRow)
    → Mirrors pt row
    → all (condition_holds pt) (status_narrowing ss) ≡ status_wish ss row
narrowing_status [] pt row m = refl
narrowing_status (s ∷ ss) pt row m =
    and_true (has_status pt.status (s ∷ ss)) ∙ ap (λ st. has_status st (s ∷ ss)) m.status

narrowing-wished :
    (p : Principal) (opts : SearchOptions) (pt : Point) (row : MemoryRow)
    → Mirrors pt row
    → all (condition_holds pt) (
        scope_narrowing opts.scope
        ++ (owner_narrowing p opts.owner_only ++ status_narrowing opts.statuses))
      ≡ wished p opts row
narrowing-wished p opts pt row m =
    all-append (condition_holds pt) (scope_narrowing opts.scope)
      (owner_narrowing p opts.owner_only ++ status_narrowing opts.statuses)
    ∙ cc (
      narrowing_scope opts.scope pt row m,
      all-append (condition_holds pt) (owner_narrowing p opts.owner_only)
          (status_narrowing opts.statuses),
      narrowing_owner p opts.owner_only pt row m,
      narrowing_status opts.statuses pt row m,
    )

-- The filter of a search admits the points of the visible rows that it asks for, and no others.
pub search_filter-visible_to :
    (p : Principal) (opts : SearchOptions) (pt : Point) (row : MemoryRow)
    → Mirrors pt row
    → admits (search_filter p opts) pt
      ≡ (visible_to p opts.include_sensitive row && wished p opts row)
unfolding admits search_filter build_gate_filter
search_filter-visible_to p opts pt row m =
    let gate = build_gate_filter p opts.include_sensitive in
    let gates : all (condition_holds pt) gate.must ≡ visible_to p opts.include_sensitive row =
      build_gate_filter-admits p opts.include_sensitive pt row m in
    all-append (condition_holds pt) gate.must (
      scope_narrowing opts.scope
      ++ (owner_narrowing p opts.owner_only ++ status_narrowing opts.statuses))
    ∙ cc (gates, narrowing-wished p opts pt row m)
