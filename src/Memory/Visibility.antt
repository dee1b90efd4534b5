-- ===== src/Memory/Visibility.antt =====
-- project/src/memory/memory.store.ts: the scope and sensitive gates, the dashboard filters and the
-- gated reads; project/src/memory/persistence/vector-store.ts: the same gates as a filter of the
-- vector index.
pub mod Gates
pub mod Chain
pub mod PointInTime
use cogeto.Base.{
  ℕ, suc, zero, String, Bool, true, false, Option, none, some, List, [], ◌∷◌, ◌++◌, if◌then◌else◌,
  ◌&&◌, ◌||◌, not, ◌==◌, str_eq, is_blank, keep, any, all, length, first, last, has_id, map,
}
use cogeto.Shared.{
  MemoryStatus, uncertain, MemoryScope, shared, Principal, same_status, same_scope, has_status,
}
use cogeto.Db.{MemoryRow, Point, names}

-- `visibleTo`: own rows and shared rows; sensitive rows only with the opt-in, and only one's own.
abbrev pub owns : Principal → MemoryRow → Bool
owns p row = str_eq row.owner_id p.user_id

unfoldable pub visible_to : Principal → (include_sensitive : Bool) → MemoryRow → Bool
visible_to p include_sensitive row =
    (owns p row || same_scope row.scope shared)
    && (if include_sensitive then not row.sensitive || owns p row else not row.sensitive)

pub record MemoryFilters : Type 0 where
  pub scope : Option MemoryScope
  pub status : Option MemoryStatus
  pub sensitive_only : Bool
  pub entity : Option String
  pub mine : Bool

abbrev scope_clause : Option MemoryScope → MemoryRow → Bool
scope_clause none row = true
scope_clause (some s) row = same_scope row.scope s

abbrev status_clause : Option MemoryStatus → MemoryRow → Bool
status_clause none row = true
status_clause (some s) row = same_status row.status s

-- `similar name entity` is the trigram operator of the database, the name trimmed.
module _ (similar : String → String → Bool) where
  abbrev entity_clause : Option String → MemoryRow → Bool
  entity_clause none row = true
  entity_clause (some name) row = is_blank name || any (similar name) row.entities

  unfoldable pub filter_clauses : Principal → MemoryFilters → MemoryRow → Bool
  filter_clauses p filters row =
      (not filters.mine || owns p row)
      && scope_clause filters.scope row
      && status_clause filters.status row
      && (not filters.sensitive_only || row.sensitive)
      && entity_clause filters.entity row

  -- The rows that a list, a count and its pages are taken from.
  unfoldable pub matching : Principal → Bool → MemoryFilters → List MemoryRow → List MemoryRow
  matching p include_sensitive filters rows =
      keep (λ row. visible_to p include_sensitive row && filter_clauses p filters row) rows

  unfoldable pub count_for_principal : Principal → Bool → MemoryFilters → List MemoryRow → ℕ
  count_for_principal p include_sensitive filters rows =
      length (matching p include_sensitive filters rows)

unfoldable pub get_for_principal : Principal → ℕ → Bool → List MemoryRow → Option MemoryRow
get_for_principal p id include_sensitive rows =
    first (λ row. row.id == id && visible_to p include_sensitive row) rows

unfoldable pub get_many_for_principal : Principal → List ℕ → Bool → List MemoryRow → List MemoryRow
get_many_for_principal p ids include_sensitive rows =
    keep (λ row. has_id row.id ids && visible_to p include_sensitive row) rows

unfoldable pub status_count_for_principal : Principal → MemoryStatus → List MemoryRow → ℕ
status_count_for_principal p status rows =
    length (keep (λ row. visible_to p true row && same_status row.status status) rows)

-- Qdrant filters: a condition on one field of the payload, or an OR of such conditions.
pub data FieldMatch : Type 0 where
  owner_id_is : String → FieldMatch
  scope_is : MemoryScope → FieldMatch
  sensitive_is : Bool → FieldMatch
  status_any : List MemoryStatus → FieldMatch

pub data Condition : Type 0 where
  match : FieldMatch → Condition
  should : List FieldMatch → Condition

pub record GateFilter : Type 0 where
  pub must : List Condition

abbrev sensitive_gate : Principal → Bool → Condition
sensitive_gate p true = should (sensitive_is false ∷ owner_id_is p.user_id ∷ [])
sensitive_gate p false = match (sensitive_is false)

unfoldable pub build_gate_filter : Principal → (include_sensitive : Bool) → GateFilter
build_gate_filter p include_sensitive = record {
  must =
      should (owner_id_is p.user_id ∷ scope_is shared ∷ [])
      ∷ sensitive_gate p include_sensitive
      ∷ [];
}

-- The narrowing of `vectorSearch`.
pub record SearchOptions : Type 0 where
  pub include_sensitive : Bool
  pub scope : Option MemoryScope
  pub owner_only : Bool
  pub statuses : List MemoryStatus

abbrev scope_narrowing : Option MemoryScope → List Condition
scope_narrowing none = []
scope_narrowing (some s) = match (scope_is s) ∷ []

abbrev owner_narrowing : Principal → Bool → List Condition
owner_narrowing p true = match (owner_id_is p.user_id) ∷ []
owner_narrowing p false = []

abbrev status_narrowing : List MemoryStatus → List Condition
status_narrowing [] = []
status_narrowing (s ∷ ss) = match (status_any (s ∷ ss)) ∷ []

unfoldable pub search_filter : Principal → SearchOptions → GateFilter
search_filter p opts =
    let gate = build_gate_filter p opts.include_sensitive in
    record {
      must =
          gate.must
          ++ (scope_narrowing opts.scope
              ++ (owner_narrowing p opts.owner_only ++ status_narrowing opts.statuses));
    }

-- The documented reading of a filter: all of `must`, any of a `should`.
abbrev same_flag : Bool → Bool → Bool
same_flag true b = b
same_flag false b = not b

abbrev pub field_holds : Point → FieldMatch → Bool
field_holds pt (owner_id_is u) = str_eq pt.owner_id u
field_holds pt (scope_is s) = same_scope pt.scope s
field_holds pt (sensitive_is b) = same_flag b pt.sensitive
field_holds pt (status_any ss) = has_status pt.status ss

abbrev pub condition_holds : Point → Condition → Bool
condition_holds pt (match m) = field_holds pt m
condition_holds pt (should ms) = any (field_holds pt) ms

unfoldable pub admits : GateFilter → Point → Bool
admits f pt = all (condition_holds pt) f.must

-- The supersession chain: back along the inverse of `superseded_by`, then forward along it.
abbrev pub predecessor : Principal → Bool → List MemoryRow → MemoryRow → Option MemoryRow
predecessor p inc rows head =
    first (λ row. names head.id row.superseded_by && visible_to p inc row) rows

abbrev pub successor : Principal → Bool → List MemoryRow → MemoryRow → Option MemoryRow
successor p inc rows tail = elim tail.superseded_by [
  | none ↦ none
  | some id ↦ get_for_principal p id inc rows
]

-- At most `hops` rows before the head of the chain, oldest first.
unfoldable pub backward :
    Principal → Bool → List MemoryRow → ℕ → List MemoryRow → MemoryRow → List MemoryRow
backward p inc rows zero chain head = chain
backward p inc rows (suc hops) chain head = elim (predecessor p inc rows head) [
  | none ↦ chain
  | some row ↦ backward p inc rows hops (row ∷ chain) row
]

-- At most `hops` rows after the tail of the chain.
unfoldable pub forward : Principal → Bool → List MemoryRow → ℕ → MemoryRow → List MemoryRow
forward p inc rows zero tail = []
forward p inc rows (suc hops) tail = elim (successor p inc rows tail) [
  | none ↦ []
  | some row ↦ row ∷ forward p inc rows hops row
]

abbrev pub chain_hops : ℕ
chain_hops = 50

abbrev pub chain_of : Principal → Bool → List MemoryRow → Option MemoryRow → List MemoryRow
chain_of p inc rows none = []
chain_of p inc rows (some target) =
    backward p inc rows chain_hops (target ∷ []) target ++ forward p inc rows chain_hops target

unfoldable pub get_chain : Principal → ℕ → Bool → List MemoryRow → List MemoryRow
get_chain p id inc rows = chain_of p inc rows (get_for_principal p id inc rows)
