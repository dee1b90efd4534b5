-- ===== src/Memory/Visibility/PointInTime.antt =====
-- project/src/memory/memory.store.ts: the facts that hold at an instant.
pub mod Recall
use cogeto.Base.{
  ℕ, String, Bool, true, false, Option, none, some, List, [], ◌∷◌, ◌&&◌, ◌||◌, not, ◌==◌, ltb, leb,
  if◌then◌else◌, or_else, keep, any, map, take, is_blank,
}
use cogeto.Shared.{Principal}
use cogeto.Db.{
  MemoryRow, Point, M, ◌>>=◌, pure, gets, err, not_implemented, index_down, read_external,
}
use cogeto.Memory.Visibility.{visible_to}

abbrev pub temporal_candidate_cap : ℕ
temporal_candidate_cap = 200

abbrev pub effective_from : MemoryRow → ℕ
effective_from row = or_else row.valid_from row.created_at

-- `intervalHoldsAtSql`.
abbrev until_clause : ℕ → Option ℕ → Bool
until_clause t none = true
until_clause t (some until) = ltb t until

abbrev pub holds_at_sql : ℕ → MemoryRow → Bool
holds_at_sql t row = leb (effective_from row) t && until_clause t row.valid_until

-- Whether the query embedding is given is `ranked`.
pub record PointInTimeOptions : Type 0 where
  pub include_sensitive : Bool
  pub top_k : ℕ
  pub ranked : Bool
  pub entities : List String

-- A score is a similarity plus 1, in thousandths, so that a fact without one ranks as 0.
pub record PointInTimeHit : Type 0 where
  pub memory : MemoryRow
  pub score : Option ℕ

-- A stable sort: `first_of a b` when `a` must come before `b`.
module _ {A : Type 0} (first_of : A → A → Bool) where
  abbrev pub insert : A → List A → List A
  insert x [] = x ∷ []
  insert x (y ∷ ys) = if first_of y x then y ∷ insert x ys else x ∷ y ∷ ys

  abbrev pub sort : List A → List A
  sort [] = []
  sort (x ∷ xs) = insert x (sort xs)

-- `ORDER BY COALESCE(valid_from, created_at) DESC, id`.
abbrev pub fetched_before : MemoryRow → MemoryRow → Bool
fetched_before a b =
    ltb (effective_from b) (effective_from a)
    || (effective_from a == effective_from b && ltb a.id b.id)

abbrev pub ranked_before : PointInTimeHit → PointInTimeHit → Bool
ranked_before a b = ltb (or_else b.score 0) (or_else a.score 0)

abbrev pub fetch : (MemoryRow → Bool) → List MemoryRow → List MemoryRow
fetch clauses rows = take temporal_candidate_cap (sort fetched_before (keep clauses rows))

abbrev pub base_clauses : Principal → ℕ → Bool → MemoryRow → Bool
base_clauses p t include_sensitive row = visible_to p include_sensitive row && holds_at_sql t row

-- An empty narrowed set falls back to the full one.
abbrev pub or_all : (MemoryRow → Bool) → List MemoryRow → List MemoryRow → List MemoryRow
or_all base rows [] = fetch base rows
or_all base rows (c ∷ cs) = c ∷ cs

-- `similar entity name` is the trigram operator of the database, the name trimmed. For
-- `point_in_time`, `score_of` is what the index finds for an id when the search succeeds.
module _ (similar : String → String → Bool) where
  -- A name that is given twice asks for nothing more, so equal names stay.
  abbrev pub named_in : List String → MemoryRow → Bool
  named_in wanted row = any (λ name. any (λ entity. similar entity name) row.entities) wanted

  abbrev pub narrowed :
      (MemoryRow → Bool) → (wanted : List String) → List MemoryRow → List MemoryRow
  narrowed base [] rows = []
  narrowed base (name ∷ names) rows = fetch (λ row. base row && named_in (name ∷ names) row) rows

  abbrev pub candidates : Principal → ℕ → PointInTimeOptions → List MemoryRow → List MemoryRow
  candidates p t opts rows =
      let base = base_clauses p t opts.include_sensitive in
      or_all base rows (narrowed base (keep (λ name. not (is_blank name)) opts.entities) rows)

-- `vectorSearch` of the query, for the scores that it finds: it throws where there is no index, or
-- the index fails.
abbrev pub vector_search : (ℕ → Option ℕ) → Option (List Point) → M (ℕ → Option ℕ)
vector_search score_of none w = err not_implemented w
vector_search score_of (some ps) w = read_external index_down score_of w.outages w

-- No search without an embedding, or without candidates.
abbrev pub scores_of : (ℕ → Option ℕ) → (ranked : Bool) → List MemoryRow → M (ℕ → Option ℕ)
scores_of score_of false rows = pure (λ id. none)
scores_of score_of true [] = pure (λ id. none)
scores_of score_of true (row ∷ rows) = λ w. vector_search score_of w.points w

abbrev pub as_hit : (ℕ → Option ℕ) → MemoryRow → PointInTimeHit
as_hit scores row = record { memory = row; score = scores row.id }

abbrev pub ranked_hits : (ℕ → Option ℕ) → (top_k : ℕ) → List MemoryRow → List PointInTimeHit
ranked_hits scores top_k rows = take top_k (sort ranked_before (map (as_hit scores) rows))

unfoldable pub point_in_time :
    (similar : String → String → Bool)
    → (score_of : ℕ → Option ℕ) → Principal
    → (t : ℕ) → PointInTimeOptions
    → M (List PointInTimeHit)
point_in_time similar score_of p t opts = do
  rows ← gets (λ w. candidates similar p t opts w.memories)
  scores ← scores_of score_of opts.ranked rows
  pure (ranked_hits scores opts.top_k rows)
