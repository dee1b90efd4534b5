-- ===== src/Memory/Visibility/PointInTime/Recall.antt =====
-- What a point-in-time query returns.
use cogeto.Base.{
  ℕ, zero, suc, String, Bool, true, false, Option, none, some, is_some, List, [], ◌∷◌, ◌≡◌, ◌≤◌,
  refl, arith, ◌&&◌, not, ◌∙◌, keep, any, map, take, length, All, Bool-cases, inl, inr, is_blank,
  subst, length-map, ap, sym,
}
use cogeto.Shared.{Principal}
use cogeto.Db.{World, MemoryRow, Point, Answer, ok, err, index_down, read_external}
use cogeto.Db.Outcome.{Ensures, returns, throws, Ensures-bind}
use cogeto.Db.Total.{Returns, returned, Returns-bind, Calm}
use cogeto.Memory.Policy.{interval_holds_at}
use cogeto.Memory.Reconciliation.{as_party}
use cogeto.Memory.Visibility.{visible_to}
use cogeto.Memory.Visibility.PointInTime.{
  temporal_candidate_cap, holds_at_sql, PointInTimeOptions, PointInTimeHit, insert, sort,
  fetched_before, ranked_before, fetch, base_clauses, narrowed, or_all, candidates, as_hit,
  vector_search, scores_of, ranked_hits, point_in_time,
}

-- The predicate in SQL is the pure one.
holds_at_sql-interval_holds_at :
    (t : ℕ) (row : MemoryRow) → holds_at_sql t row ≡ interval_holds_at (as_party row) t
unfolding interval_holds_at
holds_at_sql-interval_holds_at t row = ground arith

module _ {A : Type 0} (P : A → Type 0) where
  pub All-insert : (f : A → A → Bool) (x : A) (xs : List A) → P x → All P xs → All P (insert f x xs)
  All-insert f x [] px h = (px, tt)
  All-insert f x (y ∷ ys) px h = elim (Bool-cases (f y x)) [
    | inl e ↦ rw e (h.0, All-insert f x ys px h.1)
    | inr e ↦ rw e (px, h)
  ]

  pub All-sort : (f : A → A → Bool) (xs : List A) → All P xs → All P (sort f xs)
  All-sort f [] h = tt
  All-sort f (x ∷ xs) h = All-insert f x (sort f xs) h.0 (All-sort f xs h.1)

  pub All-take : (n : ℕ) (xs : List A) → All P xs → All P (take n xs)
  All-take zero xs h = tt
  All-take (suc n) [] h = tt
  All-take (suc n) (x ∷ xs) h = (h.0, All-take n xs h.1)

module _ {A : Type 0} where
  length-take-le : (n : ℕ) (xs : List A) → length (take n xs) ≤ n
  length-take-le zero xs = omega arith
  length-take-le (suc n) [] = omega arith
  length-take-le (suc n) (x ∷ xs) = omega (arith, length-take-le n xs)

  length-insert :
      (f : A → A → Bool) (x : A) (xs : List A) → length (insert f x xs) ≡ suc (length xs)
  length-insert f x [] = refl
  length-insert f x (y ∷ ys) = elim (Bool-cases (f y x)) [
    | inl e ↦ rw e (ap suc (length-insert f x ys))
    | inr e ↦ rw e refl
  ]

  pub length-sort : (f : A → A → Bool) (xs : List A) → length (sort f xs) ≡ length xs
  length-sort f [] = refl
  length-sort f (x ∷ xs) = length-insert f x (sort f xs) ∙ ap suc (length-sort f xs)

  take_some : (n : ℕ) (xs : List A) → 1 ≤ n → 1 ≤ length xs → 1 ≤ length (take n xs)
  take_some zero xs n h = absurd (omega (arith, n))
  take_some (suc k) [] n h = absurd (omega (arith, h))
  take_some (suc k) (x ∷ xs) n h = omega arith

  keep_some : (p : A → Bool) (xs : List A) → any p xs ≡ true → 1 ≤ length (keep p xs)
  keep_some p [] h = absurd (cc h)
  keep_some p (x ∷ xs) h = elim (Bool-cases (p x)) [
    | inl e ↦ rw e (omega arith)
    | inr e ↦ rw e (keep_some p xs (ground (arith, h, e)))
  ]

-- A fact that the gates let a reader see and that holds at an instant.
abbrev pub Holding : Principal → Bool → ℕ → MemoryRow → Type 0
Holding p inc t row = (visible_to p inc row ≡ true) × (interval_holds_at (as_party row) t ≡ true)

keep-Holding :
    (p : Principal) (inc : Bool) (t : ℕ) (q : MemoryRow → Bool) (rows : List MemoryRow)
    → ((row : MemoryRow) → q row ≡ true → base_clauses p t inc row ≡ true)
    → All (Holding p inc t) (keep q rows)
keep-Holding p inc t q [] imp = tt
keep-Holding p inc t q (row ∷ rows) imp =
    let rest = keep-Holding p inc t q rows imp in
    elim (Bool-cases (q row)) [
      | inl e ↦
          let both = imp row e in
          let same = holds_at_sql-interval_holds_at t row in
          rw e ((ground (arith, both), sym same ∙ ground (arith, both)), rest)
      | inr e ↦ rw e rest
    ]

fetch-Holding :
    (p : Principal) (inc : Bool) (t : ℕ) (q : MemoryRow → Bool) (rows : List MemoryRow)
    → ((row : MemoryRow) → q row ≡ true → base_clauses p t inc row ≡ true)
    → All (Holding p inc t) (fetch q rows)
fetch-Holding p inc t q rows imp =
    All-take (Holding p inc t) temporal_candidate_cap (sort fetched_before (keep q rows))
      (All-sort (Holding p inc t) fetched_before (keep q rows) (keep-Holding p inc t q rows imp))

or_all-Holding :
    (p : Principal) (inc : Bool) (t : ℕ) (rows found : List MemoryRow)
    → All (Holding p inc t) found
    → All (Holding p inc t) (or_all (base_clauses p t inc) rows found)
or_all-Holding p inc t rows [] h = fetch-Holding p inc t (base_clauses p t inc) rows (λ row e. e)
or_all-Holding p inc t rows (c ∷ cs) h = h

or_all_some :
    (base : MemoryRow → Bool) (rows found : List MemoryRow)
    → any base rows ≡ true
    → 1 ≤ length (or_all base rows found)
or_all_some base rows [] some_row =
    take_some temporal_candidate_cap (sort fetched_before (keep base rows)) (omega arith) (
      subst (λ n. 1 ≤ n) (sym (length-sort fetched_before (keep base rows)))
        (keep_some base rows some_row))
or_all_some base rows (c ∷ cs) some_row = omega arith

any_same :
    {A : Type 0} → (p q : A → Bool) (xs : List A) → ((x : A) → p x ≡ q x) → any p xs ≡ any q xs
any_same p q [] same = refl
any_same p q (x ∷ xs) same = rw (same x, any_same p q xs same) refl

module _ (similar : String → String → Bool) where
  narrowed-Holding :
      (p : Principal) (inc : Bool) (t : ℕ) (wanted : List String) (rows : List MemoryRow)
      → All (Holding p inc t) (narrowed similar (base_clauses p t inc) wanted rows)
  narrowed-Holding p inc t [] rows = tt
  narrowed-Holding p inc t (name ∷ names) rows =
      fetch-Holding p inc t _ rows (λ row e. ground (arith, e))

  candidates-Holding :
      (p : Principal) (t : ℕ) (opts : PointInTimeOptions) (rows : List MemoryRow)
      → All (Holding p opts.include_sensitive t) (candidates similar p t opts rows)
  candidates-Holding p t opts rows =
      let inc : Bool = opts.include_sensitive in
      let wanted : List String = keep (λ name. not (is_blank name)) opts.entities in
      or_all-Holding p inc t rows (narrowed similar (base_clauses p t inc) wanted rows)
        (narrowed-Holding p inc t wanted rows)

  candidates_some :
      (p : Principal) (t : ℕ) (opts : PointInTimeOptions) (rows : List MemoryRow)
      → any
          (λ row. visible_to p opts.include_sensitive row && interval_holds_at (as_party row) t)
          rows
        ≡ true
      → 1 ≤ length (candidates similar p t opts rows)
  candidates_some p t opts rows some_row =
      let inc : Bool = opts.include_sensitive in
      let base : MemoryRow → Bool = base_clauses p t inc in
      let wanted : List String = keep (λ name. not (is_blank name)) opts.entities in
      or_all_some base rows (narrowed similar base wanted rows) (
        any_same base _ rows
          (λ row. ap (λ b. visible_to p inc row && b) (holds_at_sql-interval_holds_at t row))
        ∙ some_row)

module _ (scores : ℕ → Option ℕ) where
  hits-Holding :
      (p : Principal) (inc : Bool) (t : ℕ) (rows : List MemoryRow)
      → All (Holding p inc t) rows
      → All (λ hit. Holding p inc t hit.memory) (map (as_hit scores) rows)
  hits-Holding p inc t [] h = tt
  hits-Holding p inc t (row ∷ rows) h = (h.0, hits-Holding p inc t rows h.1)

  ranked_hits-Holding :
      (p : Principal) (inc : Bool) (t top_k : ℕ) (rows : List MemoryRow)
      → All (Holding p inc t) rows
      → All (λ hit. Holding p inc t hit.memory) (ranked_hits scores top_k rows)
        × (length (ranked_hits scores top_k rows) ≤ top_k)
  ranked_hits-Holding p inc t top_k rows h =
      let hits : List PointInTimeHit = map (as_hit scores) rows in
      (
        All-take _ top_k (sort ranked_before hits)
            (All-sort _ ranked_before hits (hits-Holding p inc t rows h)),
        length-take-le top_k (sort ranked_before hits),
      )

  ranked_hits_some :
      (top_k : ℕ) (rows : List MemoryRow)
      → 1 ≤ top_k
      → 1 ≤ length rows
      → 1 ≤ length (ranked_hits scores top_k rows)
  ranked_hits_some top_k rows room some_row =
      let hits : List PointInTimeHit = map (as_hit scores) rows in
      take_some top_k (sort ranked_before hits) room (
        subst (λ n. 1 ≤ n) (sym (length-sort ranked_before hits ∙ length-map (as_hit scores) rows))
          some_row)

-- Every hit that a point-in-time query returns passes the gates of its reader and holds at the
-- instant, and there are at most `top_k` hits.
pub point_in_time-Holding :
    (similar : String → String → Bool) (score_of : ℕ → Option ℕ) (p : Principal) (t : ℕ)
    (opts : PointInTimeOptions) (w : World)
    → Ensures
        (λ hits _.
          All (λ hit. Holding p opts.include_sensitive t hit.memory) hits
          × (length hits ≤ opts.top_k))
        (point_in_time similar score_of p t opts w)
unfolding point_in_time
point_in_time-Holding similar score_of p t opts w =
    let rows = candidates similar p t opts w.memories in
    Ensures-bind _ (any_scores (scores_of score_of opts.ranked rows w)) λ scores w' _. returns (
      ranked_hits-Holding scores p opts.include_sensitive t opts.top_k rows
        (candidates-Holding similar p t opts w.memories))
  where
    any_scores : (r : Answer (ℕ → Option ℕ)) → Ensures {0, 0} (λ _ _. Unit {0}) r
    any_scores (ok scores w') = returns tt
    any_scores (err e w') = throws

read-Returns :
    (score_of : ℕ → Option ℕ) (os : List Bool) (w : World)
    → os ≡ []
    → Returns {0, 0} (λ _ _. Unit {0}) (read_external index_down score_of os w)
read-Returns score_of [] w up = returned tt
read-Returns score_of (o ∷ os) w up = absurd (cc up)

search-Returns :
    (score_of : ℕ → Option ℕ) (ps : Option (List Point)) (w : World)
    → w.outages ≡ []
    → is_some ps ≡ true
    → Returns {0, 0} (λ _ _. Unit {0}) (vector_search score_of ps w)
search-Returns score_of none w up is = absurd (cc is)
search-Returns score_of (some ps) w up is = read-Returns score_of w.outages w up

scores_of-Returns :
    (score_of : ℕ → Option ℕ) (ranked : Bool) (rows : List MemoryRow) (w : World)
    → Calm w
    → Returns {0, 0} (λ _ _. Unit {0}) (scores_of score_of ranked rows w)
scores_of-Returns score_of false rows w c = returned tt
scores_of-Returns score_of true [] w c = returned tt
scores_of-Returns score_of true (row ∷ rows) w c = search-Returns score_of w.points w c.up c.index

-- Where there is an index and no external call fails, some row of the table passes the gates and
-- holds at the instant, and `top_k` is positive, a point-in-time query returns a hit, whichever
-- entities it names.
pub point_in_time_recall :
    (similar : String → String → Bool) (score_of : ℕ → Option ℕ) (p : Principal) (t : ℕ)
    (opts : PointInTimeOptions) (w : World)
    → Calm w
    → 1 ≤ opts.top_k
    → any
        (λ row. visible_to p opts.include_sensitive row && interval_holds_at (as_party row) t)
        w.memories
      ≡ true
    → Returns (λ hits _. 1 ≤ length hits) (point_in_time similar score_of p t opts w)
unfolding point_in_time
point_in_time_recall similar score_of p t opts w c room some_row =
    let rows = candidates similar p t opts w.memories in
    Returns-bind _ (scores_of-Returns score_of opts.ranked rows w c) λ scores w' _. returned (
      ranked_hits_some scores opts.top_k rows room
        (candidates_some similar p t opts w.memories some_row))
