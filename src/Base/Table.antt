-- ===== src/Base/Table.antt =====
-- A database table as a list of rows with a numeric primary key: select, update and delete by key.
use Prim.Native.Nat.{ℕ, ◌<◌}
use mathlib.Core.Path.{◌≡◌, refl, subst}
use mathlib.Core.Logic.{◌≢◌, inl, inr}
use mathlib.Core.Option.{Option, none, some}
use mathlib.Core.List.{List, [], ◌∷◌}
use native.Mathlib.Omega.{arith}
use cogeto.Base.Tests.{◌==◌, if◌then◌else◌, Bool-cases, ==_iff}
use cogeto.Base.Lists.{All}

module _ {ℓ} {A : Type ℓ} (key : A → ℕ) where
  -- SELECT … WHERE id = k.
  unfoldable pub find : ℕ → List A → Option A
  find k [] = none
  find k (r ∷ rs) = if key r == k then some r else find k rs

  -- UPDATE … WHERE id = k.
  unfoldable pub update : ℕ → (A → A) → List A → List A
  update k f [] = []
  update k f (r ∷ rs) = (if key r == k then f r else r) ∷ update k f rs

  -- DELETE … WHERE id = k.
  unfoldable pub delete : ℕ → List A → List A
  delete k [] = []
  delete k (r ∷ rs) = if key r == k then delete k rs else r ∷ delete k rs

  pub find-key : (k : ℕ) (rs : List A) (r : A) → find k rs ≡ some r → key r ≡ k
  unfolding find
  find-key k [] r h = absurd (cc)
  find-key k (x ∷ rs) r h = ground (arith, find-key k rs r)

  pub find-update_same :
      (k : ℕ) (f : A → A) (rs : List A) (r : A)
      → ((x : A) → key (f x) ≡ key x)
      → find k rs ≡ some r
      → find k (update k f rs) ≡ some (f r)
  unfolding find update
  find-update_same k f [] r keyed h = cc
  find-update_same k f (x ∷ rs) r keyed h = ground (arith, keyed x, find-update_same k f rs r keyed)

  pub find-update_other :
      (k j : ℕ) (f : A → A) (rs : List A)
      → ((x : A) → key (f x) ≡ key x)
      → k ≢ j
      → find j (update k f rs) ≡ find j rs
  unfolding find update
  find-update_other k j f [] keyed ne = refl
  find-update_other k j f (x ∷ rs) keyed ne =
      ground (arith, keyed x, find-update_other k j f rs keyed ne)

  pub find-delete_other : (k j : ℕ) (rs : List A) → k ≢ j → find j (delete k rs) ≡ find j rs
  unfolding find delete
  find-delete_other k j [] ne = refl
  find-delete_other k j (x ∷ rs) ne = ground (arith, find-delete_other k j rs ne)

  pub find-delete_same : (k : ℕ) (rs : List A) → find k (delete k rs) ≡ none
  unfolding find delete
  find-delete_same k [] = refl
  find-delete_same k (x ∷ rs) = ground (arith, find-delete_same k rs)

  pub find-All {κ} :
      (P : A → Type κ) (k : ℕ) (rs : List A) (r : A) → All P rs → find k rs ≡ some r → P r
  unfolding find
  find-All P k [] r h e = absurd (cc)
  find-All P k (x ∷ rs) r h e = ground (arith, find-All P k rs r h.1)

  pub All-update {κ} :
      (P : A → Type κ) (k : ℕ) (f : A → A) (rs : List A)
      → ((x : A) → P x → P (f x))
      → All P rs
      → All P (update k f rs)
  unfolding update
  All-update P k f [] step h = tt
  All-update P k f (x ∷ rs) step h = ground (arith, step x h.0, All-update P k f rs step h.1)

  pub All-delete {κ} : (P : A → Type κ) (k : ℕ) (rs : List A) → All P rs → All P (delete k rs)
  unfolding delete
  All-delete P k [] h = tt
  All-delete P k (x ∷ rs) h = ground (arith, All-delete P k rs h.1)

  -- A key above every key of the table is free.
  pub find-fresh : (k : ℕ) (rs : List A) → All (λ r. key r < k) rs → find k rs ≡ none
  unfolding find
  find-fresh k [] h = refl
  find-fresh k (x ∷ rs) h = ground (arith, find-fresh k rs h.1)

  -- No two rows have one key.
  abbrev pub UniqueKeys : List A → Type 0
  UniqueKeys [] = Unit
  UniqueKeys (r ∷ rs) = All (λ s. key s ≢ key r) rs × UniqueKeys rs

  pub update-absent :
      (k : ℕ) (f : A → A) (rs : List A) → All (λ s. key s ≢ k) rs → update k f rs ≡ rs
  unfolding update
  update-absent k f [] h = refl
  update-absent k f (x ∷ rs) h = ground (arith, update-absent k f rs h.1)

  All-key-update :
      (j k : ℕ) (f : A → A) (rs : List A)
      → ((x : A) → key (f x) ≡ key x)
      → All (λ s. key s ≢ j) rs
      → All (λ s. key s ≢ j) (update k f rs)
  unfolding update
  All-key-update j k f [] keyed h = tt
  All-key-update j k f (x ∷ rs) keyed h = ground (arith, keyed x, All-key-update j k f rs keyed h.1)

  pub UniqueKeys-update :
      (k : ℕ) (f : A → A) (rs : List A)
      → ((x : A) → key (f x) ≡ key x)
      → UniqueKeys rs
      → UniqueKeys (update k f rs)
  unfolding update
  UniqueKeys-update k f [] keyed u = tt
  UniqueKeys-update k f (x ∷ rs) keyed u = elim (Bool-cases (key x == k)) [
    | inl e ↦
        rw e (
          rw (keyed x) (All-key-update (key x) k f rs keyed u.0),
          UniqueKeys-update k f rs keyed u.1,
        )
    | inr e ↦ rw e (All-key-update (key x) k f rs keyed u.0, UniqueKeys-update k f rs keyed u.1)
  ]

  pub UniqueKeys-delete : (k : ℕ) (rs : List A) → UniqueKeys rs → UniqueKeys (delete k rs)
  unfolding delete
  UniqueKeys-delete k [] u = tt
  UniqueKeys-delete k (x ∷ rs) u = elim (Bool-cases (key x == k)) [
    | inl e ↦ rw e (UniqueKeys-delete k rs u.1)
    | inr e ↦ rw e (All-delete (λ s. key s ≢ key x) k rs u.0, UniqueKeys-delete k rs u.1)
  ]

  All-ne_of_lt : (n : ℕ) (rs : List A) → All (λ r. key r < n) rs → All (λ s. key s ≢ n) rs
  All-ne_of_lt n [] h = tt
  All-ne_of_lt n (x ∷ rs) h = (omega (arith, h.0), All-ne_of_lt n rs h.1)

  pub UniqueKeys-insert :
      (r : A) (rs : List A) → All (λ s. key s < key r) rs → UniqueKeys rs → UniqueKeys (r ∷ rs)
  UniqueKeys-insert r rs below u = (All-ne_of_lt (key r) rs below, u)

  -- Where keys are unique, an update changes the one row that a select finds.
  pub All-update_found {κ} :
      (P : A → Type κ) (k : ℕ) (f : A → A) (rs : List A) (r : A)
      → UniqueKeys rs
      → find k rs ≡ some r
      → P (f r)
      → All P rs
      → All P (update k f rs)
  unfolding find update
  All-update_found P k f [] r u e p h = tt
  All-update_found P k f (x ∷ rs) r u e p h = elim (Bool-cases (key x == k)) [
    | inl hit ↦
        let same : x ≡ r = ground arith in
        let rest : update k f rs ≡ rs =
          update-absent k f rs (subst (λ j. All (λ s. key s ≢ j) rs) ((==_iff _ _).0 hit) u.0) in
        rw (hit, same, rest) (p, h.1)
    | inr miss ↦
        let later : find k rs ≡ some r = ground arith in
        rw miss (h.0, All-update_found P k f rs r u.1 later p h.1)
  ]
