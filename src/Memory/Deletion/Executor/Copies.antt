-- ===== src/Memory/Deletion/Executor/Copies.antt =====
-- The external copies: once the calls return, the points and the objects are gone.
use cogeto.Base.{
  ℕ, String, Bool, true, false, Option, none, some, List, [], ◌∷◌, ◌≡◌, refl, arith, ◌∙◌, not,
  str_eq, keep, any, has_id, All, Bool-cases, inl, inr,
}
use cogeto.Db.{World, Point, call_index, require_index}
use cogeto.Db.Outcome.{Ensures, returns, throws, Ensures-bind, Ensures-mono}
use cogeto.Memory.Deletion.Executor.{delete_points, call_store, delete_objects}

-- Only the external stores have changed.
pub record External (w w' : World) : Type 0 where
  pub memories : w'.memories ≡ w.memories
  pub vault : w'.vault ≡ w.vault
  pub next_id : w'.next_id ≡ w.next_id

pub External-trans : {u v w : World} → External u v → External v w → External u w
External-trans a b = record {
  memories = b.memories ∙ a.memories;
  vault = b.vault ∙ a.vault;
  next_id = b.next_id ∙ a.next_id;
}

-- The index has none of the points.
abbrev pub NoPoints : List ℕ → Option (List Point) → Type 0
NoPoints ids none = Unit {0}
NoPoints ids (some ps) = All (λ p. has_id p.id ids ≡ false) ps

kept-NoPoints :
    (ids : List ℕ) (ps : List Point)
    → All (λ p. has_id p.id ids ≡ false) (keep (λ (p : Point). not (has_id p.id ids)) ps)
kept-NoPoints ids [] = tt
kept-NoPoints ids (p ∷ ps) = elim (Bool-cases (has_id p.id ids)) [
  | inl hit ↦ rw hit (kept-NoPoints ids ps)
  | inr miss ↦ rw miss (miss, kept-NoPoints ids ps)
]

all_points : (ps : List Point) → All (λ p. has_id p.id [] ≡ false) ps
all_points [] = tt
all_points (p ∷ ps) = (refl, all_points ps)

call-NoPoints :
    (ids : List ℕ) (ps : List Point) (os : List Bool) (w : World)
    → Ensures
        (λ _ w'. External w w' × NoPoints ids w'.points)
        (call_index (keep (λ (p : Point). not (has_id p.id ids))) ps os w)
call-NoPoints ids ps [] w =
    returns (record { memories = refl; vault = refl; next_id = refl }, kept-NoPoints ids ps)
call-NoPoints ids ps (true ∷ os) w = throws
call-NoPoints ids ps (false ∷ os) w =
    returns (record { memories = refl; vault = refl; next_id = refl }, kept-NoPoints ids ps)

pub delete_points-NoPoints :
    (ids : List ℕ) (w : World)
    → Ensures (λ _ w'. External w w' × NoPoints ids w'.points) (delete_points ids w)
unfolding delete_points
delete_points-NoPoints [] w =
    returns (record { memories = refl; vault = refl; next_id = refl }, nothing w.points)
  where
    nothing : (o : Option (List Point)) → NoPoints [] o
    nothing none = tt
    nothing (some ps) = all_points ps
delete_points-NoPoints (id ∷ ids) w = by_index w.points
  where
    by_index :
        (o : Option (List Point))
        → Ensures
            (λ _ w'. External w w' × NoPoints (id ∷ ids) w'.points)
            (require_index (keep (λ (p : Point). not (has_id p.id (id ∷ ids)))) o w)
    by_index none = throws
    by_index (some ps) = call-NoPoints (id ∷ ids) ps w.outages w

abbrev pub is_listed : List String → String → Bool
is_listed keys k = any (λ key. str_eq k key) keys

-- What a run of deletions of objects leaves.
pub record ObjectsGone (keys : List String) (w w' : World) : Type 0 where
  pub external : External w w'
  pub points : w'.points ≡ w.points
  pub absent : All (λ k. is_listed keys k ≡ false) w'.objects
  pub still :
      (others : List String)
      → All (λ k. is_listed others k ≡ false) w.objects
      → All (λ k. is_listed others k ≡ false) w'.objects

kept-absent :
    (others : List String) (key : String) (objects : List String)
    → All (λ k. is_listed others k ≡ false) objects
    → All (λ k. is_listed (key ∷ others) k ≡ false) (keep (λ k. not (str_eq k key)) objects)
kept-absent others key [] h = tt
kept-absent others key (k ∷ objects) h = elim (Bool-cases (str_eq k key)) [
  | inl hit ↦ rw hit (kept-absent others key objects h.1)
  | inr miss ↦ rw miss (rw miss h.0, kept-absent others key objects h.1)
]

kept-still :
    (others : List String) (key : String) (objects : List String)
    → All (λ k. is_listed others k ≡ false) objects
    → All (λ k. is_listed others k ≡ false) (keep (λ k. not (str_eq k key)) objects)
kept-still others key [] h = tt
kept-still others key (k ∷ objects) h = elim (Bool-cases (str_eq k key)) [
  | inl hit ↦ rw hit (kept-still others key objects h.1)
  | inr miss ↦ rw miss (h.0, kept-still others key objects h.1)
]

nothing_listed : (objects : List String) → All (λ k. is_listed [] k ≡ false) objects
nothing_listed [] = tt
nothing_listed (k ∷ objects) = (refl, nothing_listed objects)

call_store-Gone :
    (key : String) (os : List Bool) (w : World)
    → Ensures (λ _ w'. ObjectsGone (key ∷ []) w w') (call_store key os w)
call_store-Gone key [] w = returns (record {
  external = record { memories = refl; vault = refl; next_id = refl };
  points = refl;
  absent = kept-absent [] key w.objects (nothing_listed w.objects);
  still = λ others h. kept-still others key w.objects h;
})
call_store-Gone key (true ∷ os) w = throws
call_store-Gone key (false ∷ os) w = returns (record {
  external = record { memories = refl; vault = refl; next_id = refl };
  points = refl;
  absent = kept-absent [] key w.objects (nothing_listed w.objects);
  still = λ others h. kept-still others key w.objects h;
})

join_listed :
    (key : String) (keys objects : List String)
    → All (λ k. is_listed (key ∷ []) k ≡ false) objects
    → All (λ k. is_listed keys k ≡ false) objects
    → All (λ k. is_listed (key ∷ keys) k ≡ false) objects
join_listed key keys [] a b = tt
join_listed key keys (k ∷ objects) a b =
    (ground (arith, a.0, b.0), join_listed key keys objects a.1 b.1)

pub delete_objects-Gone :
    (keys : List String) (w : World)
    → Ensures (λ _ w'. ObjectsGone keys w w') (delete_objects keys w)
unfolding delete_objects
delete_objects-Gone [] w = returns (record {
  external = record { memories = refl; vault = refl; next_id = refl };
  points = refl;
  absent = nothing_listed w.objects;
  still = λ others h. h;
})
delete_objects-Gone (key ∷ keys) w = Ensures-bind _ (call_store-Gone key w.outages w) λ _ v here.
    Ensures-mono (delete_objects-Gone keys v) λ _ w' rest. record {
      external = External-trans here.external rest.external;
      points = rest.points ∙ here.points;
      absent = join_listed key keys w'.objects (rest.still (key ∷ []) here.absent) rest.absent;
      still = λ others h. rest.still others (here.still others h);
    }
