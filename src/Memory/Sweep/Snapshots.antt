-- ===== src/Memory/Sweep/Snapshots.antt =====
-- What a page of the payload check reads, and where its rows stand in the table.
use cogeto.Base.{
  ℕ, suc, ◌==◌, ==_refl, ==_iff, Bool, true, false, Option, none, some, List, [], ◌∷◌, ◌≡◌, ◌≢◌,
  refl, arith, sym, ap, subst, ◌∙◌, inl, inr, keep, take, length, has_id, is_some, All, Bool-cases,
}
use cogeto.Base.Table.{find, UniqueKeys}
use cogeto.Db.{World, MemoryRow, memory_key, Point, point_key, index_down, read_external}
use cogeto.Db.Total.{Returns, returned, Calm}
use cogeto.Memory.Visibility.PointInTime.{sort}
use cogeto.Memory.Visibility.PointInTime.Recall.{length-sort}
use cogeto.Memory.Sweep.Arms.{retrieve_payloads, read_points}
use cogeto.Memory.Sweep.Payloads.{not_later, page_ids}
use cogeto.Memory.Sweep.Pages.{All-weaken}
use cogeto.Memory.Sweep.Healing.{copies, Stored}

-- The payloads of a page.
pub record Retrieved (ids : List ℕ) (w : World) (ps : List Point) (w' : World) : Type 0 where
  pub calm : Calm w'
  pub memories : w'.memories ≡ w.memories
  pub points : w'.points ≡ w.points
  pub are : ps ≡ keep (λ (p : Point). has_id p.id ids) (copies w.points)

pub retrieve_payloads-Retrieved :
    (id : ℕ) (ids : List ℕ) (w : World)
    → Calm w
    → Returns (Retrieved (id ∷ ids) w) (retrieve_payloads (id ∷ ids) w)
unfolding retrieve_payloads
retrieve_payloads-Retrieved id ids w c = by_index w.points refl
  where
    f : List Point → List Point
    f = keep (λ (p : Point). has_id p.id (id ∷ ids))

    read :
        (ps : List Point) (os : List Bool)
        → w.points ≡ some ps
        → os ≡ []
        → Returns (Retrieved (id ∷ ids) w) (read_external index_down (f ps) os w)
    read ps [] is up =
        returned (record {
          calm = c;
          memories = refl;
          points = refl;
          are = ap (λ o. f (copies o)) (sym is);
        })
    read ps (o ∷ os) is up = absurd (cc up)

    by_index :
        (o : Option (List Point))
        → w.points ≡ o
        → Returns (Retrieved (id ∷ ids) w) (read_points f o w)
    by_index none is = absurd (cc (sym c.index ∙ ap is_some is))
    by_index (some ps) is = read ps w.outages is c.up

pub find-keep :
    (ids : List ℕ) (j : ℕ) (ps : List Point)
    → has_id j ids ≡ true
    → find point_key j (keep (λ (p : Point). has_id p.id ids) ps) ≡ find point_key j ps
unfolding find
find-keep ids j [] h = refl
find-keep ids j (p ∷ ps) h = elim (Bool-cases (p.id == j)) [
  | inl e ↦
      let there : has_id p.id ids ≡ true =
        subst (λ k. has_id k ids ≡ true) (sym ((==_iff p.id j).0 e)) h in
      rw there (rw e refl)
  | inr e ↦ elim (Bool-cases (has_id p.id ids)) [
    | inl t ↦ rw t (rw e (find-keep ids j ps h))
    | inr t ↦ rw (t, e) (find-keep ids j ps h)
  ]
]

pub listed_all :
    (xs : List MemoryRow) → All (λ (r : MemoryRow). has_id r.id (page_ids xs) ≡ true) xs
listed_all [] = tt
listed_all (x ∷ xs) = (
  rw (==_refl x.id) refl,
  All-weaken (λ (r : MemoryRow). has_id r.id (page_ids xs) ≡ true)
      (λ (r : MemoryRow). has_id r.id (page_ids (x ∷ xs)) ≡ true) xs (λ r e. rw e (ground arith))
      (listed_all xs),
)

pub kept_all : (p : MemoryRow → Bool) (xs : List MemoryRow) → All (λ r. p r ≡ true) (keep p xs)
kept_all p [] = tt
kept_all p (x ∷ xs) = elim (Bool-cases (p x)) [
  | inl e ↦ rw e (e, kept_all p xs)
  | inr e ↦ rw e (kept_all p xs)
]

pub of_kept :
    (Q : MemoryRow → Type 0) (p : MemoryRow → Bool) (xs : List MemoryRow)
    → All Q (keep p xs)
    → All (λ r. p r ≡ true → Q r) xs
of_kept Q p [] h = tt
of_kept Q p (x ∷ xs) h = elim (Bool-cases (p x)) [
  | inl e ↦ let h' = rw e at h in (λ _. h'.0, of_kept Q p xs h'.1)
  | inr e ↦ ((λ is. absurd (cc (sym e ∙ is))), of_kept Q p xs (rw e at h))
]

pub unique-Stored : (rows : List MemoryRow) → UniqueKeys memory_key rows → All (Stored rows) rows
unfolding find
unique-Stored [] u = tt
unique-Stored (x ∷ xs) u = (rw (==_refl x.id) refl, below xs u.0 (unique-Stored xs u.1))
  where
    below :
        (ys : List MemoryRow)
        → All (λ (s : MemoryRow). s.id ≢ x.id) ys
        → All (Stored xs) ys
        → All (Stored (x ∷ xs)) ys
    below [] ne h = tt
    below (y ∷ ys) ne h =
        let other : (x.id == y.id) ≡ false = ground (arith, ne.0) in
        (rw other h.0, below ys ne.1 h.1)

pub empty_page : (n : ℕ) (zs : List MemoryRow) → take (suc n) (sort not_later zs) ≡ [] → zs ≡ []
empty_page n [] e = refl
empty_page n (z ∷ zs) e =
    absurd (nothing (sort not_later (z ∷ zs)) (length-sort not_later (z ∷ zs)) e)
  where
    nothing : (ys : List MemoryRow) → length ys ≡ suc (length zs) → take (suc n) ys ≡ [] → ⊥
    nothing [] l q = omega (arith, l)
    nothing (y ∷ ys) l q = cc q
