-- ===== src/Db/Total.antt =====
-- A postcondition on a computation that does return, and the states in which no call of the index
-- or the object store fails.
use cogeto.Base.{ℕ, ◌≡◌, refl, Bool, true, Option, none, some, List, [], ◌∷◌, is_some}
use cogeto.Base.Table.{update}
use cogeto.Db.State.{World, Answer, ok, M, bind, settle}
use cogeto.Db.Vectors.{Patch, Point, apply_patch}
use cogeto.Db.Effects.{point_key, call_index, require_index, index_if_any, set_payload_if_any}
use cogeto.Db.Outcome.{Ensures, returns, throws}

-- The run returns, in a value and a world with the property.
pub data Returns {ℓ κ} {A : Type ℓ} (P : A → World → Type κ) : Answer A → Type (ℓ ⊔ κ) where
  returned : {a : A} {w : World} → P a w → Returns P (ok a w)

module _ {ℓ κ} {A : Type ℓ} {P : A → World → Type κ} where
  pub Returns-transaction : (w : World) {r : Answer A} → Returns P r → Returns P (settle w r)
  Returns-transaction w (returned p) = returned p

module _ {ℓ κ μ} {A : Type ℓ} {P : A → World → Type κ} {Q : A → World → Type μ} where
  pub Returns-mono :
      {r : Answer A} → Returns P r → ((a : A) (w : World) → P a w → Q a w) → Returns Q r
  Returns-mono (returned p) f = returned (f _ _ p)

  -- What a run ensures if it returns, it has where it does.
  pub Returns-both : {r : Answer A} → Ensures P r → Returns Q r → Returns (λ a w. P a w × Q a w) r
  Returns-both (returns p) (returned q) = returned (p, q)
  Returns-both throws h = elim h [ ]

module _ {ℓ κ μ ν} {A : Type ℓ} {B : Type κ} {Q : A → World → Type μ} {P : B → World → Type ν} where
  pub Returns-bind :
      {r : Answer A} (f : A → M B)
      → Returns Q r
      → ((a : A) (w : World) → Q a w → Returns P (f a w))
      → Returns P (bind r f)
  Returns-bind f (returned q) next = next _ _ q

-- There is an index, and no coming call fails.
pub record Calm (w : World) : Type 0 where
  pub up : w.outages ≡ []
  pub index : is_some w.points ≡ true

pub Calm-same : (w w' : World) → w'.outages ≡ w.outages → w'.points ≡ w.points → Calm w → Calm w'
Calm-same w w' o p c = record { up = rw o c.up; index = rw p c.index }

call-Calm :
    (f : List Point → List Point) (ps : List Point) (os : List Bool) (w : World)
    → w.outages ≡ os
    → os ≡ []
    → Returns (λ _ w'. Calm w') (call_index f ps os w)
call-Calm f ps [] w e up = returned (record { up = e; index = refl })
call-Calm f ps (b ∷ os) w e up = absurd (cc up)

pub require_index-Calm :
    (f : List Point → List Point) (ps : Option (List Point)) (w : World)
    → Calm w
    → is_some ps ≡ true
    → Returns (λ _ w'. Calm w') (require_index f ps w)
require_index-Calm f none w c is = absurd (cc is)
require_index-Calm f (some ps) w c is = call-Calm f ps w.outages w refl c.up

pub set_payload_if_any-Calm :
    (id : ℕ) (patch : Patch) (w : World)
    → Calm w
    → Returns (λ _ w'. Calm w') (set_payload_if_any id patch w)
unfolding set_payload_if_any
set_payload_if_any-Calm id patch w c = by_index w.points
  where
    change : List Point → List Point
    change = update point_key id (apply_patch patch)

    by_index : (ps : Option (List Point)) → Returns (λ _ w'. Calm w') (index_if_any change ps w)
    by_index none = returned c
    by_index (some ps) = call-Calm change ps w.outages w refl c.up
