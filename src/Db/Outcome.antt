-- ===== src/Db/Outcome.antt =====
-- A postcondition on the values and worlds that a computation may return, with a rule for each
-- statement: the rest of the computation is proved from what the statement established.
use cogeto.Base.{
  ℕ, ◌≡◌, refl, Bool, true, false, Option, none, some, List, [], ◌∷◌, subst, if◌then◌else◌,
}
use cogeto.Db.State.{World, Answer, ok, err, M, bind, Error, settle}
use cogeto.Db.Vectors.{Patch, Point}
use cogeto.Db.Effects.{
  set_payload, set_payload_if_any, delete_point, call_index, require_index, index_if_any,
}

-- A run that returns ends in a value and a world with the property.
pub data Ensures {ℓ κ} {A : Type ℓ} (P : A → World → Type κ) : Answer A → Type (ℓ ⊔ κ) where
  returns : {a : A} {w : World} → P a w → Ensures P (ok a w)
  throws : {e : Error} {w : World} → Ensures P (err e w)

module _ {ℓ κ} {A : Type ℓ} {P : A → World → Type κ} where
  pub Ensures-ok : {a : A} {w : World} → Ensures P (ok a w) → P a w
  Ensures-ok (returns p) = p

  pub Ensures-of_run : {r : Answer A} (a : A) (w : World) → Ensures P r → r ≡ ok a w → P a w
  Ensures-of_run a w h e = Ensures-ok (subst (Ensures P) e h)

  pub Ensures-transaction : (w : World) {r : Answer A} → Ensures P r → Ensures P (settle w r)
  Ensures-transaction w (returns p) = returns p
  Ensures-transaction w throws = throws

  pub Ensures-if :
      (b : Bool) (x y : M A) (w : World)
      → (b ≡ true → Ensures P (x w))
      → (b ≡ false → Ensures P (y w))
      → Ensures P ((if b then x else y) w)
  Ensures-if true x y w f g = f refl
  Ensures-if false x y w f g = g refl

module _ {ℓ κ} {A : Type ℓ} {Q P : A → World → Type κ} where
  pub Ensures-mono :
      {r : Answer A} → Ensures Q r → ((a : A) (w : World) → Q a w → P a w) → Ensures P r
  Ensures-mono (returns q) f = returns (f _ _ q)
  Ensures-mono throws f = throws

module _ {ℓ κ μ} {A : Type ℓ} {P : A → World → Type κ} {Q : A → World → Type μ} where
  pub Ensures-both : {r : Answer A} → Ensures P r → Ensures Q r → Ensures (λ a w. P a w × Q a w) r
  Ensures-both (returns p) (returns q) = returns (p, q)
  Ensures-both throws h = throws

module _ {ℓ κ μ ν} {A : Type ℓ} {B : Type κ} {Q : A → World → Type μ} {P : B → World → Type ν} where
  pub Ensures-bind :
      {r : Answer A} (f : A → M B)
      → Ensures Q r
      → ((a : A) (w : World) → Q a w → Ensures P (f a w))
      → Ensures P (bind r f)
  Ensures-bind f (returns q) next = next _ _ q
  Ensures-bind f throws next = throws

-- Everything but the index and its failures is as it was.
pub record SameTables (w w' : World) : Type 0 where
  pub memories : w'.memories ≡ w.memories
  pub relations : w'.relations ≡ w.relations
  pub approvals : w'.approvals ≡ w.approvals
  pub vault : w'.vault ≡ w.vault
  pub objects : w'.objects ≡ w.objects
  pub audit : w'.audit ≡ w.audit
  pub events : w'.events ≡ w.events
  pub jobs : w'.jobs ≡ w.jobs
  pub now : w'.now ≡ w.now
  pub next_id : w'.next_id ≡ w.next_id
  pub org_of : w'.org_of ≡ w.org_of

pub SameTables-refl : (w : World) → SameTables w w
SameTables-refl w = record {
  memories = refl;
  relations = refl;
  approvals = refl;
  vault = refl;
  objects = refl;
  audit = refl;
  events = refl;
  jobs = refl;
  now = refl;
  next_id = refl;
  org_of = refl;
}

index_only :
    (w : World) (ps : Option (List Point)) (os : List Bool)
    → SameTables w (record w { points = ps; outages = os })
index_only w ps os = record {
  memories = refl;
  relations = refl;
  approvals = refl;
  vault = refl;
  objects = refl;
  audit = refl;
  events = refl;
  jobs = refl;
  now = refl;
  next_id = refl;
  org_of = refl;
}

call_same :
    (f : List Point → List Point) (ps : List Point) (os : List Bool) (w : World)
    → Ensures (λ _ w'. SameTables w w') (call_index f ps os w)
call_same f ps [] w = returns (index_only _ _ _)
call_same f ps (true ∷ os) w = throws
call_same f ps (false ∷ os) w = returns (index_only _ _ _)

if_any_same :
    (f : List Point → List Point) (ps : Option (List Point)) (w : World)
    → Ensures (λ _ w'. SameTables w w') (index_if_any f ps w)
if_any_same f none w = returns (SameTables-refl w)
if_any_same f (some ps) w = call_same f ps w.outages w

module _ {κ ν} {B : Type κ} {P : B → World → Type ν} (k : M B) where
  after_call :
      (f : List Point → List Point) (ps : List Point) (os : List Bool) (w : World)
      → ((w' : World) → SameTables w w' → Ensures P (k w'))
      → Ensures P (bind (call_index f ps os w) (λ _. k))
  after_call f ps [] w next = next _ (index_only _ _ _)
  after_call f ps (true ∷ os) w next = throws
  after_call f ps (false ∷ os) w next = next _ (index_only _ _ _)

  after_require :
      (f : List Point → List Point) (ps : Option (List Point)) (w : World)
      → ((w' : World) → SameTables w w' → Ensures P (k w'))
      → Ensures P (bind (require_index f ps w) (λ _. k))
  after_require f none w next = throws
  after_require f (some ps) w next = after_call f ps w.outages w next

  after_if_any :
      (f : List Point → List Point) (ps : Option (List Point)) (w : World)
      → ((w' : World) → SameTables w w' → Ensures P (k w'))
      → Ensures P (bind (index_if_any f ps w) (λ _. k))
  after_if_any f none w next = next w (SameTables-refl w)
  after_if_any f (some ps) w next = after_call f ps w.outages w next

  pub after_set_payload :
      (id : ℕ) (patch : Patch) (w : World)
      → ((w' : World) → SameTables w w' → Ensures P (k w'))
      → Ensures P (bind (set_payload id patch w) (λ _. k))
  unfolding set_payload
  after_set_payload id patch w next = after_require _ w.points w next

  pub after_set_payload_if_any :
      (id : ℕ) (patch : Patch) (w : World)
      → ((w' : World) → SameTables w w' → Ensures P (k w'))
      → Ensures P (bind (set_payload_if_any id patch w) (λ _. k))
  unfolding set_payload_if_any
  after_set_payload_if_any id patch w next = after_if_any _ w.points w next

  pub after_delete_point :
      (id : ℕ) (w : World)
      → ((w' : World) → SameTables w w' → Ensures P (k w'))
      → Ensures P (bind (delete_point id w) (λ _. k))
  unfolding delete_point
  after_delete_point id w next = after_require _ w.points w next

-- The index call at the end of a computation.
pub set_payload_if_any-Same :
    (id : ℕ) (patch : Patch) (w : World)
    → Ensures (λ _ w'. SameTables w w') (set_payload_if_any id patch w)
unfolding set_payload_if_any
set_payload_if_any-Same id patch w = if_any_same _ w.points w
