-- ===== src/Base/StringMap.antt =====
-- `Map<string, V>`: an association list whose first entry of a key counts.
use mathlib.Core.Path.{◌≡◌, refl}
use mathlib.Core.Logic.{◌≢◌, inl, inr}
use mathlib.Core.List.{List, [], ◌∷◌}
use mathlib.Core.Option.{Option, none, some}
use Prim.Native.String.{String}
use text.Mathlib.TextEquality.{eq_iff}
use cogeto.Base.Tests.{if◌then◌else◌, Bool-cases}
use cogeto.Base.Text.{str_eq}

module _ {ℓ} {V : Type ℓ} where
  unfoldable pub lookup : String → List (String × V) → Option V
  lookup k [] = none
  lookup k ((j, v) ∷ m) = if str_eq j k then some v else lookup k m

  unfoldable pub put : String → V → List (String × V) → List (String × V)
  put k v m = (k, v) ∷ m

  pub lookup-put_same : (k : String) (v : V) (m : List (String × V)) → lookup k (put k v m) ≡ some v
  unfolding lookup put
  lookup-put_same k v m = rw ((eq_iff k k).1 refl) refl

  pub lookup-put_other :
      (k j : String) (v : V) (m : List (String × V)) → k ≢ j → lookup j (put k v m) ≡ lookup j m
  unfolding lookup put
  lookup-put_other k j v m ne = elim (Bool-cases (str_eq k j)) [
    | inl e ↦ absurd (ne ((eq_iff k j).0 e))
    | inr e ↦ rw e refl
  ]
