-- ===== src/Prelude/Maps.antt =====
-- Go's maps with text keys, as association lists. The order of the entries stands for the order in
-- which a range over the map visits them.
use Prim.Native.String.{String}
use mathlib.Core.Path.{◌≡◌, refl}
use mathlib.Core.Option.{Option, none, some}
use mathlib.Core.List.{List, [], ◌∷◌}
use native.Mathlib.Omega.{arith}
use text.Mathlib.TextEquality.{eq_iff}
use clouditor.Prelude.Tests.{if◌then◌else◌}
use clouditor.Prelude.Texts.{◌==◌}

abbrev pub Map : Type 0 → Type 0
Map V = List (String × V)

module _ {V : Type 0} where
  -- `v, ok := m[k]`
  unfoldable pub lookup : String → Map V → Option V
  lookup k [] = none
  lookup k ((j, v) ∷ m) = if j == k then some v else lookup k m

  -- `m[k] = v`
  unfoldable pub put : String → V → Map V → Map V
  put k v [] = (k, v) ∷ []
  put k v ((j, w) ∷ m) = if j == k then (k, v) ∷ m else (j, w) ∷ put k v m

  -- `delete(m, k)`
  unfoldable pub remove : String → Map V → Map V
  remove k [] = []
  remove k ((j, w) ∷ m) = let rest = remove k m in if j == k then rest else (j, w) ∷ rest

  pub values : Map V → List V
  values [] = []
  values ((j, w) ∷ m) = w ∷ values m

  pub lookup-put :
      (k j : String) (v : V) (m : Map V)
      → lookup j (put k v m) ≡ (if k == j then some v else lookup j m)
  unfolding lookup put
  lookup-put k j v [] = refl
  lookup-put k j v ((i, w) ∷ m) =
      ground (arith, eq_iff k j, eq_iff i k, eq_iff i j, lookup-put k j v m)

  pub lookup-remove :
      (k j : String) (m : Map V) → lookup j (remove k m) ≡ (if k == j then none else lookup j m)
  unfolding lookup remove
  lookup-remove k j [] = ground arith
  lookup-remove k j ((i, w) ∷ m) =
      ground (arith, eq_iff k j, eq_iff i k, eq_iff i j, lookup-remove k j m)
