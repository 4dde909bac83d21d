-- ===== src/Prelude/Dict.antt =====
-- Python's `dict`: an association list in insertion order, whose keys are compared by `Eq`.
pub mod Laws
pub mod Unique
pub mod Order
use nautilus_builder.Prelude.Tests.{Eq, ◌==◌, if◌then◌else◌}
use mathlib.Core.Bool.{Bool, true, false}
use mathlib.Core.Option.{Option, none, some}
use mathlib.Core.List.{List, [], ◌∷◌}

abbrev pub Dict {ℓ κ} : Type ℓ → Type κ → Type (ℓ ⊔ κ)
Dict K V = List (K × V)

module _ {ℓ κ} {K : Type ℓ} {V : Type κ} where
  -- `list(d.values())`
  unfoldable pub values : Dict K V → List V
  values [] = []
  values ((k, v) ∷ d) = v ∷ values d

module _ {ℓ κ} {K : Type ℓ} {V : Type κ} ⦃e : Eq K⦄ where
  -- `d.get(k)`
  unfoldable pub get : K → Dict K V → Option V
  get k [] = none
  get k ((j, v) ∷ d) = if j == k then some v else get k d

  -- `d[k] = v`: a known key keeps its place, a new one comes last.
  unfoldable pub put : K → V → Dict K V → Dict K V
  put k v [] = (k, v) ∷ []
  put k v ((j, w) ∷ d) = let rest = put k v d in if j == k then (j, v) ∷ d else (j, w) ∷ rest

  -- `d.pop(k, None)`
  unfoldable pub remove : K → Dict K V → Dict K V
  remove k [] = []
  remove k ((j, w) ∷ d) = let rest = remove k d in if j == k then d else (j, w) ∷ rest
