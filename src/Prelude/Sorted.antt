-- ===== src/Prelude/Sorted.antt =====
-- Python's `sorted` with a text as the key, and slices from the front.
use Prim.Native.Nat.{ℕ, zero, suc}
use Prim.Native.String.{String}
use mathlib.Core.Path.{◌≡◌, refl}
use mathlib.Core.Bool.{Bool}
use mathlib.Core.List.{List, [], ◌∷◌}
use native.Mathlib.Omega.{arith}
use nautilus_builder.Prelude.Tests.{if◌then◌else◌}
use nautilus_builder.Prelude.Lists.{All, count}
use nautilus_builder.Prelude.Text.{at_most}

module _ {ℓ} {A : Type ℓ} where
  -- `xs[:n]`
  abbrev pub take : ℕ → List A → List A
  take zero xs = []
  take (suc n) [] = []
  take (suc n) (x ∷ xs) = x ∷ take n xs

module _ {ℓ} {A : Type ℓ} (key : A → String) where
  -- An equal key comes after the one that was inserted: the sort is stable.
  unfoldable pub insert_by : A → List A → List A
  insert_by x [] = x ∷ []
  insert_by x (y ∷ ys) =
      let rest = insert_by x ys in if at_most (key x) (key y) then x ∷ y ∷ ys else y ∷ rest

  -- `sorted(xs, key=key)`
  unfoldable pub sorted_by : List A → List A
  unfolding insert_by
  sorted_by [] = []
  sorted_by (x ∷ xs) = insert_by x (sorted_by xs)

  count-insert_by :
      (p : A → Bool) (x : A) (xs : List A) → count p (insert_by x xs) ≡ count p (x ∷ xs)
  unfolding insert_by
  count-insert_by p x [] = refl
  count-insert_by p x (y ∷ ys) = ground (arith, count-insert_by p x ys)

  -- A sorted list holds the same members, each as often.
  pub count-sorted_by : (p : A → Bool) (xs : List A) → count p (sorted_by xs) ≡ count p xs
  unfolding sorted_by
  count-sorted_by p [] = refl
  count-sorted_by p (x ∷ xs) =
      ground (arith, count-insert_by p x (sorted_by xs), count-sorted_by p xs)

  insert_by-All {κ} :
      (P : A → Type κ) (x : A) (xs : List A) → P x → All P xs → All P (insert_by x xs)
  unfolding insert_by
  insert_by-All P x [] p h = (p, tt)
  insert_by-All P x (y ∷ ys) p h = ground (arith, insert_by-All P x ys p h.1)

  pub sorted_by-All {κ} : (P : A → Type κ) (xs : List A) → All P xs → All P (sorted_by xs)
  unfolding sorted_by
  sorted_by-All P [] h = tt
  sorted_by-All P (x ∷ xs) h = insert_by-All P x (sorted_by xs) h.0 (sorted_by-All P xs h.1)
