-- ===== src/Prelude/Dict/Laws.antt =====
-- The laws of `get`, `put` and `remove`, and the properties of all values that they keep.
use mathlib.Core.Path.{◌≡◌, refl}
use mathlib.Core.Logic.{◌⊎◌, inl, inr}
use mathlib.Core.Bool.{Bool, true, false}
use mathlib.Core.Option.{none, some}
use mathlib.Core.List.{[], ◌∷◌, ◌++◌}
use native.Mathlib.Omega.{arith}
use nautilus_builder.Prelude.Tests.{Eq, ◌==◌, if◌then◌else◌, Option-cases, beq_refl}
use nautilus_builder.Prelude.Lists.{length}
use nautilus_builder.Prelude.Dict.{Dict, values, get, put}

module _ {ℓ κ} {K : Type ℓ} {V : Type κ} ⦃e : Eq K⦄ where
  pub get-put :
      (k j : K) (v : V) (d : Dict K V) → get j (put k v d) ≡ (if k == j then some v else get j d)
  unfolding get put
  get-put k j v [] = refl
  get-put k j v ((i, w) ∷ d) =
      ground (arith, get-put k j v d, e.equal_iff i k, e.equal_iff i j, e.equal_iff k j)

  pub get-put_self : (k : K) (v : V) (d : Dict K V) → get k (put k v d) ≡ some v
  get-put_self k v d = rw (get-put k k v d) (rw (beq_refl k) refl)

  pub get-put_other :
      (k j : K) (v : V) (d : Dict K V) → (k == j) ≡ false → get j (put k v d) ≡ get j d
  get-put_other k j v d h = rw (get-put k j v d) (rw h refl)

  -- An entry that is there after `put` is the new one, or was there before.
  pub put-cases :
      (k j : K) (v w : V) (d : Dict K V)
      → get j (put k v d) ≡ some w
      → ((k ≡ j) × (v ≡ w)) ⊎ (((k == j) ≡ false) × (get j d ≡ some w))
  put-cases k j v w d h = ground (arith, get-put k j v d, e.equal_iff k j)

  -- A new key is put last, so that the values keep their order.
  pub put_new : (k : K) (v : V) (d : Dict K V) → get k d ≡ none → put k v d ≡ d ++ (k, v) ∷ []
  unfolding get put
  put_new k v [] h = refl
  put_new k v ((i, w) ∷ d) h = ground (arith, put_new k v d)

  pub length-put_known :
      (k : K) (v w : V) (d : Dict K V) → get k d ≡ some w → length (put k v d) ≡ length d
  unfolding get put
  length-put_known k v w [] h = cc
  length-put_known k v w ((i, x) ∷ d) h = ground (arith, length-put_known k v w d)

module _ {ℓ κ ι} {K : Type ℓ} {V : Type κ} ⦃e : Eq K⦄ (P : K → V → Type ι) where
  -- Every entry of the dictionary satisfies `P`.
  abbrev pub Entries : Dict K V → Type ι
  Entries [] = Unit
  Entries ((k, v) ∷ d) = P k v × Entries d

  pub get-Entries : (k : K) (v : V) (d : Dict K V) → Entries d → get k d ≡ some v → P k v
  unfolding get
  get-Entries k v [] h g = cc
  get-Entries k v ((j, w) ∷ d) h g = ground (arith, e.equal_iff j k, get-Entries k v d h.1)

  pub put-Entries : (k : K) (v : V) (d : Dict K V) → Entries d → P k v → Entries (put k v d)
  unfolding put
  put-Entries k v [] h p = (p, tt)
  put-Entries k v ((j, w) ∷ d) h p = ground (arith, e.equal_iff j k, put-Entries k v d h.1 p)

-- What holds of every entry passes to a weaker property.
pub Entries-mono {ℓ κ ι ο} :
    {K : Type ℓ} {V : Type κ} ⦃e : Eq K⦄ (P : K → V → Type ι) (Q : K → V → Type ο) (d : Dict K V)
    → ((k : K) (v : V) → P k v → Q k v)
    → Entries P d
    → Entries Q d
Entries-mono P Q [] f h = tt
Entries-mono P Q ((k, v) ∷ d) f h = (f k v h.0, Entries-mono P Q d f h.1)

-- A key that is known stays known.
module _ {ℓ κ} {K : Type ℓ} {V : Type κ} ⦃e : Eq K⦄ where
  abbrev pub known : K → Dict K V → Bool
  known k d = elim (get k d) [ none ↦ false | some _ ↦ true ]

  pub known-get : (k : K) (d : Dict K V) → known k d ≡ true → (v : V) × (get k d ≡ some v)
  known-get k d h = elim (Option-cases (get k d)) [
    | inl unknown ↦ cc (unknown, h)
    | inr found ↦ found
  ]

  pub known-put : (k j : K) (v : V) (d : Dict K V) → known j d ≡ true → known j (put k v d) ≡ true
  known-put k j v d h = rw (get-put k j v d, known) (ground arith)

  pub known-put_self : (k : K) (v : V) (d : Dict K V) → known k (put k v d) ≡ true
  known-put_self k v d = rw (get-put_self k v d, known) refl

pub values-append {ℓ κ} :
    {K : Type ℓ} {V : Type κ} (d d' : Dict K V) → values (d ++ d') ≡ values d ++ values d'
unfolding values
values-append [] d' = refl
values-append ((k, v) ∷ d) d' = rw (values-append d d')
