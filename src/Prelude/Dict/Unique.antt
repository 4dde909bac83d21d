-- ===== src/Prelude/Dict/Unique.antt =====
-- A dictionary holds each key once, and an update of a value found by a scan of the values.
use nautilus_builder.Prelude.Tests.{Eq}
use nautilus_builder.Prelude.Lists.{select, find}
use nautilus_builder.Prelude.Dict.{Dict, values, get, put}
use nautilus_builder.Prelude.Dict.Laws.{Entries, get-put}
use mathlib.Core.Path.{◌≡◌, refl}
use mathlib.Core.Bool.{Bool, false}
use mathlib.Core.Option.{none, some}
use mathlib.Core.List.{List, [], ◌∷◌}
use native.Mathlib.Omega.{arith}

module _ {ℓ κ} {K : Type ℓ} {V : Type κ} ⦃e : Eq K⦄ where
  abbrev pub Unique : Dict K V → Type κ
  Unique [] = Unit
  Unique ((k, v) ∷ d) = (get k d ≡ none) × Unique d

  pub put-Unique : (k : K) (v : V) (d : Dict K V) → Unique d → Unique (put k v d)
  unfolding put get
  put-Unique k v [] h = (refl, tt)
  put-Unique k v ((j, w) ∷ d) h =
      ground (arith, put-Unique k v d h.1, get-put k j v d, e.equal_iff j k, e.equal_iff k j)

module _ {ℓ κ} {K : Type ℓ} {V : Type κ} ⦃e : Eq K⦄ (key : V → K) where
  -- Every value is stored under the key that it names itself.
  abbrev pub KeyedBy : Dict K V → Type ℓ
  KeyedBy = Entries (λ k v. key v ≡ k)

  pub get-find :
      (p : V → Bool) (v : V) (d : Dict K V)
      → Unique d
      → KeyedBy d
      → find p (values d) ≡ some v
      → get (key v) d ≡ some v
  unfolding values get
  get-find p v [] u h f = cc
  get-find p v ((j, w) ∷ d) u h f =
      ground (arith, get-find p v d u.1 h.1, e.equal_iff j (key v), e.equal_iff j j)

  -- The first value that passes a test is replaced by one that fails it: it leaves the selection,
  -- and the others keep their order.
  pub select-put :
      (p : V → Bool) (v v' : V) (rest : List V) (d : Dict K V)
      → Unique d
      → KeyedBy d
      → p v' ≡ false
      → select p (values d) ≡ v ∷ rest
      → (find p (values d) ≡ some v) × (select p (values (put (key v) v' d)) ≡ rest)
  unfolding values get put
  select-put p v v' rest [] u h q f = cc
  select-put p v v' rest ((j, w) ∷ d) u h q f = ground (
    arith,
    select-put p v v' rest d u.1 h.1 q,
    get-find p v d u.1 h.1,
    e.equal_iff j (key v),
    e.equal_iff j j,
  )
