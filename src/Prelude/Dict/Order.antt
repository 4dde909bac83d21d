-- ===== src/Prelude/Dict/Order.antt =====
-- Python's `OrderedDict` as a queue of keys: `move_to_end` and `popitem(last=False)`.
use Prim.Native.Nat.{ℕ, suc, ◌≤◌}
use mathlib.Core.Path.{◌≡◌, refl}
use mathlib.Core.Bool.{false}
use mathlib.Core.Option.{none, some}
use mathlib.Core.List.{[], ◌∷◌, ◌++◌}
use native.Mathlib.Omega.{arith}
use nautilus_builder.Prelude.Tests.{Eq, ◌==◌, ltb, if◌then◌else◌}
use nautilus_builder.Prelude.Lists.{length}
use nautilus_builder.Prelude.Dict.{Dict, get, remove}
use nautilus_builder.Prelude.Dict.Unique.{Unique}

module _ {ℓ κ} {K : Type ℓ} {V : Type κ} ⦃e : Eq K⦄ where
  -- `d[k] = v` and `d.move_to_end(k)`, or `d.move_to_end(k)` alone where `v` is the value of `k`
  unfoldable pub put_last : K → V → Dict K V → Dict K V
  put_last k v d = remove k d ++ (k, v) ∷ []

  -- The loop that pops the oldest entry while there are more than `max`.
  unfoldable pub pop_down_to : ℕ → Dict K V → Dict K V
  pop_down_to max [] = []
  pop_down_to max (x ∷ d) =
      let rest = pop_down_to max d in if ltb max (length (x ∷ d)) then rest else x ∷ d

  pub get-remove : (k j : K) (d : Dict K V) → get j d ≡ none → get j (remove k d) ≡ none
  unfolding get remove
  get-remove k j [] h = refl
  get-remove k j ((i, w) ∷ d) h = ground (arith, get-remove k j d, e.equal_iff i k, e.equal_iff i j)

  pub get-remove_self : (k : K) (d : Dict K V) → Unique d → get k (remove k d) ≡ none
  unfolding get remove
  get-remove_self k [] u = refl
  get-remove_self k ((i, w) ∷ d) u = ground (arith, get-remove_self k d u.1, e.equal_iff i k)

  pub get-remove_other : (k j : K) (d : Dict K V) → (k == j) ≡ false → get j (remove k d) ≡ get j d
  unfolding get remove
  get-remove_other k j [] h = refl
  get-remove_other k j ((i, w) ∷ d) h =
      ground (arith, get-remove_other k j d h, e.equal_iff i k, e.equal_iff i j, e.equal_iff k j)

  pub remove-Unique : (k : K) (d : Dict K V) → Unique d → Unique (remove k d)
  unfolding remove
  remove-Unique k [] u = tt
  remove-Unique k ((i, w) ∷ d) u = ground (arith, remove-Unique k d u.1, get-remove k i d u.0)

  pub length-remove :
      (k : K) (v : V) (d : Dict K V) → get k d ≡ some v → suc (length (remove k d)) ≡ length d
  unfolding get remove
  length-remove k v [] h = cc
  length-remove k v ((i, w) ∷ d) h = ground (arith, length-remove k v d)

  pub length-remove_le : (k : K) (d : Dict K V) → length (remove k d) ≤ length d
  unfolding remove
  length-remove_le k [] = omega arith
  length-remove_le k ((i, w) ∷ d) = ground (arith, length-remove_le k d)

  pub get-last : (k : K) (v : V) (d : Dict K V) → get k d ≡ none → get k (d ++ (k, v) ∷ []) ≡ some v
  unfolding get
  get-last k v [] h = ground (arith, e.equal_iff k k)
  get-last k v ((i, w) ∷ d) h = ground (arith, get-last k v d)

  get-append_none :
      (k j : K) (v : V) (d : Dict K V)
      → get j d ≡ none
      → (k == j) ≡ false
      → get j (d ++ (k, v) ∷ []) ≡ none
  unfolding get
  get-append_none k j v [] h q = ground arith
  get-append_none k j v ((i, w) ∷ d) h q = ground (arith, get-append_none k j v d)

  append-Unique :
      (k : K) (v : V) (d : Dict K V) → get k d ≡ none → Unique d → Unique (d ++ (k, v) ∷ [])
  unfolding get
  append-Unique k v [] h u = (refl, tt)
  append-Unique k v ((i, w) ∷ d) h u =
      ground
        (arith, append-Unique k v d, get-append_none k i v d u.0, e.equal_iff i k, e.equal_iff k i)

  pub put_last-Unique : (k : K) (v : V) (d : Dict K V) → Unique d → Unique (put_last k v d)
  unfolding put_last
  put_last-Unique k v d u =
      append-Unique k v (remove k d) (get-remove_self k d u) (remove-Unique k d u)

  pub pop_down_to-Unique : (max : ℕ) (d : Dict K V) → Unique d → Unique (pop_down_to max d)
  unfolding pop_down_to
  pop_down_to-Unique max [] u = tt
  pop_down_to-Unique max (x ∷ d) u = ground (arith, pop_down_to-Unique max d u.1)

  pub length-pop_down_to : (max : ℕ) (d : Dict K V) → length (pop_down_to max d) ≤ max
  unfolding pop_down_to
  length-pop_down_to max [] = omega arith
  length-pop_down_to max (x ∷ d) = ground (arith, length-pop_down_to max d)

  -- The newest entry is the last to go.
  pub get-pop_down_to :
      (max : ℕ) (k : K) (v : V) (d : Dict K V)
      → 1 ≤ max
      → get k d ≡ none
      → get k (pop_down_to max (d ++ (k, v) ∷ [])) ≡ some v
  unfolding get pop_down_to
  get-pop_down_to max k v [] h q = ground (arith, e.equal_iff k k)
  get-pop_down_to max k v ((i, w) ∷ d) h q =
      ground (arith, get-pop_down_to max k v d h, get-last k v d)
