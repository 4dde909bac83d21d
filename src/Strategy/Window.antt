-- ===== src/Strategy/Window.antt =====
-- `trim` of a window of prices, as the indicators of packages/nautilus_rule_graph/evaluator.py keep it, gives the last ones.
use nautilus_builder.Prelude.{
  ℕ, ◌+◌, ◌≤◌, List, [], ◌∷◌, ◌++◌, string_eq, ltb, length, length-append, ◌≡◌, refl, sym, ap, ◌∙◌,
  arith, Bool-cases, ◌⊎◌, inl, inr,
}
use mathlib.Core.List.{append_assoc}
use nautilus_builder.Strategy.Indicators.{trim}

-- The last members of a list, at most `n`, and all of them where there are fewer.
abbrev pub IsLast {ℓ} : {A : Type ℓ} → ℕ → List A → List A → Type ℓ
IsLast {A = A} n w xs =
    (older : List A) × (older ++ w ≡ xs) × (length w ≤ n) × ((older ≡ []) ⊎ (length w ≡ n))

full_length {ℓ} :
    {A : Type ℓ} (older w xs : List A) (n : ℕ)
    → older ++ w ≡ xs
    → (older ≡ []) ⊎ (length w ≡ n)
    → length w ≤ n
    → n ≤ length xs
    → length w ≡ n
full_length older w xs n e (inr full) le long = full
full_length older w xs n e (inl empty) le long =
    let same : length w ≡ length xs = ap (λ o. length (o ++ w)) (sym empty) ∙ ap length e in
    omega arith

trim-IsLast {ℓ} : {A : Type ℓ} (n : ℕ) (xs : List A) → IsLast n (trim n xs) xs
unfolding trim
trim-IsLast n [] = ([], refl, omega arith, inl refl)
trim-IsLast n (x ∷ xs) =
    let (older, e, le, full) = trim-IsLast n xs in
    elim (Bool-cases (ltb n (length (x ∷ xs)))) [
      | inl long ↦
          rw (long, trim)
            (
              x ∷ older,
              ap (λ ys. x ∷ ys) e,
              le,
              inr (full_length older (trim n xs) xs n e full le (ground arith)),
            )
      | inr short ↦ rw (short, trim) ([], refl, ground arith, inl refl)
    ]

one_more {ℓ} :
    {A : Type ℓ} (x : A) (w t : List A) {n : ℕ}
    → t ≡ w ++ x ∷ []
    → length w ≡ n
    → length t ≤ n
    → length t ≡ n
one_more x w t e many le =
    let longer : length t ≡ length w + 1 = ap length e ∙ length-append w (x ∷ []) in omega arith

pub append_one-IsLast {ℓ} :
    {A : Type ℓ} (n : ℕ) (x : A) (w xs : List A)
    → IsLast n w xs
    → IsLast n (trim n (w ++ x ∷ [])) (xs ++ x ∷ [])
append_one-IsLast n x w xs (older, e, le, full) =
    let (o, e', le', full') = trim-IsLast n (w ++ x ∷ []) in
    (
      older ++ o,
      append_assoc older o (trim n (w ++ x ∷ []))
          ∙ ap (λ ys. older ++ ys) e'
          ∙ sym (append_assoc older w (x ∷ []))
          ∙ ap (λ ys. ys ++ x ∷ []) e,
      le',
      elim full' [
        | inr many ↦ inr many
        | inl whole ↦ elim full [
          | inl empty ↦ inl (rw (empty, whole) refl)
          | inr many ↦ inr (
              one_more x w (trim n (w ++ x ∷ []))
                (ap (λ o. o ++ trim n (w ++ x ∷ [])) (sym whole) ∙ e') many le')
        ]
      ],
    )
