-- ===== src/Prelude/Decimal.antt =====
-- The decimal text of a number determines it, also behind leading zeros.
use Prim.Native.Nat.{ℕ, zero, suc, ◌+◌, ◌-◌, ◌*◌, ◌/◌, ◌%◌, ◌<◌}
use Prim.Native.Char.{code}
use Prim.Native.String.{String}
use Prim.Native.String.append.{nil, cons}
use mathlib.Core.Path.{◌≡◌, refl, sym, ap, ◌∙◌}
use mathlib.Core.Logic.{inl, inr}
use native.Mathlib.Omega.{arith}
use nautilus_builder.Prelude.Tests.{ltb, nat_eq, Bool-cases}
use nautilus_builder.Prelude.Text.{
  append, append_cancel, digit, decimal_from, decimal, zeros, padded, characters,
}

-- The number that the digits of a text write, read from the left behind `n`.
value_from : ℕ → String → ℕ
value_from n String.[] = n
value_from n (String.◌∷◌ c s) = value_from (n * 10 + (code c - 48)) s

value_from-append :
    (s t : String) (n : ℕ) → value_from n (append s t) ≡ value_from (value_from n s) t
unfolding value_from
value_from-append String.[] t n = ap (value_from n) (nil t)
value_from-append (String.◌∷◌ c s) t n =
    ap (value_from n) (cons c s t) ∙ value_from-append s t (n * 10 + (code c - 48))

value_from-digit : (n d : ℕ) → d < 10 → value_from n (digit d) ≡ n * 10 + d
unfolding value_from
value_from-digit n zero h = omega arith
value_from-digit n (suc zero) h = omega arith
value_from-digit n (suc (suc zero)) h = omega arith
value_from-digit n (suc (suc (suc zero))) h = omega arith
value_from-digit n (suc (suc (suc (suc zero)))) h = omega arith
value_from-digit n (suc (suc (suc (suc (suc zero))))) h = omega arith
value_from-digit n (suc (suc (suc (suc (suc (suc zero)))))) h = omega arith
value_from-digit n (suc (suc (suc (suc (suc (suc (suc zero))))))) h = omega arith
value_from-digit n (suc (suc (suc (suc (suc (suc (suc (suc zero)))))))) h = omega arith
value_from-digit n (suc (suc (suc (suc (suc (suc (suc (suc (suc zero))))))))) h = omega arith
value_from-digit n (suc (suc (suc (suc (suc (suc (suc (suc (suc (suc d)))))))))) h =
    absurd (omega arith)

value_from-decimal_from : (fuel n : ℕ) → n < fuel → value_from 0 (decimal_from fuel n) ≡ n
unfolding decimal_from
value_from-decimal_from zero n h = elim h [ ]
value_from-decimal_from (suc fuel) n h = elim (Bool-cases (ltb n 10)) [
  | inl small ↦ rw small (value_from-digit 0 n (ground arith) ∙ omega arith)
  | inr large ↦ rw large (
      value_from-append (decimal_from fuel (n / 10)) (digit (n % 10)) 0
      ∙ ap (λ v. value_from v (digit (n % 10)))
          (value_from-decimal_from fuel (n / 10) (ground arith))
      ∙ value_from-digit (n / 10) (n % 10) (omega arith)
      ∙ omega arith)
]

value_from-zeros : (w : ℕ) (s : String) → value_from 0 (zeros w s) ≡ value_from 0 s
unfolding zeros value_from
value_from-zeros zero s = refl
value_from-zeros (suc w) s = value_from-append "0" (zeros w s) 0 ∙ value_from-zeros w s

value_from-padded : (w n : ℕ) → value_from 0 (padded w n) ≡ n
unfolding padded decimal
value_from-padded w n =
    value_from-zeros (w - characters (decimal n)) (decimal n)
    ∙ value_from-decimal_from (suc n) n (omega arith)

-- Different numbers have different texts, behind any prefix.
pub padded_injective :
    (prefix : String) (w m n : ℕ) → append prefix (padded w m) ≡ append prefix (padded w n) → m ≡ n
padded_injective prefix w m n h =
    sym (value_from-padded w m)
    ∙ ap (value_from 0) (append_cancel prefix (padded w m) (padded w n) h)
    ∙ value_from-padded w n
