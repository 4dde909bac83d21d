-- ===== src/Prelude/Raises.antt =====
-- What a Python call may raise is a value: the errors of a component are a data type of its own.
use mathlib.Core.Path.{◌≡◌, refl}
use mathlib.Core.Bool.{Bool, true, false, not}
use mathlib.Core.Option.{Option, none, some}
use native.Mathlib.Omega.{arith}
use nautilus_builder.Prelude.Tests.{Eq, ◌==◌, Bool-cases}
use mathlib.Core.Logic.{◌⊎◌, inl, inr}

pub data Result {ℓ κ} (E : Type ℓ) (A : Type κ) : Type (ℓ ⊔ κ) where
  ok : A → Result E A
  err : E → Result E A

module _ {ℓ κ ι} {E : Type ℓ} {A : Type κ} {B : Type ι} where
  -- A call, and what comes after it: an exception skips the rest.
  infixl 5 ◌>>=◌
  abbrev pub ◌>>=◌ : Result E A → (A → Result E B) → Result E B
  err raised >>= rest = err raised
  ok result >>= rest = rest result

module _ {ℓ κ} {E : Type ℓ} {B : Type κ} where
  infixl 5 ◌>>◌
  abbrev pub ◌>>◌ : Result E (Unit {0}) → Result E B → Result E B
  ◌>>◌ call rest = call >>= λ _. rest

-- `if b: raise e`
abbrev pub raise_if {ℓ} : {E : Type ℓ} → Bool → E → Result E (Unit {0})
raise_if true e = err e
raise_if false e = ok tt

-- `d[k]`, which raises on a missing key.
abbrev pub or_raise {ℓ κ} : {E : Type ℓ} {A : Type κ} → Option A → E → Result E A
or_raise none e = err e
or_raise (some a) e = ok a

-- A block that returned has run its first call to the end, and then its rest.
pub >>=-eq-ok {ℓ κ ι} :
    {E : Type ℓ} {A : Type κ} {B : Type ι} (call : Result E A) (rest : A → Result E B) {y : B}
    → (call >>= rest) ≡ ok y
    → (x : A) × (call ≡ ok x) × (rest x ≡ ok y)
>>=-eq-ok (err raised) rest returned = cc
>>=-eq-ok (ok x) rest returned = (x, refl, returned)

-- A guard that did not raise: its test is false, and the rest of the block went on.
pub passed {ℓ κ} :
    {E : Type ℓ} {A : Type κ} (b : Bool) (e : E) (k : Result E A) {a : A}
    → (raise_if b e >> k) ≡ ok a
    → (b ≡ false) × (k ≡ ok a)
passed true e k h = cc
passed false e k h = (refl, h)

-- The guard `if x != y: raise e`.
pub passed_eq {ℓ κ ι} :
    {E : Type ℓ} {A : Type κ} {T : Type ι} ⦃t : Eq T⦄ (x y : T) (e : E) (k : Result E A) {a : A}
    → (raise_if (not (x == y)) e >> k) ≡ ok a
    → (x ≡ y) × (k ≡ ok a)
passed_eq ⦃t⦄ x y e k h = elim (Bool-cases (x == y)) [
  | inl same ↦ ((t.equal_iff x y).0 same, ground arith)
  | inr differ ↦ ground arith
]

pub or_raise-eq-ok {ℓ κ} :
    {E : Type ℓ} {A : Type κ} (o : Option A) (e : E) (a : A) → or_raise o e ≡ ok a → o ≡ some a
or_raise-eq-ok none e a h = cc
or_raise-eq-ok (some b) e a h = ground arith

pub Result-cases {ℓ κ} :
    {E : Type ℓ} {A : Type κ} (m : Result E A) → ((a : A) × (m ≡ ok a)) ⊎ ((e : E) × (m ≡ err e))
Result-cases (ok a) = inl (a, refl)
Result-cases (err e) = inr (e, refl)
