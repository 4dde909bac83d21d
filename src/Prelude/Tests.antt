-- ===== src/Prelude/Tests.antt =====
-- Boolean tests, the conditional, and the interface of types whose values can be compared.
use Prim.Native.Nat.{ℕ, ◌<◌, compare, Ordering}
use Prim.Native.String.{String}
use mathlib.Core.Path.{◌≡◌, refl}
use mathlib.Core.Logic.{◌↔◌, ◌⊎◌, inl, inr}
use mathlib.Core.Bool.{Bool, true, false, ◌&&◌}
use mathlib.Core.Option.{Option, none, some}
use mathlib.Core.List.{List, [], ◌∷◌}
use native.Mathlib.Omega.{arith}
use text.Mathlib.Text.{◌==◌ as str_eq}
use text.Mathlib.TextEquality.{eq_iff}

abbrev pub ltb : ℕ → ℕ → Bool
ltb a b = elim (compare a b) [ Ordering.lt ↦ true | _ ↦ false ]

abbrev pub leb : ℕ → ℕ → Bool
leb a b = elim (compare a b) [ Ordering.gt ↦ false | _ ↦ true ]

pub ltb→lt : (a b : ℕ) → ltb a b ≡ true → a < b
ltb→lt a b h = ground arith

abbrev nat_beq : ℕ → ℕ → Bool
nat_beq a b = elim (compare a b) [ Ordering.eq ↦ true | _ ↦ false ]

pub nat_beq_iff : (a b : ℕ) → (nat_beq a b ≡ true) ↔ (a ≡ b)
nat_beq_iff a b = ground arith

infix 1 if◌then◌else◌
abbrev pub if◌then◌else◌ {ℓ} : {A : Type ℓ} → Bool → A → A → A
if true then x else y = x
if false then x else y = y

-- Python's `==` on a type, and that it decides equality.
pub record Eq {ℓ} (T : Type ℓ) : Type ℓ where
  pub equal : T → T → Bool
  pub equal_iff : (x y : T) → (equal x y ≡ true) ↔ (x ≡ y)

instance abbrev pub string_eq : Eq String
string_eq = record { equal = str_eq; equal_iff = eq_iff }

instance abbrev pub nat_eq : Eq ℕ
nat_eq = record { equal = nat_beq; equal_iff = nat_beq_iff }

infix 50 ◌==◌
abbrev pub ◌==◌ {ℓ} : {T : Type ℓ} ⦃t : Eq T⦄ → T → T → Bool
◌==◌ ⦃t⦄ x y = t.equal x y

-- Keys that are pairs of texts, as Python's tuples.
abbrev pair_beq : String × String → String × String → Bool
pair_beq (a, b) (c, d) = str_eq a c && str_eq b d

pub pair_beq_iff : (p q : String × String) → (pair_beq p q ≡ true) ↔ (p ≡ q)
pair_beq_iff (a, b) (c, d) = ground (arith, eq_iff a c, eq_iff b d)

instance abbrev pub pair_eq : Eq (String × String)
pair_eq = record { equal = pair_beq; equal_iff = pair_beq_iff }

-- Optional texts, as `str | None`.
abbrev optional_beq : Option String → Option String → Bool
optional_beq none none = true
optional_beq (some a) (some b) = str_eq a b
optional_beq _ _ = false

pub optional_beq_iff : (p q : Option String) → (optional_beq p q ≡ true) ↔ (p ≡ q)
optional_beq_iff none none = ground arith
optional_beq_iff none (some b) = ground arith
optional_beq_iff (some a) none = ground arith
optional_beq_iff (some a) (some b) = ground (arith, eq_iff a b)

instance abbrev pub optional_eq : Eq (Option String)
optional_eq = record { equal = optional_beq; equal_iff = optional_beq_iff }

-- To split on a computed value and keep the equation.
pub Bool-cases : (b : Bool) → (b ≡ true) ⊎ (b ≡ false)
Bool-cases true = inl refl
Bool-cases false = inr refl

pub Option-cases {ℓ} : {A : Type ℓ} (o : Option A) → (o ≡ none) ⊎ ((a : A) × (o ≡ some a))
Option-cases none = inl refl
Option-cases (some a) = inr (a, refl)

pub beq_refl {ℓ} : {A : Type ℓ} ⦃e : Eq A⦄ (a : A) → (a == a) ≡ true
beq_refl ⦃e⦄ a = (e.equal_iff a a).1 refl

-- Lists, compared member by member.
abbrev list_beq {ℓ} : {A : Type ℓ} ⦃e : Eq A⦄ → List A → List A → Bool
list_beq [] [] = true
list_beq (a ∷ r) (b ∷ t) = a == b && list_beq r t
list_beq _ _ = false

pub list_beq_iff {ℓ} : {A : Type ℓ} ⦃e : Eq A⦄ (r t : List A) → (list_beq r t ≡ true) ↔ (r ≡ t)
list_beq_iff [] [] = ground arith
list_beq_iff [] (b ∷ t) = ground arith
list_beq_iff (a ∷ r) [] = ground arith
list_beq_iff ⦃e⦄ (a ∷ r) (b ∷ t) = ground (arith, e.equal_iff a b, list_beq_iff r t)

instance abbrev pub list_eq {ℓ} : {A : Type ℓ} ⦃e : Eq A⦄ → Eq (List A)
list_eq = record { equal = list_beq; equal_iff = list_beq_iff }
