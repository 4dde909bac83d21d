-- ===== src/Strategy/Occurs.antt =====
-- What it means that a text occurs in a payload, and a pattern in a text, apart from the walk and the
-- searches of packages/strategy_validation/validators.py.
use nautilus_builder.Prelude.{
  ℕ, Bool, true, false, String, List, [], ◌∷◌, ◌++◌, nat_eq, All, ◌≡◌, refl, sym, ap, arith,
  beq_refl, ◌⊎◌, inl, inr,
}
use mathlib.Core.Path.{subst}
use nautilus_builder.Json.{
  Value, Items, Fields, Payload, null, bool, number, text, arr, obj, no_items, item, no_fields,
  member,
}
use nautilus_builder.Strategy.Policy.{
  walk_value, walk_items, walk_fields, walk_strings, matches_here, nothing, contains, is_word,
  contains_word,
}

-- The text is a text value, or a key, at any depth.
unfoldable mutual
  pub InValue : String → Value → Type 0
  InValue s null = ⊥
  InValue s (bool b) = ⊥
  InValue s (number n) = ⊥
  InValue s (text t) = s ≡ t
  InValue s (arr items) = InItems s items
  InValue s (obj fields) = InFields s fields

  pub InItems : String → Items → Type 0
  InItems s no_items = ⊥
  InItems s (item v items) = InValue s v ⊎ InItems s items

  pub InFields : String → Fields → Type 0
  InFields s no_fields = ⊥
  InFields s (member key v fields) = (s ≡ key) ⊎ (InValue s v ⊎ InFields s fields)

unfoldable pub Occurs : String → Payload → Type 0
unfolding InValue
Occurs s [] = ⊥
Occurs s ((key, v) ∷ d) = (s ≡ key) ⊎ (InValue s v ⊎ Occurs s d)

module _ (P : String → Type 0) where
  All-left : (xs ys : List String) → All P (xs ++ ys) → All P xs
  All-left [] ys h = tt
  All-left (x ∷ xs) ys h = (h.0, All-left xs ys h.1)

  All-right : (xs ys : List String) → All P (xs ++ ys) → All P ys
  All-right [] ys h = h
  All-right (x ∷ xs) ys h = All-right xs ys h.1

  mutual
    unfolding walk_value InValue

    value_holds : (s : String) (v : Value) → All P (walk_value v) → InValue s v → P s
    value_holds s null h e = absurd e
    value_holds s (bool b) h e = absurd e
    value_holds s (number n) h e = absurd e
    value_holds s (text t) h e = subst P (sym e) h.0
    value_holds s (arr items) h e = items_hold s items h e
    value_holds s (obj fields) h e = fields_hold s fields h e

    items_hold : (s : String) (items : Items) → All P (walk_items items) → InItems s items → P s
    items_hold s no_items h e = absurd e
    items_hold s (item v items) h (inl e) =
        value_holds s v (All-left (walk_value v) (walk_items items) h) e
    items_hold s (item v items) h (inr e) =
        items_hold s items (All-right (walk_value v) (walk_items items) h) e

    fields_hold : (s : String) (fs : Fields) → All P (walk_fields fs) → InFields s fs → P s
    fields_hold s no_fields h e = absurd e
    fields_hold s (member key v fs) h (inl e) = subst P (sym e) h.0
    fields_hold s (member key v fs) h (inr (inl e)) =
        value_holds s v (All-left (walk_value v) (walk_fields fs) h.1) e
    fields_hold s (member key v fs) h (inr (inr e)) =
        fields_hold s fs (All-right (walk_value v) (walk_fields fs) h.1) e

  -- The walk meets every text that occurs.
  pub occurs_holds : (s : String) (d : Payload) → All P (walk_strings d) → Occurs s d → P s
  unfolding walk_strings Occurs
  occurs_holds s [] h e = absurd e
  occurs_holds s ((key, v) ∷ d) h (inl e) = subst P (sym e) h.0
  occurs_holds s ((key, v) ∷ d) h (inr (inl e)) =
      value_holds s v (All-left (walk_value v) (walk_strings d) h.1) e
  occurs_holds s ((key, v) ∷ d) h (inr (inr e)) =
      occurs_holds s d (All-right (walk_value v) (walk_strings d) h.1) e

-- The codes stand somewhere in the others.
abbrev pub IsInfix : List ℕ → List ℕ → Type 0
IsInfix pattern codes =
    (before : List ℕ) × (after : List ℕ) × (before ++ (pattern ++ after) ≡ codes)

-- Whether the last code is a word code, and the first.
abbrev pub ends_in_word : Bool → List ℕ → Bool
ends_in_word inside [] = inside
ends_in_word inside (c ∷ cs) = ends_in_word (is_word c) cs

abbrev pub begins_with_word : List ℕ → Bool
begins_with_word [] = false
begins_with_word (c ∷ cs) = is_word c

-- The codes stand there as a word of their own.
abbrev pub IsWordOf : List ℕ → List ℕ → Type 0
IsWordOf pattern codes =
    (before : List ℕ) × (after : List ℕ) × (before ++ (pattern ++ after) ≡ codes)
    × (ends_in_word false before ≡ false)
    × (begins_with_word after ≡ false)

matches_own : (pattern after : List ℕ) → matches_here nothing pattern (pattern ++ after) ≡ true
unfolding matches_here
matches_own [] [] = refl
matches_own [] (c ∷ cs) = refl
matches_own (p ∷ ps) after = ground (arith, beq_refl p, matches_own ps after)

matches_word :
    (pattern after : List ℕ)
    → begins_with_word after ≡ false
    → matches_here is_word pattern (pattern ++ after) ≡ true
unfolding matches_here
matches_word [] [] h = refl
matches_word [] (c ∷ cs) h = ground arith
matches_word (p ∷ ps) after h = ground (arith, beq_refl p, matches_word ps after h)

contains_here :
    (pattern codes : List ℕ)
    → matches_here nothing pattern codes ≡ true
    → contains pattern codes ≡ true
unfolding contains
contains_here pattern [] h = h
contains_here pattern (c ∷ cs) h = ground arith

contains_word_here :
    (pattern codes : List ℕ)
    → matches_here is_word pattern codes ≡ true
    → contains_word false pattern codes ≡ true
unfolding contains_word
contains_word_here pattern [] h = ground arith
contains_word_here pattern (c ∷ cs) h = ground arith

contains-between :
    (before pattern after : List ℕ) → contains pattern (before ++ (pattern ++ after)) ≡ true
unfolding contains
contains-between [] pattern after =
    contains_here pattern (pattern ++ after) (matches_own pattern after)
contains-between (c ∷ cs) pattern after = ground (arith, contains-between cs pattern after)

contains_word-between :
    (inside : Bool) (before pattern after : List ℕ)
    → ends_in_word inside before ≡ false
    → begins_with_word after ≡ false
    → contains_word inside pattern (before ++ (pattern ++ after)) ≡ true
unfolding contains_word
contains_word-between true [] pattern after h k = cc
contains_word-between false [] pattern after h k =
    contains_word_here pattern (pattern ++ after) (matches_word pattern after k)
contains_word-between inside (c ∷ cs) pattern after h k =
    ground (arith, contains_word-between (is_word c) cs pattern after h k)

-- What the searches do not find does not stand there.
pub not_infix : (pattern codes : List ℕ) → contains pattern codes ≡ false → ¬ IsInfix pattern codes
not_infix pattern codes absent (before, after, e) =
    cc (ap (contains pattern) e, contains-between before pattern after, absent)

pub not_word :
    (pattern codes : List ℕ) → contains_word false pattern codes ≡ false → ¬ IsWordOf pattern codes
not_word pattern codes absent (before, after, e, h, k) = cc (
  ap (contains_word false pattern) e,
  contains_word-between false before pattern after h k,
  absent,
)
