-- ===== src/Strategy/Accepted.antt =====
-- What a payload that packages/strategy_validation accepts cannot hold, and what its rules refer to.
use nautilus_builder.Prelude.{
  ℕ, suc, true, false, ◌||◌, Option, none, some, String, List, [], ◌∷◌, ◌==◌, string_eq, nat_eq,
  length, any, All, ◌≡◌, arith, Bool-cases, inl, inr,
}
use nautilus_builder.Prelude.Text.{lower, append}
use nautilus_builder.Prelude.Dict.{Dict}
use nautilus_builder.Prelude.Dict.Laws.{known}
use nautilus_builder.Json.{Payload}
use nautilus_builder.Strategy.Spec.{
  Operand, name, number, integer, RuleClause, RuleBlock, StrategySpec, Operator, rule_operators,
  operands_of,
}
use nautilus_builder.Strategy.Policy.{
  forbidden_references, raw_substring_patterns, raw_word_patterns, walk_strings, contains,
  contains_word,
}
use nautilus_builder.Strategy.Validator.{
  Reading, ValidationReport, validate_strategy_spec, price_fields, is_known, operand_errors,
  operator_text, operator_errors, clause_errors, clauses_errors, part_errors, block_errors,
  rules_errors, rule_reference_errors,
}
use nautilus_builder.Strategy.Forbidden.{
  append-nil_parts, Absent, WordsAbsent, ReferencesAbsent, HasMessages, IsUsable, accepted_parts,
}
use nautilus_builder.Strategy.Occurs.{Occurs, occurs_holds, IsInfix, IsWordOf, not_infix, not_word}

length_long : (n : ℕ) → (suc (suc (suc n)) == 2) ≡ false
length_long n = ground arith

All-map {ℓ κ ι} :
    {A : Type ℓ} (P : A → Type κ) (Q : A → Type ι) (xs : List A)
    → ((a : A) → P a → Q a)
    → All P xs
    → All Q xs
All-map P Q [] f h = tt
All-map P Q (x ∷ xs) f h = (f x h.0, All-map P Q xs f h.1)

module _ {F : Type 0} (spec : StrategySpec F) where
  -- An operand that is a number, or names an indicator of the specification or a price.
  abbrev pub IsKnown : Operand F → Type 0
  IsKnown (name ref) = (known ref spec.indicators || any (λ f. ref == f) price_fields) ≡ true
  IsKnown (number x) = Unit
  IsKnown (integer minus n) = Unit

  -- No operands, or two known ones.
  abbrev pub HasKnownPair : Option (List (Operand F)) → Type 0
  HasKnownPair none = Unit
  HasKnownPair (some []) = ⊥
  HasKnownPair (some (a ∷ [])) = ⊥
  HasKnownPair (some (a ∷ b ∷ [])) = IsKnown a × IsKnown b
  HasKnownPair (some (a ∷ b ∷ c ∷ os)) = ⊥

  abbrev pub ClauseKnown : RuleClause F → Type 0
  ClauseKnown c = All (λ o. HasKnownPair (operands_of o c)) rule_operators

  abbrev pub PartKnown : Option (List (RuleClause F)) → Type 0
  PartKnown none = Unit
  PartKnown (some cs) = All ClauseKnown cs

  -- Every operator of every clause of every rule.
  abbrev pub RulesKnown : Dict String (RuleBlock F) → Type 0
  RulesKnown [] = Unit
  RulesKnown ((rule, b) ∷ rules) = PartKnown b.all_of × PartKnown b.any_of × RulesKnown rules

  first-IsKnown :
      (a : Operand F) (os : List (Operand F)) (place : String)
      → operand_errors spec place (a ∷ os) ≡ []
      → IsKnown a × (operand_errors spec place os ≡ [])
  unfolding operand_errors is_known
  first-IsKnown (number x) os place h = (tt, h)
  first-IsKnown (integer minus n) os place h = (tt, h)
  first-IsKnown (name ref) os place h =
      elim (Bool-cases (known ref spec.indicators || any (λ f. ref == f) price_fields)) [
        | inl there ↦ (there, rw (there, operand_errors) at h)
        | inr missing ↦ cc (rw (missing, operand_errors) at h)
      ]

  operands_known :
      (o : Option (List (Operand F))) (place : String)
      → operator_errors spec place o ≡ []
      → HasKnownPair o
  unfolding operator_errors
  operands_known none place h = tt
  operands_known (some []) place h = cc
  operands_known (some (a ∷ [])) place h = cc
  operands_known (some (a ∷ b ∷ [])) place h =
      let (k, later) = first-IsKnown a (b ∷ []) place h in (k, (first-IsKnown b [] place later).0)
  operands_known (some (a ∷ b ∷ c ∷ os)) place h =
      cc (rw (length_long (length os), operator_errors) at h)

  clause_known :
      (ops : List Operator) (c : RuleClause F) (place : String)
      → clause_errors spec place ops c ≡ []
      → All (λ o. HasKnownPair (operands_of o c)) ops
  unfolding clause_errors
  clause_known [] c place h = tt
  clause_known (o ∷ ops) c place h =
      let at = append place (append "." (operator_text o)) in
      let (here, later) = append-nil_parts (operator_errors spec at (operands_of o c)) _ h in
      (operands_known (operands_of o c) at here, clause_known ops c place later)

  clauses_known :
      (cs : List (RuleClause F)) (index : _) (place : String)
      → clauses_errors spec place index cs ≡ []
      → All ClauseKnown cs
  unfolding clauses_errors
  clauses_known [] index place h = tt
  clauses_known (c ∷ cs) index place h =
      let (here, later) = append-nil_parts _ _ h in
      (clause_known rule_operators c _ here, clauses_known cs _ place later)

  part_known :
      (o : Option (List (RuleClause F))) (place : String)
      → part_errors spec place o ≡ []
      → PartKnown o
  part_known none place h = tt
  part_known (some cs) place h = clauses_known cs 0 place h

  rules_known :
      (rules : Dict String (RuleBlock F)) → rules_errors spec rules ≡ [] → RulesKnown rules
  unfolding rules_errors block_errors
  rules_known [] h = tt
  rules_known ((rule, b) ∷ rules) h =
      let (here, later) = append-nil_parts _ _ h in
      let (p, q) = append-nil_parts _ _ here in
      (part_known b.all_of _ p, part_known b.any_of _ q, rules_known rules later)

-- A text that occurs in a payload without the patterns holds none of them.
module _ (v : String) (payload : Payload) (o : Occurs v payload) where
  references_absent :
      (es : List (String × String))
      → ReferencesAbsent es (walk_strings payload)
      → All (λ (e : String × String). ¬ IsInfix (lower e.0) (lower v)) es
  references_absent es h =
      All-map _ (λ (e : String × String). ¬ IsInfix (lower e.0) (lower v)) es
        (λ e a.
          not_infix (lower e.0) (lower v)
            (occurs_holds (λ s. contains (lower e.0) (lower s) ≡ false) v payload a o))
        h

  patterns-Absent :
      (ps : List String)
      → Absent ps (walk_strings payload)
      → All (λ p. ¬ IsInfix (lower p) (lower v)) ps
  patterns-Absent ps h =
      All-map _ (λ p. ¬ IsInfix (lower p) (lower v)) ps
        (λ p a.
          not_infix (lower p) (lower v)
            (occurs_holds (λ s. contains (lower p) (lower s) ≡ false) v payload a o))
        h

  words_absent :
      (ps : List String)
      → WordsAbsent ps (walk_strings payload)
      → All (λ p. ¬ IsWordOf (lower p) (lower v)) ps
  words_absent ps h =
      All-map _ (λ p. ¬ IsWordOf (lower p) (lower v)) ps
        (λ p a.
          not_word (lower p) (lower v)
            (occurs_holds (λ s. contains_word false (lower p) (lower s) ≡ false) v payload a o))
        h

module _ {F : Type 0} (reading : Reading F) (payload : Payload) where
  -- In a payload that validation accepts, no text that occurs, as a key or a value at any depth, holds a
  -- forbidden reference or a raw code pattern anywhere in it, in lower case, nor a raw code word that no
  -- letter, digit or underscore stands next to; and the payload reads as a specification whose data range
  -- ends after it starts, and in whose rules every operator has two operands, each a number or the name
  -- of an indicator of the specification or of a price.
  pub accepted_clean :
      (v : String)
      → HasMessages reading
      → (report : ValidationReport reading) → validate_strategy_spec reading payload ≡ some report
      → report.is_valid ≡ true
      → Occurs v payload
      → All (λ (e : String × String). ¬ IsInfix (lower e.0) (lower v)) forbidden_references
        × All (λ p. ¬ IsInfix (lower p) (lower v)) raw_substring_patterns
        × All (λ p. ¬ IsWordOf (lower p) (lower v)) raw_word_patterns
        × ((spec : StrategySpec F) × IsUsable reading payload spec × RulesKnown spec spec.rules)
  unfolding rule_reference_errors
  accepted_clean v messages report given h o =
      let (a, b, c, (spec, usable)) = accepted_parts reading payload messages report given h in
      (
        references_absent v payload o forbidden_references a,
        patterns-Absent v payload o raw_substring_patterns b,
        words_absent v payload o raw_word_patterns c,
        (spec, usable, rules_known spec spec.rules usable.6),
      )
