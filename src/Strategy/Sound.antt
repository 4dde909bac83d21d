-- ===== src/Strategy/Sound.antt =====
-- Specifications that packages/strategy_validation accepts, in packages/nautilus_rule_graph: which
-- integers of theirs become floats, and what evaluation does with them.
use nautilus_builder.Prelude.{
  Result, ◌&&◌, if◌then◌else◌, ℕ, suc, ◌+◌, ◌*◌, ◌≤◌, Bool, ◌&&◌, true, false, Option, none, some,
  String, List, [], ◌∷◌, ok, nat_eq, length, ◌≡◌, refl, sym, ap, ◌∙◌, arith, Bool-cases,
  Option-cases, inl, inr,
}
use mathlib.Core.Path.{subst}
use nautilus_builder.Prelude.Text.{append, decimal}
use nautilus_builder.Prelude.Dict.{Dict}
use nautilus_builder.Json.{Payload}
use nautilus_builder.Strategy.Spec.{
  Floats, Operand, name, number, integer, RuleClause, RuleBlock, StrategySpec, Operator,
  rule_operators, operands_of,
}
use nautilus_builder.Strategy.Validator.{
  Reading, ValidationReport, operator_text, operator_errors, clause_errors, clauses_errors,
  part_errors, block_errors, rules_errors, rule_reference_errors, validate_strategy_spec,
}
use nautilus_builder.Strategy.Forbidden.{append-nil_parts, HasMessages, accepted_parts}
use nautilus_builder.Strategy.Evaluator.{
  Values, RuleGraphEvaluator, new_evaluator, resolve, decide, periods_fit, evaluate_operands,
  evaluate_clause, evaluate_all, evaluate_any, evaluate_parts, evaluate_rule_block, evaluate_rules,
  next_values, with_answers, update_price, update_prices, Evidence, evidence,
  evaluate_strategy_spec_prices,
}

suc_times : (n k : ℕ) → suc n * k ≡ n * k + k
suc_times n k = omega arith

and_left : (a b : Bool) → (a && b) ≡ true → a ≡ true
and_left a b h = ground arith

ok_injective : {E A : Type 0} {a b : A} → ◌≡◌ {A = Result E A} (ok a) (ok b) → a ≡ b
ok_injective h = cc

nil_add : (n : ℕ) → 0 + n ≡ n
nil_add n = omega arith

add_nil : (n : ℕ) → n + 0 ≡ n
add_nil n = omega arith

add_suc : (n m : ℕ) → n + suc m ≡ suc n + m
add_suc n m = omega arith

abbrev part_clauses {ℓ} : {A : Type ℓ} → Option (List A) → ℕ
part_clauses none = 0
part_clauses (some cs) = length cs

abbrev block_clauses : {F : Type 0} → RuleBlock F → ℕ
block_clauses b = part_clauses b.all_of + part_clauses b.any_of

-- The clauses of the rules.
unfoldable pub clause_count : {F : Type 0} → Dict String (RuleBlock F) → ℕ
clause_count [] = 0
clause_count ((rule, b) ∷ rules) = block_clauses b + clause_count rules

module _ (fl : Floats) where
  -- The integers of the operands fit.
  abbrev pub operand_fits : Operand fl.F → Bool
  operand_fits (name n) = true
  operand_fits (number x) = true
  operand_fits (integer minus n) = fl.fits n

  abbrev pub all_fit : List (Operand fl.F) → Bool
  all_fit [] = true
  all_fit (a ∷ os) = operand_fits a && all_fit os

  abbrev pub given_fit : Option (List (Operand fl.F)) → Bool
  given_fit none = true
  given_fit (some os) = all_fit os

  abbrev pub clause_fits : List Operator → RuleClause fl.F → Bool
  clause_fits [] c = true
  clause_fits (o ∷ ops) c = given_fit (operands_of o c) && clause_fits ops c

  abbrev pub clauses_fit : List (RuleClause fl.F) → Bool
  clauses_fit [] = true
  clauses_fit (c ∷ cs) = clause_fits rule_operators c && clauses_fit cs

  abbrev pub part_fits : Option (List (RuleClause fl.F)) → Bool
  part_fits none = true
  part_fits (some cs) = clauses_fit cs

  abbrev pub rules_fit : Dict String (RuleBlock fl.F) → Bool
  rules_fit [] = true
  rules_fit ((rule, b) ∷ rules) = part_fits b.all_of && part_fits b.any_of && rules_fit rules

  -- Every integer that the evaluator converts fits into a float: the periods of the EMAs and the
  -- integers of the rules.
  abbrev pub all_convert : StrategySpec fl.F → Bool
  all_convert spec = periods_fit fl spec.indicators && rules_fit spec.rules

  resolve_fitting :
      (a : Operand fl.F) (vs : Values fl)
      → operand_fits a ≡ true
      → (v : Option fl.F) × (resolve fl a vs ≡ some v)
  unfolding resolve
  resolve_fitting (name n) vs g = (_, refl)
  resolve_fitting (number x) vs g = (_, refl)
  resolve_fitting (integer minus n) vs g =
      (some (if minus then fl.neg (fl.of_nat n) else fl.of_nat n), rw g refl)

module _ (fl : Floats) (spec : StrategySpec fl.F) where
  -- An evaluation that returns, and counts at most `most` operators.
  abbrev Answers : Option (Bool × ℕ) → ℕ → Type 0
  Answers o most = (b : Bool) × (m : ℕ) × (o ≡ some (b, m)) × (m ≤ most)

  evaluate_operands_pair :
      (current previous : Values fl) (o : Operator) (os : List (Operand fl.F)) (place : String)
      → operator_errors spec place (some os) ≡ []
      → all_fit fl os ≡ true
      → (v : Bool) × (evaluate_operands fl current previous o os ≡ some v)
  unfolding evaluate_operands operator_errors
  evaluate_operands_pair current previous o [] place h g = cc
  evaluate_operands_pair current previous o (a ∷ []) place h g = cc
  evaluate_operands_pair current previous o (a ∷ b ∷ os) place h g =
      let (l, e₁) = resolve_fitting fl a current (ground arith) in
      let (r, e₂) = resolve_fitting fl b current (ground arith) in
      let (pl, e₃) = resolve_fitting fl a previous (ground arith) in
      let (pr, e₄) = resolve_fitting fl b previous (ground arith) in
      (
        decide fl o l r pl pr,
        rw (e₁, evaluate_operands)
            (rw (e₂, evaluate_operands)
              (rw (e₃, evaluate_operands) (rw (e₄, evaluate_operands) refl))),
      )

  module _ (current previous : Values fl) where
    evaluate_clause-Answers :
        (ops : List Operator) (c : RuleClause fl.F) (n : ℕ) (location : String)
        → clause_errors spec location ops c ≡ []
        → clause_fits fl ops c ≡ true
        → Answers (evaluate_clause fl current previous ops c n) (suc n)
    unfolding evaluate_clause clause_errors
    evaluate_clause-Answers [] c n location h g = (false, n, refl, omega arith)
    evaluate_clause-Answers (o ∷ ops) c n location h g =
        let place = append location (append "." (operator_text o)) in
        let (here, later) = append-nil_parts (operator_errors spec place (operands_of o c)) _ h in
        elim (Option-cases (operands_of o c)) [
          | inl absent ↦
              let (b, m, e, le) = evaluate_clause-Answers ops c n location later (ground arith) in
              (b, m, rw (absent, evaluate_clause) e, le)
          | inr (os, present) ↦
              let (v, e) =
                evaluate_operands_pair current previous o os place
                  (ap (operator_errors spec place) (sym present) ∙ here)
                  (ap (given_fit fl) (sym present) ∙ ground arith) in
              (v, suc n, rw (present, evaluate_clause) (rw (e, evaluate_clause) refl), omega arith)
        ]

    clause-Answers :
        (c : RuleClause fl.F) (n index : ℕ) (place : String)
        → clause_errors spec
            (append place (append "[" (append (decimal index) "]")))
            rule_operators
            c
          ≡ []
        → clause_fits fl rule_operators c ≡ true
        → Answers (evaluate_clause fl current previous rule_operators c n) (suc n)
    clause-Answers c n index place h g =
        evaluate_clause-Answers rule_operators c n
          (append place (append "[" (append (decimal index) "]"))) h g

    evaluate_all-Answers :
        (cs : List (RuleClause fl.F)) (n index : ℕ) (place : String)
        → clauses_errors spec place index cs ≡ []
        → clauses_fit fl cs ≡ true
        → Answers (evaluate_all fl current previous cs n) (n + length cs)
    unfolding evaluate_all clauses_errors
    evaluate_all-Answers [] n index place h g = (true, n, refl, omega arith)
    evaluate_all-Answers (c ∷ cs) n index place h g =
        let (here, later) = append-nil_parts _ _ h in
        let (b, m, e, le) = clause-Answers c n index place here (ground arith) in
        let (b', m', e', le') = evaluate_all-Answers cs m (suc index) place later (ground arith) in
        elim (Bool-cases b) [
          | inl holds ↦ (b', m', rw (e, holds, evaluate_all) e', omega arith)
          | inr fails ↦ (false, m, rw (e, fails, evaluate_all) refl, omega arith)
        ]

    evaluate_any-Answers :
        (cs : List (RuleClause fl.F)) (n index : ℕ) (place : String)
        → clauses_errors spec place index cs ≡ []
        → clauses_fit fl cs ≡ true
        → Answers (evaluate_any fl current previous cs n) (n + length cs)
    unfolding evaluate_any clauses_errors
    evaluate_any-Answers [] n index place h g = (false, n, refl, omega arith)
    evaluate_any-Answers (c ∷ cs) n index place h g =
        let (here, later) = append-nil_parts _ _ h in
        let (b, m, e, le) = clause-Answers c n index place here (ground arith) in
        let (b', m', e', le') = evaluate_any-Answers cs m (suc index) place later (ground arith) in
        elim (Bool-cases b) [
          | inl holds ↦ (true, m, rw (e, holds, evaluate_any) refl, omega arith)
          | inr fails ↦ (b', m', rw (e, fails, evaluate_any) e', omega arith)
        ]

    evaluate_parts-Answers :
        (all_of any_of : Option (List (RuleClause fl.F))) (n : ℕ) (p q : String)
        → part_errors spec p all_of ≡ []
        → part_errors spec q any_of ≡ []
        → part_fits fl all_of ≡ true
        → part_fits fl any_of ≡ true
        → Answers
            (evaluate_parts fl current previous all_of any_of n)
            (n + (part_clauses all_of + part_clauses any_of))
    evaluate_parts-Answers (some cs) any_of n p q h k f g =
        let (b, m, e, le) = evaluate_all-Answers cs n 0 p h f in (b, m, e, omega arith)
    evaluate_parts-Answers none (some cs) n p q h k f g =
        let (b, m, e, le) = evaluate_any-Answers cs n 0 q k g in (b, m, e, omega arith)
    evaluate_parts-Answers none none n p q h k f g = (false, n, refl, omega arith)

    evaluate_rule_block-Answers :
        (rule : String) (b : RuleBlock fl.F) (n : ℕ)
        → block_errors spec rule b ≡ []
        → part_fits fl b.all_of ≡ true
        → part_fits fl b.any_of ≡ true
        → Answers (evaluate_rule_block fl current previous b n) (n + block_clauses b)
    unfolding evaluate_rule_block block_errors
    evaluate_rule_block-Answers rule b n h f g =
        let (p, q) = append-nil_parts _ _ h in
        evaluate_parts-Answers b.all_of b.any_of n _ _ p q f g

    evaluate_rules_answer :
        (rules : Dict String (RuleBlock fl.F)) (n : ℕ)
        → rules_errors spec rules ≡ []
        → rules_fit fl rules ≡ true
        → (values : Dict String Bool) × (m : ℕ) × (evaluate_rules fl current previous rules n
            ≡ some (values, m))
          × (m ≤ n + clause_count rules)
    unfolding evaluate_rules rules_errors clause_count
    evaluate_rules_answer [] n h g = ([], n, refl, omega arith)
    evaluate_rules_answer ((rule, b) ∷ rules) n h g =
        let (here, later) = append-nil_parts _ _ h in
        let (v, m, e, le) =
          evaluate_rule_block-Answers rule b n here (ground arith) (ground arith) in
        let (vs, m', e', le') = evaluate_rules_answer rules m later (ground arith) in
        ((rule, v) ∷ vs, m', rw (e, evaluate_rules) (rw (e', evaluate_rules) refl), omega arith)

  -- An evaluator that still evaluates the specification, after so many prices.
  abbrev pub HasCounts : RuleGraphEvaluator fl → ℕ → Type 0
  HasCounts e prices =
      (e.spec ≡ spec)
      × (e.observations ≡ prices)
      × (e.rule_evaluations ≤ prices * clause_count spec.rules)

  update_price-HasCounts :
      (price : fl.F) (e : RuleGraphEvaluator fl) (done : ℕ)
      → rule_reference_errors spec ≡ []
      → all_convert fl spec ≡ true
      → HasCounts e done
      → (next : RuleGraphEvaluator fl) × (update_price fl price e ≡ some next)
        × HasCounts next (suc done)
  unfolding update_price rule_reference_errors
  update_price-HasCounts price e done h g (same, seen, few) =
      let current = (next_values fl price e).1 in
      let (vs, m, answer, le) =
        evaluate_rules_answer current e.current_values spec.rules e.rule_evaluations h
          (ground arith) in
      let answer' : evaluate_rules fl current e.current_values e.spec.rules e.rule_evaluations
          ≡ some (vs, m) =
        ap (λ s. evaluate_rules fl current e.current_values s.rules e.rule_evaluations) same
        ∙ answer in
      let fit : periods_fit fl e.spec.indicators ≡ true =
        ap (λ s. periods_fit fl s.indicators) same
        ∙ and_left (periods_fit fl spec.indicators) (rules_fit fl spec.rules) g in
      (
        with_answers fl e (next_values fl price e) (vs, m),
        rw (fit, update_price) (rw (answer', update_price) refl),
        (same, ap suc seen, rw (suc_times done (clause_count spec.rules)) (omega arith)),
      )

  pub update_prices-HasCounts :
      (prices : List fl.F) (e : RuleGraphEvaluator fl) (done : ℕ)
      → rule_reference_errors spec ≡ []
      → all_convert fl spec ≡ true
      → HasCounts e done
      → (last : RuleGraphEvaluator fl) × (update_prices fl prices e ≡ some last)
        × HasCounts last (done + length prices)
  unfolding update_prices
  update_prices-HasCounts [] e done h g (same, seen, few) =
      (e, refl, (same, omega arith, rw (add_nil done) few))
  update_prices-HasCounts (p ∷ ps) e done h g counts =
      let (next, step, counts') = update_price-HasCounts p e done h g counts in
      let (last, steps, (same, seen, few)) =
        update_prices-HasCounts ps next (suc done) h g counts' in
      (last, rw (step, update_prices) steps, (same, omega arith, rw (add_suc done (length ps)) few))

  rules_evaluate :
      (prices : List fl.F)
      → rule_reference_errors spec ≡ []
      → all_convert fl spec ≡ true
      → (ev : Evidence fl) × (evaluate_strategy_spec_prices fl spec prices ≡ some ev)
        × (ev.signal_observation_count ≡ length prices)
        × (ev.rule_evaluation_count ≤ length prices * clause_count spec.rules)
  unfolding evaluate_strategy_spec_prices evidence new_evaluator
  rules_evaluate prices h g =
      let (last, run, (same, seen, few)) =
        update_prices-HasCounts prices (new_evaluator fl spec) 0 h g (refl, refl, omega arith) in
      (
        evidence fl last,
        rw (run, evaluate_strategy_spec_prices) refl,
        seen ∙ nil_add (length prices),
        subst (λ n. last.rule_evaluations ≤ n * clause_count spec.rules) (nil_add (length prices))
            few,
      )

module _ (fl : Floats) (reading : Reading fl.F) (payload : Payload) (spec : StrategySpec fl.F)
    (prices : List fl.F) where
  -- A payload that validation accepts, and whose specification holds no integer that is too large for a
  -- float, among the periods of its EMAs and the operands of its rules, is evaluated for any list of
  -- prices without an exception: the evidence counts each price, and at most one evaluation for each
  -- price and each clause of the rules.
  pub accepted_evaluates :
      HasMessages reading
      → (report : ValidationReport reading) → validate_strategy_spec reading payload ≡ some report
      → report.is_valid ≡ true
      → reading.model_validate payload ≡ ok spec
      → all_convert fl spec ≡ true
      → (ev : Evidence fl) × (evaluate_strategy_spec_prices fl spec prices ≡ some ev)
        × (ev.signal_observation_count ≡ length prices)
        × (ev.rule_evaluation_count ≤ length prices * clause_count spec.rules)
  accepted_evaluates messages report given h read g =
      let (_, _, _, (found, (read', _, _, _, _, _, rules))) =
        accepted_parts reading payload messages report given h in
      let same : found ≡ spec = ok_injective (sym read' ∙ read) in
      rules_evaluate fl spec prices (subst (λ s. rule_reference_errors s ≡ []) same rules) g
