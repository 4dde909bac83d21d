-- ===== src/Strategy/Evaluator.antt =====
-- `RuleGraphEvaluator` of packages/nautilus_rule_graph/evaluator.py. An operator with fewer than two
-- operands raises an IndexError, and an integer that is too large for a float an OverflowError: both are
-- `none`, and nothing uses the evaluator after it.
use nautilus_builder.Prelude.{
  ℕ, suc, Bool, true, false, ◌&&◌, Option, none, some, String, List, [], ◌∷◌, string_eq, nat_eq,
  ltb, if◌then◌else◌,
}
use nautilus_builder.Prelude.Dict.{Dict, get, put}
use nautilus_builder.Strategy.Spec.{
  IndicatorType, IndicatorSpec, Floats, IndicatorSpec, Operand, name, number, integer, RuleClause,
  RuleBlock, StrategySpec, Operator, rule_operators, operands_of, ◌>>=◌,
}
use nautilus_builder.Strategy.Validator.{price_fields}
use nautilus_builder.Strategy.Indicators.{IndicatorState, new_state, update_state}

module _ (fl : Floats) where
  open fl use {F, of_nat, fits, add, sub, mul, div, neg, sum, lt, le, eq}

  abbrev pub Values : Type 0
  Values = Dict String (Option F)

  pub record RuleGraphEvaluator : Type 0 where
    pub spec : StrategySpec F
    pub states : Dict String (IndicatorState fl)
    pub current_values : Values
    pub previous_values : Values
    pub observations : ℕ
    pub rule_evaluations : ℕ
    pub rule_true_counts : Dict String ℕ
    pub last_rule_values : Dict String Bool

  unfoldable pub new_states : Dict String IndicatorSpec → Dict String (IndicatorState fl)
  new_states [] = []
  new_states ((n, i) ∷ d) = (n, new_state fl i) ∷ new_states d

  -- `{name: value for name in names}`
  unfoldable pub filled {ℓ κ} : {V : Type ℓ} {W : Type κ} → W → Dict String V → Dict String W
  filled w [] = []
  filled w ((n, v) ∷ d) = (n, w) ∷ filled w d

  unfoldable pub set_fields : Option F → List String → Values → Values
  set_fields price [] vs = vs
  set_fields price (f ∷ fs) vs = set_fields price fs (put f price vs)

  unfoldable pub new_evaluator : StrategySpec F → RuleGraphEvaluator
  unfolding new_states filled set_fields
  new_evaluator spec = record {
    spec = spec;
    states = new_states spec.indicators;
    current_values = set_fields none price_fields [];
    previous_values = set_fields none price_fields [];
    observations = 0;
    rule_evaluations = 0;
    rule_true_counts = filled 0 spec.rules;
    last_rule_values = filled false spec.rules;
  }

  -- The loop over the indicators: each new value stands in the values from then on.
  unfoldable pub update_states :
      F → Dict String (IndicatorState fl) → Values → Dict String (IndicatorState fl) × Values
  unfolding update_state
  update_states price [] vs = ([], vs)
  update_states price ((n, st) ∷ d) vs =
      let (v, st') = update_state fl price st in
      let (d', vs') = update_states price d (put n v vs) in ((n, st') ∷ d', vs')

  -- `_resolve`; the outer `none` is the OverflowError of `float(operand)`.
  unfoldable pub resolve : Operand F → Values → Option (Option F)
  resolve (number x) vs = some (some x)
  resolve (integer minus n) vs =
      if fits n then some (some (if minus then neg (of_nat n) else of_nat n)) else none
  resolve (name n) vs = some (elim (get n vs) [ none ↦ none | some v ↦ v ])

  -- What an operator says of two values that are there, and of the previous ones.
  unfoldable pub compare_values : Operator → F → F → Option F → Option F → Bool
  compare_values Operator.crossed_above l r (some pl) (some pr) = le pl pr && lt r l
  compare_values Operator.crossed_above l r _ _ = false
  compare_values Operator.crossed_below l r (some pl) (some pr) = le pr pl && lt l r
  compare_values Operator.crossed_below l r _ _ = false
  compare_values Operator.gt l r _ _ = lt r l
  compare_values Operator.lt l r _ _ = lt l r
  compare_values Operator.gte l r _ _ = le r l
  compare_values Operator.lte l r _ _ = le l r
  compare_values Operator.eq l r _ _ = eq l r

  abbrev pub decide : Operator → Option F → Option F → Option F → Option F → Bool
  decide o (some l) (some r) pl pr = compare_values o l r pl pr
  decide o _ _ pl pr = false

  module _ (current previous : Values) where
    -- The operands of the clause's first operator. The previous values raise only where the current ones
    -- have raised.
    unfoldable pub evaluate_operands : Operator → List (Operand F) → Option Bool
    unfolding compare_values
    evaluate_operands o (a ∷ b ∷ _) = do
      left ← resolve a current
      right ← resolve b current
      previous_left ← resolve a previous
      previous_right ← resolve b previous
      some (decide o left right previous_left previous_right)
    evaluate_operands o _ = none

    -- `_evaluate_clause`, with the count of evaluations.
    unfoldable pub evaluate_clause : List Operator → RuleClause F → ℕ → Option (Bool × ℕ)
    unfolding evaluate_operands operands_of
    evaluate_clause [] c n = some (false, n)
    evaluate_clause (o ∷ os) c n =
        let rest = evaluate_clause os c n in
        elim (operands_of o c) [
          | none ↦ rest
          | some operands ↦ do v ← evaluate_operands o operands; some (v, suc n)
        ]

    -- `all(...)` and `any(...)` over a generator: they stop at the first answer that decides.
    unfoldable pub evaluate_all : List (RuleClause F) → ℕ → Option (Bool × ℕ)
    evaluate_all [] n = some (true, n)
    evaluate_all (c ∷ cs) n = elim (evaluate_clause rule_operators c n) [
      | none ↦ none
      | some (true, m) ↦ evaluate_all cs m
      | some (false, m) ↦ some (false, m)
    ]

    unfoldable pub evaluate_any : List (RuleClause F) → ℕ → Option (Bool × ℕ)
    evaluate_any [] n = some (false, n)
    evaluate_any (c ∷ cs) n = elim (evaluate_clause rule_operators c n) [
      | none ↦ none
      | some (true, m) ↦ some (true, m)
      | some (false, m) ↦ evaluate_any cs m
    ]

    abbrev pub evaluate_parts :
        Option (List (RuleClause F)) → Option (List (RuleClause F)) → ℕ → Option (Bool × ℕ)
    evaluate_parts (some cs) any_clauses n = evaluate_all cs n
    evaluate_parts none (some cs) n = evaluate_any cs n
    evaluate_parts none none n = some (false, n)

    -- `_evaluate_rule_block`
    unfoldable pub evaluate_rule_block : RuleBlock F → ℕ → Option (Bool × ℕ)
    evaluate_rule_block b n = evaluate_parts b.all_of b.any_of n

    unfoldable pub evaluate_rules : Dict String (RuleBlock F) → ℕ → Option (Dict String Bool × ℕ)
    evaluate_rules [] n = some ([], n)
    evaluate_rules ((rule, b) ∷ rules) n = do
      answer ← evaluate_rule_block b n
      rest ← evaluate_rules rules answer.1
      some ((rule, answer.0) ∷ rest.0, rest.1)

  -- `if value: self._rule_true_counts[name] += 1`; every rule has a count.
  unfoldable pub count_true : Dict String Bool → Dict String ℕ → Dict String ℕ
  count_true [] counts = counts
  count_true ((rule, value) ∷ values) counts = count_true values (
      if value
      then (elim (get rule counts) [ none ↦ counts | some n ↦ put rule (suc n) counts ])
      else counts)

  -- The evaluator with the new values and the answers of the rules.
  abbrev pub with_answers :
      RuleGraphEvaluator
      → Dict String (IndicatorState fl) × Values
      → Dict String Bool × ℕ
      → RuleGraphEvaluator
  with_answers e (states, current) (values, count) = record e {
    states = states;
    current_values = current;
    previous_values = e.current_values;
    observations = suc e.observations;
    rule_evaluations = count;
    rule_true_counts = count_true values e.rule_true_counts;
    last_rule_values = values;
  }

  -- The price and the indicators of the new observation.
  unfoldable pub next_values : F → RuleGraphEvaluator → Dict String (IndicatorState fl) × Values
  unfolding set_fields update_states
  next_values price e =
      update_states price e.states (set_fields (some price) price_fields e.current_values)

  -- `period + 1.0` in the update of an EMA converts its period.
  abbrev pub period_fits : IndicatorType → ℕ → Bool
  period_fits IndicatorType.ema period = fits period
  period_fits _ period = true

  unfoldable pub periods_fit : Dict String IndicatorSpec → Bool
  periods_fit [] = true
  periods_fit ((n, i) ∷ d) = period_fits i.kind i.period && periods_fit d

  -- `update_price`; where some period raises, it raises before any rule is evaluated.
  unfoldable pub update_price : F → RuleGraphEvaluator → Option RuleGraphEvaluator
  update_price price e =
      let updated =
        evaluate_rules (next_values price e).1 e.current_values e.spec.rules e.rule_evaluations
        >>= λ answer. some (with_answers e (next_values price e) answer) in
      if periods_fit e.spec.indicators then updated else none

  -- The loop of `evaluate_strategy_spec_prices`.
  unfoldable pub update_prices : List F → RuleGraphEvaluator → Option RuleGraphEvaluator
  unfolding update_price
  update_prices [] e = some e
  update_prices (price ∷ prices) e = do next ← update_price price e; update_prices prices next

  pub record RuleEvidence : Type 0 where
    pub rule : String
    pub last_value : Option Bool
    pub true_count : Option ℕ

  -- `evidence`; `order_intent_count` is 0 and the three flags of authority are False, always.
  pub record Evidence : Type 0 where
    pub strategy_logic_evaluated : Bool
    pub signal_observation_count : ℕ
    pub rule_evaluation_count : ℕ
    pub rules : List RuleEvidence
    pub order_intent_count : ℕ
    pub live_trading_enabled : Bool
    pub execution_authority : Bool
    pub may_submit_order : Bool

  unfoldable pub rule_evidence : Dict String (RuleBlock F) → RuleGraphEvaluator → List RuleEvidence
  rule_evidence [] e = []
  rule_evidence ((rule, b) ∷ rules) e =
      (record {
        rule = rule;
        last_value = get rule e.last_rule_values;
        true_count = get rule e.rule_true_counts;
      })
      ∷ rule_evidence rules e

  unfoldable pub evidence : RuleGraphEvaluator → Evidence
  unfolding rule_evidence
  evidence e = record {
    strategy_logic_evaluated = ltb 0 e.observations;
    signal_observation_count = e.observations;
    rule_evaluation_count = e.rule_evaluations;
    rules = rule_evidence e.spec.rules e;
    order_intent_count = 0;
    live_trading_enabled = false;
    execution_authority = false;
    may_submit_order = false;
  }

  unfoldable pub evaluate_strategy_spec_prices : StrategySpec F → List F → Option Evidence
  unfolding new_evaluator update_prices evidence
  evaluate_strategy_spec_prices spec prices = do
    e ← update_prices prices (new_evaluator spec)
    some (evidence e)

  -- `_price_from_quote_tick`, on the tick's bid and ask.
  unfoldable pub price_from_quote_tick : F × F → F
  price_from_quote_tick (bid, ask) = div (add bid ask) (of_nat 2)

  unfoldable pub prices_of : List (F × F) → List F
  unfolding price_from_quote_tick
  prices_of [] = []
  prices_of (t ∷ ts) = price_from_quote_tick t ∷ prices_of ts

  unfoldable pub evaluate_strategy_spec_quote_ticks :
      StrategySpec F → List (F × F) → Option Evidence
  unfolding evaluate_strategy_spec_prices prices_of
  evaluate_strategy_spec_quote_ticks spec ticks =
      evaluate_strategy_spec_prices spec (prices_of ticks)
