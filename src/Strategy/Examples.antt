-- ===== src/Strategy/Examples.antt =====
-- The theorems on specifications at a concrete one. Natural numbers stand for the floats, with
-- truncated subtraction and division.
use nautilus_builder.Prelude.{
  All, String, ℕ, ◌+◌, ◌-◌, ◌*◌, ◌/◌, true, false, none, some, List, [], ◌∷◌, ok, err, ◌==◌, nat_eq,
  string_eq, ltb, leb, if◌then◌else◌, ◌≡◌, ◌≤◌, refl, Bool-cases, inl, inr,
}
use nautilus_builder.Prelude.Dict.{get, put}
use nautilus_builder.Prelude.Dict.Laws.{known}
use nautilus_builder.Json.{Value, Payload, bool, text, obj, no_fields, member, is_true}
use nautilus_builder.Strategy.Spec.{
  operands_of, Floats, StrategyStage, StrategyStatus, CreatedFrom, IndicatorType, Operand, name,
  integer, RuleClause, StrategySpec,
}
use nautilus_builder.Strategy.Policy.{
  forbidden_references, raw_substring_patterns, raw_word_patterns, walk_strings, contains,
  contains_word, reference_errors, pattern_errors, word_errors,
}
use nautilus_builder.Strategy.Validator.{
  Reading, all_errors, spec_errors, data_range_errors, flag_errors, rule_reference_errors,
  validate_strategy_spec, report_of, ValidationReport,
}
use nautilus_builder.Strategy.Forbidden.{IsUsable, HasMessages}
use nautilus_builder.Strategy.Occurs.{InValue, Occurs, IsInfix, IsWordOf}
use nautilus_builder.Strategy.Accepted.{RulesKnown, accepted_clean}
use nautilus_builder.Prelude.Text.{lower}
use nautilus_builder.Strategy.Sound.{all_convert, clause_count, accepted_evaluates}
use nautilus_builder.Strategy.Average.{mean, moving_average_lem}
use nautilus_builder.Strategy.Window.{IsLast}
use nautilus_builder.Strategy.Indicators.{trim}
use nautilus_builder.Strategy.Evaluator.{
  periods_fit, resolve, Evidence, RuleGraphEvaluator, new_evaluator, update_prices, evaluate_rules,
  evaluate_rule_block, evaluate_all, evaluate_clause, next_values, prices_of, count_true,
  evaluate_strategy_spec_prices, evaluate_strategy_spec_quote_ticks,
}

total : List ℕ → ℕ
total [] = 0
total (x ∷ xs) = x + total xs

abbrev naturals : Floats
naturals = record {
  F = ℕ;
  of_nat = λ n. n;
  fits = λ n. ltb n 1000000;
  add = λ a b. a + b;
  sub = λ a b. a - b;
  mul = λ a b. a * b;
  div = λ a b. a / b;
  neg = λ a. 0;
  sum = total;
  lt = ltb;
  le = leb;
  eq = λ a b. a == b;
}

abbrev above : List (Operand ℕ) → RuleClause ℕ
above os = record {
  crossed_above = none;
  crossed_below = none;
  gt = some os;
  lt = none;
  gte = none;
  lte = none;
  eq = none;
}

abbrev spec : StrategySpec ℕ
spec = record {
  schema_version = "strategy_spec.v1";
  version = "v1";
  stage = StrategyStage.draft;
  status = StrategyStatus.draft;
  created_from = CreatedFrom.user;
  is_frozen = false;
  adapter_id = "nautilus";
  venue = "BINANCE";
  instrument_id = "BTCUSDT";
  bar_type = "1m";
  data_range = record { start = "2024-01-01"; end = "2024-02-01" };
  indicators = ("fast", record { kind = IndicatorType.sma; period = 2 }) ∷ [];
  rules =
      (
        "entry",
        record {
          all_of = some (
              above (name "close" ∷ name "fast" ∷ [])
              ∷ above (name "fast" ∷ integer false 3 ∷ [])
              ∷ []);
          any_of = none;
        },
      )
      ∷ [];
  risk = record {
    position_size_pct = 1;
    stop_loss_pct = 1;
    take_profit_pct = 2;
    max_hold_bars = 10;
  };
  validation = record {
    bar_close_only = true;
    no_lookahead_required = true;
    requires_backtest_before_shadow = true;
  };
  provenance = record { created_by = CreatedFrom.user; parent_version_id = none };
}

abbrev payload : Payload
payload =
    ("version", text "v1")
    ∷ ("risk", obj (member "max_hold_bars" (Value.number "10") no_fields))
    ∷ (
      "validation",
      obj (
          member "bar_close_only" (bool true) (
            member "no_lookahead_required" (bool true)
              (member "requires_backtest_before_shadow" (bool true) no_fields))),
    )
    ∷ []

-- A reader that wants a version, and knows two dates.
abbrev reading : Reading ℕ
reading = record {
  model_validate = λ p. if known "version" p then ok spec else err ("version: Field required" ∷ []);
  fromisoformat = λ v.
      if v == "2024-01-01"
      then some (record { has_offset = false; moment = 0 })
      else (if v == "2024-02-01" then some (record { has_offset = false; moment = 31 }) else none);
}

reading-HasMessages : HasMessages reading
reading-HasMessages p = elim (Bool-cases (known "version" p)) [
  | inl there ↦ λ e. cc (rw there at e)
  | inr missing ↦ λ e. cc (rw missing at e)
]

abbrev accepted : ValidationReport reading
accepted = record { is_valid = true; errors = [] }

no_references : reference_errors forbidden_references (walk_strings payload) ≡ []
unfolding reference_errors contains walk_strings
no_references = refl

no_patterns : pattern_errors raw_substring_patterns (walk_strings payload) ≡ []
unfolding pattern_errors contains walk_strings
no_patterns = refl

no_words : word_errors raw_word_patterns (walk_strings payload) ≡ []
unfolding word_errors contains_word walk_strings
no_words = refl

no_messages : all_errors reading payload ≡ some []
unfolding all_errors get is_true spec_errors data_range_errors flag_errors rule_reference_errors
no_messages = rw (no_references, no_patterns, no_words) refl

payload_validates : validate_strategy_spec reading payload ≡ some accepted
unfolding validate_strategy_spec report_of
payload_validates = rw no_messages refl

-- A key at some depth.
deep : Occurs "bar_close_only" payload
unfolding Occurs InValue
deep = inr (inr (inr (inr (inr (inl (inl refl))))))

accepted_clean_example :
    All
      (λ (e : String × String). ¬ IsInfix (lower e.0) (lower "bar_close_only"))
      forbidden_references
    × All (λ p. ¬ IsInfix (lower p) (lower "bar_close_only")) raw_substring_patterns
    × All (λ p. ¬ IsWordOf (lower p) (lower "bar_close_only")) raw_word_patterns
    × ((s : StrategySpec ℕ) × IsUsable reading payload s × RulesKnown s s.rules)
accepted_clean_example =
    accepted_clean reading payload "bar_close_only" reading-HasMessages accepted payload_validates
      refl deep

abbrev prices : List ℕ
prices = 2 ∷ 4 ∷ 6 ∷ []

converts : all_convert naturals spec ≡ true
unfolding operands_of periods_fit
converts = refl

read_spec : reading.model_validate payload ≡ ok spec
unfolding get
read_spec = refl

accepted_evaluates_example :
    (ev : Evidence naturals) × (evaluate_strategy_spec_prices naturals spec prices ≡ some ev)
    × (ev.signal_observation_count ≡ 3)
    × (ev.rule_evaluation_count ≤ 3 * clause_count spec.rules)
accepted_evaluates_example =
    accepted_evaluates naturals reading payload spec prices reading-HasMessages accepted
      payload_validates refl read_spec converts

rules_are_known : rule_reference_errors spec ≡ []
unfolding rule_reference_errors get
rules_are_known = refl

moving_average_lem_example :
    (last : RuleGraphEvaluator naturals) × (w : List ℕ) × (update_prices naturals prices
        (new_evaluator naturals spec)
      ≡ some last)
    × IsLast 2 w prices
    × (get "fast" last.current_values ≡ some (some (mean naturals w)))
unfolding get
moving_average_lem_example =
    moving_average_lem naturals spec "fast" (record { kind = IndicatorType.sma; period = 2 }) 2
      (4 ∷ 6 ∷ []) (refl, tt) refl refl rules_are_known converts

-- The rule is true at the last of the three prices, after five evaluations.
prices_run :
    evaluate_strategy_spec_prices naturals spec prices
    ≡ some (record {
      strategy_logic_evaluated = true;
      signal_observation_count = 3;
      rule_evaluation_count = 5;
      rules = record { rule = "entry"; last_value = some true; true_count = some 1 } ∷ [];
      order_intent_count = 0;
      live_trading_enabled = false;
      execution_authority = false;
      may_submit_order = false;
    })
unfolding evaluate_strategy_spec_prices evaluate_rules evaluate_rule_block evaluate_all
    evaluate_clause get next_values put total trim count_true periods_fit resolve
prices_run = refl

-- Ticks whose middle prices are the same.
ticks_run :
    evaluate_strategy_spec_quote_ticks naturals spec ((1, 3) ∷ (4, 4) ∷ (5, 7) ∷ [])
    ≡ evaluate_strategy_spec_prices naturals spec prices
unfolding evaluate_strategy_spec_quote_ticks prices_of
ticks_run = refl
