-- ===== src/Strategy/Validator.antt =====
-- `validate_strategy_spec` of packages/strategy_validation/validators.py. Pydantic's reading of a payload
-- gives a specification, whose rules fulfil the validators of the models, or the list of its
-- messages; `datetime.fromisoformat` gives a time.
use nautilus_builder.Prelude.{
  ℕ, suc, Bool, true, false, not, ◌||◌, Option, none, some, String, List, [], ◌∷◌, ◌++◌, Result, ok,
  err, ◌==◌, string_eq, nat_eq, leb, length, any, if◌then◌else◌,
}
use nautilus_builder.Prelude.Text.{append, decimal}
use nautilus_builder.Prelude.Dict.{Dict, get}
use nautilus_builder.Prelude.Dict.Laws.{known}
use nautilus_builder.Json.{Value, Payload, bool, obj, is_true, Fields, no_fields, member}
use nautilus_builder.Strategy.Spec.{
  Operand, name, number, integer, RuleClause, RuleBlock, DataRange, StrategySpec, Operator,
  rule_operators, operands_of, ◌>>=◌,
}
use nautilus_builder.Strategy.Policy.{
  forbidden_references, raw_substring_patterns, raw_word_patterns, walk_strings, reference_errors,
  pattern_errors, word_errors,
}

-- A `datetime`: whether it has an offset, and where it stands among those that have one or have none.
pub record Datetime : Type 0 where
  pub has_offset : Bool
  pub moment : ℕ

pub record Reading (F : Type 0) : Type 0 where
  pub model_validate : Payload → Result (List String) (StrategySpec F)
  pub fromisoformat : String → Option Datetime

-- `_SAFE_PRICE_FIELDS`, which are also the evaluator's `_PRICE_FIELDS`.
abbrev pub price_fields : List String
price_fields = "open" ∷ "high" ∷ "low" ∷ "close" ∷ "bid" ∷ "ask" ∷ "mid" ∷ []

abbrev pub operator_text : Operator → String
operator_text Operator.crossed_above = "crossed_above"
operator_text Operator.crossed_below = "crossed_below"
operator_text Operator.gt = "gt"
operator_text Operator.lt = "lt"
operator_text Operator.gte = "gte"
operator_text Operator.lte = "lte"
operator_text Operator.eq = "eq"

module _ {F : Type 0} (spec : StrategySpec F) where
  -- `operand in known_refs`
  unfoldable pub is_known : String → Bool
  is_known ref = known ref spec.indicators || any (λ f. ref == f) price_fields

  unfoldable pub operand_errors : String → List (Operand F) → List String
  unfolding is_known
  operand_errors where_at [] = []
  operand_errors where_at (number _ ∷ os) = operand_errors where_at os
  operand_errors where_at (integer _ _ ∷ os) = operand_errors where_at os
  operand_errors where_at (name ref ∷ os) =
      let rest = operand_errors where_at os in
      if is_known ref
      then rest
      else append where_at (append " operand " (append ref " is not a known indicator or field"))
        ∷ rest

  -- One round of the loop of `_validate_rule_clause`.
  unfoldable pub operator_errors : String → Option (List (Operand F)) → List String
  unfolding operand_errors
  operator_errors where_at none = []
  operator_errors where_at (some os) =
      if length os == 2
      then operand_errors where_at os
      else append where_at " must define exactly 2 operands" ∷ []

  unfoldable pub clause_errors : String → List Operator → RuleClause F → List String
  unfolding operator_errors operands_of
  clause_errors location [] c = []
  clause_errors location (o ∷ os) c =
      operator_errors (append location (append "." (operator_text o))) (operands_of o c)
      ++ clause_errors location os c

  -- `for index, clause in enumerate(clauses)`
  unfoldable pub clauses_errors : String → ℕ → List (RuleClause F) → List String
  unfolding clause_errors
  clauses_errors place index [] = []
  clauses_errors place index (c ∷ cs) =
      clause_errors (append place (append "[" (append (decimal index) "]"))) rule_operators c
      ++ clauses_errors place (suc index) cs

  abbrev pub part_errors : String → Option (List (RuleClause F)) → List String
  part_errors place none = []
  part_errors place (some cs) = clauses_errors place 0 cs

  unfoldable pub block_errors : String → RuleBlock F → List String
  unfolding clauses_errors
  block_errors rule_name b =
      part_errors (append "rules." (append rule_name ".all")) b.all_of
      ++ part_errors (append "rules." (append rule_name ".any")) b.any_of

  unfoldable pub rules_errors : Dict String (RuleBlock F) → List String
  unfolding block_errors
  rules_errors [] = []
  rules_errors ((rule_name, b) ∷ rules) = block_errors rule_name b ++ rules_errors rules

  -- `_validate_rule_references`
  unfoldable pub rule_reference_errors : List String
  unfolding rules_errors
  rule_reference_errors = rules_errors spec.rules

-- `a == b` on Booleans.
abbrev pub same_bool : Bool → Bool → Bool
same_bool true b = b
same_bool false b = not b

-- `_parse_iso_datetime`, with `value.replace("Z", "+00:00")` in the parameter.
abbrev pub date_errors : String → Option Datetime → List String
date_errors field none = append field " must be an ISO-8601 datetime" ∷ []
date_errors field (some t) = []

-- The comparison raises a TypeError where one of the two has an offset and the other has none.
abbrev pub order_errors : Option Datetime → Option Datetime → Option (List String)
order_errors (some start) (some end) =
    if same_bool start.has_offset end.has_offset
    then some (
        if leb end.moment start.moment
        then "data_range.start must be before data_range.end" ∷ []
        else [])
    else none
order_errors _ _ = some []

module _ {F : Type 0} (reading : Reading F) where
  -- `_validate_data_range`
  unfoldable pub data_range_errors : DataRange → Option (List String)
  data_range_errors r =
      let start = reading.fromisoformat r.start in
      let end = reading.fromisoformat r.end in
      do
        order ← order_errors start end
        some (date_errors "data_range.start" start ++ (date_errors "data_range.end" end ++ order))

  abbrev is_true_flag : Option Value → Bool
  is_true_flag (some (bool true)) = true
  is_true_flag _ = false

  unfoldable pub field_of : String → Fields → Option Value
  field_of key no_fields = none
  field_of key (member k v fields) = if k == key then some v else field_of key fields

  abbrev flag_error : Bool → String → List String
  flag_error true message = []
  flag_error false message = message ∷ []

  -- `validation = payload.get("validation") or {}`; what is true and no dictionary has no `get`.
  abbrev pub validation_fields : Option Value → Option Fields
  validation_fields none = some no_fields
  validation_fields (some (obj fields)) = some fields
  validation_fields (some v) = if is_true v then none else some no_fields

  unfoldable pub flag_errors : Fields → List String
  unfolding field_of
  flag_errors fields =
      flag_error (is_true_flag (field_of "bar_close_only" fields)) "bar_close_only must be true"
      ++ (flag_error (is_true_flag (field_of "no_lookahead_required" fields))
            "no_lookahead_required must be true"
          ++ flag_error (is_true_flag (field_of "requires_backtest_before_shadow" fields))
              "requires_backtest_before_shadow must be true")

  abbrev pub risk_error : Option Value → List String
  risk_error none = "risk block missing" ∷ []
  risk_error (some v) = if is_true v then [] else "risk block missing" ∷ []

  unfoldable pub spec_errors : Result (List String) (StrategySpec F) → Option (List String)
  unfolding rule_reference_errors
  spec_errors (err messages) = some messages
  spec_errors (ok spec) = do
    range ← data_range_errors spec.data_range
    some (range ++ rule_reference_errors spec)

  -- All messages, in order; `none` where the code raises.
  unfoldable pub all_errors : Payload → Option (List String)
  unfolding walk_strings reference_errors pattern_errors word_errors is_true flag_errors
  all_errors payload =
      let values = walk_strings payload in
      do
        fields ← validation_fields (get "validation" payload)
        messages ← spec_errors (reading.model_validate payload)
        some (
            reference_errors forbidden_references values
            ++ (pattern_errors raw_substring_patterns values
                ++ (word_errors raw_word_patterns values
                    ++ (risk_error (get "risk" payload) ++ (flag_errors fields ++ messages)))))

  -- `list(dict.fromkeys(errors))`
  unfoldable pub deduped : List String → List String → List String
  deduped seen [] = []
  deduped seen (e ∷ es) =
      let rest = deduped (e ∷ seen) es in
      let skipped = deduped seen es in if any (λ s. e == s) seen then skipped else e ∷ rest

  -- The report; its other fields keep their defaults.
  pub record ValidationReport : Type 0 where
    pub is_valid : Bool
    pub errors : List String

  unfoldable pub report_of : List String → ValidationReport
  unfolding deduped
  report_of messages =
      let errors = deduped [] messages in
      record { is_valid = elim errors [ [] ↦ true | _ ∷ _ ↦ false ]; errors = errors }

  unfoldable pub validate_strategy_spec : Payload → Option ValidationReport
  unfolding report_of
  validate_strategy_spec payload = do messages ← all_errors payload; some (report_of messages)
