-- ===== src/Strategy/Spec.antt =====
-- packages/strategy_spec/models.py. Python's floats are a parameter, `Floats`: a type with the
-- operations that the program calls. A number of a rule is a float or an integer, which the evaluator
-- converts; the conversion of one that is too large raises an OverflowError.
use nautilus_builder.Prelude.{
  ℕ, Bool, true, false, Option, none, some, String, List, [], ◌∷◌, ◌==◌, nat_eq, suc, ◌≡◌, refl,
}
use nautilus_builder.Prelude.Dict.{Dict}

pub record Floats : Type 1 where
  pub F : Type 0
  -- `float(n)` for an integer that fits.
  pub of_nat : ℕ → F
  -- `float(n)` does not raise.
  pub fits : ℕ → Bool
  pub add : F → F → F
  pub sub : F → F → F
  pub mul : F → F → F
  pub div : F → F → F
  pub neg : F → F
  -- `sum(values)`
  pub sum : List F → F
  pub lt : F → F → Bool
  pub le : F → F → Bool
  pub eq : F → F → Bool

pub data StrategyStage : Type 0 where
  draft testing beta final : StrategyStage

pub data StrategyStatus : Type 0 where
  draft validated backtested approved execution_ready : StrategyStatus

pub data CreatedFrom : Type 0 where
  user ai_builder imported : CreatedFrom

pub data IndicatorType : Type 0 where
  ema sma rsi macd atr bollinger_bands vwap : IndicatorType

-- `input` has the one value `close`.
pub record IndicatorSpec : Type 0 where
  pub kind : IndicatorType
  pub period : ℕ

pub data Operand (F : Type 0) : Type 0 where
  name : String → Operand F
  number : F → Operand F
  -- Whether there is a minus sign, and the digits.
  integer : Bool → ℕ → Operand F

pub record RuleClause (F : Type 0) : Type 0 where
  pub crossed_above : Option (List (Operand F))
  pub crossed_below : Option (List (Operand F))
  pub gt : Option (List (Operand F))
  pub lt : Option (List (Operand F))
  pub gte : Option (List (Operand F))
  pub lte : Option (List (Operand F))
  pub eq : Option (List (Operand F))

pub record RuleBlock (F : Type 0) : Type 0 where
  pub all_of : Option (List (RuleClause F))
  pub any_of : Option (List (RuleClause F))

pub record DataRange : Type 0 where
  pub start : String
  pub end : String

pub record RiskBlock (F : Type 0) : Type 0 where
  pub position_size_pct : F
  pub stop_loss_pct : F
  pub take_profit_pct : F
  pub max_hold_bars : ℕ

-- `output_mode` has the one value `signal_preview_only`.
pub record ValidationFlags : Type 0 where
  pub bar_close_only : Bool
  pub no_lookahead_required : Bool
  pub requires_backtest_before_shadow : Bool

pub record Provenance : Type 0 where
  pub created_by : CreatedFrom
  pub parent_version_id : Option String

pub record StrategySpec (F : Type 0) : Type 0 where
  pub schema_version : String
  pub version : String
  pub stage : StrategyStage
  pub status : StrategyStatus
  pub created_from : CreatedFrom
  pub is_frozen : Bool
  pub adapter_id : String
  pub venue : String
  pub instrument_id : String
  pub bar_type : String
  pub data_range : DataRange
  pub indicators : Dict String IndicatorSpec
  pub rules : Dict String (RuleBlock F)
  pub risk : RiskBlock F
  pub validation : ValidationFlags
  pub provenance : Provenance

pub data Operator : Type 0 where
  crossed_above crossed_below gt lt gte lte eq : Operator

-- `_RULE_OPERATORS`
abbrev pub rule_operators : List Operator
rule_operators =
    Operator.crossed_above ∷ Operator.crossed_below ∷ Operator.gt ∷ Operator.lt ∷ Operator.gte
    ∷ Operator.lte ∷ Operator.eq ∷ []

module _ {F : Type 0} where
  -- `getattr(clause, operator)`
  unfoldable pub operands_of : Operator → RuleClause F → Option (List (Operand F))
  operands_of Operator.crossed_above c = c.crossed_above
  operands_of Operator.crossed_below c = c.crossed_below
  operands_of Operator.gt c = c.gt
  operands_of Operator.lt c = c.lt
  operands_of Operator.gte c = c.gte
  operands_of Operator.lte c = c.lte
  operands_of Operator.eq c = c.eq

  unfoldable pub populated : List Operator → RuleClause F → ℕ
  unfolding operands_of
  populated [] c = 0
  populated (o ∷ os) c =
      let rest = populated os c in elim (operands_of o c) [ none ↦ rest | some _ ↦ suc rest ]

  -- `validate_single_operator`
  unfoldable pub has_single_operator : RuleClause F → Bool
  unfolding populated
  has_single_operator c = populated rule_operators c == 1

  -- `validate_rule_block`
  unfoldable pub has_one_of : RuleBlock F → Bool
  has_one_of b = elim b.all_of [
    | none ↦ elim b.any_of [ none ↦ false | some _ ↦ true ]
    | some _ ↦ elim b.any_of [ none ↦ true | some _ ↦ false ]
  ]

-- A chain of steps that may raise.
infixl 5 ◌>>=◌
abbrev pub ◌>>=◌ {ℓ κ} : {A : Type ℓ} {B : Type κ} → Option A → (A → Option B) → Option B
none >>= rest = none
some a >>= rest = rest a

pub >>=-some {ℓ κ} :
    {A : Type ℓ} {B : Type κ} (o : Option A) (rest : A → Option B) (b : B)
    → (o >>= rest) ≡ some b
    → (a : A) × (o ≡ some a) × (rest a ≡ some b)
>>=-some none rest b h = cc
>>=-some (some a) rest b h = (a, refl, h)
