-- ===== src/Strategy/Indicators.antt =====
-- The indicators of packages/nautilus_rule_graph/evaluator.py: `_IndicatorState`.
use nautilus_builder.Prelude.{
  ℕ, Option, none, some, List, [], ◌∷◌, ◌++◌, string_eq, nat_eq, ltb, length, if◌then◌else◌,
}
use nautilus_builder.Strategy.Spec.{Floats, IndicatorType, IndicatorSpec}

-- `while len(values) > period: values.popleft()`
unfoldable pub trim {ℓ} : {A : Type ℓ} → ℕ → List A → List A
trim period [] = []
trim period (x ∷ xs) =
    let rest = trim period xs in if ltb period (length (x ∷ xs)) then rest else x ∷ xs

module _ (fl : Floats) where
  open fl use {F, of_nat, add, sub, mul, div, neg, sum, lt, le, eq}

  pub record IndicatorState : Type 0 where
    pub spec : IndicatorSpec
    pub values : List F
    pub ema : Option F
    pub previous_price : Option F
    pub gains : List F
    pub losses : List F

  abbrev pub new_state : IndicatorSpec → IndicatorState
  new_state spec = record {
    spec = spec;
    values = [];
    ema = none;
    previous_price = none;
    gains = [];
    losses = [];
  }

  -- `max(x, 0.0)`
  abbrev at_least_zero : F → F
  at_least_zero x = if lt x (of_nat 0) then of_nat 0 else x

  -- `max(len(xs), 1)`
  abbrev at_least_one : ℕ → ℕ
  at_least_one n = if ltb n 1 then 1 else n

  abbrev next_ema : ℕ → F → Option F → F
  next_ema period price none = price
  next_ema period price (some before) =
      add before (mul (div (of_nat 2) (add (of_nat period) (of_nat 1))) (sub price before))

  -- The index from the two windows.
  unfoldable pub rsi_value : List F → List F → F
  rsi_value gains losses =
      let avg_gain = div (sum gains) (of_nat (at_least_one (length gains))) in
      let avg_loss = div (sum losses) (of_nat (at_least_one (length losses))) in
      if eq avg_loss (of_nat 0)
      then (if lt (of_nat 0) avg_gain then of_nat 100 else of_nat 50)
      else sub (of_nat 100) (div (of_nat 100) (add (of_nat 1) (div avg_gain avg_loss)))

  abbrev rsi_step : F → F → IndicatorState → F × IndicatorState
  rsi_step price before st =
      let delta = sub price before in
      let gains = trim st.spec.period (st.gains ++ at_least_zero delta ∷ []) in
      let losses = trim st.spec.period (st.losses ++ at_least_zero (neg delta) ∷ []) in
      (
        rsi_value gains losses,
        record st { previous_price = some price; gains = gains; losses = losses },
      )

  abbrev first_rsi : F → Option F → IndicatorState → F × IndicatorState
  first_rsi price none st = (of_nat 50, record st { previous_price = some price })
  first_rsi price (some before) st = rsi_step price before st

  abbrev some_first : F × IndicatorState → Option F × IndicatorState
  some_first (v, st) = (some v, st)

  -- The rest of `update`, with the new price in the window.
  unfoldable pub by_type : IndicatorType → F → IndicatorState → Option F × IndicatorState
  unfolding rsi_value
  by_type IndicatorType.ema price st =
      let value = next_ema st.spec.period price st.ema in
      (some value, record st { ema = some value; previous_price = some price })
  by_type IndicatorType.sma price st = (
    some (div (sum st.values) (of_nat (length st.values))),
    record st { previous_price = some price },
  )
  by_type IndicatorType.rsi price st = some_first (first_rsi price st.previous_price st)
  by_type _ price st = (none, record st { previous_price = some price })

  -- `_IndicatorState.update`
  unfoldable pub update_state : F → IndicatorState → Option F × IndicatorState
  unfolding by_type
  update_state price st =
      by_type st.spec.kind price
        (record st { values = trim st.spec.period (st.values ++ price ∷ []) })
