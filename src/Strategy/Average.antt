-- ===== src/Strategy/Average.antt =====
-- The values of the indicators of packages/nautilus_rule_graph/evaluator.py over a list of prices.
use nautilus_builder.Prelude.{
  Bool-cases, true, none, some, String, List, [], ◌∷◌, ◌++◌, string_eq, length, ◌≡◌, refl, sym, ap,
  ◌∙◌, arith, Option-cases, inl, inr,
}
use mathlib.Core.List.{append-nil, append_assoc}
use mathlib.Core.Option.{some-injective}
use mathlib.Core.Path.{subst}
use nautilus_builder.Prelude.Dict.{Dict, get, put}
use nautilus_builder.Prelude.Dict.Laws.{get-put_self, get-put_other}
use nautilus_builder.Prelude.Dict.Unique.{Unique}
use nautilus_builder.Strategy.Spec.{Floats, IndicatorType, sma, IndicatorSpec, StrategySpec}
use nautilus_builder.Strategy.Validator.{rule_reference_errors, price_fields}
use nautilus_builder.Strategy.Sound.{all_convert, update_prices-HasCounts}
use nautilus_builder.Strategy.Indicators.{trim, IndicatorState, new_state, by_type, update_state}
use nautilus_builder.Strategy.Evaluator.{
  periods_fit, Values, RuleGraphEvaluator, new_states, new_evaluator, set_fields, update_states,
  evaluate_rules, next_values, with_answers, update_price, update_prices,
}
use nautilus_builder.Strategy.Window.{IsLast, append_one-IsLast}

module _ (fl : Floats) (n : String) (price : fl.F) where
  unknown_states :
      (d : Dict String (IndicatorState fl)) (vs : Values fl)
      → get n d ≡ none
      → (get n (update_states fl price d vs).0 ≡ none)
        × (get n (update_states fl price d vs).1 ≡ get n vs)
  unfolding update_states get
  unknown_states [] vs h = (refl, refl)
  unknown_states ((m, st) ∷ d) vs h =
      let next = put m (update_state fl price st).0 vs in
      ground (
        arith,
        unknown_states d next,
        get-put_other m n (update_state fl price st).0 vs,
        string_eq.equal_iff m n,
      )

  known_states :
      (d : Dict String (IndicatorState fl)) (vs : Values fl) (st : IndicatorState fl)
      → Unique d
      → get n d ≡ some st
      → (get n (update_states fl price d vs).0 ≡ some (update_state fl price st).1)
        × (get n (update_states fl price d vs).1 ≡ some (update_state fl price st).0)
  unfolding update_states get
  known_states [] vs st u h = cc
  known_states ((m, s) ∷ d) vs st u h =
      let next = put m (update_state fl price s).0 vs in
      ground (
        arith,
        known_states d next st u.1,
        unknown_states d next,
        get-put_self m (update_state fl price s).0 vs,
        string_eq.equal_iff m n,
      )

module _ (fl : Floats) where
  open fl use {F, of_nat, div, sum}

  by_type_kept :
      (k : IndicatorType) (price : F) (st : IndicatorState fl)
      → ((by_type fl k price st).1.spec ≡ st.spec) × ((by_type fl k price st).1.values ≡ st.values)
  unfolding by_type
  by_type_kept IndicatorType.ema price st = (refl, refl)
  by_type_kept IndicatorType.sma price st = (refl, refl)
  by_type_kept IndicatorType.rsi price st = elim (Option-cases st.previous_price) [
    | inl first ↦ rw (first, by_type) (refl, refl)
    | inr (_, later) ↦ rw (later, by_type) (refl, refl)
  ]
  by_type_kept IndicatorType.macd price st = (refl, refl)
  by_type_kept IndicatorType.atr price st = (refl, refl)
  by_type_kept IndicatorType.bollinger_bands price st = (refl, refl)
  by_type_kept IndicatorType.vwap price st = (refl, refl)

  update_state_kept :
      (price : F) (st : IndicatorState fl)
      → ((update_state fl price st).1.spec ≡ st.spec)
        × ((update_state fl price st).1.values ≡ trim st.spec.period (st.values ++ price ∷ []))
  unfolding update_state
  update_state_kept price st = by_type_kept st.spec.kind price _

  -- `sum(values) / len(values)`
  abbrev pub mean : List F → F
  mean w = div (sum w) (of_nat (length w))

  update_state_sma :
      (price : F) (st : IndicatorState fl)
      → st.spec.kind ≡ sma
      → (update_state fl price st).0 ≡ some (mean (update_state fl price st).1.values)
  unfolding update_state by_type
  update_state_sma price st h = rw (h, by_type) refl

  get-new_states :
      (n : String) (i : IndicatorSpec) (d : Dict String IndicatorSpec)
      → get n d ≡ some i
      → get n (new_states fl d) ≡ some (new_state fl i)
  unfolding new_states get
  get-new_states n i [] h = cc
  get-new_states n i ((m, j) ∷ d) h = ground (arith, get-new_states n i d)

  get-new_states-none :
      (n : String) (d : Dict String IndicatorSpec) → get n d ≡ none → get n (new_states fl d) ≡ none
  unfolding new_states get
  get-new_states-none n [] h = refl
  get-new_states-none n ((m, j) ∷ d) h = ground (arith, get-new_states-none n d)

  new_states-Unique : (d : Dict String IndicatorSpec) → Unique d → Unique (new_states fl d)
  unfolding new_states
  new_states-Unique [] u = tt
  new_states-Unique ((m, j) ∷ d) u = (get-new_states-none m d u.0, new_states-Unique d u.1)

  update_states-Unique :
      (price : F) (d : Dict String (IndicatorState fl)) (vs : Values fl)
      → Unique d
      → Unique (update_states fl price d vs).0
  unfolding update_states
  update_states-Unique price [] vs u = tt
  update_states-Unique price ((m, st) ∷ d) vs u =
      let next = put m (update_state fl price st).0 vs in
      ((unknown_states fl m price d next u.0).0, update_states-Unique price d next u.1)

  update_price_next :
      (price : F) (e next : RuleGraphEvaluator fl)
      → update_price fl price e ≡ some next
      → (next.states ≡ (next_values fl price e).0)
        × (next.current_values ≡ (next_values fl price e).1)
  unfolding update_price
  update_price_next price e next h =
      let answers =
        evaluate_rules fl (next_values fl price e).1 e.current_values e.spec.rules
          e.rule_evaluations in
      elim (Bool-cases (periods_fit fl e.spec.indicators)) [
        | inr large ↦ cc (rw (large, update_price) at h)
        | inl fit ↦ elim (Option-cases answers) [
          | inl failed ↦ cc (rw (failed, update_price) at (rw (fit, update_price) at h))
          | inr (answer, given) ↦
              let same : with_answers fl e (next_values fl price e) answer ≡ next =
                some-injective _ _ (rw (given, update_price) at (rw (fit, update_price) at h)) in
              (ap (λ e. e.states) (sym same), ap (λ e. e.current_values) (sym same))
        ]
      ]

  module _ (n : String) (i : IndicatorSpec) where
    -- The state of the indicator after the prices.
    abbrev Follows : RuleGraphEvaluator fl → List F → Type 0
    Follows e xs =
        Unique e.states
        × ((st : IndicatorState fl) × (get n e.states ≡ some st)
            × (st.spec ≡ i)
            × IsLast i.period st.values xs)

    -- Its value, too.
    abbrev Shows : RuleGraphEvaluator fl → List F → Type 0
    Shows e xs =
        Unique e.states
        × ((st : IndicatorState fl) × (get n e.states ≡ some st)
            × (st.spec ≡ i)
            × IsLast i.period st.values xs
            × (get n e.current_values ≡ some (some (mean st.values))))

    update_price-Shows :
        (price : F) (e next : RuleGraphEvaluator fl) (xs : List F)
        → i.kind ≡ sma
        → Follows e xs
        → update_price fl price e ≡ some next
        → Shows next (xs ++ price ∷ [])
    unfolding next_values
    update_price-Shows price e next xs kind (u, (st, there, same, w)) h =
        let (states, current) = update_price_next price e next h in
        let (spec_kept, values_kept) = update_state_kept price st in
        let vs = set_fields fl (some price) price_fields e.current_values in
        let (s, v) = known_states fl n price e.states vs st u there in
        (
          subst Unique (sym states) (update_states-Unique price e.states vs u),
          (
            (update_state fl price st).1,
            ap (get n) states ∙ s,
            spec_kept ∙ same,
            subst (λ l. IsLast i.period l (xs ++ price ∷ []))
                (ap (λ j. trim j.period (st.values ++ price ∷ [])) (sym same) ∙ sym values_kept)
                (append_one-IsLast i.period price st.values xs w),
            ap (get n) current
                ∙ v
                ∙ ap some (update_state_sma price st (ap (λ j. j.kind) same ∙ kind)),
          ),
        )

    update_prices-Shows :
        (prices : List F) (e last : RuleGraphEvaluator fl) (xs : List F)
        → i.kind ≡ sma
        → Shows e xs
        → update_prices fl prices e ≡ some last
        → Shows last (xs ++ prices)
    unfolding update_prices
    update_prices-Shows [] e last xs kind shows h =
        subst (λ e. Shows e (xs ++ [])) (some-injective _ _ h)
          (subst (Shows e) (sym (append-nil xs)) shows)
    update_prices-Shows (p ∷ ps) e last xs kind (u, (st, there, same, w, value)) h =
        elim (Option-cases (update_price fl p e)) [
          | inl failed ↦ cc (rw (failed, update_prices) at h)
          | inr (next, step) ↦
              let shows = update_price-Shows p e next xs kind (u, (st, there, same, w)) step in
              subst (Shows last) (append_assoc xs (p ∷ []) ps) (
                update_prices-Shows ps next last (xs ++ p ∷ []) kind shows
                  (rw (step, update_prices) at h))
        ]

module _ (fl : Floats) (spec : StrategySpec fl.F) (n : String) (i : IndicatorSpec) where
  -- The indicators have distinct names, and one of them is a moving average; the rules refer to known
  -- names, and no integer of the specification is too large for a float. After any prices but none, the value of that indicator is the mean of the last prices, as
  -- many as its period says, or of all where there are fewer.
  pub moving_average_lem :
      (price : fl.F) (prices : List fl.F)
      → Unique spec.indicators
      → get n spec.indicators ≡ some i
      → i.kind ≡ sma
      → rule_reference_errors spec ≡ []
      → all_convert fl spec ≡ true
      → (last : RuleGraphEvaluator fl) × (w : List fl.F) × (update_prices fl
            (price ∷ prices)
            (new_evaluator fl spec)
          ≡ some last)
        × IsLast i.period w (price ∷ prices)
        × (get n last.current_values ≡ some (some (mean fl w)))
  unfolding update_prices new_evaluator
  moving_average_lem price prices u there kind rules g =
      let (last, run, _) =
        update_prices-HasCounts fl spec (price ∷ prices) (new_evaluator fl spec) 0 rules g
          (refl, refl, omega arith) in
      elim (Option-cases (update_price fl price (new_evaluator fl spec))) [
        | inl failed ↦ cc (rw (failed, update_prices) at run)
        | inr (next, step) ↦
            let shows =
              update_price-Shows fl n i price (new_evaluator fl spec) next [] kind
                (
                  new_states-Unique fl spec.indicators u,
                  (
                    new_state fl i,
                    get-new_states fl n i spec.indicators there,
                    refl,
                    ([], refl, omega arith, inl refl),
                  ),
                )
                step in
            let (_, (st, _, _, w, value)) =
              update_prices-Shows fl n i prices next last (price ∷ []) kind shows
                (rw (step, update_prices) at run) in
            (last, st.values, run, w, value)
      ]
